-- ===== src/Sync/Nullifiers/Groups.antt =====
-- The transactions of a synchronisation by account and block (`compute_ordered_nullifiers` of
-- crates/rust-client/src/sync/state_sync.rs).
use miden_client.Base.{
  ℕ, ◌≡◌, refl, sym, ap, ◌∙◌, ◌≢◌, ite, none, some, List, [], ◌∷◌, ◌++◌, append_assoc, arith,
}
use mathlib.Core.List.{append-nil}
use miden_client.Protocol.{Protocol}
use miden_client.BTreeMap.{BTreeMap, get, insert}
use miden_client.BTreeMap.Laws.{get-insert}
use miden_client.BTreeMap.Sorted.{OrdLaws, IsSorted, insert-IsSorted, get-Below}
use miden_client.Store.Forest.{or_nil}
use miden_client.Sync.Headers.{
  HeaderApi, RpcTransactionRecord, by_state, by_account, by_account_block,
}
use miden_client.Sync.Nullifiers.{
  group_key, group, ordered, ordered_groups, compute_ordered_nullifiers,
}
use miden_client.Sync.Nullifiers.Chain.{IsChain, nullifiers}
use miden_client.Sync.Nullifiers.Starts.{Same}
use miden_client.Sync.Nullifiers.Ordered.{ordered-chain}

module _ {P : Protocol} (H : HeaderApi P) where
  -- An account and a block
  abbrev pub Key : Type 0
  Key = P.AccountId × ℕ

  by_account_block_laws : OrdLaws (by_account H) → OrdLaws (by_account_block H)
  by_account_block_laws laws = record {
    irrefl = λ x. ground (arith, laws.irrefl x.0);
    trans = λ x y z h h'. ground (arith, laws.trans x.0 y.0 z.0, laws.irrefl x.0);
    total = λ x y ne h. elim (P.account_id_eq x.0 y.0) [
      | yes same ↦ let differ : x.1 ≢ y.1 = λ e. ne (cc) in ground (arith, h)
      | no other ↦ ground (arith, h, laws.total x.0 y.0 other)
    ];
  }

  -- The transactions of an account in a block
  abbrev pub transactions_at : Key → List (RpcTransactionRecord H) → List (RpcTransactionRecord H)
  transactions_at k [] = []
  transactions_at k (tx ∷ txs) =
      ite ((by_account_block H).eq k (group_key tx)) (tx ∷ transactions_at k txs)
        (transactions_at k txs)

  group_lem :
      (txs : List (RpcTransactionRecord H)) (m : BTreeMap Key (List (RpcTransactionRecord H)))
      (k : Key)
      → or_nil (get (by_account_block H) k (group txs m))
        ≡ or_nil (get (by_account_block H) k m) ++ transactions_at k txs
  unfolding group
  group_lem [] m k = sym (append-nil (or_nil (get (by_account_block H) k m)))
  group_lem (tx ∷ txs) m k =
      group_lem txs
        (insert (by_account_block H) (group_key tx)
          (or_nil (get (by_account_block H) (group_key tx) m) ++ tx ∷ []) m)
        k
      ∙ ground (
        arith,
        get-insert (by_account_block H) k (group_key tx)
            (or_nil (get (by_account_block H) (group_key tx) m) ++ tx ∷ []) m,
        append_assoc (or_nil (get (by_account_block H) (group_key tx) m)) (tx ∷ [])
            (transactions_at k txs),
      )

  group-IsSorted :
      (laws : OrdLaws (by_account_block H)) (txs : List (RpcTransactionRecord H))
      (m : BTreeMap Key (List (RpcTransactionRecord H)))
      → IsSorted (by_account_block H) m
      → IsSorted (by_account_block H) (group txs m)
  unfolding group
  group-IsSorted laws [] m s = s
  group-IsSorted laws (tx ∷ txs) m s =
      group-IsSorted laws txs _ (insert-IsSorted (by_account_block H) laws (group_key tx) _ m s)

  abbrev pub keys : BTreeMap Key (List (RpcTransactionRecord H)) → List Key
  keys [] = []
  keys ((k, _) ∷ m) = k ∷ keys m

  abbrev pub in_order : (Key → List (RpcTransactionRecord H)) → List Key → List P.Nullifier
  in_order chain [] = []
  in_order chain (k ∷ ks) = nullifiers H (chain k) ++ in_order chain ks

  get-head :
      (k : Key) (txs : List (RpcTransactionRecord H))
      (m : BTreeMap Key (List (RpcTransactionRecord H)))
      → get (by_account_block H) k ((k, txs) ∷ m) ≡ some txs
  unfolding get
  get-head k txs m = ground arith

  get-tail :
      (k : Key) (txs : List (RpcTransactionRecord H))
      (m : BTreeMap Key (List (RpcTransactionRecord H))) (j : Key)
      (txs' : List (RpcTransactionRecord H))
      → get (by_account_block H) k m ≡ none
      → get (by_account_block H) j m ≡ some txs'
      → get (by_account_block H) j ((k, txs) ∷ m) ≡ some txs'
  unfolding get
  get-tail k txs m j txs' absent e = ground arith

  ordered_groups_lem :
      (laws : OrdLaws (by_account_block H)) (chain : Key → List (RpcTransactionRecord H))
      (m : BTreeMap Key (List (RpcTransactionRecord H)))
      → IsSorted (by_account_block H) m
      → ((k : Key) (txs : List (RpcTransactionRecord H))
          → get (by_account_block H) k m ≡ some txs
          → ordered txs ≡ nullifiers H (chain k))
      → ordered_groups m ≡ in_order chain (keys m)
  unfolding get
  ordered_groups_lem laws chain [] s h = refl
  ordered_groups_lem laws chain ((k, txs) ∷ m) s h =
      rw
        (
          h k txs (get-head k txs m),
          ordered_groups_lem laws chain m s.1 (λ j txs' e.
              h j txs' (get-tail k txs m j txs' (get-Below (by_account_block H) laws k m s.0) e)),
        )
        refl

  groups_lem :
      (records : List (RpcTransactionRecord H)) (k : Key)
      → or_nil (get (by_account_block H) k (group records [])) ≡ transactions_at k records
  unfolding get
  groups_lem records k = group_lem records [] k

  -- If the transactions of each account in each block form a chain, from one state of the account to
  -- the next without return, then in whatever order the node reports them the nullifiers come
  -- chain by chain, each in the order of the chain. The chains come in the order of the accounts,
  -- those of an account by block, and the groups hold every transaction.
  pub compute_ordered_nullifiers_lem :
      (words : OrdLaws (by_state H)) (accounts : OrdLaws (by_account H))
      (records : List (RpcTransactionRecord H)) (chain : Key → List (RpcTransactionRecord H))
      → ((k : Key) → IsChain H (chain k))
      → ((k : Key) → Same H (transactions_at k records) (chain k))
      → (compute_ordered_nullifiers records ≡ in_order chain (keys (group records [])))
        × IsSorted (by_account_block H) (group records [])
        × ((k : Key)
            → or_nil (get (by_account_block H) k (group records [])) ≡ transactions_at k records)
  unfolding compute_ordered_nullifiers
  compute_ordered_nullifiers_lem words accounts records chain c same =
      let laws = by_account_block_laws accounts in
      let sorted = group-IsSorted laws records [] tt in
      (
        ordered_groups_lem laws chain (group records []) sorted (λ k txs e.
            let found : txs ≡ transactions_at k records =
              ap or_nil (sym e) ∙ groups_lem records k in
            rw found (ordered-chain H words (chain k) (transactions_at k records) (c k) (same k))),
        sorted,
        groups_lem records,
      )
