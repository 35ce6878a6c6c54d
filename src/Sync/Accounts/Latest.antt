-- ===== src/Sync/Accounts/Latest.antt =====
-- The commitments of the accounts after a synchronisation (`derive_account_commitment_updates` of
-- crates/rust-client/src/sync/state_sync.rs).
use miden_client.Base.{◌≤◌, ◌≡◌, refl, ap, inl, inr, some, List, [], ◌∷◌, arith}
use mathlib.Core.List.{Memᴰ}
use miden_client.Protocol.{Protocol}
use miden_client.BTreeMap.{BTreeMap, get, insert}
use miden_client.BTreeMap.Sorted.{OrdLaws, Below, IsSorted, get-Below, insert-IsSorted}
use miden_client.Sync.Headers.{HeaderApi, RpcTransactionRecord, by_account}
use miden_client.Sync.Accounts.{
  later, latest_by_account, final_commitments, derive_account_commitment_updates,
}
use miden_client.Sync.Accounts.Kept.{account_of, AtLeast, latest_new, latest_only}

module _ {P : Protocol} (H : HeaderApi P) where
  latest_by_account-IsSorted :
      OrdLaws (by_account H)
      → (txs : List (RpcTransactionRecord H)) (m : BTreeMap P.AccountId (RpcTransactionRecord H))
      → IsSorted (by_account H) m
      → IsSorted (by_account H) (latest_by_account txs m)
  unfolding latest_by_account
  latest_by_account-IsSorted laws [] m s = s
  latest_by_account-IsSorted laws (tx ∷ txs) m s =
      let new = later (get (by_account H) (account_of H tx) m) tx in
      latest_by_account-IsSorted laws txs (insert (by_account H) (account_of H tx) new m)
        (insert-IsSorted (by_account H) laws (account_of H tx) new m s)

  final_commitments-Below :
      (a : P.AccountId) (m : BTreeMap P.AccountId (RpcTransactionRecord H))
      → Below (by_account H) a m
      → Below (by_account H) a (final_commitments m)
  final_commitments-Below a [] b = tt
  final_commitments-Below a ((k, t) ∷ m) b = (b.0, final_commitments-Below a m b.1)

  final_commitments-IsSorted :
      (m : BTreeMap P.AccountId (RpcTransactionRecord H))
      → IsSorted (by_account H) m
      → IsSorted (by_account H) (final_commitments m)
  final_commitments-IsSorted [] s = tt
  final_commitments-IsSorted ((k, t) ∷ m) s =
      (final_commitments-Below k m s.0, final_commitments-IsSorted m s.1)

  final_commitments_mem :
      (a : P.AccountId) (r : RpcTransactionRecord H)
      (m : BTreeMap P.AccountId (RpcTransactionRecord H))
      → get (by_account H) a m ≡ some r
      → Memᴰ (a, H.final_state_commitment r.transaction_header) (final_commitments m)
  unfolding get
  final_commitments_mem a r [] e = absurd (cc)
  final_commitments_mem a r ((k, t) ∷ m) e = elim (P.account_id_eq a k) [
    | yes same ↦ let first : t ≡ r = ground (arith, same, e) in Memᴰ.head (rw (same, first) refl)
    | no other ↦ Memᴰ.tail (final_commitments_mem a r m (ground (arith, other, e)))
  ]

  -- A transaction of the account in the highest block that the account has transactions in.
  abbrev pub IsLatest :
      List (RpcTransactionRecord H) → P.AccountId → RpcTransactionRecord H → Type 0
  IsLatest records a r =
      Memᴰ r records
      × (account_of H r ≡ a)
      × ((u : RpcTransactionRecord H)
          → Memᴰ u records
          → account_of H u ≡ a
          → u.block_num ≤ r.block_num)

  -- Every pair is an account with the final commitment of a latest transaction of it.
  abbrev pub AllLatest : List (RpcTransactionRecord H) → List (P.AccountId × P.Word) → Type 0
  AllLatest records [] = Unit
  AllLatest records ((a, commitment) ∷ updates) =
      ((r : RpcTransactionRecord H) × IsLatest records a r
        × (H.final_state_commitment r.transaction_header ≡ commitment))
      × AllLatest records updates

  -- Every one of these transactions has its account among the pairs.
  abbrev pub AllCovered : List (RpcTransactionRecord H) → List (P.AccountId × P.Word) → Type 0
  AllCovered [] updates = Unit
  AllCovered (t ∷ ts) updates =
      ((commitment : P.Word) × Memᴰ (account_of H t, commitment) updates) × AllCovered ts updates

  module _ (records : List (RpcTransactionRecord H)) where
    abbrev latest : BTreeMap P.AccountId (RpcTransactionRecord H)
    latest = latest_by_account records []

    latest-IsLatest :
        (a : P.AccountId) (r : RpcTransactionRecord H)
        → get (by_account H) a latest ≡ some r
        → IsLatest records a r
    unfolding AtLeast get
    latest-IsLatest a r e = elim (latest_only H records [] a r e) [
      | inr absent ↦ absurd (cc)
      | inl (y, same) ↦ (
        y,
        same,
        λ u z at.
            let (r', e', le') = latest_new H records [] u z in
            ground (arith, le', e, e', ap (λ k. get (by_account H) k latest) at),
      )
    ]

    final_commitments-AllLatest :
        OrdLaws (by_account H)
        → (m : BTreeMap P.AccountId (RpcTransactionRecord H)) → IsSorted (by_account H) m
        → ((a : P.AccountId) (r : RpcTransactionRecord H)
            → get (by_account H) a m ≡ some r
            → IsLatest records a r)
        → AllLatest records (final_commitments m)
    unfolding get
    final_commitments-AllLatest laws [] s h = tt
    final_commitments-AllLatest laws ((k, t) ∷ m) s h = (
      (t, h k t (ground arith), refl),
      final_commitments-AllLatest laws m s.1 (λ a r e. h a r (elim (P.account_id_eq a k) [
        | yes same ↦ absurd (
            ground (
              arith,
              same,
              e,
              get-Below (by_account H) laws k m s.0,
              ap (λ i. get (by_account H) i m) same,
            ))
        | no other ↦ ground (arith, other, e)
      ])),
    )

    covered :
        (ts : List (RpcTransactionRecord H))
        → ((t : RpcTransactionRecord H) → Memᴰ t ts → Memᴰ t records)
        → AllCovered ts (final_commitments latest)
    unfolding AtLeast
    covered [] h = tt
    covered (t ∷ ts) h =
        let (r, e, le) = latest_new H records [] t (h t (Memᴰ.head refl)) in
        (
          (
            H.final_state_commitment r.transaction_header,
            final_commitments_mem (account_of H t) r latest e,
          ),
          covered ts (λ u x. h u (Memᴰ.tail x)),
        )

  -- If the accounts are in a total order, then the updates have every account of the transactions,
  -- in that order and each once, and no other account, and the commitment of each is the final one
  -- of a transaction of the account in the highest block that it has transactions in.
  pub derive_account_commitment_updates_lem :
      OrdLaws (by_account H)
      → (records : List (RpcTransactionRecord H))
      → IsSorted (by_account H) (derive_account_commitment_updates records)
        × AllLatest records (derive_account_commitment_updates records)
        × AllCovered records (derive_account_commitment_updates records)
  unfolding derive_account_commitment_updates
  derive_account_commitment_updates_lem laws records =
      let s = latest_by_account-IsSorted laws records [] tt in
      (
        final_commitments-IsSorted (latest records) s,
        final_commitments-AllLatest records laws (latest records) s (latest-IsLatest records),
        covered records records (λ t x. x),
      )
