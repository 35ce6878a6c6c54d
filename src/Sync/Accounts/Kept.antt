-- ===== src/Sync/Accounts/Kept.antt =====
-- What the map of the latest transactions keeps (`derive_account_commitment_updates` of
-- crates/rust-client/src/sync/state_sync.rs).
use miden_client.Base.{
  ◌≤◌, ◌≡◌, refl, sym, ap, ◌∙◌, ◌⊎◌, inl, inr, Option, none, some, List, [], ◌∷◌, arith, ltb,
  Bool-cases,
}
use mathlib.Core.List.Memᴰ
use mathlib.Core.List.{Memᴰ}
use miden_client.Protocol.{Protocol}
use miden_client.BTreeMap.{BTreeMap, get, insert}
use miden_client.BTreeMap.Laws.{get-insert, get-insert_self}
use miden_client.Sync.Headers.{HeaderApi, RpcTransactionRecord, by_account}
use miden_client.Sync.Accounts.{later, latest_by_account}

module _ {P : Protocol} (H : HeaderApi P) where
  abbrev pub account_of : RpcTransactionRecord H → P.AccountId
  account_of tx = H.account_id tx.transaction_header

  later-new :
      (o : Option (RpcTransactionRecord H)) (tx : RpcTransactionRecord H)
      → tx.block_num ≤ (later o tx).block_num
  later-new none tx = ground arith
  later-new (some t) tx = ground arith

  later-old : (t tx : RpcTransactionRecord H) → t.block_num ≤ (later (some t) tx).block_num
  later-old t tx = ground arith

  later-cases :
      (o : Option (RpcTransactionRecord H)) (tx : RpcTransactionRecord H)
      → (later o tx ≡ tx) ⊎ (o ≡ some (later o tx))
  later-cases none tx = inl refl
  later-cases (some t) tx = elim (Bool-cases (ltb t.block_num tx.block_num)) [
    | inl newer ↦ inl (rw newer refl)
    | inr older ↦ inr (rw older refl)
  ]

  -- The map has a record that is no older than any of the account.
  unfoldable pub AtLeast :
      P.AccountId → RpcTransactionRecord H → BTreeMap P.AccountId (RpcTransactionRecord H) → Type 0
  AtLeast a u m =
      (r : RpcTransactionRecord H) × (get (by_account H) a m ≡ some r) × (u.block_num ≤ r.block_num)

  latest_kept :
      (txs : List (RpcTransactionRecord H)) (m : BTreeMap P.AccountId (RpcTransactionRecord H))
      (a : P.AccountId) (u : RpcTransactionRecord H)
      → AtLeast a u m
      → AtLeast a u (latest_by_account txs m)
  unfolding latest_by_account AtLeast
  latest_kept [] m a u h = h
  latest_kept (tx ∷ txs) m a u (r, e, le) =
      let new = later (get (by_account H) (account_of tx) m) tx in
      let at = get-insert (by_account H) a (account_of tx) new m in
      latest_kept txs (insert (by_account H) (account_of tx) new m) a u
        (elim (P.account_id_eq a (account_of tx)) [
          | yes same ↦ (
            new,
            ground (arith, at, same),
            ground (arith, le, later-old r tx, sym e ∙ ap (λ k. get (by_account H) k m) same),
          )
          | no other ↦ (r, ground (arith, at, e), le)
        ])

  pub latest_new :
      (txs : List (RpcTransactionRecord H)) (m : BTreeMap P.AccountId (RpcTransactionRecord H))
      (u : RpcTransactionRecord H)
      → Memᴰ u txs
      → AtLeast (account_of u) u (latest_by_account txs m)
  unfolding latest_by_account AtLeast
  latest_new [] m u x = elim x [ ]
  latest_new (tx ∷ txs) m u x =
      let new = later (get (by_account H) (account_of tx) m) tx in
      let m' = insert (by_account H) (account_of tx) new m in
      elim (Memᴰ.cases_cons x) [
        | inl here ↦ latest_kept txs m' (account_of u) u (
          new,
          ap (λ k. get (by_account H) k m') (ap account_of here)
              ∙ get-insert_self (by_account H) (account_of tx) new m,
          ground (
            arith,
            ap (λ t. t.block_num) here,
            later-new (get (by_account H) (account_of tx) m) tx,
          ),
        )
        | inr rest ↦ latest_new txs m' u rest
      ]

  pub latest_only :
      (txs : List (RpcTransactionRecord H)) (m : BTreeMap P.AccountId (RpcTransactionRecord H))
      (a : P.AccountId) (r : RpcTransactionRecord H)
      → get (by_account H) a (latest_by_account txs m) ≡ some r
      → (Memᴰ r txs × (account_of r ≡ a)) ⊎ (get (by_account H) a m ≡ some r)
  unfolding latest_by_account
  latest_only [] m a r e = inr e
  latest_only (tx ∷ txs) m a r e =
      let new = later (get (by_account H) (account_of tx) m) tx in
      elim (latest_only txs (insert (by_account H) (account_of tx) new m) a r e) [
        | inl (x, same) ↦ inl (Memᴰ.tail x, same)
        | inr old ↦
            let at = get-insert (by_account H) a (account_of tx) new m in
            elim (P.account_id_eq a (account_of tx)) [
              | no other ↦ inr (ground (arith, at, old))
              | yes same ↦ elim (later-cases (get (by_account H) (account_of tx) m) tx) [
                | inl fresh ↦
                    let r_tx : r ≡ tx = ground (arith, at, same, old, fresh) in
                    inl (Memᴰ.head r_tx, ap account_of r_tx ∙ sym same)
                | inr kept ↦
                    inr
                      (ap (λ k. get (by_account H) k m) same ∙ kept ∙ ground (arith, at, same, old))
              ]
            ]
      ]
