-- ===== src/Sync/Nullifiers/Starts.antt =====
-- The transactions of an account in a block by their starts (`compute_ordered_nullifiers` of
-- crates/rust-client/src/sync/state_sync.rs).
use miden_client.Base.{
  ◌≡◌, sym, ap, ◌∙◌, ◌≢◌, ◌⊎◌, inl, inr, none, some, List, [], ◌∷◌, arith, Option-cases,
}
use mathlib.Core.List.Memᴰ
use mathlib.Core.List.{Memᴰ}
use miden_client.Protocol.{Protocol}
use miden_client.BTreeMap.{BTreeMap, get, insert}
use miden_client.BTreeMap.Laws.{get-insert, get-insert_self}
use miden_client.BTreeMap.Sorted.{OrdLaws, IsSorted, insert-IsSorted}
use miden_client.Sync.Headers.{HeaderApi, RpcTransactionRecord, by_state}
use miden_client.Sync.Nullifiers.{initial_state, by_initial_state}
use miden_client.Sync.Nullifiers.Chain.{IsChain, Holds, one_start}

module _ {P : Protocol} (H : HeaderApi P) where
  by_initial_state_only :
      (txs : List (RpcTransactionRecord H)) (m : BTreeMap P.Word (RpcTransactionRecord H))
      (k : P.Word) (t : RpcTransactionRecord H)
      → get (by_state H) k (by_initial_state txs m) ≡ some t
      → (Memᴰ t txs × (initial_state t ≡ k)) ⊎ (get (by_state H) k m ≡ some t)
  unfolding by_initial_state
  by_initial_state_only [] m k t e = inr e
  by_initial_state_only (tx ∷ txs) m k t e =
      elim (by_initial_state_only txs (insert (by_state H) (initial_state tx) tx m) k t e) [
        | inl (x, same) ↦ inl (Memᴰ.tail x, same)
        | inr new ↦ elim (P.word_eq k (initial_state tx)) [
          | yes at ↦
              let first : tx ≡ t =
                ground (arith, at, new, get-insert_self (by_state H) (initial_state tx) tx m) in
              inl (Memᴰ.head (sym first), ap initial_state (sym first) ∙ sym at)
          | no ne ↦ inr (ground (arith, new, get-insert (by_state H) k (initial_state tx) tx m))
        ]
      ]

  by_initial_state_kept :
      (txs : List (RpcTransactionRecord H)) (m : BTreeMap P.Word (RpcTransactionRecord H))
      (k : P.Word)
      → get (by_state H) k m ≢ none
      → get (by_state H) k (by_initial_state txs m) ≢ none
  unfolding by_initial_state
  by_initial_state_kept [] m k h = h
  by_initial_state_kept (tx ∷ txs) m k h =
      by_initial_state_kept txs (insert (by_state H) (initial_state tx) tx m) k
        (ground (arith, h, get-insert (by_state H) k (initial_state tx) tx m))

  by_initial_state_all :
      (txs : List (RpcTransactionRecord H)) (m : BTreeMap P.Word (RpcTransactionRecord H))
      (t : RpcTransactionRecord H)
      → Memᴰ t txs
      → get (by_state H) (initial_state t) (by_initial_state txs m) ≢ none
  unfolding by_initial_state
  by_initial_state_all [] m t x = elim x [ ]
  by_initial_state_all (tx ∷ txs) m t x = elim (Memᴰ.cases_cons x) [
    | inl first ↦
        by_initial_state_kept txs (insert (by_state H) (initial_state tx) tx m) (initial_state t) (
          ground
            (arith, ap initial_state first, get-insert_self (by_state H) (initial_state tx) tx m))
    | inr later ↦ by_initial_state_all txs (insert (by_state H) (initial_state tx) tx m) t later
  ]

  by_initial_state-IsSorted :
      (laws : OrdLaws (by_state H)) (txs : List (RpcTransactionRecord H))
      (m : BTreeMap P.Word (RpcTransactionRecord H))
      → IsSorted (by_state H) m
      → IsSorted (by_state H) (by_initial_state txs m)
  unfolding by_initial_state
  by_initial_state-IsSorted laws [] m s = s
  by_initial_state-IsSorted laws (tx ∷ txs) m s =
      by_initial_state-IsSorted laws txs (insert (by_state H) (initial_state tx) tx m)
        (insert-IsSorted (by_state H) laws (initial_state tx) tx m s)

  -- Two lists with the same transactions
  abbrev pub Same : List (RpcTransactionRecord H) → List (RpcTransactionRecord H) → Type 0
  Same txs chain =
      ((t : RpcTransactionRecord H) → Memᴰ t txs → Memᴰ t chain)
      × ((t : RpcTransactionRecord H) → Memᴰ t chain → Memᴰ t txs)

  pub by_initial_state-Holds :
      (laws : OrdLaws (by_state H)) (txs chain : List (RpcTransactionRecord H))
      → IsChain H chain
      → Same txs chain
      → Holds H (by_initial_state txs []) chain
  unfolding get
  by_initial_state-Holds laws txs chain c same = record {
    sorted = by_initial_state-IsSorted laws txs [] tt;
    only = λ k t e. elim (by_initial_state_only txs [] k t e) [
      | inl (x, at) ↦ (same.0 t x, at)
      | inr absent ↦ absurd (cc)
    ];
    all = λ t x.
        elim (Option-cases (get (by_state H) (initial_state t) (by_initial_state txs []))) [
          | inl absent ↦ absurd (by_initial_state_all txs [] t (same.1 t x) absent)
          | inr (u, e) ↦ elim (by_initial_state_only txs [] (initial_state t) u e) [
            | inl (y, at) ↦ e ∙ ap some (one_start H chain u t c (same.0 u y) x at)
            | inr absent ↦ absurd (cc)
          ]
        ];
  }
