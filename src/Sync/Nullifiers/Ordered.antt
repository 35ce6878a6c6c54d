-- ===== src/Sync/Nullifiers/Ordered.antt =====
-- The transactions of an account in a block, in any order (`compute_ordered_nullifiers` of
-- crates/rust-client/src/sync/state_sync.rs).
use miden_client.Base.{
  suc, ◌≡◌, refl, sym, ap, ◌∙◌, ◌⊎◌, inl, inr, true, false, some, List, [], ◌∷◌, arith, Bool-cases,
}
use mathlib.Core.List.Memᴰ
use mathlib.Core.List.{Memᴰ}
use miden_client.Protocol.{Protocol}
use miden_client.BTreeMap.{remove, len}
use miden_client.BTreeMap.Sorted.{OrdLaws}
use miden_client.Transaction.Updates.{contains}
use miden_client.Sync.Headers.{HeaderApi, RpcTransactionRecord, by_state}
use miden_client.Sync.Nullifiers.{
  initial_state, final_state, final_states, by_initial_state, chain_start, ordered,
}
use miden_client.Sync.Nullifiers.Walk.{len-remove}
use miden_client.Sync.Nullifiers.Chain.{IsChain, before, nullifiers, walk-chain, remove-Holds}
use miden_client.Sync.Nullifiers.Starts.{Same, by_initial_state-Holds}

module _ {A : Type 0} (dec : Discrete A) where
  contains-Memᴰ : (a : A) (xs : List A) → contains dec a xs ≡ true → Memᴰ a xs
  contains-Memᴰ a [] h = absurd (cc)
  contains-Memᴰ a (x ∷ xs) h = elim (dec x a) [
    | yes e ↦ Memᴰ.head (sym e)
    | no ne ↦ Memᴰ.tail (contains-Memᴰ a xs (ground (arith, h)))
  ]

  Memᴰ-contains : (a : A) (xs : List A) → Memᴰ a xs → contains dec a xs ≡ true
  Memᴰ-contains a [] x = elim x [ ]
  Memᴰ-contains a (y ∷ xs) x = elim (Memᴰ.cases_cons x) [
    | inl here ↦ ground (arith, here)
    | inr later ↦ ground (arith, Memᴰ-contains a xs later)
  ]

module _ {P : Protocol} (H : HeaderApi P) where
  final_states_mem :
      (u : RpcTransactionRecord H) (txs : List (RpcTransactionRecord H))
      → Memᴰ u txs
      → Memᴰ (final_state u) (final_states txs)
  final_states_mem u [] x = elim x [ ]
  final_states_mem u (t ∷ txs) x = elim (Memᴰ.cases_cons x) [
    | inl here ↦ Memᴰ.head (ap final_state here)
    | inr later ↦ Memᴰ.tail (final_states_mem u txs later)
  ]

  mem_final_states :
      (s : P.Word) (txs : List (RpcTransactionRecord H))
      → Memᴰ s (final_states txs)
      → (u : RpcTransactionRecord H) × Memᴰ u txs × (final_state u ≡ s)
  mem_final_states s [] x = elim x [ ]
  mem_final_states s (t ∷ txs) x = elim (Memᴰ.cases_cons x) [
    | inl here ↦ (t, Memᴰ.head refl, sym here)
    | inr later ↦ let (u, y, e) = mem_final_states s txs later in (u, Memᴰ.tail y, e)
  ]

  chain_start-cases :
      (states : List P.Word) (txs : List (RpcTransactionRecord H))
      → ((t : RpcTransactionRecord H)
          → Memᴰ t txs
          → contains P.word_eq (initial_state t) states ≡ true)
        ⊎ ((t : RpcTransactionRecord H) × (chain_start states txs ≡ some t)
            × Memᴰ t txs
            × (contains P.word_eq (initial_state t) states ≡ false))
  unfolding chain_start
  chain_start-cases states [] = inl (λ t x. elim x [ ])
  chain_start-cases states (tx ∷ txs) =
      elim (Bool-cases (contains P.word_eq (initial_state tx) states)) [
        | inr out ↦ inr (tx, rw out refl, Memᴰ.head refl, out)
        | inl follows ↦ elim (chain_start-cases states txs) [
          | inl all ↦ inl (λ t x. elim (Memᴰ.cases_cons x) [
            | inl here ↦ rw here follows
            | inr later ↦ all t later
          ])
          | inr (t, e, x, out) ↦ inr (t, rw follows e, Memᴰ.tail x, out)
        ]
      ]

  -- The start of a chain is found in any order.
  chain_start-chain :
      (t : RpcTransactionRecord H) (chain txs : List (RpcTransactionRecord H))
      → IsChain H (t ∷ chain)
      → Same H txs (t ∷ chain)
      → chain_start (final_states txs) txs ≡ some t
  chain_start-chain t chain txs c same = elim (chain_start-cases (final_states txs) txs) [
    | inl all ↦
        let found =
          contains-Memᴰ P.word_eq (initial_state t) (final_states txs)
            (all t (same.1 t (Memᴰ.head refl))) in
        let (u, x, e) = mem_final_states (initial_state t) txs found in
        absurd (c.1.0 u (same.0 u x) e)
    | inr (u, e, x, out) ↦ elim (Memᴰ.cases_cons (same.0 u x)) [
      | inl here ↦ e ∙ ap some here
      | inr later ↦
          let (w, y, e') = before H t u chain c.0 later in
          let found =
            Memᴰ-contains P.word_eq (final_state w) (final_states txs)
              (final_states_mem w txs (same.1 w y)) in
          absurd (ground (arith, out, found, e'))
    ]
  ]

  none_left : (txs : List (RpcTransactionRecord H)) → Same H txs [] → txs ≡ []
  none_left [] same = refl
  none_left (t ∷ txs) same = elim (same.0 t (Memᴰ.head refl)) [ ]

  -- Transactions that form a chain give its nullifiers in order.
  pub ordered-chain :
      (laws : OrdLaws (by_state H)) (chain txs : List (RpcTransactionRecord H))
      → IsChain H chain
      → Same H txs chain
      → ordered txs ≡ nullifiers H chain
  unfolding ordered chain_start
  ordered-chain laws [] txs c same = rw (none_left txs same) refl
  ordered-chain laws (t ∷ chain) txs c same =
      let m = by_initial_state txs [] in
      let holds = by_initial_state-Holds H laws txs (t ∷ chain) c same in
      let start = holds.all t (Memᴰ.head refl) in
      rw (ordered, chain_start-chain t chain txs c same)
        (rw start (
          walk-chain H laws (suc (len m)) t chain (remove (by_state H) (initial_state t) m) c
            (remove-Holds H laws t chain m c holds)
            (omega (arith, len-remove (by_state H) (initial_state t) t m start))))
