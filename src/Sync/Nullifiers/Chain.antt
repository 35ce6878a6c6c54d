-- ===== src/Sync/Nullifiers/Chain.antt =====
-- Transactions of an account that follow one another (`compute_ordered_nullifiers` of
-- crates/rust-client/src/sync/state_sync.rs).
use miden_client.Base.{
  ℕ, zero, suc, ◌<◌, ◌≡◌, refl, sym, ap, ◌∙◌, ◌≢◌, inl, inr, none, some, List, [], ◌∷◌, ◌++◌, arith,
  Option-cases,
}
use mathlib.Core.List.Memᴰ
use mathlib.Core.List.{Memᴰ}
use miden_client.Protocol.{Protocol}
use miden_client.BTreeMap.{BTreeMap, get, remove, len}
use miden_client.BTreeMap.Sorted.{OrdLaws, IsSorted, get-remove, remove-IsSorted}
use miden_client.Sync.Headers.{HeaderApi, RpcTransactionRecord, by_state}
use miden_client.Sync.Nullifiers.{initial_state, final_state, walk}
use miden_client.Sync.Nullifiers.Walk.{walk-none, len-remove}

module _ {P : Protocol} (H : HeaderApi P) where
  -- Each transaction starts where the one before ends.
  abbrev pub Follows : List (RpcTransactionRecord H) → Type 0
  Follows [] = Unit
  Follows (t ∷ []) = Unit
  Follows (t ∷ u ∷ txs) = (final_state t ≡ initial_state u) × Follows (u ∷ txs)

  -- None ends where it or one before it starts.
  abbrev pub NoReturn : List (RpcTransactionRecord H) → Type 0
  NoReturn [] = Unit
  NoReturn (t ∷ txs) =
      ((u : RpcTransactionRecord H) → Memᴰ u (t ∷ txs) → final_state u ≢ initial_state t)
      × NoReturn txs

  abbrev pub IsChain : List (RpcTransactionRecord H) → Type 0
  IsChain txs = Follows txs × NoReturn txs

  pub IsChain-tail :
      (t : RpcTransactionRecord H) (txs : List (RpcTransactionRecord H))
      → IsChain (t ∷ txs)
      → IsChain txs
  IsChain-tail t [] c = (tt, tt)
  IsChain-tail t (u ∷ txs) c = (c.0.1, c.1.1)

  -- The one before
  pub before :
      (t u : RpcTransactionRecord H) (txs : List (RpcTransactionRecord H))
      → Follows (t ∷ txs)
      → Memᴰ u txs
      → (w : RpcTransactionRecord H) × Memᴰ w (t ∷ txs) × (final_state w ≡ initial_state u)
  before t u [] c x = elim x [ ]
  before t u (v ∷ txs) c x = elim (Memᴰ.cases_cons x) [
    | inl here ↦ (t, Memᴰ.head refl, c.0 ∙ ap initial_state (sym here))
    | inr later ↦ let (w, at, e) = before v u txs c.1 later in (w, Memᴰ.tail at, e)
  ]

  pub starts_differ :
      (t u : RpcTransactionRecord H) (txs : List (RpcTransactionRecord H))
      → IsChain (t ∷ txs)
      → Memᴰ u txs
      → initial_state u ≢ initial_state t
  starts_differ t u txs c x e = let (w, at, e') = before t u txs c.0 x in c.1.0 w at (e' ∙ e)

  -- A chain has one transaction for each start.
  pub one_start :
      (txs : List (RpcTransactionRecord H)) (u v : RpcTransactionRecord H)
      → IsChain txs
      → Memᴰ u txs
      → Memᴰ v txs
      → initial_state u ≡ initial_state v
      → u ≡ v
  one_start [] u v c x y e = elim x [ ]
  one_start (t ∷ txs) u v c x y e = elim (Memᴰ.cases_cons x) [
    | inl first ↦ elim (Memᴰ.cases_cons y) [
      | inl second ↦ first ∙ sym second
      | inr later ↦ absurd (starts_differ t v txs c later (sym e ∙ ap initial_state first))
    ]
    | inr later ↦ elim (Memᴰ.cases_cons y) [
      | inl second ↦ absurd (starts_differ t u txs c later (e ∙ ap initial_state second))
      | inr later' ↦ one_start txs u v (IsChain-tail t txs c) later later' e
    ]
  ]

  -- The map holds just these transactions, under their starts.
  pub record Holds (m : BTreeMap P.Word (RpcTransactionRecord H))
      (txs : List (RpcTransactionRecord H)) : Type 0 where
    pub sorted : IsSorted (by_state H) m
    pub only :
        (k : P.Word) (t : RpcTransactionRecord H)
        → get (by_state H) k m ≡ some t
        → Memᴰ t txs × (initial_state t ≡ k)
    pub all :
        (t : RpcTransactionRecord H) → Memᴰ t txs → get (by_state H) (initial_state t) m ≡ some t

  -- The nullifiers of transactions, one after another
  abbrev pub nullifiers : List (RpcTransactionRecord H) → List P.Nullifier
  nullifiers [] = []
  nullifiers (t ∷ txs) = H.input_nullifiers t.transaction_header ++ nullifiers txs

  module _ (laws : OrdLaws (by_state H)) where
    pub remove-Holds :
        (t : RpcTransactionRecord H) (txs : List (RpcTransactionRecord H))
        (m : BTreeMap P.Word (RpcTransactionRecord H))
        → IsChain (t ∷ txs)
        → Holds m (t ∷ txs)
        → Holds (remove (by_state H) (initial_state t) m) txs
    remove-Holds t txs m c h =
        let at = λ (k : P.Word). get-remove (by_state H) laws k (initial_state t) m h.sorted in
        let only_before : (k : P.Word) (u : RpcTransactionRecord H)
            → get (by_state H) k (remove (by_state H) (initial_state t) m) ≡ some u
            → (get (by_state H) k m ≡ some u) × (k ≢ initial_state t) =
          λ k u e. ground (arith, e, at k) in
        record {
          sorted = remove-IsSorted (by_state H) laws (initial_state t) m h.sorted;
          only = λ k u e.
              let (old, ne) = only_before k u e in
              let (x, same) = h.only k u old in
              elim (Memᴰ.cases_cons x) [
                | inl first ↦ absurd (ne (sym same ∙ ap initial_state first))
                | inr later ↦ (later, same)
              ];
          all = λ u x.
              at (initial_state u)
              ∙ ground (arith, starts_differ t u txs c x, h.all u (Memᴰ.tail x));
        }

    end_of :
        (m : BTreeMap P.Word (RpcTransactionRecord H))
        → Holds m []
        → (k : P.Word) → get (by_state H) k m ≡ none
    end_of m h k = elim (Option-cases (get (by_state H) k m)) [
      | inl e ↦ e
      | inr (t, e) ↦ elim ((h.only k t e).0) [ ]
    ]

    -- From its first transaction, the walk gives the nullifiers of the chain in order.
    pub walk-chain :
        (fuel : ℕ) (t : RpcTransactionRecord H) (txs : List (RpcTransactionRecord H))
        (m : BTreeMap P.Word (RpcTransactionRecord H))
        → IsChain (t ∷ txs)
        → Holds m txs
        → len m < fuel
        → walk fuel (some t) m ≡ nullifiers (t ∷ txs)
    unfolding walk
    walk-chain zero t txs m c h enough = elim enough [ ]
    walk-chain (suc f) t [] m c h enough =
        ap (λ l. H.input_nullifiers t.transaction_header ++ l)
          (rw (end_of m h (final_state t)) (walk-none H f (remove (by_state H) (final_state t) m)))
    walk-chain (suc f) t (u ∷ txs) m c h enough =
        let next = h.all u (Memᴰ.head refl) in
        let fewer = len-remove (by_state H) (initial_state u) u m next in
        ap (λ l. H.input_nullifiers t.transaction_header ++ l)
          (rw (c.0.0, next)
            (walk-chain f u txs (remove (by_state H) (initial_state u) m)
              (IsChain-tail t (u ∷ txs) c) (remove-Holds u txs m (IsChain-tail t (u ∷ txs) c) h)
              (omega (arith, fewer))))
