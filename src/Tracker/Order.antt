-- ===== src/Tracker/Order.antt =====
-- The positions of nullifiers in the order of their consuming transactions: `extend_nullifiers`
-- (crates/rust-client/src/note/note_update_tracker.rs).
use miden_client.Base.{
  ℕ, ◌+◌, ◌^◌, ◌≤◌, ◌<◌, ◌≡◌, refl, ◌∙◌, ◌≢◌, inl, inr, Option, none, some, List, [], ◌∷◌, arith,
  ltb, if◌then◌else◌, Option-cases, length,
}
use mathlib.Core.List.{Memᴰ}
use miden_client.Protocol.{Protocol}
use miden_client.BTreeMap.{Ord, BTreeMap, get, or_insert, len}
use miden_client.BTreeMap.Laws.{get-insert, get-or_insert_old, len-insert_new}
use miden_client.Tracker.Types.{NoteUpdateTracker, by_nullifier}

module _ {K : Type 0} (o : Ord K) where
  -- One round of the loop; `none` is the panic of `expect` at 2 ^ 32 entries.
  unfoldable pub extend_one : K → BTreeMap K ℕ → Option (BTreeMap K ℕ)
  extend_one k order =
      if ltb (len order) (2 ^ 32) then some (or_insert o k (len order) order) else none

  unfoldable pub extend_order : List K → BTreeMap K ℕ → Option (BTreeMap K ℕ)
  extend_order [] order = some order
  extend_order (k ∷ ks) order = elim (extend_one k order) [
    | some order' ↦ extend_order ks order'
    | none ↦ none
  ]

unfoldable pub extend_nullifiers :
    {P : Protocol} → List P.Nullifier → NoteUpdateTracker P → Option (NoteUpdateTracker P)
extend_nullifiers {P} nullifiers t =
    elim (extend_order (by_nullifier P) nullifiers t.nullifier_order) [
      | some order ↦ some (record t { nullifier_order = order })
      | none ↦ none
    ]

module _ {K : Type 0} (o : Ord K) where
  -- Every position lies below the number of entries, and no two keys have the same one.
  pub record IsOrder (order : BTreeMap K ℕ) : Type 0 where
    pub bounded : (k : K) (n : ℕ) → get o k order ≡ some n → n < len order
    pub distinct : (j k : K) (n : ℕ) → get o j order ≡ some n → get o k order ≡ some n → j ≡ k

  pub nil-IsOrder : IsOrder []
  unfolding get
  nil-IsOrder = record { bounded = λ k n h. cc; distinct = λ j k n h h'. cc }

  module _ (k : K) (order : BTreeMap K ℕ) (inv : IsOrder order) where
    or_insert-bounded :
        (j : K) (n : ℕ)
        → get o j (or_insert o k (len order) order) ≡ some n
        → n < len (or_insert o k (len order) order)
    unfolding or_insert
    or_insert-bounded j n h = ground (
      arith,
      get-insert o j k (len order) order,
      len-insert_new o k (len order) order,
      inv.bounded j n,
    )

    or_insert-distinct :
        (i j : K) (n : ℕ)
        → get o i (or_insert o k (len order) order) ≡ some n
        → get o j (or_insert o k (len order) order) ≡ some n
        → i ≡ j
    unfolding or_insert
    or_insert-distinct i j n h h' = ground (
      arith,
      get-insert o i k (len order) order,
      get-insert o j k (len order) order,
      inv.bounded i n,
      inv.bounded j n,
      inv.distinct i j n,
    )

  or_insert-IsOrder :
      (k : K) (order : BTreeMap K ℕ) → IsOrder order → IsOrder (or_insert o k (len order) order)
  or_insert-IsOrder k order inv = record {
    bounded = or_insert-bounded k order inv;
    distinct = or_insert-distinct k order inv;
  }

  len-or_insert :
      (k : K) (order : BTreeMap K ℕ) → len (or_insert o k (len order) order) ≤ len order + 1
  unfolding or_insert
  len-or_insert k order = ground (arith, len-insert_new o k (len order) order)

  get-or_insert_self :
      (k : K) (order : BTreeMap K ℕ) → get o k (or_insert o k (len order) order) ≢ none
  unfolding or_insert
  get-or_insert_self k order = ground (arith, get-insert o k k (len order) order)

  -- What a map of positions is after it was extended by some keys: still one of distinct
  -- positions, with the old positions kept, and one for each of the keys.
  pub record Extends (ks : List K) (order order' : BTreeMap K ℕ) : Type 0 where
    pub still_order : IsOrder order'
    pub kept : (k : K) (n : ℕ) → get o k order ≡ some n → get o k order' ≡ some n
    pub present : (k : K) → Memᴰ k ks → get o k order' ≢ none

  kept-ne :
      (k : K) (order order' : BTreeMap K ℕ)
      → ((n : ℕ) → get o k order ≡ some n → get o k order' ≡ some n)
      → get o k order ≢ none
      → get o k order' ≢ none
  kept-ne k order order' kept h = elim (Option-cases (get o k order)) [
    | inl e ↦ absurd (h e)
    | inr (n, e) ↦ λ e'. cc (kept n e)
  ]

  present-cons :
      {k : K} {ks : List K} {next order' : BTreeMap K ℕ}
      → get o k next ≢ none
      → Extends ks next order'
      → (j : K) → Memᴰ j (k ∷ ks)
      → get o j order' ≢ none
  present-cons {k} {ks} {next} {order'} h rest j (Memᴰ.head e) =
      rw e (kept-ne k next order' (rest.kept k) h)
  present-cons h rest j (Memᴰ.tail m) = rest.present j m

  extend_order-cons :
      (k : K) (ks : List K) (order : BTreeMap K ℕ)
      → len order < 2 ^ 32
      → extend_order o (k ∷ ks) order ≡ extend_order o ks (or_insert o k (len order) order)
  unfolding extend_order extend_one
  extend_order-cons k ks order room = ground arith

  extend_order_lem :
      (ks : List K) (order : BTreeMap K ℕ)
      → len order + length ks ≤ 2 ^ 32
      → IsOrder order
      → (order' : BTreeMap K ℕ) × (extend_order o ks order ≡ some order') × Extends ks order order'
  unfolding extend_order extend_one
  extend_order_lem [] order room inv =
      (order, refl, record { still_order = inv; kept = λ k n h. h; present = λ k m. elim m [ ] })
  extend_order_lem (k ∷ ks) order room inv =
      let next = or_insert o k (len order) order in
      let (order', e, rest) =
        extend_order_lem ks next (omega (arith, len-or_insert k order))
          (or_insert-IsOrder k order inv) in
      (
        order',
        extend_order-cons k ks order (omega arith) ∙ e,
        record {
          still_order = rest.still_order;
          kept = λ j n h. rest.kept j n (get-or_insert_old o j k (len order) n order h);
          present = present-cons (get-or_insert_self k order) rest;
        },
      )

-- If there is room for the new entries below 2 ^ 32, extending the order does not panic; in the
-- result the positions are distinct and below the number of entries if they were so before, every
-- old position is kept, and each of the new nullifiers has a position. Nothing else of the
-- tracker changes.
pub extend_nullifiers_lem :
    {P : Protocol} (ns : List P.Nullifier) (t : NoteUpdateTracker P)
    → len t.nullifier_order + length ns ≤ 2 ^ 32
    → IsOrder (by_nullifier P) t.nullifier_order
    → (order : BTreeMap P.Nullifier ℕ) × (extend_nullifiers ns t
        ≡ some (record t { nullifier_order = order }))
      × Extends (by_nullifier P) ns t.nullifier_order order
unfolding extend_nullifiers
extend_nullifiers_lem {P} ns t room inv =
    let (order, e, rest) = extend_order_lem (by_nullifier P) ns t.nullifier_order room inv in
    (order, rw (e, extend_nullifiers), rest)

-- Extending the order changes nothing else of the tracker.
pub extend_nullifiers_shape :
    {P : Protocol} (ns : List P.Nullifier) (t t' : NoteUpdateTracker P)
    → extend_nullifiers ns t ≡ some t'
    → (order : BTreeMap P.Nullifier ℕ) × (record t { nullifier_order = order } ≡ t')
unfolding extend_nullifiers
extend_nullifiers_shape {P} ns t t' h =
    elim (Option-cases (extend_order (by_nullifier P) ns t.nullifier_order)) [
      | inl panic ↦ ([], ground arith)
      | inr (order, e) ↦ (order, ground arith)
    ]
