-- ===== src/BTreeMap/Sorted.antt =====
-- Maps whose entries are in the order of their keys, for an order that is total.
use miden_client.Base.{
  ℕ, ◌+◌, ◌≡◌, refl, ◌≢◌, ◌⊎◌, inl, inr, ite, true, false, Option, none, some, [], ◌∷◌, arith,
}
use miden_client.BTreeMap.{Ord, BTreeMap, get, insert, remove}

-- What `Ord` promises of its strict order.
pub record OrdLaws {K : Type 0} (o : Ord K) : Type 0 where
  pub irrefl : (a : K) → o.lt a a ≡ false
  pub trans : (a b c : K) → o.lt a b ≡ true → o.lt b c ≡ true → o.lt a c ≡ true
  pub total : (a b : K) → a ≢ b → o.lt a b ≡ false → o.lt b a ≡ true

module _ {K V : Type 0} (o : Ord K) where
  -- The key is below all keys of the map.
  abbrev pub Below : K → BTreeMap K V → Type 0
  Below k [] = Unit
  Below k ((j, v) ∷ m) = (o.lt k j ≡ true) × Below k m

  abbrev pub IsSorted : BTreeMap K V → Type 0
  IsSorted [] = Unit
  IsSorted ((k, v) ∷ m) = Below k m × IsSorted m

  -- The sum of a measure over the values.
  abbrev pub total : (V → ℕ) → BTreeMap K V → ℕ
  total f [] = 0
  total f ((k, v) ∷ m) = f v + total f m

  -- The measure of the value that a key has, 0 if it has none.
  abbrev pub measure : (V → ℕ) → Option V → ℕ
  measure f none = 0
  measure f (some v) = f v

  -- The three ways of an insertion at an entry, and the two of a removal.
  insert-cases :
      (k : K) (v : V) (j : K) (w : V) (m : BTreeMap K V)
      → ((k ≡ j) × (insert o k v ((j, w) ∷ m) ≡ (k, v) ∷ m))
        ⊎ ((o.lt k j ≡ true) × (k ≢ j) × (insert o k v ((j, w) ∷ m) ≡ (k, v) ∷ (j, w) ∷ m))
        ⊎ ((o.lt k j ≡ false) × (k ≢ j) × (insert o k v ((j, w) ∷ m) ≡ (j, w) ∷ insert o k v m))
  unfolding insert
  insert-cases k v j w m = ground arith

  remove-cases :
      (k j : K) (w : V) (m : BTreeMap K V)
      → ((k ≡ j) × (remove o k ((j, w) ∷ m) ≡ m))
        ⊎ ((k ≢ j) × (remove o k ((j, w) ∷ m) ≡ (j, w) ∷ remove o k m))
  unfolding remove
  remove-cases k j w m = ground arith

  module _ (laws : OrdLaws o) where
    pub Below-trans : (i k : K) (m : BTreeMap K V) → o.lt i k ≡ true → Below k m → Below i m
    Below-trans i k [] h b = tt
    Below-trans i k ((j, v) ∷ m) h b = (laws.trans i k j h b.0, Below-trans i k m h b.1)

    pub get-Below : (k : K) (m : BTreeMap K V) → Below k m → get o k m ≡ none
    unfolding get
    get-Below k [] b = refl
    get-Below k ((j, v) ∷ m) b = ground (arith, laws.irrefl k, get-Below k m b.1)

    Below-insert :
        (i k : K) (v : V) (m : BTreeMap K V)
        → o.lt i k ≡ true
        → Below i m
        → Below i (insert o k v m)
    unfolding insert
    Below-insert i k v [] h b = (h, tt)
    Below-insert i k v ((j, w) ∷ m) h b = elim (insert-cases k v j w m) [
      | inl (_, e) ↦ rw e (h, b.1)
      | inr (inl (_, _, e)) ↦ rw e (h, b)
      | inr (inr (_, _, e)) ↦ rw e (b.0, Below-insert i k v m h b.1)
    ]

    pub insert-IsSorted :
        (k : K) (v : V) (m : BTreeMap K V) → IsSorted m → IsSorted (insert o k v m)
    unfolding insert
    insert-IsSorted k v [] s = (tt, tt)
    insert-IsSorted k v ((j, w) ∷ m) s = elim (insert-cases k v j w m) [
      | inl (e, e') ↦ rw e' (rw e s)
      | inr (inl (h, _, e)) ↦ rw e ((h, Below-trans k j m h s.0), s)
      | inr (inr (h, ne, e)) ↦
          rw e (Below-insert j k v m (laws.total k j ne h) s.0, insert-IsSorted k v m s.1)
    ]

    Below-remove : (i k : K) (m : BTreeMap K V) → Below i m → Below i (remove o k m)
    unfolding remove
    Below-remove i k [] b = tt
    Below-remove i k ((j, w) ∷ m) b = elim (remove-cases k j w m) [
      | inl (_, e) ↦ rw e b.1
      | inr (_, e) ↦ rw e (b.0, Below-remove i k m b.1)
    ]

    pub remove-IsSorted : (k : K) (m : BTreeMap K V) → IsSorted m → IsSorted (remove o k m)
    unfolding remove
    remove-IsSorted k [] s = tt
    remove-IsSorted k ((j, w) ∷ m) s = elim (remove-cases k j w m) [
      | inl (_, e) ↦ rw e s.1
      | inr (_, e) ↦ rw e (Below-remove j k m s.0, remove-IsSorted k m s.1)
    ]

    pub get-remove :
        (i k : K) (m : BTreeMap K V)
        → IsSorted m
        → get o i (remove o k m) ≡ ite (o.eq i k) none (get o i m)
    unfolding get remove
    get-remove i k [] s = ground arith
    get-remove i k ((j, w) ∷ m) s = ground (arith, get-Below j m s.0, get-remove i k m s.1)

    pub total-insert :
        (f : V → ℕ) (k : K) (v : V) (m : BTreeMap K V)
        → IsSorted m
        → total f (insert o k v m) + measure f (get o k m) ≡ total f m + f v
    unfolding get insert
    total-insert f k v [] s = omega arith
    total-insert f k v ((j, w) ∷ m) s = elim (insert-cases k v j w m) [
      | inl (e, e') ↦ rw e' (ground arith)
      | inr (inl (h, ne, e)) ↦ rw e (ground (arith, get-Below k m (Below-trans k j m h s.0)))
      | inr (inr (h, ne, e)) ↦ rw e (ground (arith, total-insert f k v m s.1))
    ]

    pub total-remove :
        (f : V → ℕ) (k : K) (m : BTreeMap K V)
        → total f (remove o k m) + measure f (get o k m) ≡ total f m
    unfolding get remove
    total-remove f k [] = omega arith
    total-remove f k ((j, w) ∷ m) = ground (arith, total-remove f k m)
