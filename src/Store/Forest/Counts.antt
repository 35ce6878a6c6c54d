-- ===== src/Store/Forest/Counts.antt =====
-- The reference counts of roots (`increment_refcounts` and `decrement_refcounts` of
-- crates/rust-client/src/store/smt_forest.rs).
use miden_client.Base.{
  ℕ, ◌+◌, ◌-◌, ◌<◌, ◌≡◌, refl, ap, ◌∙◌, ◌≢◌, inl, inr, ite, Option, none, some, List, [], ◌∷◌, ◌++◌,
  arith, ℕ_discrete, ◌==◌, if◌then◌else◌, Option-cases,
}
use mathlib.Core.List.Memᴰ
use mathlib.Core.List.{Memᴰ}
use miden_client.BTreeMap.{Ord, BTreeMap, get, insert, remove}
use miden_client.BTreeMap.Laws.{get-insert}
use miden_client.BTreeMap.Sorted.{OrdLaws, IsSorted, insert-IsSorted, remove-IsSorted, get-remove}

-- `entry(root).or_insert(0)`, and 1 more
increment : Option ℕ → ℕ
increment none = 1
increment (some count) = count + 1

module _ {K : Type 0} (o : Ord K) where
  unfoldable pub increment_refcounts : List K → BTreeMap K ℕ → BTreeMap K ℕ
  unfolding increment
  increment_refcounts [] counts = counts
  increment_refcounts (root ∷ roots) counts =
      increment_refcounts roots (insert o root (increment (get o root counts)) counts)

  -- One round: a count that reaches 0 goes, and its root is popped.
  decrement_one : K → BTreeMap K ℕ → BTreeMap K ℕ × List K
  decrement_one root counts = elim (get o root counts) [
    | none ↦ (counts, [])
    | some count ↦
        if count - 1 == 0
        then (remove o root counts, root ∷ [])
        else (insert o root (count - 1) counts, [])
  ]

  unfoldable pub decrement_refcounts : List K → BTreeMap K ℕ → BTreeMap K ℕ × List K
  unfolding decrement_one
  decrement_refcounts [] counts = (counts, [])
  decrement_refcounts (root ∷ roots) counts =
      let (counts', popped) = decrement_one root counts in
      let (counts'', to_pop) = decrement_refcounts roots counts' in (counts'', popped ++ to_pop)

  -- How often a key stands in a list.
  abbrev pub count : K → List K → ℕ
  count k [] = 0
  count k (x ∷ xs) = ite (o.eq k x) 1 0 + count k xs

  abbrev pub or_zero : Option ℕ → ℕ
  or_zero none = 0
  or_zero (some n) = n

  -- The count of a key, 0 if it has none.
  abbrev pub ref : K → BTreeMap K ℕ → ℕ
  ref k m = or_zero (get o k m)

  -- A map of counts: in order, and none is 0.
  pub record IsCounts (m : BTreeMap K ℕ) : Type 0 where
    pub sorted : IsSorted o m
    pub positive : (k : K) → get o k m ≢ some 0

  module _ (laws : OrdLaws o) where
    increment_one_lem :
        (root : K) (m : BTreeMap K ℕ)
        → IsCounts m
        → let m' = insert o root (increment (get o root m)) m in
          IsCounts m' × ((k : K) → ref k m' ≡ ref k m + ite (o.eq k root) 1 0)
    unfolding increment
    increment_one_lem root m h = (
      record {
        sorted = insert-IsSorted o laws root (increment (get o root m)) m h.sorted;
        positive =
            λ k. ground (arith, get-insert o k root (increment (get o root m)) m, h.positive k);
      },
      λ k. ground (arith, get-insert o k root (increment (get o root m)) m),
    )

    pub increment_refcounts_lem :
        (roots : List K) (m : BTreeMap K ℕ)
        → IsCounts m
        → IsCounts (increment_refcounts roots m)
          × ((k : K) → ref k (increment_refcounts roots m) ≡ ref k m + count k roots)
    unfolding increment_refcounts
    increment_refcounts_lem [] m h = (h, λ k. omega arith)
    increment_refcounts_lem (root ∷ roots) m h =
        let (h₁, e₁) = increment_one_lem root m h in
        let (h₂, e₂) =
          increment_refcounts_lem roots (insert o root (increment (get o root m)) m) h₁ in
        (h₂, λ k. omega (arith, e₁ k, e₂ k))

    -- The three ways of a round.
    decrement_none :
        (root : K) (m : BTreeMap K ℕ) → get o root m ≡ none → decrement_one root m ≡ (m, [])
    unfolding decrement_one
    decrement_none root m e = ground arith

    decrement_last :
        (root : K) (m : BTreeMap K ℕ)
        → get o root m ≡ some 1
        → decrement_one root m ≡ (remove o root m, root ∷ [])
    unfolding decrement_one
    decrement_last root m e = rw (decrement_one, e) refl

    decrement_more :
        (root : K) (n : ℕ) (m : BTreeMap K ℕ)
        → get o root m ≡ some n
        → 1 < n
        → decrement_one root m ≡ (insert o root (n - 1) m, [])
    unfolding decrement_one
    decrement_more root n m e h = rw (decrement_one, e) (ground arith)

    -- What a round does to the counts.
    abbrev pub Decrements : (K → ℕ) → BTreeMap K ℕ → BTreeMap K ℕ × List K → Type 0
    Decrements by m x =
        IsCounts x.0
        × ((k : K) → ref k x.0 ≡ ref k m - by k)
        × ((k : K) → Memᴰ k x.1 → ref k x.0 ≡ 0)

    decrement_last_lem :
        (root : K) (m : BTreeMap K ℕ)
        → IsCounts m
        → get o root m ≡ some 1
        → Decrements (λ k. ite (o.eq k root) 1 0) m (remove o root m, root ∷ [])
    decrement_last_lem root m h e =
        let at = λ (k : K). get-remove o laws k root m h.sorted in
        (
          record {
            sorted = remove-IsSorted o laws root m h.sorted;
            positive = λ k. ground (arith, at k, h.positive k);
          },
          λ k. ground (arith, at k),
          λ k x. let e' = Memᴰ.eq_of_singleton x in ground (arith, at k),
        )

    decrement_more_lem :
        (root : K) (n : ℕ) (m : BTreeMap K ℕ)
        → IsCounts m
        → get o root m ≡ some n
        → 1 < n
        → Decrements (λ k. ite (o.eq k root) 1 0) m (insert o root (n - 1) m, [])
    decrement_more_lem root n m h e more =
        let at = λ (k : K). get-insert o k root (n - 1) m in
        (
          record {
            sorted = insert-IsSorted o laws root (n - 1) m h.sorted;
            positive = λ k. ground (arith, at k, h.positive k);
          },
          λ k. ground (arith, at k),
          λ k x. elim x [ ],
        )

    decrement_one_lem :
        (root : K) (m : BTreeMap K ℕ)
        → IsCounts m
        → Decrements (λ k. ite (o.eq k root) 1 0) m (decrement_one root m)
    decrement_one_lem root m h = elim (Option-cases (get o root m)) [
      | inl e ↦ rw (decrement_none root m e) (h, λ k. ground arith, λ k x. elim x [ ])
      | inr (n, e) ↦ elim (ℕ_discrete n 1) [
        | yes last ↦
            rw (decrement_last root m (e ∙ ap some last))
              (decrement_last_lem root m h (e ∙ ap some last))
        | no more ↦
            rw (decrement_more root n m e (ground (arith, h.positive root)))
              (decrement_more_lem root n m h e (ground (arith, h.positive root)))
      ]
    ]

    pub decrement_refcounts_lem :
        (roots : List K) (m : BTreeMap K ℕ)
        → IsCounts m
        → Decrements (λ k. count k roots) m (decrement_refcounts roots m)
    unfolding decrement_refcounts
    decrement_refcounts_lem [] m h = (h, λ k. omega arith, λ k x. elim x [ ])
    decrement_refcounts_lem (root ∷ roots) m h =
        let (h₁, e₁, p₁) = decrement_one_lem root m h in
        let (h₂, e₂, p₂) = decrement_refcounts_lem roots (decrement_one root m).0 h₁ in
        (
          h₂,
          λ k. omega (arith, e₁ k, e₂ k),
          λ k x. elim (Memᴰ.append_cases (decrement_one root m).1 x) [
            | inl first ↦ omega (arith, p₁ k first, e₂ k)
            | inr later ↦ p₂ k later
          ],
        )
