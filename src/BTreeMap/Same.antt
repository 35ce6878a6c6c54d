-- ===== src/BTreeMap/Same.antt =====
-- Maps in order are the same if they hold the same values under the same keys.
use miden_client.Base.{◌≡◌, refl, inl, inr, [], ◌∷◌, arith, Bool-cases}
use miden_client.BTreeMap.{Ord, BTreeMap, get}
use miden_client.BTreeMap.Sorted.{OrdLaws, IsSorted, Below-trans, get-Below}

module _ {K V : Type 0} (o : Ord K) (laws : OrdLaws o) where
  abbrev SameLookups : BTreeMap K V → BTreeMap K V → Type 0
  SameLookups m m' = (k : K) → get o k m ≡ get o k m'

  head_same :
      (k j : K) (v w : V) (m m' : BTreeMap K V)
      → IsSorted o ((k, v) ∷ m)
      → IsSorted o ((j, w) ∷ m')
      → SameLookups ((k, v) ∷ m) ((j, w) ∷ m')
      → k ≡ j
  unfolding get
  head_same k j v w m m' s s' e = elim (o.eq k j) [
    | yes same ↦ same
    | no differ ↦ elim (Bool-cases (o.lt k j)) [
      | inl less ↦
          let gone = get-Below o laws k m' (Below-trans o laws k j m' less s'.0) in
          ground (arith, e k)
      | inr more ↦
          let less = laws.total k j differ more in
          let gone = get-Below o laws j m (Below-trans o laws j k m less s.0) in ground (arith, e j)
    ]
  ]

  tail_same :
      (k j : K) (v w : V) (m m' : BTreeMap K V)
      → k ≡ j
      → IsSorted o ((k, v) ∷ m)
      → IsSorted o ((j, w) ∷ m')
      → SameLookups ((k, v) ∷ m) ((j, w) ∷ m')
      → (v ≡ w) × SameLookups m m'
  unfolding get
  tail_same k j v w m m' at s s' e = (
    ground (arith, e k),
    λ i. ground (arith, at, e i, get-Below o laws k m s.0, get-Below o laws j m' s'.0),
  )

  pub same_lookups :
      (m m' : BTreeMap K V) → IsSorted o m → IsSorted o m' → SameLookups m m' → m ≡ m'
  unfolding get
  same_lookups [] [] s s' e = refl
  same_lookups [] ((j, w) ∷ m') s s' e = absurd (ground (arith, e j))
  same_lookups ((k, v) ∷ m) [] s s' e = absurd (ground (arith, e k))
  same_lookups ((k, v) ∷ m) ((j, w) ∷ m') s s' e =
      let at = head_same k j v w m m' s s' e in
      let (first, rest) = tail_same k j v w m m' at s s' e in
      rw (at, first, same_lookups m m' s.1 s'.1 rest) refl
