-- ===== src/BTreeMap.antt =====
-- The standard library's `BTreeMap`, as the list of its entries in the order of the keys: what the
-- trackers use of it.
pub mod Laws
pub mod Sorted
pub mod Same
use miden_client.Base.{
  ℕ, zero, suc, ◌+◌, ◌-◌, ◌^◌, ◌≤◌, ◌<◌, String, ◌≡◌, refl, sym, ap, ◌∙◌, ◌≢◌, ◌↔◌, ◌⊎◌, inl, inr,
  ite, Bool, true, false, not, ◌&&◌, ◌||◌, Option, none, some, List, [], ◌∷◌, ◌++◌, map,
  append_assoc, arith, ℕ_discrete, ltb, leb, ◌==◌, if◌then◌else◌, Result, ok, err, Bool-cases,
  Option-cases, lt→ltb, length,
}

-- `Ord` of a key type.
pub record Ord (K : Type 0) : Type 0 where
  pub eq : Discrete K
  pub lt : K → K → Bool

abbrev pub BTreeMap : Type 0 → Type 0 → Type 0
BTreeMap K V = List (K × V)

module _ {K V : Type 0} (o : Ord K) where
  unfoldable pub get : K → BTreeMap K V → Option V
  get k [] = none
  get k ((j, v) ∷ m) = ite (o.eq k j) (some v) (get k m)

  -- A key that is there gets the new value, as it does by a write through `get_mut`.
  unfoldable pub insert : K → V → BTreeMap K V → BTreeMap K V
  insert k v [] = (k, v) ∷ []
  insert k v ((j, w) ∷ m) =
      ite (o.eq k j) ((k, v) ∷ m) (if o.lt k j then (k, v) ∷ (j, w) ∷ m else (j, w) ∷ insert k v m)

  -- `entry(k).or_insert(v)`
  unfoldable pub or_insert : K → V → BTreeMap K V → BTreeMap K V
  unfolding get insert
  or_insert k v m = elim (get k m) [ some _ ↦ m | none ↦ insert k v m ]

  -- `remove(k)`: the map without the key. The value that it returns is `get k m`.
  unfoldable pub remove : K → BTreeMap K V → BTreeMap K V
  remove k [] = []
  remove k ((j, v) ∷ m) = ite (o.eq k j) m ((j, v) ∷ remove k m)

-- `values()`
abbrev pub values : {K V : Type 0} → BTreeMap K V → List V
values [] = []
values ((k, v) ∷ m) = v ∷ values m

-- `len()`
abbrev pub len : {K V : Type 0} → BTreeMap K V → ℕ
len [] = 0
len (_ ∷ m) = suc (len m)
