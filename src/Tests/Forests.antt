-- ===== src/Tests/Forests.antt =====
-- A forest of numbers: it is the list of the roots that it holds, and the root of a tree is the sum
-- of its entries.
use miden_client.Base.{
  ℕ, ◌+◌, ◌≡◌, refl, sym, ◌⊎◌, inl, inr, Bool, true, false, ◌||◌, List, [], ◌∷◌, arith, ℕ_discrete,
  ltb, ◌==◌, if◌then◌else◌, Result, ok, Bool-cases,
}
use mathlib.Core.List.Memᴰ
use mathlib.Core.List.{Memᴰ, map as list_map}
use mathlib.Core.Path.{subst}
use miden_client.BTreeMap.{get, insert}
use miden_client.Store.Forest.Api.{ForestApi, ForestLaws, StorageSlotContent, value, map}
use miden_client.Store.Forest.Invariant.{IsValid, AllHeld}
use miden_client.Store.Forest.{AccountSmtForest, new, stage_roots, discard_roots}
use miden_client.Store.Forest.Trees.{
  insert_account_state, insert_storage_map_nodes, insert_storage_map_nodes_for_map,
  insert_asset_nodes, insert_entries, collect_account_roots, map_roots,
  insert_and_stage_account_state,
}
use miden_client.Store.Forest.Reach.{Reach, here, next, staged_state, discarded, forest-IsValid}
use miden_client.Store.Forest.Rollback.{discard_roots-stage_roots}
use miden_client.Tests.Toy.{toy, ltb_laws}

abbrev elem : ℕ → List ℕ → Bool
elem r [] = false
elem r (x ∷ xs) = (r == x) || elem r xs

abbrev pop_roots : List ℕ → List ℕ → List ℕ
pop_roots roots [] = []
pop_roots roots (x ∷ xs) = let rest = pop_roots roots xs in if elem x roots then rest else x ∷ rest

abbrev tree_root : ℕ → List (ℕ × ℕ) → ℕ
tree_root root [] = root
tree_root root ((k, v) ∷ entries) = k + v + tree_root root entries

abbrev pair : ℕ × ℕ → ℕ × ℕ
pair x = (x.0, x.1)

abbrev numbers : ForestApi toy
numbers = record {
  word_lt = ltb;
  account_id_lt = ltb;
  SmtForest = List ℕ;
  MerkleError = ℕ;
  default = [];
  pop_smts = pop_roots;
  batch_insert = λ root entries f. (ok (tree_root root entries), tree_root root entries ∷ f);
  empty_root = 0;
  empty_word = 0;
  Asset = ℕ × ℕ;
  AssetVaultKey = ℕ;
  vault_key = λ asset. asset.0;
  vault_key_word = λ key. key;
  to_value_word = λ asset. asset.1;
  AssetVault = List (ℕ × ℕ);
  vault_assets = λ v. v;
  vault_root = λ v. tree_root 0 (list_map pair v);
  smt_entries = λ entries. ok entries;
  StorageMap = List (ℕ × ℕ);
  StorageMapKey = ℕ;
  hash_key = λ key. key;
  map_entries = λ m. m;
  map_root = λ m. tree_root 0 (list_map pair m);
}

elem-Memᴰ : (r : ℕ) (xs : List ℕ) → elem r xs ≡ true → Memᴰ r xs
elem-Memᴰ r [] h = absurd (cc)
elem-Memᴰ r (x ∷ xs) h = elim (ℕ_discrete r x) [
  | yes e ↦ Memᴰ.head e
  | no ne ↦ Memᴰ.tail (elem-Memᴰ r xs (ground arith))
]

elem-pop_roots :
    (r : ℕ) (roots f : List ℕ)
    → elem r f ≡ true
    → elem r roots ≡ false
    → elem r (pop_roots roots f) ≡ true
elem-pop_roots r roots [] h gone = h
elem-pop_roots r roots (x ∷ xs) h gone = ground (arith, elem-pop_roots r roots xs)

pop_roots-Holds :
    (r : ℕ) (roots f : List ℕ)
    → (r == 0) || elem r f ≡ true
    → ((r == 0) || elem r (pop_roots roots f) ≡ true) ⊎ Memᴰ r roots
pop_roots-Holds r roots f h = elim (Bool-cases (elem r roots)) [
  | inl yes_in ↦ inr (elem-Memᴰ r roots yes_in)
  | inr out ↦ inl (ground (arith, elem-pop_roots r roots f))
]

held_before :
    (r x : ℕ) (f : List ℕ) → (r == 0) || elem r f ≡ true → (r == 0) || elem r (x ∷ f) ≡ true
held_before r x f h = ground arith

held_first : (r x : ℕ) (f : List ℕ) → x ≡ r → (r == 0) || elem r (x ∷ f) ≡ true
held_first r x f h = ground arith

ok-nil :
    (v : List (ℕ × ℕ))
    → ◌≡◌ {A = Result {0, 0} ℕ (List (ℕ × ℕ))} (ok (list_map pair v)) (ok [])
    → tree_root 0 (list_map pair v) ≡ 0
ok-nil v e = let empty : list_map pair v ≡ [] = cc in rw empty refl

ok-root :
    (v entries : List (ℕ × ℕ)) (new_root : ℕ)
    → ◌≡◌ {A = Result {0, 0} ℕ (List (ℕ × ℕ))} (ok (list_map pair v)) (ok entries)
    → ◌≡◌ {A = Result {0, 0} ℕ ℕ} (ok (tree_root 0 entries)) (ok new_root)
    → tree_root 0 (list_map pair v) ≡ new_root
ok-root v entries new_root e e' = let same : list_map pair v ≡ entries = cc in rw same cc

abbrev numbers_laws : ForestLaws numbers
numbers_laws = record {
  words = ltb_laws;
  accounts = ltb_laws;
  Holds = λ r f. (r == 0) || elem r f ≡ true;
  holds_empty = λ f. refl;
  pop_smts-Holds = pop_roots-Holds;
  batch_insert_keeps = λ r root entries f. held_before r (tree_root root entries) f;
  batch_insert_adds =
      λ root new_root entries f e. held_first new_root (tree_root root entries) f (cc);
  map_empty = λ m e. rw e refl;
  map_batch = λ m new_root f e. cc;
  vault_empty = λ v e. ok-nil v e;
  vault_batch = λ v entries new_root f e e'. ok-root v entries new_root e e';
}

abbrev vault : List (ℕ × ℕ)
vault = (3, 4) ∷ []

abbrev slots : List (StorageSlotContent numbers)
slots = value 9 ∷ map ((5, 6) ∷ []) ∷ []

abbrev first_state : AccountSmtForest numbers
first_state = (insert_and_stage_account_state 1 vault slots (new {F = numbers})).1

first-Reach : Reach numbers numbers_laws new first_state
first-Reach = next here (staged_state 1 vault slots)

forest-IsValid_example :
    IsValid numbers (discard_roots 1 first_state)
    × AllHeld numbers numbers_laws (discard_roots 1 first_state)
forest-IsValid_example =
    forest-IsValid numbers numbers_laws
      (next (next here (staged_state 1 vault slots)) (discarded 1))

roots_held : (r : ℕ) → Memᴰ r (7 ∷ []) → numbers_laws.Holds r first_state.forest
unfolding insert_and_stage_account_state insert_account_state insert_storage_map_nodes
    insert_storage_map_nodes_for_map insert_asset_nodes insert_entries stage_roots
    collect_account_roots map_roots get insert
roots_held r x =
    subst (λ r'. numbers_laws.Holds r' first_state.forest) (sym (Memᴰ.eq_of_singleton x)) refl

discard_roots-stage_roots_example :
    let s' = discard_roots 1 (stage_roots 1 (7 ∷ []) first_state) in
    (s'.account_roots ≡ first_state.account_roots)
    × (s'.pending_old_roots ≡ first_state.pending_old_roots)
    × (s'.root_refcounts ≡ first_state.root_refcounts)
discard_roots-stage_roots_example =
    discard_roots-stage_roots numbers numbers_laws 1 (7 ∷ []) first_state
      (forest-IsValid numbers numbers_laws first-Reach).0
      (forest-IsValid numbers numbers_laws first-Reach).1 roots_held
