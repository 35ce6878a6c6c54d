-- ===== src/Store/Forest/Held.antt =====
-- The trees that are in the forest while others are put into it
-- (crates/rust-client/src/store/smt_forest.rs).
use miden_client.Base.{◌≡◌, refl, sym, ap, ◌∙◌, List, [], ◌∷◌, Result, ok, err}
use mathlib.Core.List.{map as list_map, map-eq-nil_iff}
use mathlib.Core.Path.{subst}
use miden_client.Protocol.{Protocol}
use miden_client.Store.Forest.Api.{
  ForestApi, ForestLaws, StorageSlotContent, value, map, asset_entry, map_entry,
}
use miden_client.Store.Forest.{AccountSmtForest, StoreError}
use miden_client.Store.Forest.Trees.{
  insert_entries, insert_asset_nodes, insert_smt, done, from_merkle,
  insert_storage_map_nodes_for_map, insert_storage_map_nodes, insert_account_state, then_step,
}

module _ {P : Protocol} (F : ForestApi P) (laws : ForestLaws F) where
  -- Only trees are put in: the accounts and the counts stay, and so does every tree.
  pub record Grows (s s' : AccountSmtForest F) : Type 0 where
    pub same_roots : s'.account_roots ≡ s.account_roots
    pub same_pending : s'.pending_old_roots ≡ s.pending_old_roots
    pub same_counts : s'.root_refcounts ≡ s.root_refcounts
    pub keeps : (r : P.Word) → laws.Holds r s.forest → laws.Holds r s'.forest

  Grows-refl : (s : AccountSmtForest F) → Grows s s
  Grows-refl s = record {
    same_roots = refl;
    same_pending = refl;
    same_counts = refl;
    keeps = λ r h. h;
  }

  Grows-trans : (s t u : AccountSmtForest F) → Grows s t → Grows t u → Grows s u
  Grows-trans s t u g g' = record {
    same_roots = g'.same_roots ∙ g.same_roots;
    same_pending = g'.same_pending ∙ g.same_pending;
    same_counts = g'.same_counts ∙ g.same_counts;
    keeps = λ r h. g'.keeps r (g.keeps r h);
  }

  pub insert_entries-Grows :
      (root : P.Word) (entries : List (P.Word × P.Word)) (s : AccountSmtForest F)
      → Grows s (insert_entries root entries s).1
  unfolding insert_entries
  insert_entries-Grows root [] s = Grows-refl s
  insert_entries-Grows root (e ∷ es) s = record {
    same_roots = refl;
    same_pending = refl;
    same_counts = refl;
    keeps = λ r h. laws.batch_insert_keeps r root (e ∷ es) s.forest h;
  }

  done-Grows :
      (s : AccountSmtForest F) (x : Result {0, 0} (StoreError F) P.Word × AccountSmtForest F)
      → Grows s x.1
      → Grows s (done x).1
  done-Grows s (ok _, s') g = g
  done-Grows s (err _, s') g = g

  pub then_step-Grows :
      (s : AccountSmtForest F) (x : Result {0, 0} (StoreError F) Unit × AccountSmtForest F)
      (f : AccountSmtForest F → Result {0, 0} (StoreError F) Unit × AccountSmtForest F)
      → Grows s x.1
      → ((t : AccountSmtForest F) → Grows t (f t).1)
      → Grows s (then_step x f).1
  then_step-Grows s (ok _, s') f g h = Grows-trans s s' (f s').1 g (h s')
  then_step-Grows s (err _, s') f g h = g

  pub insert_for_map-Grows :
      (m : F.StorageMap) (s : AccountSmtForest F) → Grows s (insert_storage_map_nodes_for_map m s).1
  unfolding insert_storage_map_nodes_for_map
  insert_for_map-Grows m s =
      let entries = list_map (map_entry F) (F.map_entries m) in
      done-Grows s (insert_entries F.empty_root entries s)
        (insert_entries-Grows F.empty_root entries s)

  pub insert_maps-Grows :
      (slots : List (StorageSlotContent F)) (s : AccountSmtForest F)
      → Grows s (insert_storage_map_nodes slots s).1
  unfolding insert_storage_map_nodes
  insert_maps-Grows [] s = Grows-refl s
  insert_maps-Grows (value _ ∷ slots) s = insert_maps-Grows slots s
  insert_maps-Grows (map m ∷ slots) s =
      then_step-Grows s (insert_storage_map_nodes_for_map m s) (insert_storage_map_nodes slots)
        (insert_for_map-Grows m s) (insert_maps-Grows slots)

  insert_smt-Grows :
      (x : Result F.MerkleError (List (P.Word × P.Word))) (s : AccountSmtForest F)
      → Grows s (insert_smt x s).1
  insert_smt-Grows (err e) s = Grows-refl s
  insert_smt-Grows (ok entries) s =
      done-Grows s (insert_entries F.empty_root entries s)
        (insert_entries-Grows F.empty_root entries s)

  pub insert_assets-Grows :
      (vault : F.AssetVault) (s : AccountSmtForest F) → Grows s (insert_asset_nodes vault s).1
  unfolding insert_asset_nodes
  insert_assets-Grows vault s =
      insert_smt-Grows (F.smt_entries (list_map (asset_entry F) (F.vault_assets vault))) s

  pub insert_account_state-Grows :
      (vault : F.AssetVault) (storage : List (StorageSlotContent F)) (s : AccountSmtForest F)
      → Grows s (insert_account_state vault storage s).1
  unfolding insert_account_state
  insert_account_state-Grows vault storage s =
      then_step-Grows s (insert_storage_map_nodes storage s) (insert_asset_nodes vault)
        (insert_maps-Grows storage s) (insert_assets-Grows vault)

  -- The root of a tree comes of the batch that makes it.
  abbrev IsRootOf : P.Word → List (P.Word × P.Word) → Type 0
  IsRootOf root entries =
      (entries ≡ [] → root ≡ F.empty_root)
      × ((new_root : P.Word) (f : F.SmtForest)
          → (F.batch_insert F.empty_root entries f).0 ≡ ok new_root
          → root ≡ new_root)

  batch_held :
      (root : P.Word) (entries : List (P.Word × P.Word)) (s s' : AccountSmtForest F)
      (x : Result F.MerkleError P.Word)
      → IsRootOf root entries
      → (F.batch_insert F.empty_root entries s.forest).0 ≡ x
      → (done (from_merkle {F = F} x, s')).0 ≡ ok tt
      → laws.Holds root (F.batch_insert F.empty_root entries s.forest).1
  batch_held root entries s s' (ok new_root) is e h =
      subst (λ r. laws.Holds r (F.batch_insert F.empty_root entries s.forest).1)
        (sym (is.1 new_root s.forest e))
        (laws.batch_insert_adds F.empty_root new_root entries s.forest e)
  batch_held root entries s s' (err e') is e h = absurd (cc)

  done_forest : (x : Result {0, 0} (StoreError F) P.Word × AccountSmtForest F) → (done x).1 ≡ x.1
  done_forest (ok _, s) = refl
  done_forest (err _, s) = refl

  -- What is inserted into the empty tree without an error is held afterwards.
  inserted_held :
      (root : P.Word) (entries : List (P.Word × P.Word)) (s : AccountSmtForest F)
      → IsRootOf root entries
      → (done (insert_entries F.empty_root entries s)).0 ≡ ok tt
      → laws.Holds root (done (insert_entries F.empty_root entries s)).1.forest
  unfolding insert_entries
  inserted_held root [] s is h =
      subst (λ r. laws.Holds r s.forest) (sym (is.0 refl)) (laws.holds_empty s.forest)
  inserted_held root (e ∷ es) s is h = rw (done_forest (insert_entries F.empty_root (e ∷ es) s)) (
      batch_held root (e ∷ es) s (insert_entries F.empty_root (e ∷ es) s).1
        (F.batch_insert F.empty_root (e ∷ es) s.forest).0 is refl h)

  pub vault_held :
      (vault : F.AssetVault) (s : AccountSmtForest F)
      (x : Result F.MerkleError (List (P.Word × P.Word)))
      → F.smt_entries (list_map (asset_entry F) (F.vault_assets vault)) ≡ x
      → (insert_smt x s).0 ≡ ok tt
      → laws.Holds (F.vault_root vault) (insert_smt x s).1.forest
  vault_held vault s (ok entries) e h =
      inserted_held (F.vault_root vault) entries s
        (
          λ empty. laws.vault_empty vault (e ∙ ap ok empty),
          λ new_root f. laws.vault_batch vault entries new_root f e,
        )
        h
  vault_held vault s (err _) e h = absurd (cc)

  pub map_held :
      (m : F.StorageMap) (s : AccountSmtForest F)
      → (insert_storage_map_nodes_for_map m s).0 ≡ ok tt
      → laws.Holds (F.map_root m) (insert_storage_map_nodes_for_map m s).1.forest
  unfolding insert_storage_map_nodes_for_map
  map_held m s =
      inserted_held (F.map_root m) (list_map (map_entry F) (F.map_entries m)) s
        (λ empty. laws.map_empty m ((map-eq-nil_iff (map_entry F)).0 empty), laws.map_batch m)
