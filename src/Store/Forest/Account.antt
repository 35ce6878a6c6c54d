-- ===== src/Store/Forest/Account.antt =====
-- The trees of an account, put into the forest and registered for it
-- (crates/rust-client/src/store/smt_forest.rs).
use miden_client.Base.{◌≡◌, refl, sym, ap, ◌∙◌, inl, inr, List, [], ◌∷◌, Result, ok, err}
use mathlib.Core.List.Memᴰ
use mathlib.Core.List.{Memᴰ, map as list_map}
use miden_client.Protocol.{Protocol}
use miden_client.Store.Forest.Api.{
  ForestApi, ForestLaws, StorageSlotContent, value, map, asset_entry,
}
use miden_client.Store.Forest.{AccountSmtForest, StoreError}
use miden_client.Store.Forest.Trees.{
  insert_asset_nodes, insert_storage_map_nodes_for_map, insert_storage_map_nodes,
  insert_account_state, map_roots, collect_account_roots, then_step,
}
use miden_client.Store.Forest.Held.{insert_maps-Grows, insert_assets-Grows, vault_held, map_held}

module _ {P : Protocol} (F : ForestApi P) (laws : ForestLaws F) where
  -- Two steps succeed only if both do.
  then_step-ok :
      (x : Result {0, 0} (StoreError F) Unit × AccountSmtForest F)
      (f : AccountSmtForest F → Result {0, 0} (StoreError F) Unit × AccountSmtForest F)
      → (then_step x f).0 ≡ ok tt
      → (x.0 ≡ ok tt) × (then_step x f ≡ f x.1)
  then_step-ok (ok _, s) f h = (refl, refl)
  then_step-ok (err _, s) f h = absurd (cc)

  maps_held :
      (slots : List (StorageSlotContent F)) (s : AccountSmtForest F)
      → (insert_storage_map_nodes slots s).0 ≡ ok tt
      → (r : P.Word) → Memᴰ r (map_roots slots)
      → laws.Holds r (insert_storage_map_nodes slots s).1.forest
  unfolding insert_storage_map_nodes map_roots
  maps_held [] s h r x = elim x [ ]
  maps_held (value _ ∷ slots) s h r x = maps_held slots s h r x
  maps_held (map m ∷ slots) s h r x =
      let first = insert_storage_map_nodes_for_map m s in
      let (h₁, e) = then_step-ok first (insert_storage_map_nodes slots) h in
      rw e (elim (Memᴰ.cases_cons x) [
        | inl here ↦
            (insert_maps-Grows F laws slots first.1).keeps r (rw here (map_held F laws m s h₁))
        | inr later ↦ maps_held slots first.1 (sym (ap (λ y. y.0) e) ∙ h) r later
      ])

  pub account_held :
      (vault : F.AssetVault) (storage : List (StorageSlotContent F)) (s : AccountSmtForest F)
      → (insert_account_state vault storage s).0 ≡ ok tt
      → (r : P.Word) → Memᴰ r (collect_account_roots vault storage)
      → laws.Holds r (insert_account_state vault storage s).1.forest
  unfolding insert_account_state collect_account_roots insert_asset_nodes
  account_held vault storage s h r x =
      let first = insert_storage_map_nodes storage s in
      let (h₁, e) = then_step-ok first (insert_asset_nodes vault) h in
      rw e (elim (Memᴰ.cases_cons x) [
        | inl here ↦ rw here (
            vault_held F laws vault first.1
              (F.smt_entries (list_map (asset_entry F) (F.vault_assets vault))) refl
              (sym (ap (λ y. y.0) e) ∙ h))
        | inr later ↦
            (insert_assets-Grows F laws vault first.1).keeps r (maps_held storage s h₁ r later)
      ])
