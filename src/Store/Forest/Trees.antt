-- ===== src/Store/Forest/Trees.antt =====
-- Putting trees into the forest, alone and with the roots of an account
-- (crates/rust-client/src/store/smt_forest.rs).
use miden_client.Base.{Option, some, List, [], ◌∷◌, ◌++◌, if◌then◌else◌, Result, ok, err}
use miden_client.Protocol.{Protocol}
use mathlib.Core.Option
use mathlib.Core.List.{map as list_map}
use miden_client.Store.Forest.Api.{
  ForestApi, asset_entry, map_entry, StorageSlotContent, value, map,
}
use miden_client.Store.Forest.{
  AccountSmtForest, StoreError, merkle_error, is_empty, stage_roots, replace_roots,
}

-- `map_err(StoreError::from)`
abbrev pub from_merkle :
    {P : Protocol} {F : ForestApi P} {A : Type 0} → Result F.MerkleError A → Result (StoreError F) A
from_merkle (ok x) = ok x
from_merkle (err e) = err (merkle_error e)

module _ {P : Protocol} {F : ForestApi P} where
  -- `batch_insert`, unless there is nothing to insert.
  unfoldable pub insert_entries :
      P.Word
      → List (P.Word × P.Word)
      → AccountSmtForest F
      → Result (StoreError F) P.Word × AccountSmtForest F
  insert_entries root entries s = if is_empty entries then (ok root, s) else (
    from_merkle (F.batch_insert root entries s.forest).0,
    record s { forest = (F.batch_insert root entries s.forest).1 },
  )

  unfoldable pub update_asset_nodes :
      P.Word
      → List F.Asset
      → List F.AssetVaultKey
      → AccountSmtForest F
      → Result (StoreError F) P.Word × AccountSmtForest F
  update_asset_nodes root new_assets removed_vault_keys s =
      insert_entries root
        (list_map (asset_entry F) new_assets
          ++ list_map (λ key. (F.vault_key_word key, F.empty_word)) removed_vault_keys)
        s

  unfoldable pub update_storage_map_nodes :
      P.Word
      → List (F.StorageMapKey × P.Word)
      → AccountSmtForest F
      → Result (StoreError F) P.Word × AccountSmtForest F
  update_storage_map_nodes root entries s = insert_entries root (list_map (map_entry F) entries) s

  -- `?` on a result that is not used.
  abbrev pub done :
      Result (StoreError F) P.Word × AccountSmtForest F
      → Result {0, 0} (StoreError F) Unit × AccountSmtForest F
  done (ok _, s) = (ok tt, s)
  done (err e, s) = (err e, s)

  -- What follows `Smt::with_entries`; the assertion on the new root is for debug builds.
  abbrev pub insert_smt :
      Result F.MerkleError (List (P.Word × P.Word))
      → AccountSmtForest F
      → Result {0, 0} (StoreError F) Unit × AccountSmtForest F
  insert_smt (err e) s = (err (merkle_error e), s)
  insert_smt (ok entries) s = done (insert_entries F.empty_root entries s)

  unfoldable pub insert_asset_nodes :
      F.AssetVault → AccountSmtForest F → Result {0, 0} (StoreError F) Unit × AccountSmtForest F
  insert_asset_nodes vault s =
      insert_smt (F.smt_entries (list_map (asset_entry F) (F.vault_assets vault))) s

  unfoldable pub insert_storage_map_nodes_for_map :
      F.StorageMap → AccountSmtForest F → Result {0, 0} (StoreError F) Unit × AccountSmtForest F
  insert_storage_map_nodes_for_map m s =
      done (insert_entries F.empty_root (list_map (map_entry F) (F.map_entries m)) s)

  -- `?` between two steps on the forest
  abbrev pub then_step :
      Result {0, 0} (StoreError F) Unit × AccountSmtForest F
      → (AccountSmtForest F → Result {0, 0} (StoreError F) Unit × AccountSmtForest F)
      → Result {0, 0} (StoreError F) Unit × AccountSmtForest F
  then_step (ok _, s) f = f s
  then_step (err e, s) f = (err e, s)

  -- Over `storage.slots()`
  unfoldable pub insert_storage_map_nodes :
      List (StorageSlotContent F)
      → AccountSmtForest F
      → Result {0, 0} (StoreError F) Unit × AccountSmtForest F
  insert_storage_map_nodes [] s = (ok tt, s)
  insert_storage_map_nodes (value _ ∷ slots) s = insert_storage_map_nodes slots s
  insert_storage_map_nodes (map m ∷ slots) s =
      then_step (insert_storage_map_nodes_for_map m s) (insert_storage_map_nodes slots)

  unfoldable pub insert_account_state :
      F.AssetVault
      → List (StorageSlotContent F)
      → AccountSmtForest F
      → Result {0, 0} (StoreError F) Unit × AccountSmtForest F
  insert_account_state vault storage s =
      then_step (insert_storage_map_nodes storage s) (insert_asset_nodes vault)

  unfoldable pub map_roots : List (StorageSlotContent F) → List P.Word
  map_roots [] = []
  map_roots (value _ ∷ slots) = map_roots slots
  map_roots (map m ∷ slots) = F.map_root m ∷ map_roots slots

  unfoldable pub collect_account_roots : F.AssetVault → List (StorageSlotContent F) → List P.Word
  collect_account_roots vault storage = F.vault_root vault ∷ map_roots storage

  unfoldable pub insert_and_stage_account_state :
      P.AccountId
      → F.AssetVault
      → List (StorageSlotContent F)
      → AccountSmtForest F
      → Result {0, 0} (StoreError F) Unit × AccountSmtForest F
  insert_and_stage_account_state account_id vault storage s =
      then_step (insert_account_state vault storage s)
        (λ s'. (ok tt, stage_roots account_id (collect_account_roots vault storage) s'))

  -- `none` is the panic of `replace_roots`.
  abbrev pub register :
      P.AccountId
      → List P.Word
      → Result {0, 0} (StoreError F) Unit × AccountSmtForest F
      → Option (Result {0, 0} (StoreError F) Unit × AccountSmtForest F)
  register account_id roots (err e, s) = some (err e, s)
  register account_id roots (ok _, s) =
      Option.map (λ s'. (ok tt, s')) (replace_roots account_id roots s)

  unfoldable pub insert_and_register_account_state :
      P.AccountId
      → F.AssetVault
      → List (StorageSlotContent F)
      → AccountSmtForest F
      → Option (Result {0, 0} (StoreError F) Unit × AccountSmtForest F)
  insert_and_register_account_state account_id vault storage s =
      register account_id (collect_account_roots vault storage)
        (insert_account_state vault storage s)
