-- ===== src/Store/Forest/Api.antt =====
-- What the forest of the accounts takes from the crates miden-protocol and miden-crypto: the forest
-- of sparse Merkle trees, and the vault and the storage of an account.
use miden_client.Base.{◌≡◌, ◌⊎◌, Bool, List, [], Result, ok}
use miden_client.Protocol.{Protocol}
use miden_client.BTreeMap.{Ord}
use mathlib.Core.List.{Memᴰ, map as list_map}
use miden_client.BTreeMap.Sorted.{OrdLaws}

pub record ForestApi (P : Protocol) : Type 1 where
  -- `Ord` of the keys
  pub word_lt : P.Word → P.Word → Bool
  pub account_id_lt : P.AccountId → P.AccountId → Bool
  -- `SmtForest`
  pub SmtForest : Type 0
  pub MerkleError : Type 0
  pub default : SmtForest
  pub pop_smts : List P.Word → SmtForest → SmtForest
  pub batch_insert :
      P.Word → List (P.Word × P.Word) → SmtForest → Result MerkleError P.Word × SmtForest
  -- `EmptySubtreeRoots::entry(SMT_DEPTH, 0)` and `EMPTY_WORD`
  pub empty_root : P.Word
  pub empty_word : P.Word
  -- `Asset` and `AssetVaultKey`
  pub Asset : Type 0
  pub AssetVaultKey : Type 0
  pub vault_key : Asset → AssetVaultKey
  pub vault_key_word : AssetVaultKey → P.Word
  pub to_value_word : Asset → P.Word
  -- `AssetVault`, and the entries of `Smt::with_entries`
  pub AssetVault : Type 0
  pub vault_assets : AssetVault → List Asset
  pub vault_root : AssetVault → P.Word
  pub smt_entries : List (P.Word × P.Word) → Result MerkleError (List (P.Word × P.Word))
  -- `AccountStorage`, its slots and their maps
  pub StorageMap : Type 0
  pub StorageMapKey : Type 0
  pub hash_key : StorageMapKey → P.Word
  pub map_entries : StorageMap → List (StorageMapKey × P.Word)
  pub map_root : StorageMap → P.Word

pub data StorageSlotContent {P : Protocol} (F : ForestApi P) : Type 0 where
  value : P.Word → StorageSlotContent F
  map : F.StorageMap → StorageSlotContent F

abbrev pub by_word : {P : Protocol} → ForestApi P → Ord P.Word
by_word {P} F = record { eq = P.word_eq; lt = F.word_lt }

abbrev pub by_account : {P : Protocol} → ForestApi P → Ord P.AccountId
by_account {P} F = record { eq = P.account_id_eq; lt = F.account_id_lt }

module _ {P : Protocol} (F : ForestApi P) where
  abbrev pub asset_entry : F.Asset → P.Word × P.Word
  asset_entry asset = (F.vault_key_word (F.vault_key asset), F.to_value_word asset)

  abbrev pub map_entry : F.StorageMapKey × P.Word → P.Word × P.Word
  map_entry (key, new_value) = (F.hash_key key, new_value)

-- What the client relies on of these crates.
pub record ForestLaws {P : Protocol} (F : ForestApi P) : Type 1 where
  pub words : OrdLaws (by_word F)
  pub accounts : OrdLaws (by_account F)
  -- The forest holds the tree with a root.
  pub Holds : P.Word → F.SmtForest → Type 0
  pub holds_empty : (f : F.SmtForest) → Holds F.empty_root f
  -- Trees are popped by their roots.
  pub pop_smts-Holds :
      (r : P.Word) (roots : List P.Word) (f : F.SmtForest)
      → Holds r f
      → Holds r (F.pop_smts roots f) ⊎ Memᴰ r roots
  -- A batch keeps the trees that there are, and adds its result.
  pub batch_insert_keeps :
      (r root : P.Word) (entries : List (P.Word × P.Word)) (f : F.SmtForest)
      → Holds r f
      → Holds r (F.batch_insert root entries f).1
  pub batch_insert_adds :
      (root new_root : P.Word) (entries : List (P.Word × P.Word)) (f : F.SmtForest)
      → (F.batch_insert root entries f).0 ≡ ok new_root
      → Holds new_root (F.batch_insert root entries f).1
  -- The root of a tree comes of its entries.
  pub map_empty : (m : F.StorageMap) → F.map_entries m ≡ [] → F.map_root m ≡ F.empty_root
  pub map_batch :
      (m : F.StorageMap) (new_root : P.Word) (f : F.SmtForest)
      → (F.batch_insert F.empty_root (list_map (map_entry F) (F.map_entries m)) f).0 ≡ ok new_root
      → F.map_root m ≡ new_root
  pub vault_empty :
      (v : F.AssetVault)
      → F.smt_entries (list_map (asset_entry F) (F.vault_assets v)) ≡ ok []
      → F.vault_root v ≡ F.empty_root
  pub vault_batch :
      (v : F.AssetVault) (entries : List (P.Word × P.Word)) (new_root : P.Word) (f : F.SmtForest)
      → F.smt_entries (list_map (asset_entry F) (F.vault_assets v)) ≡ ok entries
      → (F.batch_insert F.empty_root entries f).0 ≡ ok new_root
      → F.vault_root v ≡ new_root
