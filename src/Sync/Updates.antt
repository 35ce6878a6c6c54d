-- ===== src/Sync/Updates.antt =====
-- The block and account updates of a synchronisation
-- (crates/rust-client/src/sync/state_sync_update.rs).
use miden_client.Base.{ℕ, Bool, ◌||◌, none, some, List, ◌++◌, ℕ_discrete, ltb}
use miden_client.Protocol.{Protocol}
use miden_client.BTreeMap.{Ord, BTreeMap, get, insert}
use miden_client.Tracker.Types.{NoteUpdateTracker}
use miden_client.Transaction.Updates.{TransactionUpdateTracker}
use miden_client.Sync.Headers.{HeaderApi}
use miden_client.Sync.Api.{SyncApi}

-- Block numbers in order
abbrev pub by_block : Ord ℕ
by_block = record { eq = ℕ_discrete; lt = ltb }

pub record BlockUpdates {P : Protocol} {H : HeaderApi P} (A : SyncApi P H) : Type 0 where
  pub block_headers : BTreeMap ℕ (P.BlockHeader × Bool × A.MmrPeaks)
  pub new_authentication_nodes : List (A.InOrderIndex × P.Word)

pub record AccountUpdates {P : Protocol} {H : HeaderApi P} (A : SyncApi P H) : Type 0 where
  pub updated_public_accounts : List A.Account
  pub mismatched_private_accounts : List (P.AccountId × P.Word)

pub record StateSyncUpdate {P : Protocol} {H : HeaderApi P} (A : SyncApi P H) : Type 0 where
  pub block_num : ℕ
  pub block_updates : BlockUpdates A
  pub note_updates : NoteUpdateTracker P
  pub transaction_updates : TransactionUpdateTracker P
  pub account_updates : AccountUpdates A

module _ {P : Protocol} {H : HeaderApi P} (A : SyncApi P H) where
  -- `entry(..).and_modify(..).or_insert(..)`
  unfoldable pub insert_block :
      P.BlockHeader
      → Bool
      → A.MmrPeaks
      → List (A.InOrderIndex × P.Word)
      → BlockUpdates A
      → BlockUpdates A
  insert_block block_header has_client_notes peaks new_authentication_nodes u =
      let block_num = A.header_block_num block_header in
      record {
        block_headers = elim (get by_block block_num u.block_headers) [
          | some (header, has_notes, old_peaks) ↦
              insert by_block block_num (header, has_notes || has_client_notes, old_peaks)
                u.block_headers
          | none ↦ insert by_block block_num (block_header, has_client_notes, peaks) u.block_headers
        ];
        new_authentication_nodes = u.new_authentication_nodes ++ new_authentication_nodes;
      }

  unfoldable pub extend_authentication_nodes :
      List (A.InOrderIndex × P.Word) → BlockUpdates A → BlockUpdates A
  extend_authentication_nodes nodes u = record u {
    new_authentication_nodes = u.new_authentication_nodes ++ nodes;
  }

  unfoldable pub extend_accounts : AccountUpdates A → AccountUpdates A → AccountUpdates A
  extend_accounts other u = record {
    updated_public_accounts = u.updated_public_accounts ++ other.updated_public_accounts;
    mismatched_private_accounts =
        u.mismatched_private_accounts ++ other.mismatched_private_accounts;
  }
