-- ===== src/Sync/State.antt =====
-- A synchronisation from its start to its update
-- (crates/rust-client/src/sync/state_sync.rs).
use miden_client.Base.{
  ℕ, ◌-◌, ◌^◌, Bool, true, false, [], map, ltb, ◌==◌, if◌then◌else◌, Result, ok, err,
}
use miden_client.Protocol.{Protocol}
use miden_client.Tracker.Notes as Tracker
use miden_client.Transaction.Updates as Transactions
use miden_client.Transaction.Updates.{TransactionInclusion}
use miden_client.Sync.Headers.{HeaderApi}
use miden_client.Sync.Api.{
  SyncApi, SyncError, invalid_partial_mmr_forest, and_then, StateSyncOptions, StateSyncInput,
}
use miden_client.Sync.Updates.{AccountUpdates, StateSyncUpdate, AccountUpdates}
use miden_client.Sync.Accounts.{account_state_sync}
use miden_client.Sync.Notes.{nullifiers_state_sync}
use miden_client.Sync.Fetch.{RawStateSyncData, fetch_sync_data}
use miden_client.Sync.Apply.{SyncState, public_note_records, apply_sync_result}

module _ {P : Protocol} {H : HeaderApi P} (A : SyncApi P H) where
  -- `StateSyncUpdate::default()` with the tracked notes and transactions
  unfoldable pub start : ℕ → StateSyncInput A → StateSyncUpdate A
  start block_num input = record {
    block_num = block_num;
    block_updates = record { block_headers = []; new_authentication_nodes = [] };
    note_updates = Tracker.new input.input_notes input.output_notes;
    transaction_updates = Transactions.new input.uncommitted_transactions;
    account_updates = record { updated_public_accounts = []; mismatched_private_accounts = [] };
  }

  -- `if self.sync_nullifiers`
  abbrev pub when_enabled : Bool → ℕ → SyncState A → Result (SyncError A) (Unit {0}) × SyncState A
  when_enabled true block_num s =
      let (r, u) = nullifiers_state_sync A block_num s.0 in (r, (u, s.1))
  when_enabled false block_num s = (ok tt, s)

  abbrev pub after_accounts :
      StateSyncOptions
      → ℕ
      → RawStateSyncData A
      → AccountUpdates A
      → SyncState A
      → Result (SyncError A) (Unit {0}) × SyncState A
  after_accounts options block_num d account_updates s =
      and_then
        (apply_sync_result A options d (public_note_records A d.public_notes d.note_blocks [])
          (record (s.0) { account_updates = account_updates }, s.1))
        (λ _ s'. when_enabled options.sync_nullifiers block_num s')

  -- What is done if the chain tip is new.
  abbrev pub apply_fetched :
      StateSyncOptions
      → StateSyncInput A
      → ℕ
      → RawStateSyncData A
      → SyncState A
      → Result (SyncError A) (Unit {0}) × SyncState A
  apply_fetched options input block_num d (u, mmr) =
      and_then
        (
          account_state_sync A input.accounts d.account_commitment_updates u.account_updates,
          (record u { block_num = d.chain_tip }, mmr),
        )
        (λ account_updates s. after_accounts options block_num d account_updates s)

  -- `u32::try_from(num_leaves.saturating_sub(1))`
  abbrev pub current_block : A.PartialMmr → Result (SyncError A) ℕ
  current_block mmr =
      let n = A.num_leaves mmr - 1 in
      if ltb n (2 ^ 32) then ok n else err invalid_partial_mmr_forest

  -- The end of `sync_state`; the flag says that there is no progress.
  abbrev pub finish :
      Bool
      → StateSyncOptions
      → StateSyncInput A
      → ℕ
      → RawStateSyncData A
      → A.PartialMmr
      → Result (SyncError A) (StateSyncUpdate A) × A.PartialMmr
  finish true options input block_num d mmr = (ok (start block_num input), mmr)
  finish false options input block_num d mmr =
      let (r, (u, mmr')) = apply_fetched options input block_num d (start block_num input, mmr) in
      and_then (r, mmr') (λ _ mmr''. (ok u, mmr''))

  -- The update that `sync_state` returns, or its error, and the range that it leaves. The update of
  -- a failed synchronisation is lost in the program.
  unfoldable pub sync_state :
      StateSyncOptions
      → StateSyncInput A
      → A.PartialMmr
      → Result (SyncError A) (StateSyncUpdate A) × A.PartialMmr
  sync_state options input mmr =
      and_then (current_block mmr, mmr)
        (λ block_num mmr'.
          and_then
            (fetch_sync_data A block_num (map A.header_id input.accounts) input.note_tags, mmr')
            (λ d mmr''. finish (d.chain_tip == block_num) options input block_num d mmr''))
