-- ===== src/Tests/SyncRuns.antt =====
-- A synchronisation with a small node: the tip is block 3, the client is at block 2, and the block
-- has one note.
use miden_client.Base.{ℕ, ◌+◌, ◌≡◌, refl, ◌≢◌, true, false, some, [], ◌∷◌, ℕ_discrete, ok, err}
use miden_client.BTreeMap.{get, insert}
use miden_client.InputNote.Record.{InputNoteRecord}
use miden_client.Tracker.Types.{CommittedNote, full}
use miden_client.Tracker.Notes.{
  new, insert_input_notes, insert_input_note, insert_output_notes, unspent_nullifiers,
}
use miden_client.Tracker.Indexed.{IsIndexed}
use miden_client.Tracker.Reported.{Reports}
use miden_client.Sync.Api.{SyncApi, StateSyncInput, StateSyncOptions, discard, private_account}
use miden_client.Sync.Updates.{StateSyncUpdate, insert_block, extend_accounts}
use miden_client.Tracker.Order.{extend_nullifiers, extend_order}
use miden_client.Tracker.Transitions.{
  apply_nullifiers_state_transitions, on_input_note, nullify_input, find_consumer,
}
use miden_client.InputNote.Record as Input
use miden_client.Transaction.Updates as Transactions
use miden_client.Transaction.Updates.{
  apply_sync_height_update, discard_transaction_with_predicate, apply_input_note_nullified,
  committed_transactions,
}
use miden_client.Sync.Accounts.{
  account_state_sync, get_updated_public_accounts, fetch_newer, mismatched_public,
  mismatched_private, derive_account_commitment_updates, latest_by_account,
}
use miden_client.Sync.Notes.{
  note_state_sync, receive_notes, nullifiers_state_sync, nullify_all, nullify,
  transaction_state_sync,
}
use miden_client.Sync.Nullifiers.{compute_ordered_nullifiers, group}
use miden_client.Sync.Fetch.{fetch_sync_data, fetch_transaction_data}
use miden_client.Sync.Apply.{apply_sync_result, apply_blocks, public_note_records}
use miden_client.Sync.State.{start, sync_state}
use miden_client.Sync.Fuel.{sync_state-NoFuel}
use miden_client.Sync.Api.{out_of_fuel}
use miden_client.Sync.Refines.{Consumed, sync_state-IsIndexed}
use miden_client.Sync.Outcome.{Outcome, sync_state-Outcome}
use miden_client.Tests.Toy.{toy}
use miden_client.Tests.Syncs.{headers}
use miden_client.Tests.Trackers.{proved, toy_NoCollision}

abbrev committed_proved : CommittedNote toy
committed_proved = record { note_id = 5; metadata = full 7; inclusion_proof = 3 }

abbrev node : SyncApi toy headers
node = record {
  Failure = ℕ;
  header_block_num = λ h. h;
  header_commitment = λ h. h;
  timestamp = λ h. 1000 + h;
  metadata_note_type = λ m. m;
  is_private_note = λ t. true;
  on_note_received = λ c note. ok discard;
  nullifier_prefix = λ n. n;
  sync_nullifiers = λ tags from to. ok (record { nullifier = 5; block_num = 3 } ∷ []);
  Account = ℕ;
  account_id = λ a. a;
  account_nonce = λ a. a;
  AccountHeader = ℕ;
  header_id = λ h. h;
  header_nonce = λ h. 0;
  to_commitment = λ h. 0;
  is_private = λ id. true;
  get_account_details = λ id. ok private_account;
  PartialMmr = ℕ;
  MmrDelta = ℕ;
  MmrPeaks = ℕ;
  MerklePath = ℕ;
  InOrderIndex = ℕ;
  index_eq = ℕ_discrete;
  no_delta = λ n. n;
  num_leaves = λ mmr. mmr;
  apply_delta = λ delta mmr. (ok [], mmr + delta);
  peaks = λ mmr. mmr;
  add_leaf = λ leaf track mmr. ([], mmr + 1);
  is_tracked = λ mmr pos. false;
  track_leaf = λ pos leaf path mmr. (ok tt, mmr);
  nodes = λ mmr. [];
  get_chain_tip_header = ok 3;
  sync_chain_mmr = λ from to. ok 0;
  sync_notes_with_details = λ from to tags.
      ok (record { block_header = 3; mmr_path = 0; notes = (5, committed_proved) ∷ [] } ∷ [], []);
  sync_transactions = λ from to ids. ok [];
}

abbrev input : StateSyncInput node
input = record {
  accounts = 1 ∷ [];
  note_tags = [];
  input_notes = proved ∷ [];
  output_notes = [];
  uncommitted_transactions = [];
}

abbrev options : StateSyncOptions
options = record { tx_discard_delta = some 20; sync_nullifiers = true }

abbrev returned : StateSyncUpdate node
returned = elim ((sync_state node options input 3).0) [ ok u ↦ u | err _ ↦ start node 0 input ]

returned-ok : (sync_state node options input 3).0 ≡ ok returned
unfolding sync_state fetch_sync_data fetch_transaction_data account_state_sync
    get_updated_public_accounts fetch_newer mismatched_public derive_account_commitment_updates
    latest_by_account apply_sync_result apply_blocks note_state_sync receive_notes start new get
    insert insert_input_notes insert_input_note insert_output_notes extend_nullifiers extend_order
    nullifiers_state_sync nullify_all nullify apply_nullifiers_state_transitions
    transaction_state_sync apply_sync_height_update discard_transaction_with_predicate
    apply_input_note_nullified compute_ordered_nullifiers group insert_block public_note_records
    ℕ_discrete on_input_note nullify_input find_consumer Input.consumed_externally
    Input.consumer_transaction_id Input.id Input.nullifier unspent_nullifiers committed_transactions
    Transactions.new extend_accounts mismatched_private
returned-ok = refl

sync_state-Outcome_example : Outcome node options input 3 returned
sync_state-Outcome_example = sync_state-Outcome node options input 3 returned returned-ok

sync_state-IsIndexed_example :
    IsIndexed returned.note_updates
    × Reports (new (proved ∷ []) []) returned.note_updates
    × Consumed node options input 3 returned
sync_state-IsIndexed_example =
    sync_state-IsIndexed node options input toy_NoCollision tt 3 returned returned-ok

sync_state-NoFuel_example : (sync_state node options input 3).0 ≢ err out_of_fuel
sync_state-NoFuel_example = sync_state-NoFuel node options input 3
