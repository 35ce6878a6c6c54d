-- ===== src/Sync/Fetch.antt =====
-- What a synchronisation fetches from the node
-- (crates/rust-client/src/sync/state_sync.rs).
use miden_client.Base.{ℕ, Bool, true, false, some, List, [], ◌∷◌, ◌==◌, Result, ok}
use miden_client.Protocol.{Protocol}
use miden_client.BTreeMap.{BTreeMap}
use miden_client.Transaction.Updates.{TransactionInclusion}
use miden_client.Sync.Headers.{HeaderApi, RpcTransactionRecord}
use miden_client.Sync.Nullifiers.{compute_ordered_nullifiers, initial_state}
use miden_client.Sync.Api.{SyncApi, SyncError, failed, NoteSyncBlock, try_ok, map_err}
use miden_client.Sync.Accounts.{derive_account_commitment_updates}

pub record RawStateSyncData {P : Protocol} {H : HeaderApi P} (A : SyncApi P H) : Type 0 where
  pub chain_tip : ℕ
  pub mmr_delta : A.MmrDelta
  pub chain_tip_header : P.BlockHeader
  pub note_blocks : List (NoteSyncBlock P A.MerklePath)
  pub public_notes : BTreeMap P.NoteId P.Note
  pub account_commitment_updates : List (P.AccountId × P.Word)
  pub transactions : List (TransactionInclusion P)
  pub nullifiers : List P.Nullifier

module _ {P : Protocol} {H : HeaderApi P} (A : SyncApi P H) where
  abbrev pub inclusions : List (RpcTransactionRecord H) → List (TransactionInclusion P)
  inclusions [] = []
  inclusions (r ∷ rs) =
      record {
        transaction_id = H.id r.transaction_header;
        block_num = r.block_num;
        account_id = H.account_id r.transaction_header;
        initial_state_commitment = initial_state r;
      }
      ∷ inclusions rs

  unfoldable pub fetch_transaction_data :
      ℕ
      → ℕ
      → List P.AccountId
      → Result
          (SyncError A)
          (List (P.AccountId × P.Word) × List (TransactionInclusion P) × List P.Nullifier)
  fetch_transaction_data block_from block_to [] = ok ([], [], [])
  fetch_transaction_data block_from block_to (id ∷ ids) =
      try_ok (map_err failed (A.sync_transactions block_from (some block_to) (id ∷ ids)))
        (λ records. ok (
          derive_account_commitment_updates records,
          inclusions records,
          compute_ordered_nullifiers records,
        ))

  abbrev pub raw_data :
      P.BlockHeader
      → A.MmrDelta
      → List (NoteSyncBlock P A.MerklePath) × BTreeMap P.NoteId P.Note
      → List (P.AccountId × P.Word) × List (TransactionInclusion P) × List P.Nullifier
      → RawStateSyncData A
  raw_data chain_tip_header delta notes fetched = record {
    chain_tip = A.header_block_num chain_tip_header;
    mmr_delta = delta;
    chain_tip_header = chain_tip_header;
    note_blocks = notes.0;
    public_notes = notes.1;
    account_commitment_updates = fetched.0;
    transactions = fetched.1;
    nullifiers = fetched.2;
  }

  -- What is fetched; the flag says that the client is at the chain tip.
  abbrev pub fetch_new :
      Bool
      → ℕ
      → List P.AccountId
      → List P.NoteTag
      → P.BlockHeader
      → Result (SyncError A) (RawStateSyncData A)
  fetch_new true current_block_num account_ids note_tags chain_tip_header =
      ok (raw_data chain_tip_header (A.no_delta current_block_num) ([], []) ([], [], []))
  fetch_new false current_block_num account_ids note_tags chain_tip_header =
      let chain_tip = A.header_block_num chain_tip_header in
      try_ok (map_err failed (A.sync_chain_mmr current_block_num (some chain_tip))) (λ delta.
        try_ok
          (map_err failed (A.sync_notes_with_details current_block_num (some chain_tip) note_tags))
          (λ notes.
            try_ok (fetch_transaction_data current_block_num chain_tip account_ids)
              (λ fetched. ok (raw_data chain_tip_header delta notes fetched))))

  unfoldable pub fetch_sync_data :
      ℕ → List P.AccountId → List P.NoteTag → Result (SyncError A) (RawStateSyncData A)
  fetch_sync_data current_block_num account_ids note_tags =
      try_ok (map_err failed A.get_chain_tip_header) (λ chain_tip_header.
        fetch_new (A.header_block_num chain_tip_header == current_block_num) current_block_num
          account_ids note_tags chain_tip_header)
