-- ===== src/Sync/Apply.antt =====
-- How a synchronisation applies the notes, the blocks and the transactions of the node
-- (crates/rust-client/src/sync/state_sync.rs).
use miden_client.Base.{
  true, false, Option, none, some, List, [], ◌∷◌, ◌++◌, map, if◌then◌else◌, Result, ok, err,
}
use miden_client.Protocol.{Protocol}
use miden_client.BTreeMap.{BTreeMap, get, insert}
use miden_client.InputNote.Types.{unverified}
use miden_client.InputNote.Record.{InputNoteRecord}
use miden_client.InputNote.Record as Input
use miden_client.Tracker.Types.{NoteUpdateTracker, by_note_id}
use miden_client.Tracker.Order.{extend_nullifiers}
use miden_client.Transaction.Updates as Transactions
use miden_client.Transaction.Updates.{TransactionInclusion}
use miden_client.Sync.Headers.{HeaderApi}
use miden_client.Sync.Api.{
  SyncApi, SyncError, failed, panicked, out_of_fuel, NoteSyncBlock, and_then, map_err,
  StateSyncOptions,
}
use miden_client.Sync.Updates.{StateSyncUpdate, insert_block}
use miden_client.Sync.Notes.{note_state_sync, transaction_state_sync}
use miden_client.Sync.Fetch.{RawStateSyncData}

module _ {P : Protocol} {H : HeaderApi P} (A : SyncApi P H) where
  -- The inclusion proof of a public note in the blocks
  abbrev pub find_proof :
      P.NoteId → List (NoteSyncBlock P A.MerklePath) → Option P.NoteInclusionProof
  find_proof note_id [] = none
  find_proof note_id (b ∷ blocks) =
      let rest = find_proof note_id blocks in
      elim (get (by_note_id P) note_id b.notes) [
        | some committed ↦ some committed.inclusion_proof
        | none ↦ rest
      ]

  abbrev pub public_record : P.Note → P.NoteInclusionProof → InputNoteRecord P
  public_record note proof =
      Input.new (P.note_details note) none
        (unverified (record { metadata = P.note_metadata note; inclusion_proof = proof }))

  -- `public_note_records`, on top of those that there are
  unfoldable pub public_note_records :
      BTreeMap P.NoteId P.Note
      → List (NoteSyncBlock P A.MerklePath)
      → BTreeMap P.NoteId (InputNoteRecord P)
      → BTreeMap P.NoteId (InputNoteRecord P)
  public_note_records [] blocks m = m
  public_note_records ((note_id, note) ∷ notes) blocks m = elim (find_proof note_id blocks) [
    | none ↦ public_note_records notes blocks m
    | some proof ↦
        let r = public_record note proof in
        public_note_records notes blocks (insert (by_note_id P) (Input.id r) r m)
  ]

  -- The nodes that are new after tracking a block.
  abbrev pub new_nodes :
      List (A.InOrderIndex × P.Word)
      → List (A.InOrderIndex × P.Word)
      → List (A.InOrderIndex × P.Word)
  new_nodes before [] = []
  new_nodes before ((k, v) ∷ nodes) =
      let rest = new_nodes before nodes in
      if Transactions.contains A.index_eq k (map (λ x. x.0) before) then rest else (k, v) ∷ rest

  -- A synchronisation changes its update and the range.
  abbrev pub SyncState : Type 0
  SyncState = StateSyncUpdate A × A.PartialMmr

  -- The block is stored with the nodes that are new since its tracking.
  abbrev pub store_tracked : NoteSyncBlock P A.MerklePath → A.PartialMmr → SyncState → SyncState
  store_tracked b before (u, mmr) = (
    record u {
      block_updates =
          insert_block A b.block_header true (A.peaks mmr)
            (new_nodes (A.nodes before) (A.nodes mmr)) u.block_updates;
    },
    mmr,
  )

  -- A relevant block is tracked and stored.
  unfoldable pub track_block :
      NoteSyncBlock P A.MerklePath → SyncState → Result (SyncError A) (Unit {0}) × SyncState
  track_block b (u, mmr) =
      let block_pos = A.header_block_num b.block_header in
      if A.is_tracked mmr block_pos
      then (
        ok tt,
        (
          record u {
            block_updates = insert_block A b.block_header true (A.peaks mmr) [] u.block_updates;
          },
          mmr,
        ),
      )
      else (let (r, mmr') =
            A.track_leaf block_pos (A.header_commitment b.block_header) b.mmr_path mmr in
          and_then (map_err failed r, (u, mmr')) (λ _ s. (ok tt, store_tracked b mmr s)))

  -- The `for` loop over the note blocks
  unfoldable pub apply_blocks :
      List (NoteSyncBlock P A.MerklePath)
      → BTreeMap P.NoteId (InputNoteRecord P)
      → SyncState
      → Result (SyncError A) (Unit {0}) × SyncState
  apply_blocks [] public_notes s = (ok tt, s)
  apply_blocks (b ∷ blocks) public_notes (u, mmr) =
      let (r, notes) = note_state_sync A b.notes b.block_header public_notes u.note_updates in
      and_then (r, (record u { note_updates = notes }, mmr))
        (λ found_relevant_note s.
          and_then (if found_relevant_note then track_block b s else (ok tt, s))
            (λ _ s'. apply_blocks blocks public_notes s'))

  -- `extend_nullifiers`, which panics when its counter overflows.
  abbrev pub with_order :
      Option (NoteUpdateTracker P) → SyncState → Result (SyncError A) (Unit {0}) × SyncState
  with_order none s = (err panicked, s)
  with_order (some notes) (u, mmr) = (ok tt, (record u { note_updates = notes }, mmr))

  abbrev pub with_inclusions :
      Option (Transactions.TransactionUpdateTracker P)
      → SyncState
      → Result (SyncError A) (Unit {0}) × SyncState
  with_inclusions none s = (err out_of_fuel, s)
  with_inclusions (some txs) (u, mmr) = (ok tt, (record u { transaction_updates = txs }, mmr))

  -- The chain tip is stored, with the peaks before it, and becomes a leaf of the range.
  abbrev pub store_tip : P.BlockHeader → List (A.InOrderIndex × P.Word) → SyncState → SyncState
  store_tip header nodes (u, mmr) =
      let (leaf_nodes, mmr') = A.add_leaf (A.header_commitment header) false mmr in
      (
        record u {
          block_updates =
              insert_block A header false (A.peaks mmr) (nodes ++ leaf_nodes) u.block_updates;
        },
        mmr',
      )

  -- The range gets the delta and the chain tip.
  abbrev pub advance_mmr :
      RawStateSyncData A → SyncState → Result (SyncError A) (Unit {0}) × SyncState
  advance_mmr d (u, mmr) =
      let (r, mmr') = A.apply_delta d.mmr_delta mmr in
      and_then (map_err failed r, (u, mmr'))
        (λ nodes s. (ok tt, store_tip d.chain_tip_header nodes s))

  unfoldable pub apply_sync_result :
      StateSyncOptions
      → RawStateSyncData A
      → BTreeMap P.NoteId (InputNoteRecord P)
      → SyncState
      → Result (SyncError A) (Unit {0}) × SyncState
  apply_sync_result options d public_notes s = and_then (advance_mmr d s) (λ _ s₁.
      and_then (apply_blocks d.note_blocks public_notes s₁) (λ _ s₂.
        and_then (with_order (extend_nullifiers d.nullifiers s₂.0.note_updates) s₂) (λ _ s₃.
          with_inclusions
            (transaction_state_sync A options d.chain_tip_header d.transactions
              s₃.0.transaction_updates)
            s₃)))
