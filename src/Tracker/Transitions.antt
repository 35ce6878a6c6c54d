-- ===== src/Tracker/Transitions.antt =====
-- The state transitions that the tracker applies to its notes
-- (crates/rust-client/src/note/note_update_tracker.rs). A method that takes `&mut self` returns its
-- result and the tracker that it leaves behind: what was written before an error stays written.
pub mod Keeps
pub mod Nullified
use miden_client.Base.{
  ℕ, ite, Bool, true, false, Option, none, some, List, [], ◌∷◌, Result, ok, err,
}
use miden_client.Protocol.{Protocol}
use miden_client.BTreeMap.{get, insert}
use miden_client.InputNote.Types.{NoteRecordError}
use miden_client.InputNote.Record as Input
use miden_client.InputNote.Record.{InputNoteRecord}
use miden_client.OutputNote.Record as Output
use miden_client.OutputNote.Record.{OutputNoteRecord}
use miden_client.Transaction.Record.{TransactionRecord, TransactionStatus, committed}
use miden_client.Tracker.Types.{
  NoteUpdateType, NoteUpdateTracker, by_note_id, by_nullifier, CommittedNote, full_metadata,
  NullifierUpdate, ClientError, note_record_conversion_error, expected_data_missing, rpc_error,
}
use miden_client.Tracker.Notes.{touched, insert_input_note}

-- `?` on a result of a note record.
abbrev pub lift :
    {P : Protocol} {A : Type 0} → Result (NoteRecordError P) A → Result (ClientError P) A
lift (ok a) = ok a
lift (err e) = err (note_record_conversion_error e)

-- A method of a record of type R.
abbrev pub Method : Protocol → Type 0 → Type 0
Method P R = R → Result (ClientError P) Bool × R

abbrev pub lifted :
    {P : Protocol} {R : Type 0}
    → Result (NoteRecordError P) Bool × R
    → Result (ClientError P) Bool × R
lifted (result, r) = (lift result, r)

module _ {P : Protocol} where
  -- `get_mut` on the note with this ID, `inner_mut`, which marks the note as updated, and a method
  -- on its record. The result is `none` if the note is not tracked.
  unfoldable pub on_input_note :
      P.NoteId
      → Method P (InputNoteRecord P)
      → NoteUpdateTracker P
      → Option (Result (ClientError P) Bool) × NoteUpdateTracker P
  on_input_note note_id method t = elim (get (by_note_id P) note_id t.input_notes) [
    | none ↦ (none, t)
    | some u ↦
        let (result, note) = method u.note in
        (
          some result,
          record t {
            input_notes =
                insert (by_note_id P) note_id
                  (record { note = note; update_type = touched u.update_type }) t.input_notes;
          },
        )
  ]

  unfoldable pub on_output_note :
      P.NoteId
      → Method P (OutputNoteRecord P)
      → NoteUpdateTracker P
      → Option (Result (ClientError P) Bool) × NoteUpdateTracker P
  on_output_note note_id method t = elim (get (by_note_id P) note_id t.output_notes) [
    | none ↦ (none, t)
    | some u ↦
        let (result, note) = method u.note in
        (
          some result,
          record t {
            output_notes =
                insert (by_note_id P) note_id
                  (record { note = note; update_type = touched u.update_type }) t.output_notes;
          },
        )
  ]

  insert_received :
      Result (NoteRecordError P) Bool × InputNoteRecord P
      → NoteUpdateTracker P
      → Result (ClientError P) (Unit {0}) × NoteUpdateTracker P
  insert_received (err e, note) t = (err (note_record_conversion_error e), t)
  insert_received (ok _, note) t = (ok tt, insert_input_note note NoteUpdateType.insert t)

  unfoldable pub apply_new_public_note :
      InputNoteRecord P
      → P.BlockHeader
      → NoteUpdateTracker P
      → Result (ClientError P) (Unit {0}) × NoteUpdateTracker P
  unfolding insert_received
  apply_new_public_note public_note block_header t =
      insert_received (Input.block_header_received block_header public_note) t

  -- What a commit does to the record of an input note: the metadata must be known, and then the
  -- inclusion proof and the block header are received.
  unfoldable pub commit_input : CommittedNote P → P.BlockHeader → Method P (InputNoteRecord P)
  commit_input c block_header r = elim (full_metadata c.metadata) [
    | none ↦
        (err (rpc_error (expected_data_missing "full metadata for committed note " c.note_id)), r)
    | some m ↦
        let (proved, r') = Input.inclusion_proof_received c.inclusion_proof m r in
        elim proved [
          | err e ↦ (err (note_record_conversion_error e), r')
          | ok _ ↦ lifted (Input.block_header_received block_header r')
        ]
  ]

  unfoldable pub commit_output : CommittedNote P → Method P (OutputNoteRecord P)
  commit_output c r = lifted (Output.inclusion_proof_received c.inclusion_proof r)

  -- The output part of a method of the tracker, once the input part returned `done`.
  then_output :
      {A : Type 0}
      → A
      → Option (Result (ClientError P) Bool) × NoteUpdateTracker P
      → Result (ClientError P) A × NoteUpdateTracker P
  then_output done (none, t) = (ok done, t)
  then_output done (some (ok _), t) = (ok done, t)
  then_output done (some (err e), t) = (err e, t)

  -- An error of the input part returns, and otherwise the output part follows, with whether there
  -- was an input note.
  then_input :
      {A : Type 0}
      → (Bool → NoteUpdateTracker P → Result (ClientError P) A × NoteUpdateTracker P)
      → Option (Result (ClientError P) Bool) × NoteUpdateTracker P
      → Result (ClientError P) A × NoteUpdateTracker P
  then_input next (none, t) = next false t
  then_input next (some (ok _), t) = next true t
  then_input next (some (err e), t) = (err e, t)

  unfoldable pub apply_committed_note_state_transitions :
      CommittedNote P
      → P.BlockHeader
      → NoteUpdateTracker P
      → Result (ClientError P) Bool × NoteUpdateTracker P
  unfolding then_input then_output on_input_note on_output_note
  apply_committed_note_state_transitions c block_header t =
      then_input
        (λ is_tracked t'. then_output is_tracked (on_output_note c.note_id (commit_output c) t'))
        (on_input_note c.note_id (commit_input c block_header) t)

  -- The first committed transaction that is the consumer of the note.
  unfoldable pub find_consumer :
      InputNoteRecord P → List (TransactionRecord P) → Option (TransactionRecord P)
  find_consumer r [] = none
  find_consumer r (tx ∷ txs) = elim (Input.consumer_transaction_id r) [
    | some id ↦ ite (P.transaction_id_eq id tx.id) (some tx) (find_consumer r txs)
    | none ↦ find_consumer r txs
  ]

  committed_by :
      TransactionRecord P
      → TransactionStatus
      → InputNoteRecord P
      → Result (NoteRecordError P) Bool × InputNoteRecord P
  committed_by tx (committed block_number _) r = Input.transaction_committed tx.id block_number r
  committed_by tx _ r = (ok false, r)

  ordered :
      Option ℕ
      → Result (NoteRecordError P) Bool × InputNoteRecord P
      → Result (ClientError P) Bool × InputNoteRecord P
  ordered order (err e, r) = (err (note_record_conversion_error e), r)
  ordered order (ok b, r) = (ok b, Input.set_consumed_tx_order order r)

  -- What a nullifier does to the record of an input note: its own transaction was committed, or it
  -- was consumed externally; then the order of the consumer is set.
  unfoldable pub nullify_input :
      Option ℕ → NullifierUpdate P → List (TransactionRecord P) → Method P (InputNoteRecord P)
  unfolding committed_by ordered
  nullify_input order n txs r = elim (find_consumer r txs) [
    | some tx ↦ ordered order (committed_by tx tx.status r)
    | none ↦ ordered order (Input.consumed_externally n.nullifier n.block_num r)
  ]

  unfoldable pub nullify_output : NullifierUpdate P → Method P (OutputNoteRecord P)
  nullify_output n r = lifted (Output.nullifier_received n.nullifier n.block_num r)

  -- The notes that the nullifier indices name.
  nullified_input :
      Option P.NoteId
      → NullifierUpdate P
      → List (TransactionRecord P)
      → NoteUpdateTracker P
      → Option (Result (ClientError P) Bool) × NoteUpdateTracker P
  nullified_input none n txs t = (none, t)
  nullified_input (some note_id) n txs t =
      on_input_note note_id
        (nullify_input (get (by_nullifier P) n.nullifier t.nullifier_order) n txs) t

  nullified_output :
      Option P.NoteId
      → NullifierUpdate P
      → NoteUpdateTracker P
      → Option (Result (ClientError P) Bool) × NoteUpdateTracker P
  nullified_output none n t = (none, t)
  nullified_output (some note_id) n t = on_output_note note_id (nullify_output n) t

  unfoldable pub apply_nullifiers_state_transitions :
      NullifierUpdate P
      → List (TransactionRecord P)
      → NoteUpdateTracker P
      → Result (ClientError P) (Unit {0}) × NoteUpdateTracker P
  unfolding then_input then_output nullified_input nullified_output on_input_note on_output_note
  apply_nullifiers_state_transitions n txs t =
      then_input
        (λ _ t'.
          then_output tt
            (nullified_output (get (by_nullifier P) n.nullifier t'.output_notes_by_nullifier) n t'))
        (nullified_input (get (by_nullifier P) n.nullifier t.input_notes_by_nullifier) n txs t)
