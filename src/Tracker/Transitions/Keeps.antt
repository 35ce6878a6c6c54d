-- ===== src/Tracker/Transitions/Keeps.antt =====
-- Properties of the tracker over its transitions, from the methods of its notes
-- (crates/rust-client/src/note/note_update_tracker.rs).
use miden_client.Base.{ℕ, Bool, true, false, Option, none, some, List, Result, ok, err}
use miden_client.Protocol.{Protocol}
use miden_client.BTreeMap.{get}
use miden_client.InputNote.Types.{NoteRecordError}
use miden_client.InputNote.Record as Input
use miden_client.InputNote.Record.{InputNoteRecord}
use miden_client.Transaction.Record.{TransactionRecord}
use miden_client.Tracker.Types.{
  NoteUpdateType, NoteUpdateTracker, by_nullifier, CommittedNote, NullifierUpdate, ClientError,
}
use miden_client.Tracker.Notes.{insert_input_note}
use miden_client.Tracker.Transitions.{
  on_input_note, on_output_note, then_input, then_output, commit_input, commit_output,
  nullify_input, nullify_output, nullified_input, nullified_output, insert_received,
  apply_committed_note_state_transitions, apply_nullifiers_state_transitions, apply_new_public_note,
}

-- A property of trackers that the two notes' methods keep is kept by the whole transition, errors
-- included.
module _ {P : Protocol} (I : NoteUpdateTracker P → Type 0) where
  then_output_keeps :
      {A : Type 0} (a : A) (x : Option (Result (ClientError P) Bool) × NoteUpdateTracker P)
      → I x.1
      → I (then_output a x).1
  unfolding then_output
  then_output_keeps a (none, t) h = h
  then_output_keeps a (some (ok _), t) h = h
  then_output_keeps a (some (err _), t) h = h

  then_input_keeps :
      {A : Type 0}
      (next : Bool → NoteUpdateTracker P → Result (ClientError P) A × NoteUpdateTracker P)
      (x : Option (Result (ClientError P) Bool) × NoteUpdateTracker P)
      → ((b : Bool) (t : NoteUpdateTracker P) → I t → I (next b t).1)
      → I x.1
      → I (then_input next x).1
  unfolding then_input
  then_input_keeps next (none, t) keep h = keep false t h
  then_input_keeps next (some (ok _), t) keep h = keep true t h
  then_input_keeps next (some (err _), t) keep h = h

  pub apply_committed_keeps :
      (c : CommittedNote P) (header : P.BlockHeader) (t : NoteUpdateTracker P)
      → ((t : NoteUpdateTracker P) → I t → I (on_input_note c.note_id (commit_input c header) t).1)
      → ((t : NoteUpdateTracker P) → I t → I (on_output_note c.note_id (commit_output c) t).1)
      → I t
      → I (apply_committed_note_state_transitions c header t).1
  unfolding apply_committed_note_state_transitions
  apply_committed_keeps c header t input output h =
      then_input_keeps
        (λ is_tracked t'. then_output is_tracked (on_output_note c.note_id (commit_output c) t'))
        (on_input_note c.note_id (commit_input c header) t)
        (λ b t' h'.
          then_output_keeps b (on_output_note c.note_id (commit_output c) t') (output t' h'))
        (input t h)

  nullified_input_keeps :
      (i : Option P.NoteId) (n : NullifierUpdate P) (txs : List (TransactionRecord P))
      (t : NoteUpdateTracker P)
      → ((i : P.NoteId) (order : Option ℕ) (t : NoteUpdateTracker P)
          → I t
          → I (on_input_note i (nullify_input order n txs) t).1)
      → I t
      → I (nullified_input i n txs t).1
  unfolding nullified_input
  nullified_input_keeps none n txs t input h = h
  nullified_input_keeps (some i) n txs t input h =
      input i (get (by_nullifier P) n.nullifier t.nullifier_order) t h

  nullified_output_keeps :
      (i : Option P.NoteId) (n : NullifierUpdate P) (t : NoteUpdateTracker P)
      → ((i : P.NoteId) (t : NoteUpdateTracker P)
          → I t
          → I (on_output_note i (nullify_output n) t).1)
      → I t
      → I (nullified_output i n t).1
  unfolding nullified_output
  nullified_output_keeps none n t output h = h
  nullified_output_keeps (some i) n t output h = output i t h

  pub apply_nullifiers_keeps :
      (n : NullifierUpdate P) (txs : List (TransactionRecord P)) (t : NoteUpdateTracker P)
      → ((i : P.NoteId) (order : Option ℕ) (t : NoteUpdateTracker P)
          → I t
          → I (on_input_note i (nullify_input order n txs) t).1)
      → ((i : P.NoteId) (t : NoteUpdateTracker P)
          → I t
          → I (on_output_note i (nullify_output n) t).1)
      → I t
      → I (apply_nullifiers_state_transitions n txs t).1
  unfolding apply_nullifiers_state_transitions
  apply_nullifiers_keeps n txs t input output h =
      then_input_keeps
        (λ _ t'.
          then_output tt
            (nullified_output (get (by_nullifier P) n.nullifier t'.output_notes_by_nullifier) n t'))
        (nullified_input (get (by_nullifier P) n.nullifier t.input_notes_by_nullifier) n txs t)
        (λ _ t' h'.
          then_output_keeps tt
            (nullified_output (get (by_nullifier P) n.nullifier t'.output_notes_by_nullifier) n t')
            (nullified_output_keeps (get (by_nullifier P) n.nullifier t'.output_notes_by_nullifier)
              n t' output h'))
        (nullified_input_keeps (get (by_nullifier P) n.nullifier t.input_notes_by_nullifier) n txs t
          input h)

  insert_received_keeps :
      (x : Result (NoteRecordError P) Bool × InputNoteRecord P) (t : NoteUpdateTracker P)
      → I t
      → I (insert_input_note x.1 NoteUpdateType.insert t)
      → I (insert_received x t).1
  unfolding insert_received
  insert_received_keeps (ok _, note) t h h' = h'
  insert_received_keeps (err _, note) t h h' = h

  pub apply_new_public_note_keeps :
      (note : InputNoteRecord P) (header : P.BlockHeader) (t : NoteUpdateTracker P)
      → ((note : InputNoteRecord P) → I (insert_input_note note NoteUpdateType.insert t))
      → I t
      → I (apply_new_public_note note header t).1
  unfolding apply_new_public_note
  apply_new_public_note_keeps note header t inserted h =
      insert_received_keeps (Input.block_header_received header note) t h
        (inserted (Input.block_header_received header note).1)
