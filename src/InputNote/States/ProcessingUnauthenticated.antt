-- ===== src/InputNote/States/ProcessingUnauthenticated.antt =====
-- crates/rust-client/src/store/note_record/input_note_record/states/processing_unauthenticated.rs
use miden_client.Base.{ℕ, ◌≡◌, ◌++◌, none, some, List, ok, err, ite}
use miden_client.Protocol.{Protocol, Codecs, Reader, ◌>>=◌, pure, reading}
use miden_client.InputNote.Types.{
  ProcessingUnauthenticatedNoteState, consumed_unauthenticated_local, consumed_external,
  NoteStateHandler, note_not_consumable, state_transition_error,
}
use miden_client.InputNote.States.Submission

unfoldable pub handler : {P : Protocol} → ProcessingUnauthenticatedNoteState P → NoteStateHandler P
handler {P} s = record {
  metadata = some s.metadata;
  inclusion_proof = none;
  consumer_transaction_id = some s.submission_data.consumer_transaction;
  inclusion_proof_received = λ proof note_metadata. ok none;
  consumed_externally = λ nullifier_block_height. ok (
      some (
        consumed_external
          (record { nullifier_block_height = nullifier_block_height; consumed_tx_order = none })));
  block_header_received = λ note_id block_header. ok none;
  consumed_locally = λ consumer_account consumer_transaction current_timestamp.
      err (note_not_consumable "Note being consumed");
  transaction_committed = λ transaction_id block_height.
      ite (P.transaction_id_eq transaction_id s.submission_data.consumer_transaction)
        (ok (
          some (
            consumed_unauthenticated_local (record {
              metadata = s.metadata;
              nullifier_block_height = block_height;
              submission_data = s.submission_data;
              consumed_tx_order = none;
            }))))
        (err (state_transition_error "Transaction ID does not match the expected value"));
}

module _ {P : Protocol} (C : Codecs P) where
  pub write_into : ProcessingUnauthenticatedNoteState P → List ℕ
  write_into s =
      C.metadata.write s.metadata
      ++ (C.block_number.write s.after_block_num ++ Submission.write_into C s.submission_data)

  pub read_from : Reader C.DeserializationError (ProcessingUnauthenticatedNoteState P)
  read_from = do
    metadata ← C.metadata.read
    after_block_num ← C.block_number.read
    submission_data ← Submission.read_from C
    pure (record {
      metadata = metadata;
      after_block_num = after_block_num;
      submission_data = submission_data;
    })

  -- What is written is read back, whatever bytes follow it.
  pub read_from-write_into :
      (s : ProcessingUnauthenticatedNoteState P) (rest : List ℕ)
      → read_from (write_into s ++ rest) ≡ ok (s, rest)
  unfolding write_into read_from
  read_from-write_into s rest = simp (reading, Submission.>>=-submission C)
