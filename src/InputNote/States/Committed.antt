-- ===== src/InputNote/States/Committed.antt =====
-- crates/rust-client/src/store/note_record/input_note_record/states/committed.rs
use miden_client.Base.{ℕ, ◌≡◌, ◌++◌, none, some, List, ok, err, ite}
use miden_client.Protocol.{Protocol, Codecs, Reader, ◌>>=◌, pure, reading}
use miden_client.InputNote.Types.{
  CommittedNoteState, processing_authenticated, consumed_external, NoteStateHandler,
  invalid_state_transition, state_transition_error,
}

unfoldable pub handler : {P : Protocol} → CommittedNoteState P → NoteStateHandler P
handler {P} s = record {
  metadata = some s.metadata;
  inclusion_proof = some s.inclusion_proof;
  consumer_transaction_id = none;
  inclusion_proof_received = λ proof note_metadata.
      ite (P.inclusion_proof_eq s.inclusion_proof proof)
        (ite (P.metadata_eq s.metadata note_metadata) (ok none) (
          err (
            state_transition_error "Inclusion proof or metadata do not match the expected values")))
        (err
          (state_transition_error "Inclusion proof or metadata do not match the expected values"));
  consumed_externally = λ nullifier_block_height. ok (
      some (
        consumed_external
          (record { nullifier_block_height = nullifier_block_height; consumed_tx_order = none })));
  block_header_received = λ note_id block_header.
      ite (P.word_eq (P.note_root block_header) s.block_note_root) (ok none)
        (err (state_transition_error "Block header does not match the expected note root"));
  consumed_locally = λ consumer_account consumer_transaction current_timestamp. ok (
      some (
        processing_authenticated (record {
          metadata = s.metadata;
          inclusion_proof = s.inclusion_proof;
          block_note_root = s.block_note_root;
          submission_data = record {
            submitted_at = current_timestamp;
            consumer_account = consumer_account;
            consumer_transaction = consumer_transaction;
          };
        })));
  transaction_committed = λ transaction_id block_height.
      err
        (invalid_state_transition "Only processing notes can be committed in a local transaction");
}

module _ {P : Protocol} (C : Codecs P) where
  pub write_into : CommittedNoteState P → List ℕ
  write_into s =
      C.metadata.write s.metadata
      ++ (C.inclusion_proof.write s.inclusion_proof ++ C.word.write s.block_note_root)

  pub read_from : Reader C.DeserializationError (CommittedNoteState P)
  read_from = do
    metadata ← C.metadata.read
    inclusion_proof ← C.inclusion_proof.read
    block_note_root ← C.word.read
    pure (record {
      metadata = metadata;
      inclusion_proof = inclusion_proof;
      block_note_root = block_note_root;
    })

  -- What is written is read back, whatever bytes follow it.
  pub read_from-write_into :
      (s : CommittedNoteState P) (rest : List ℕ) → read_from (write_into s ++ rest) ≡ ok (s, rest)
  unfolding write_into read_from
  read_from-write_into s rest = simp reading
