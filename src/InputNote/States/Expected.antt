-- ===== src/InputNote/States/Expected.antt =====
-- crates/rust-client/src/store/note_record/input_note_record/states/expected.rs
use miden_client.Base.{ℕ, ◌≡◌, ◌++◌, none, some, List, ok, err}
use miden_client.Protocol.{Protocol, Codecs, Reader, ◌>>=◌, pure, reading}
use miden_client.InputNote.Types.{
  ExpectedNoteState, unverified, processing_unauthenticated, consumed_external, NoteStateHandler,
  note_not_consumable, invalid_state_transition, state_transition_error,
}

unfoldable pub handler : {P : Protocol} → ExpectedNoteState P → NoteStateHandler P
handler {P} s = record {
  metadata = s.metadata;
  inclusion_proof = none;
  consumer_transaction_id = none;
  inclusion_proof_received = λ proof note_metadata.
      ok (some (unverified (record { metadata = note_metadata; inclusion_proof = proof })));
  consumed_externally = λ nullifier_block_height. ok (
      some (
        consumed_external
          (record { nullifier_block_height = nullifier_block_height; consumed_tx_order = none })));
  block_header_received =
      λ note_id block_header. err (state_transition_error "Can't verify an expected note");
  consumed_locally = λ consumer_account consumer_transaction current_timestamp. elim s.metadata [
    | none ↦ err (note_not_consumable "Can't consume note without metadata")
    | some note_metadata ↦ ok (
        some (
          processing_unauthenticated (record {
            metadata = note_metadata;
            after_block_num = s.after_block_num;
            submission_data = record {
              submitted_at = current_timestamp;
              consumer_account = consumer_account;
              consumer_transaction = consumer_transaction;
            };
          })))
  ];
  transaction_committed = λ transaction_id block_height.
      err
        (invalid_state_transition "Only processing notes can be committed in a local transaction");
}

module _ {P : Protocol} (C : Codecs P) where
  pub write_into : ExpectedNoteState P → List ℕ
  write_into s =
      C.option_metadata.write s.metadata
      ++ (C.block_number.write s.after_block_num ++ C.option_tag.write s.tag)

  pub read_from : Reader C.DeserializationError (ExpectedNoteState P)
  read_from = do
    metadata ← C.option_metadata.read
    after_block_num ← C.block_number.read
    tag ← C.option_tag.read
    pure (record { metadata = metadata; after_block_num = after_block_num; tag = tag })

  -- What is written is read back, whatever bytes follow it.
  pub read_from-write_into :
      (s : ExpectedNoteState P) (rest : List ℕ) → read_from (write_into s ++ rest) ≡ ok (s, rest)
  unfolding write_into read_from
  read_from-write_into s rest = simp reading
