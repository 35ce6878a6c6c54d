-- ===== src/InputNote/States/Unverified.antt =====
-- crates/rust-client/src/store/note_record/input_note_record/states/unverified.rs
use miden_client.Base.{ℕ, ◌≡◌, ◌-◌, ◌++◌, none, some, List, ok, err, if◌then◌else◌}
use miden_client.Protocol.{Protocol, Codecs, Reader, ◌>>=◌, pure, reading}
use miden_client.InputNote.Types.{
  UnverifiedNoteState, unverified, committed, invalid, processing_unauthenticated,
  consumed_external, NoteStateHandler, invalid_state_transition,
}

-- `saturating_sub(1)` on a `u32` is `- 1` on ℕ, which stops at 0.
unfoldable pub handler : {P : Protocol} → UnverifiedNoteState P → NoteStateHandler P
handler {P} s = record {
  metadata = some s.metadata;
  inclusion_proof = some s.inclusion_proof;
  consumer_transaction_id = none;
  inclusion_proof_received = λ proof note_metadata.
      ok (some (unverified (record { metadata = note_metadata; inclusion_proof = proof })));
  consumed_externally = λ nullifier_block_height. ok (
      some (
        consumed_external
          (record { nullifier_block_height = nullifier_block_height; consumed_tx_order = none })));
  block_header_received = λ note_id block_header.
      if P.verify (P.note_path s.inclusion_proof) (P.block_note_tree_index s.inclusion_proof)
        (P.compute_note_commitment note_id s.metadata) (P.note_root block_header)
      then ok (
          some (
            committed (record {
              metadata = s.metadata;
              inclusion_proof = s.inclusion_proof;
              block_note_root = P.note_root block_header;
            })))
      else ok (
          some (
            invalid (record {
              metadata = s.metadata;
              invalid_inclusion_proof = s.inclusion_proof;
              block_note_root = P.note_root block_header;
            })));
  consumed_locally = λ consumer_account consumer_transaction current_timestamp. ok (
      some (
        processing_unauthenticated (record {
          metadata = s.metadata;
          after_block_num = P.block_num s.inclusion_proof - 1;
          submission_data = record {
            submitted_at = none;
            consumer_account = consumer_account;
            consumer_transaction = consumer_transaction;
          };
        })));
  transaction_committed = λ transaction_id block_height.
      err
        (invalid_state_transition "Only processing notes can be committed in a local transaction");
}

module _ {P : Protocol} (C : Codecs P) where
  pub write_into : UnverifiedNoteState P → List ℕ
  write_into s = C.metadata.write s.metadata ++ C.inclusion_proof.write s.inclusion_proof

  pub read_from : Reader C.DeserializationError (UnverifiedNoteState P)
  read_from = do
    metadata ← C.metadata.read
    inclusion_proof ← C.inclusion_proof.read
    pure (record { metadata = metadata; inclusion_proof = inclusion_proof })

  -- What is written is read back, whatever bytes follow it.
  pub read_from-write_into :
      (s : UnverifiedNoteState P) (rest : List ℕ) → read_from (write_into s ++ rest) ≡ ok (s, rest)
  unfolding write_into read_from
  read_from-write_into s rest = simp reading
