-- ===== src/InputNote/States/Invalid.antt =====
-- crates/rust-client/src/store/note_record/input_note_record/states/invalid.rs
use miden_client.Base.{ℕ, ◌≡◌, ◌++◌, none, some, List, ok, err, if◌then◌else◌}
use miden_client.Protocol.{Protocol, Codecs, Reader, ◌>>=◌, pure, reading}
use miden_client.InputNote.Types.{
  InvalidNoteState, unverified, committed, consumed_external, NoteStateHandler, note_not_consumable,
  invalid_state_transition,
}

unfoldable pub handler : {P : Protocol} → InvalidNoteState P → NoteStateHandler P
handler {P} s = record {
  metadata = some s.metadata;
  inclusion_proof = some s.invalid_inclusion_proof;
  consumer_transaction_id = none;
  inclusion_proof_received = λ proof note_metadata.
      ok (some (unverified (record { metadata = note_metadata; inclusion_proof = proof })));
  consumed_externally = λ nullifier_block_height. ok (
      some (
        consumed_external
          (record { nullifier_block_height = nullifier_block_height; consumed_tx_order = none })));
  block_header_received = λ note_id block_header.
      if P.verify (P.note_path s.invalid_inclusion_proof)
        (P.block_note_tree_index s.invalid_inclusion_proof)
        (P.compute_note_commitment note_id s.metadata) (P.note_root block_header)
      then ok (
          some (
            committed (record {
              metadata = s.metadata;
              inclusion_proof = s.invalid_inclusion_proof;
              block_note_root = P.note_root block_header;
            })))
      else ok none;
  consumed_locally = λ consumer_account consumer_transaction current_timestamp.
      err (note_not_consumable "Can't consume invalid note");
  transaction_committed = λ transaction_id block_height.
      err
        (invalid_state_transition "Only processing notes can be committed in a local transaction");
}

module _ {P : Protocol} (C : Codecs P) where
  pub write_into : InvalidNoteState P → List ℕ
  write_into s =
      C.metadata.write s.metadata
      ++ (C.inclusion_proof.write s.invalid_inclusion_proof ++ C.word.write s.block_note_root)

  pub read_from : Reader C.DeserializationError (InvalidNoteState P)
  read_from = do
    metadata ← C.metadata.read
    invalid_inclusion_proof ← C.inclusion_proof.read
    block_note_root ← C.word.read
    pure (record {
      metadata = metadata;
      invalid_inclusion_proof = invalid_inclusion_proof;
      block_note_root = block_note_root;
    })

  -- What is written is read back, whatever bytes follow it.
  pub read_from-write_into :
      (s : InvalidNoteState P) (rest : List ℕ) → read_from (write_into s ++ rest) ≡ ok (s, rest)
  unfolding write_into read_from
  read_from-write_into s rest = simp reading
