-- ===== src/InputNote/States/ConsumedAuthenticatedLocal.antt =====
-- crates/rust-client/src/store/note_record/input_note_record/states/consumed_authenticated_local.rs
use miden_client.Base.{ℕ, ◌≡◌, ◌++◌, none, some, List, ok, err}
use miden_client.Protocol.{Protocol, Codecs, Reader, ◌>>=◌, pure, reading}
use miden_client.InputNote.Types.{
  ConsumedAuthenticatedLocalNoteState, NoteStateHandler, note_not_consumable,
  invalid_state_transition,
}
use miden_client.InputNote.States.Submission

unfoldable pub handler : {P : Protocol} → ConsumedAuthenticatedLocalNoteState P → NoteStateHandler P
handler {P} s = record {
  metadata = some s.metadata;
  inclusion_proof = some s.inclusion_proof;
  consumer_transaction_id = some s.submission_data.consumer_transaction;
  inclusion_proof_received = λ proof note_metadata. ok none;
  consumed_externally = λ nullifier_block_height. ok none;
  block_header_received = λ note_id block_header. ok none;
  consumed_locally = λ consumer_account consumer_transaction current_timestamp.
      err (note_not_consumable "Note already consumed");
  transaction_committed = λ transaction_id block_height.
      err
        (invalid_state_transition "Only processing notes can be committed in a local transaction");
}

module _ {P : Protocol} (C : Codecs P) where
  pub write_into : ConsumedAuthenticatedLocalNoteState P → List ℕ
  write_into s =
      C.metadata.write s.metadata
      ++ (C.inclusion_proof.write s.inclusion_proof
          ++ (C.word.write s.block_note_root
              ++ (C.block_number.write s.nullifier_block_height
                  ++ (Submission.write_into C s.submission_data
                      ++ C.option_u32.write s.consumed_tx_order))))

  pub read_from : Reader C.DeserializationError (ConsumedAuthenticatedLocalNoteState P)
  read_from = do
    metadata ← C.metadata.read
    inclusion_proof ← C.inclusion_proof.read
    block_note_root ← C.word.read
    nullifier_block_height ← C.block_number.read
    submission_data ← Submission.read_from C
    consumed_tx_order ← C.option_u32.read
    pure (record {
      metadata = metadata;
      inclusion_proof = inclusion_proof;
      block_note_root = block_note_root;
      nullifier_block_height = nullifier_block_height;
      submission_data = submission_data;
      consumed_tx_order = consumed_tx_order;
    })

  -- What is written is read back, whatever bytes follow it.
  pub read_from-write_into :
      (s : ConsumedAuthenticatedLocalNoteState P) (rest : List ℕ)
      → read_from (write_into s ++ rest) ≡ ok (s, rest)
  unfolding write_into read_from
  read_from-write_into s rest = simp (reading, Submission.>>=-submission C)
