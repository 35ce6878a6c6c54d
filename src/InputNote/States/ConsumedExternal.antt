-- ===== src/InputNote/States/ConsumedExternal.antt =====
-- crates/rust-client/src/store/note_record/input_note_record/states/consumed_external.rs
use miden_client.Base.{ℕ, ◌≡◌, ◌++◌, none, List, ok, err}
use miden_client.Protocol.{Protocol, Codecs, Reader, ◌>>=◌, pure, reading}
use miden_client.InputNote.Types.{
  ConsumedExternalNoteState, NoteStateHandler, note_not_consumable, invalid_state_transition,
}

unfoldable pub handler : {P : Protocol} → ConsumedExternalNoteState P → NoteStateHandler P
handler {P} s = record {
  metadata = none;
  inclusion_proof = none;
  consumer_transaction_id = none;
  inclusion_proof_received = λ proof note_metadata. ok none;
  consumed_externally = λ nullifier_block_height. ok none;
  block_header_received = λ note_id block_header. ok none;
  consumed_locally = λ consumer_account consumer_transaction current_timestamp.
      err (note_not_consumable "Note already consumed");
  transaction_committed = λ transaction_id block_height.
      err
        (invalid_state_transition "Only processing notes can be committed in a local transaction");
}

module _ {P : Protocol} (C : Codecs P) where
  pub write_into : ConsumedExternalNoteState P → List ℕ
  write_into s =
      C.block_number.write s.nullifier_block_height ++ C.option_u32.write s.consumed_tx_order

  pub read_from : Reader C.DeserializationError (ConsumedExternalNoteState P)
  read_from = do
    nullifier_block_height ← C.block_number.read
    consumed_tx_order ← C.option_u32.read
    pure (record {
      nullifier_block_height = nullifier_block_height;
      consumed_tx_order = consumed_tx_order;
    })

  -- What is written is read back, whatever bytes follow it.
  pub read_from-write_into :
      (s : ConsumedExternalNoteState P) (rest : List ℕ)
      → read_from (write_into s ++ rest) ≡ ok (s, rest)
  unfolding write_into read_from
  read_from-write_into s rest = simp reading
