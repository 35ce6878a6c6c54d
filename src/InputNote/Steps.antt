-- ===== src/InputNote/Steps.antt =====
-- What can happen to an input note record: its five transitions and the setting of the order of
-- its consumer, as one step function over events (crates/rust-client/src/store/note_record/input_note_record/mod.rs).
use miden_client.Base.{ℕ, Bool, true, Option, List, [], ◌∷◌, Result, ok}
use miden_client.Protocol.{Protocol}
use miden_client.InputNote.Types.{NoteRecordError}
use miden_client.InputNote.Record
use miden_client.InputNote.Record.{InputNoteRecord}

pub data Event (P : Protocol) : Type 0 where
  inclusion_proof_received : P.NoteInclusionProof → P.NoteMetadata → Event P
  block_header_received : P.BlockHeader → Event P
  consumed_externally : P.Nullifier → ℕ → Event P
  consumed_locally : P.AccountId → P.TransactionId → Option ℕ → Event P
  transaction_committed : P.TransactionId → ℕ → Event P
  set_consumed_tx_order : Option ℕ → Event P

module _ {P : Protocol} where
  unfoldable pub step :
      Event P → InputNoteRecord P → Result (NoteRecordError P) Bool × InputNoteRecord P
  unfolding Record.inclusion_proof_received Record.block_header_received Record.consumed_externally
      Record.consumed_locally Record.transaction_committed Record.set_consumed_tx_order
  step (inclusion_proof_received proof m) r = Record.inclusion_proof_received proof m r
  step (block_header_received header) r = Record.block_header_received header r
  step (consumed_externally nullifier height) r = Record.consumed_externally nullifier height r
  step (consumed_locally account transaction time) r =
      Record.consumed_locally account transaction time r
  step (transaction_committed transaction height) r =
      Record.transaction_committed transaction height r
  step (set_consumed_tx_order order) r = (ok true, Record.set_consumed_tx_order order r)

  -- A history of events; what fails is passed over.
  unfoldable pub run : List (Event P) → InputNoteRecord P → InputNoteRecord P
  run [] r = r
  run (e ∷ es) r = run es (step e r).1
