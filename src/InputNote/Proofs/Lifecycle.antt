-- ===== src/InputNote/Proofs/Lifecycle.antt =====
-- The lifecycle of an input note: the phases of its record and how one follows another
-- (crates/rust-client/src/store/note_record/input_note_record/states).
use miden_client.Base.{◌≡◌, ◌⊎◌, true, some, List, [], ◌∷◌, arith}
use miden_client.Protocol.{Protocol}
use miden_client.InputNote.Types
use miden_client.InputNote.Types.{InputNoteState, NoteRecordError}
use miden_client.InputNote.Record
use miden_client.InputNote.Record.{InputNoteRecord}
use miden_client.InputNote.Steps.{Event, step, run}

-- The nine states without their contents.
pub data Phase : Type 0 where
  expected unverified committed invalid processing_authenticated : Phase
  processing_unauthenticated consumed_authenticated_local consumed_unauthenticated_local : Phase
  consumed_external : Phase

-- The diagram of the lifecycle.
infix 40 ◌⟶◌
pub data ◌⟶◌ : Phase → Phase → Type 0 where
  receive_proof : expected ⟶ unverified
  replace_proof : unverified ⟶ unverified
  retry_proof : invalid ⟶ unverified
  verify_proof : unverified ⟶ committed
  verify_late : invalid ⟶ committed
  refute_proof : unverified ⟶ invalid
  submit_expected : expected ⟶ processing_unauthenticated
  submit_unverified : unverified ⟶ processing_unauthenticated
  submit_committed : committed ⟶ processing_authenticated
  confirm_authenticated : processing_authenticated ⟶ consumed_authenticated_local
  confirm_unauthenticated : processing_unauthenticated ⟶ consumed_unauthenticated_local
  consume_expected : expected ⟶ consumed_external
  consume_unverified : unverified ⟶ consumed_external
  consume_committed : committed ⟶ consumed_external
  consume_invalid : invalid ⟶ consumed_external
  consume_processing_authenticated : processing_authenticated ⟶ consumed_external
  consume_processing_unauthenticated : processing_unauthenticated ⟶ consumed_external

ruleset edges = (
  receive_proof, replace_proof, retry_proof, verify_proof, verify_late, refute_proof,
  submit_expected, submit_unverified, submit_committed, confirm_authenticated,
  confirm_unauthenticated, consume_expected, consume_unverified, consume_committed, consume_invalid,
  consume_processing_authenticated, consume_processing_unauthenticated,
)

module _ {P : Protocol} where
  unfoldable pub phase : InputNoteState P → Phase
  phase (Types.expected _) = expected
  phase (Types.unverified _) = unverified
  phase (Types.committed _) = committed
  phase (Types.invalid _) = invalid
  phase (Types.processing_authenticated _) = processing_authenticated
  phase (Types.processing_unauthenticated _) = processing_unauthenticated
  phase (Types.consumed_authenticated_local _) = consumed_authenticated_local
  phase (Types.consumed_unauthenticated_local _) = consumed_unauthenticated_local
  phase (Types.consumed_external _) = consumed_external

  -- Every event leaves the phase of a record as it is, or moves it along an edge of the diagram.
  pub step-⟶ :
      (e : Event P) (r : InputNoteRecord P)
      → (phase (step e r).1.state ≡ phase r.state) ⊎ (phase r.state ⟶ phase (step e r).1.state)
  unfolding step phase
  step-⟶ e r = grind (arith, edges)

  -- Receiving the same event twice leaves the record as receiving it once.
  pub step_idempotent :
      (e : Event P) (r : InputNoteRecord P) → (step e (step e r).1).1 ≡ (step e r).1
  unfolding step
  step_idempotent e r = ground arith

  -- Held by a transaction: processing for it, consumed by it, or consumed by somebody else.
  abbrev pub IsHeldBy : P.TransactionId → InputNoteRecord P → Type 0
  IsHeldBy t r =
      ((Record.consumer_transaction_id r ≡ some t)
        × ((Record.is_processing r ≡ true) ⊎ (Record.is_consumed r ≡ true)))
      ⊎ (phase r.state ≡ consumed_external)

  step-IsHeldBy :
      (t : P.TransactionId) (e : Event P) (r : InputNoteRecord P)
      → IsHeldBy t r
      → IsHeldBy t (step e r).1
  unfolding step phase Record.consumer_transaction_id Record.is_processing Record.is_consumed
  step-IsHeldBy t e r h = ground arith

  -- A note that a transaction has taken stays with it: after any history it is processing for
  -- that transaction, or consumed by it, or consumed by another account.
  pub run-IsHeldBy :
      (t : P.TransactionId) (es : List (Event P)) (r : InputNoteRecord P)
      → IsHeldBy t r
      → IsHeldBy t (run es r)
  unfolding run
  run-IsHeldBy t [] r h = h
  run-IsHeldBy t (e ∷ es) r h = run-IsHeldBy t es (step e r).1 (step-IsHeldBy t e r h)
