-- ===== src/Tests/InputNotes.antt =====
-- The life of an input note with metadata 7 and ID 5, and the theorems on input notes there.
use miden_client.Base.{
  ◌≡◌, refl, ◌≢◌, ◌↔◌, ◌⊎◌, inl, true, false, none, some, List, [], ◌∷◌, ◌++◌, ℕ_discrete, Result,
  ok,
}
use miden_client.Protocol.{InputNote, authenticated}
use miden_client.InputNote.Types.{InputNoteState, committed, consumed_external, NoteRecordError}
use miden_client.InputNote.States
use miden_client.InputNote.Record
use miden_client.InputNote.Record.{InputNoteRecord}
use miden_client.InputNote.Record.RoundTrip as RecordRoundTrip
use miden_client.InputNote.Steps.{
  Event, step, run, block_header_received, consumed_locally, transaction_committed,
  consumed_externally, set_consumed_tx_order,
}
use miden_client.InputNote.Proofs.Verified.{
  HasProof, authenticated-HasProof, IsVerified, run-IsVerified,
}
use miden_client.InputNote.Proofs.Lifecycle.{
  phase, ◌⟶◌, step-⟶, step_idempotent, IsHeldBy, run-IsHeldBy,
}
use miden_client.InputNote.Proofs.Consumption.{
  IsConsumable, consumed_locally_lem, consumed_locally-IsConsumable, transaction_committed_iff,
  submitted_then_committed, consumed_externally_lem, consumed_is_final, last_order,
}
use miden_client.Tests.Toy.{toy, toy_laws, toy_codecs}

abbrev received : InputNote toy
received = authenticated (7, 5) 3

abbrev received_record : InputNoteRecord toy
received_record = record {
  details = 5;
  created_at = none;
  state = InputNoteState.unverified (record { metadata = 7; inclusion_proof = 3 });
}

abbrev committed_record : InputNoteRecord toy
committed_record = record {
  details = 5;
  created_at = none;
  state = committed (record { metadata = 7; inclusion_proof = 3; block_note_root = 12 });
}

abbrev external_record : InputNoteRecord toy
external_record = record {
  details = 5;
  created_at = none;
  state = consumed_external (record { nullifier_block_height = 40; consumed_tx_order = none });
}

-- The header with root 12 verifies the proof; then transaction 99 of account 1 takes the note and
-- is committed in block 20.
abbrev history : List (Event toy)
history =
    block_header_received 12
    ∷ consumed_locally 1 99 (some 1000)
    ∷ transaction_committed 99 20
    ∷ consumed_externally 5 21
    ∷ []

history_consumes :
    (Record.is_consumed (run history received_record) ≡ true)
    × (Record.is_authenticated (run history received_record) ≡ true)
    × (Record.consumer_account (run history received_record) ≡ some 1)
unfolding run step Record.is_consumed Record.is_authenticated Record.consumer_account ℕ_discrete
history_consumes = (refl, refl, refl)

-- A header with another root makes the note invalid, and its record cannot be consumed.
invalid_not_consumed :
    (step (consumed_locally 1 99 none) (run (block_header_received 13 ∷ []) received_record)).0
    ≡ Result.err (NoteRecordError.note_not_consumable "Can't consume invalid note")
unfolding run step
invalid_not_consumed = refl

authenticated-HasProof_example : HasProof (run history (Record.from_input_note received))
unfolding run step Record.is_authenticated Record.from_input_note ℕ_discrete
authenticated-HasProof_example = authenticated-HasProof received history refl

run-IsVerified_example : IsVerified (run history committed_record)
unfolding Record.id
run-IsVerified_example = run-IsVerified history committed_record refl

step-⟶_example :
    let r = received_record in
    let r' = (step (block_header_received 12) r).1 in
    (phase r'.state ≡ phase r.state) ⊎ (phase r.state ⟶ phase r'.state)
step-⟶_example = step-⟶ (block_header_received 12) received_record

step_idempotent_example :
    let r = (step (block_header_received 13) received_record).1 in
    (step (block_header_received 13) r).1 ≡ r
step_idempotent_example = step_idempotent (block_header_received 13) received_record

run-IsHeldBy_example : IsHeldBy 99 (
    run
      (consumed_locally 1 98 none ∷ transaction_committed 99 20 ∷ [])
      (step (consumed_locally 1 99 none) committed_record).1)
unfolding step Record.consumer_transaction_id Record.is_processing
run-IsHeldBy_example =
    run-IsHeldBy 99 (consumed_locally 1 98 none ∷ transaction_committed 99 20 ∷ [])
      (step (consumed_locally 1 99 none) committed_record).1 (inl (refl, inl refl))

committed-IsConsumable : IsConsumable committed_record
unfolding Record.is_consumed Record.is_processing phase Record.metadata
committed-IsConsumable = (refl, refl, λ e. cc, λ e. cc)

consumed_locally_lem_example :
    let (result, r') = Record.consumed_locally 1 99 none committed_record in
    (result ≡ ok true)
    × (Record.is_processing r' ≡ true)
    × (Record.consumer_account r' ≡ some 1)
    × (Record.consumer_transaction_id r' ≡ some 99)
    × (Record.metadata r' ≡ Record.metadata committed_record)
    × (Record.is_authenticated r' ≡ Record.is_committed committed_record)
consumed_locally_lem_example =
    consumed_locally_lem 1 99 none committed_record committed-IsConsumable

consumed_locally-IsConsumable_example :
    ((Record.consumed_locally 1 99 none received_record).0 ≡ ok true) ↔ IsConsumable received_record
consumed_locally-IsConsumable_example = consumed_locally-IsConsumable 1 99 none received_record

transaction_committed_iff_example :
    ((Record.transaction_committed 99 20 external_record).0 ≡ ok true) ↔ (
      (Record.is_processing external_record ≡ true)
      × (Record.consumer_transaction_id external_record ≡ some 99))
transaction_committed_iff_example = transaction_committed_iff 99 20 external_record

submitted_then_committed_example :
    let r' =
      (Record.transaction_committed 99 20
        (Record.consumed_locally 1 99 none committed_record).1).1 in
    (Record.is_consumed r' ≡ true)
    × (States.consumed_block_height r'.state ≡ some 20)
    × (Record.consumer_account r' ≡ some 1)
    × (Record.consumer_transaction_id r' ≡ some 99)
    × (Record.is_authenticated r' ≡ Record.is_committed committed_record)
submitted_then_committed_example =
    submitted_then_committed 1 99 none 20 committed_record committed-IsConsumable

consumed_externally_lem_example :
    let (result, r') = Record.consumed_externally 5 40 committed_record in
    ((Record.nullifier committed_record ≡ 5)
      × (result ≡ ok true)
      × (Record.is_consumed r' ≡ true)
      × (States.consumed_block_height r'.state ≡ some 40)
      × (Record.consumer_transaction_id r' ≡ none))
    ⊎ ((Record.nullifier committed_record ≢ 5)
        × (result ≢ ok true)
        × (result ≢ ok false)
        × (r' ≡ committed_record))
unfolding Record.is_consumed
consumed_externally_lem_example = consumed_externally_lem 5 40 committed_record refl

consumed_is_final_example :
    run (set_consumed_tx_order (some 3) ∷ history) external_record
    ≡ Record.set_consumed_tx_order
        (last_order
          (set_consumed_tx_order (some 3) ∷ history)
          (States.consumed_tx_order external_record.state))
        external_record
unfolding Record.is_consumed
consumed_is_final_example =
    consumed_is_final (set_consumed_tx_order (some 3) ∷ history) external_record refl

read_from-write_into_example :
    Record.read_from toy_codecs (Record.write_into toy_codecs committed_record ++ 1 ∷ 2 ∷ [])
    ≡ ok (committed_record, 1 ∷ 2 ∷ [])
read_from-write_into_example =
    RecordRoundTrip.read_from-write_into toy_codecs committed_record (1 ∷ 2 ∷ [])

try_into_input_note-from_input_note_example :
    Record.try_into_input_note (Record.from_input_note received) ≡ ok received
try_into_input_note-from_input_note_example =
    RecordRoundTrip.try_into_input_note-from_input_note toy_laws received
