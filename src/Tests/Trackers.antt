-- ===== src/Tests/Trackers.antt =====
-- The theorems on note update trackers, for the input note of ID 5.
use miden_client.Base.{ℕ, ◌≡◌, refl, inl, true, none, some, [], ◌∷◌, arith, ℕ_discrete}
use miden_client.BTreeMap.{BTreeMap, get, insert}
use miden_client.InputNote.Record.{InputNoteRecord}
use miden_client.InputNote.Types.{committed}
use miden_client.Tracker.Types.{
  NoteUpdateTracker, by_nullifier, InputNoteUpdate, unchanged, by_note_id,
}
use miden_client.Tracker.Notes.{
  new, empty, is_updated, insert_input_note, insert_input_notes, insert_output_notes,
}
use miden_client.Tracker.Order.{extend_nullifiers, extend_nullifiers_lem, Extends, nil-IsOrder}
use miden_client.Tracker.Transitions.{
  apply_nullifiers_state_transitions, on_input_note, nullify_input, find_consumer,
}
use miden_client.Tracker.Indexed.{NoCollision, IsIndexed, AllWellFormed}
use miden_client.Tracker.Reach.{Reach, tracker-IsIndexed, nullified}
use miden_client.Tracker.Transitions.Nullified.{apply_nullifiers-is_consumed}
use miden_client.InputNote.Record as Input
use miden_client.OutputNote.Record as Output
use miden_client.OutputNote.Record.{OutputNoteRecord}
use miden_client.OutputNote.States.{expected_full}
use miden_client.InputNote.States
use miden_client.Tracker.Reported.{Reports, Reach-Reports}
use miden_client.Tests.Toy.{toy}

abbrev pub toy_NoCollision : NoCollision toy
toy_NoCollision = (λ d d'. (λ e. e, λ e. e), λ r r' a a'. (λ e. e, λ e. e))

abbrev pub proved : InputNoteRecord toy
proved = record {
  details = 5;
  created_at = none;
  state = committed (record { metadata = 7; inclusion_proof = 3; block_note_root = 12 });
}

abbrev tracker : NoteUpdateTracker toy
unfolding new
tracker = new (proved ∷ []) []

extend_nullifiers_lem_example :
    (order : BTreeMap ℕ ℕ) × (extend_nullifiers (5 ∷ 4 ∷ 5 ∷ []) (empty toy)
      ≡ some (record (empty toy) { nullifier_order = order }))
    × Extends (by_nullifier toy) (5 ∷ 4 ∷ 5 ∷ []) [] order
extend_nullifiers_lem_example =
    extend_nullifiers_lem (5 ∷ 4 ∷ 5 ∷ []) (empty toy) (omega arith)
      (nil-IsOrder (by_nullifier toy))

-- An output note with recipient 5, whose nullifier is that of the input note
abbrev pub sent : OutputNoteRecord toy
sent = record {
  assets = tt;
  metadata = 7;
  recipient_digest = 5;
  state = expected_full 5;
  expected_height = 10;
}

pub sent-AllWellFormed : AllWellFormed (sent ∷ [])
unfolding Output.recipient
sent-AllWellFormed = (λ to e. ground arith, tt)

tracker-IsIndexed_example :
    IsIndexed
      (apply_nullifiers_state_transitions
        (record { nullifier = 5; block_num = 20 })
        []
        (new {P = toy} (proved ∷ []) (sent ∷ []))).1
tracker-IsIndexed_example =
    tracker-IsIndexed {P = toy} toy_NoCollision (proved ∷ []) [] (sent ∷ []) sent-AllWellFormed
      (inl (Reach.next Reach.here (nullified (record { nullifier = 5; block_num = 20 }) [])))

abbrev tracked : InputNoteUpdate toy
tracked = record { note = proved; update_type = unchanged }

apply_nullifiers-is_consumed_example :
    let t' =
      (apply_nullifiers_state_transitions
        (record { nullifier = 5; block_num = 20 })
        []
        tracker).1 in
    (u' : InputNoteUpdate toy) × (get (by_note_id toy) 5 t'.input_notes ≡ some u')
    × (Input.is_consumed u'.note ≡ true)
    × (States.consumed_tx_order u'.note.state ≡ none)
    × (is_updated u'.update_type ≡ true)
unfolding new insert_input_note insert_input_notes insert_output_notes get insert
    apply_nullifiers_state_transitions Input.id Input.nullifier ℕ_discrete on_input_note
    nullify_input find_consumer Input.consumed_externally Input.consumer_transaction_id
apply_nullifiers-is_consumed_example =
    apply_nullifiers-is_consumed (record { nullifier = 5; block_num = 20 }) [] tracker tracked
      (tracker-IsIndexed {P = toy} toy_NoCollision (proved ∷ []) [] [] tt (inl Reach.here)) tt refl
      refl refl

Reach-Reports_example :
    Reports
      (new {P = toy} (proved ∷ []) [])
      (apply_nullifiers_state_transitions
        (record { nullifier = 5; block_num = 20 })
        []
        (new {P = toy} (proved ∷ []) [])).1
Reach-Reports_example =
    Reach-Reports (new {P = toy} (proved ∷ []) [])
      (apply_nullifiers_state_transitions (record { nullifier = 5; block_num = 20 }) []
        (new {P = toy} (proved ∷ []) [])).1
      (Reach.next Reach.here (nullified (record { nullifier = 5; block_num = 20 }) []))
