-- ===== src/Tests/OutputNotes.antt =====
-- The record of the output note with metadata 7 and recipient 5, and the theorems on output notes
-- there.
use miden_client.Base.{
  ℕ, ◌≡◌, refl, ◌≢◌, ◌↔◌, ◌⊎◌, true, false, some, List, [], ◌∷◌, ◌++◌, ℕ_discrete, ok,
}
use miden_client.OutputNote.Record as Record
use miden_client.OutputNote.Record.{OutputNoteRecord, NoteExportType}
use miden_client.OutputNote.States
use miden_client.OutputNote.States.{expected_full, committed_full, consumed}
use miden_client.OutputNote.Lifecycle.{
  Event, step, run, inclusion_proof_received, nullifier_received, Follows, run-Follows,
  consumed_for_good, nullifier_received_lem, inclusion_proof_refused,
}
use miden_client.OutputNote.Export.{try_into_note-run, into_note_file-run}
use miden_client.Protocol.{NoteFile}
use miden_client.Tests.Toy.{toy, toy_laws, toy_codecs}

abbrev sent : OutputNoteRecord toy
unfolding Record.from_full_note
sent = Record.from_full_note (7, 5) 10

abbrev spent_record : OutputNoteRecord toy
spent_record = record {
  assets = tt;
  metadata = 7;
  recipient_digest = 5;
  state = consumed 20 5;
  expected_height = 10;
}

abbrev history : List (Event toy)
history = inclusion_proof_received 12 ∷ nullifier_received 5 20 ∷ inclusion_proof_received 13 ∷ []

history_consumes : run history sent ≡ spent_record
unfolding run step Record.from_full_note ℕ_discrete
history_consumes = refl

run-Follows_example : Follows sent (run history sent)
unfolding Record.from_full_note
run-Follows_example = run-Follows history sent

consumed_for_good_example : run history spent_record ≡ spent_record
unfolding Record.is_consumed
consumed_for_good_example = consumed_for_good history spent_record refl

nullifier_received_lem_example :
    ((to : ℕ) × (Record.is_consumed sent ≡ false)
      × (Record.recipient sent ≡ some to)
      × (to ≡ 5)
      × (Record.nullifier_received 5 20 sent ≡ (ok true, record sent { state = consumed 20 to })))
    ⊎ (((Record.is_consumed sent ≡ true) ⊎ (Record.nullifier sent ≢ some 5))
        × ((Record.nullifier_received 5 20 sent).0 ≢ ok true)
        × ((Record.nullifier_received 5 20 sent).1 ≡ sent))
unfolding Record.from_full_note
nullifier_received_lem_example = nullifier_received_lem 5 20 sent

inclusion_proof_refused_example :
    (((Record.inclusion_proof_received 12 sent).0 ≢ ok true)
      × ((Record.inclusion_proof_received 12 sent).0 ≢ ok false))
    ↔ ((Record.is_committed sent ≡ true) × (Record.inclusion_proof sent ≢ some 12))
unfolding Record.from_full_note
inclusion_proof_refused_example = inclusion_proof_refused 12 sent

round_trip_example :
    States.read_from toy_codecs (States.write_into toy_codecs (committed_full 5 12) ++ 4 ∷ [])
    ≡ ok (committed_full 5 12, 4 ∷ [])
round_trip_example = States.round_trip toy_codecs (committed_full 5 12) (4 ∷ [])

try_into_note-run_example :
    let r = run history (Record.from_full_note {P = toy} (7, 5) 10) in
    (Record.try_into_note r ≡ ok (7, 5)) × (Record.id r ≡ 5) × (Record.nullifier r ≡ some 5)
try_into_note-run_example = try_into_note-run toy_laws (7, 5) 10 history

into_note_file-run_example :
    let r = run history (Record.from_full_note {P = toy} (7, 5) 10) in
    (Record.into_note_file r NoteExportType.note_id ≡ ok (NoteFile.note_id 5))
    × (Record.into_note_file r NoteExportType.note_details
        ≡ ok (NoteFile.note_details 5 10 (some 7)))
    × ((proof : ℕ)
        → (Record.into_note_file r NoteExportType.note_with_proof
            ≡ ok (NoteFile.note_with_proof (7, 5) proof))
          ↔ (Record.inclusion_proof r ≡ some proof))
into_note_file-run_example = into_note_file-run toy_laws (7, 5) 10 history
