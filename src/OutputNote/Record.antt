-- ===== src/OutputNote/Record.antt =====
-- The output note record, its transitions and conversions
-- (crates/rust-client/src/store/note_record/output_note_record/mod.rs). A method that takes
-- `&mut self` returns its result and the record that it leaves behind.
use miden_client.Base.{
  ℕ, ite, Bool, true, false, Option, none, some, if◌then◌else◌, Result, ok, err,
}
use mathlib.Core.Option
use miden_client.Protocol.{Protocol, RawOutputNote, full, partial, NoteFile}
use miden_client.InputNote.Types.{NoteRecordError, conversion_error, state_transition_error}
use miden_client.OutputNote.States
use miden_client.OutputNote.States.{
  OutputNoteState, expected_partial, expected_full, committed_partial, committed_full, consumed,
  Transition,
}

pub record OutputNoteRecord (P : Protocol) : Type 0 where
  pub assets : P.NoteAssets
  pub metadata : P.NoteMetadata
  pub recipient_digest : P.Word
  pub state : OutputNoteState P
  pub expected_height : ℕ

pub data NoteExportType : Type 0 where
  note_id note_details note_with_proof : NoteExportType

-- The test on the record's own nullifier, if it has one.
nullifier_mismatch : (P : Protocol) → P.Nullifier → Option P.Nullifier → Bool
nullifier_mismatch P n none = false
nullifier_mismatch P n (some note_nullifier) = ite (P.nullifier_eq note_nullifier n) false true

module _ {P : Protocol} where
  unfoldable pub id : OutputNoteRecord P → P.NoteId
  id r = P.note_id_new r.recipient_digest r.assets

  unfoldable pub inclusion_proof : OutputNoteRecord P → Option P.NoteInclusionProof
  unfolding States.inclusion_proof
  inclusion_proof r = States.inclusion_proof r.state

  unfoldable pub recipient : OutputNoteRecord P → Option P.NoteRecipient
  unfolding States.recipient
  recipient r = States.recipient r.state

  unfoldable pub nullifier : OutputNoteRecord P → Option P.Nullifier
  unfolding recipient
  nullifier r = Option.map (λ recipient. P.nullifier_new recipient r.assets) (recipient r)

  unfoldable pub is_consumed_state : OutputNoteState P → Bool
  is_consumed_state (consumed _ _) = true
  is_consumed_state _ = false

  unfoldable pub is_committed_state : OutputNoteState P → Bool
  is_committed_state (committed_full _ _) = true
  is_committed_state (committed_partial _) = true
  is_committed_state _ = false

  unfoldable pub is_consumed : OutputNoteRecord P → Bool
  unfolding is_consumed_state
  is_consumed r = is_consumed_state r.state

  unfoldable pub is_committed : OutputNoteRecord P → Bool
  unfolding is_committed_state
  is_committed r = is_committed_state r.state

  -- The end that the two transitions share.
  adopt : Transition P → OutputNoteRecord P → Result (NoteRecordError P) Bool × OutputNoteRecord P
  adopt (err e) r = (err e, r)
  adopt (ok none) r = (ok false, r)
  adopt (ok (some new_state)) r = (ok true, record r { state = new_state })

  unfoldable pub inclusion_proof_received :
      P.NoteInclusionProof
      → OutputNoteRecord P
      → Result (NoteRecordError P) Bool × OutputNoteRecord P
  unfolding adopt States.inclusion_proof_received
  inclusion_proof_received proof r = adopt (States.inclusion_proof_received r.state proof) r

  unfoldable pub nullifier_received :
      P.Nullifier → ℕ → OutputNoteRecord P → Result (NoteRecordError P) Bool × OutputNoteRecord P
  unfolding adopt States.nullifier_received nullifier nullifier_mismatch
  nullifier_received note_nullifier block_height r =
      if nullifier_mismatch P note_nullifier (nullifier r)
      then (err (state_transition_error "Nullifier does not match the expected value"), r)
      else adopt (States.nullifier_received r.state block_height) r

  unfoldable pub from_full_note : P.Note → ℕ → OutputNoteRecord P
  from_full_note note expected_height =
      let details = P.note_details note in
      record {
        assets = P.details_assets details;
        metadata = P.note_metadata note;
        recipient_digest = P.recipient_digest (P.details_recipient details);
        state = expected_full (P.details_recipient details);
        expected_height = expected_height;
      }

  unfoldable pub from_partial_note : P.PartialNote → ℕ → OutputNoteRecord P
  from_partial_note partial_note expected_height = record {
    assets = P.partial_assets partial_note;
    metadata = P.partial_metadata partial_note;
    recipient_digest = P.partial_recipient_digest partial_note;
    state = expected_partial;
    expected_height = expected_height;
  }

  unfoldable pub try_from_output_note :
      RawOutputNote P → ℕ → Result (NoteRecordError P) (OutputNoteRecord P)
  unfolding from_full_note from_partial_note
  try_from_output_note (full note) expected_height = ok (from_full_note note expected_height)
  try_from_output_note (partial partial_note) expected_height =
      ok (from_partial_note partial_note expected_height)

  -- `TryFrom<OutputNoteRecord>` for `NoteDetails` and for `Note`
  unfoldable pub try_into_details : OutputNoteRecord P → Result (NoteRecordError P) P.NoteDetails
  unfolding recipient
  try_into_details r = elim (recipient r) [
    | some recipient ↦ ok (P.details_new r.assets recipient)
    | none ↦ err (conversion_error "Output Note Record does not contain details")
  ]

  unfoldable pub try_into_note : OutputNoteRecord P → Result (NoteRecordError P) P.Note
  unfolding recipient
  try_into_note r = elim (recipient r) [
    | some recipient ↦ ok (P.note_new r.assets r.metadata recipient)
    | none ↦ err (conversion_error "Output Note Record does not contain details")
  ]

  with_details :
      ℕ
      → Option P.NoteTag
      → Result (NoteRecordError P) P.NoteDetails
      → Result (NoteRecordError P) (NoteFile P)
  with_details after_block_num tag (ok details) =
      ok (NoteFile.note_details details after_block_num tag)
  with_details after_block_num tag (err e) = err e

  with_note :
      Result (NoteRecordError P) P.Note
      → P.NoteInclusionProof
      → Result (NoteRecordError P) (NoteFile P)
  with_note (ok note) proof = ok (NoteFile.note_with_proof note proof)
  with_note (err e) proof = err e

  unfoldable pub into_note_file :
      OutputNoteRecord P → NoteExportType → Result (NoteRecordError P) (NoteFile P)
  unfolding id inclusion_proof try_into_details try_into_note with_details with_note
  into_note_file r note_id = ok (NoteFile.note_id (id r))
  into_note_file r note_details =
      with_details r.expected_height (some (P.metadata_tag r.metadata)) (try_into_details r)
  into_note_file r note_with_proof = elim (inclusion_proof r) [
    | none ↦ err (conversion_error "Note record does not contain an inclusion proof")
    | some proof ↦ with_note (try_into_note r) proof
  ]
