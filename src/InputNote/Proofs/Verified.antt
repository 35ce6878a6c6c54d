-- ===== src/InputNote/Proofs/Verified.antt =====
-- What a state claims about its inclusion proof
-- (crates/rust-client/src/store/note_record/input_note_record/states).
use miden_client.Base.{ℕ, ◌≡◌, refl, Bool, true, false, List, [], ◌∷◌, arith, Option, some}
use miden_client.Protocol.{Protocol, InputNote, authenticated, unauthenticated}
use miden_client.InputNote.Types.{
  InputNoteState, committed, invalid, processing_authenticated, consumed_authenticated_local,
}
use miden_client.InputNote.Record
use miden_client.InputNote.Record.{InputNoteRecord}
use miden_client.InputNote.Steps.{Event, step, run}

-- The result of checking a proof of the note with this ID and metadata against a note root.
abbrev pub proves :
    (P : Protocol) → P.NoteId → P.NoteMetadata → P.NoteInclusionProof → P.Word → Bool
proves P note_id note_metadata proof root =
    P.verify (P.note_path proof) (P.block_note_tree_index proof)
      (P.compute_note_commitment note_id note_metadata) root

module _ {P : Protocol} where
  -- An authenticated state holds a proof that verifies against the note root that it stores, and
  -- an invalid state one that does not.
  abbrev pub IsVerifiedState : P.NoteId → InputNoteState P → Type 0
  IsVerifiedState i (committed s) = proves P i s.metadata s.inclusion_proof s.block_note_root ≡ true
  IsVerifiedState i (invalid s) =
      proves P i s.metadata s.invalid_inclusion_proof s.block_note_root ≡ false
  IsVerifiedState i (processing_authenticated s) =
      proves P i s.metadata s.inclusion_proof s.block_note_root ≡ true
  IsVerifiedState i (consumed_authenticated_local s) =
      proves P i s.metadata s.inclusion_proof s.block_note_root ≡ true
  IsVerifiedState i _ = Unit

  abbrev pub IsVerified : InputNoteRecord P → Type 0
  IsVerified r = IsVerifiedState (Record.id r) r.state

  -- Every event, whether it succeeds or not, keeps the record's details and time of creation.
  pub step-details :
      (e : Event P) (r : InputNoteRecord P)
      → ((step e r).1.details ≡ r.details) × ((step e r).1.created_at ≡ r.created_at)
  unfolding step
  step-details e r = ground arith

  step-IsVerified : (e : Event P) (r : InputNoteRecord P) → IsVerified r → IsVerified (step e r).1
  unfolding step Record.id
  step-IsVerified e r h = ground arith

  -- If an authenticated record holds a proof that verifies against its stored note root, and an
  -- invalid one a proof that does not, then the same is true after any history of events.
  pub run-IsVerified :
      (es : List (Event P)) (r : InputNoteRecord P) → IsVerified r → IsVerified (run es r)
  unfolding run
  run-IsVerified [] r h = h
  run-IsVerified (e ∷ es) r h = run-IsVerified es (step e r).1 (step-IsVerified e r h)

  -- What an authenticated record holds: metadata and a proof that verifies in some block.
  abbrev pub HasProof : InputNoteRecord P → Type 0
  HasProof r =
      (m : P.NoteMetadata) × (proof : P.NoteInclusionProof) × (root : P.Word) × (Record.metadata r
        ≡ some m)
      × (Record.inclusion_proof r ≡ some proof)
      × (proves P (Record.id r) m proof root ≡ true)

  has_proof :
      (d : P.NoteDetails) (t : Option ℕ) (s : InputNoteState P)
      → IsVerified (Record.new d t s)
      → Record.is_authenticated (Record.new d t s) ≡ true
      → HasProof (Record.new d t s)
  unfolding Record.id Record.metadata Record.inclusion_proof Record.is_authenticated
  has_proof d t (committed s) h a =
      (s.metadata, s.inclusion_proof, s.block_note_root, refl, refl, h)
  has_proof d t (processing_authenticated s) h a =
      (s.metadata, s.inclusion_proof, s.block_note_root, refl, refl, h)
  has_proof d t (consumed_authenticated_local s) h a =
      (s.metadata, s.inclusion_proof, s.block_note_root, refl, refl, h)
  has_proof d t _ h a = cc

  from_input_note-IsVerified : (n : InputNote P) → IsVerified (Record.from_input_note n)
  unfolding Record.from_input_note
  from_input_note-IsVerified (authenticated note proof) = tt
  from_input_note-IsVerified (unauthenticated note) = tt

  -- A record made from a note, with an inclusion proof or without, that is authenticated after
  -- some history of events holds metadata and an inclusion proof that verifies for its note ID
  -- against some note root.
  pub authenticated-HasProof :
      (n : InputNote P) (es : List (Event P))
      → Record.is_authenticated (run es (Record.from_input_note n)) ≡ true
      → HasProof (run es (Record.from_input_note n))
  authenticated-HasProof n es a =
      let r = run es (Record.from_input_note n) in
      has_proof r.details r.created_at r.state
        (run-IsVerified es (Record.from_input_note n) (from_input_note-IsVerified n)) a
