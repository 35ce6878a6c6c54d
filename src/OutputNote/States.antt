-- ===== src/OutputNote/States.antt =====
-- The state of an output note and its encoding
-- (crates/rust-client/src/store/note_record/output_note_record/mod.rs).
use miden_client.Base.{
  ℕ, ◌≡◌, refl, ◌∙◌, ite, Option, none, some, List, [], ◌∷◌, ◌++◌, ◌==◌, if◌then◌else◌, Result, ok,
  err,
}
use miden_client.Protocol.{Protocol, Codecs, Reader, ◌>>=◌, pure, reading, >>=-ok}
use miden_client.InputNote.Types.{NoteRecordError, invalid_state_transition, state_transition_error}

pub data OutputNoteState (P : Protocol) : Type 0 where
  expected_partial : OutputNoteState P
  expected_full : P.NoteRecipient → OutputNoteState P
  committed_partial : P.NoteInclusionProof → OutputNoteState P
  committed_full : P.NoteRecipient → P.NoteInclusionProof → OutputNoteState P
  consumed : ℕ → P.NoteRecipient → OutputNoteState P

abbrev pub state_expected_partial : ℕ
state_expected_partial = 0

abbrev pub state_expected_full : ℕ
state_expected_full = 1

abbrev pub state_committed_partial : ℕ
state_committed_partial = 2

abbrev pub state_committed_full : ℕ
state_committed_full = 3

abbrev pub state_consumed : ℕ
state_consumed = 4

-- What a transition returns: the new state, or nothing if the state stays, or an error.
abbrev pub Transition : Protocol → Type 0
Transition P = Result (NoteRecordError P) (Option (OutputNoteState P))

module _ {P : Protocol} where
  unfoldable pub discriminant : OutputNoteState P → ℕ
  discriminant expected_partial = state_expected_partial
  discriminant (expected_full _) = state_expected_full
  discriminant (committed_partial _) = state_committed_partial
  discriminant (committed_full _ _) = state_committed_full
  discriminant (consumed _ _) = state_consumed

  unfoldable pub recipient : OutputNoteState P → Option P.NoteRecipient
  recipient (expected_full to) = some to
  recipient (committed_full to _) = some to
  recipient (consumed _ to) = some to
  recipient _ = none

  unfoldable pub inclusion_proof : OutputNoteState P → Option P.NoteInclusionProof
  inclusion_proof (committed_partial proof) = some proof
  inclusion_proof (committed_full _ proof) = some proof
  inclusion_proof _ = none

  abbrev same_proof : P.NoteInclusionProof → P.NoteInclusionProof → Transition P
  same_proof previous proof =
      ite (P.inclusion_proof_eq previous proof) (ok none)
        (err (state_transition_error "Cannot receive different inclusion proof for committed note"))

  unfoldable pub inclusion_proof_received : OutputNoteState P → P.NoteInclusionProof → Transition P
  inclusion_proof_received expected_partial proof = ok (some (committed_partial proof))
  inclusion_proof_received (expected_full to) proof = ok (some (committed_full to proof))
  inclusion_proof_received (committed_partial previous) proof = same_proof previous proof
  inclusion_proof_received (committed_full _ previous) proof = same_proof previous proof
  inclusion_proof_received (consumed _ _) proof = ok none

  unfoldable pub nullifier_received : OutputNoteState P → ℕ → Transition P
  nullifier_received (consumed _ _) block_height = ok none
  nullifier_received (expected_full to) block_height = ok (some (consumed block_height to))
  nullifier_received (committed_full to _) block_height = ok (some (consumed block_height to))
  nullifier_received expected_partial block_height =
      err (invalid_state_transition "Cannot nullify note without recipient")
  nullifier_received (committed_partial _) block_height =
      err (invalid_state_transition "Cannot nullify note without recipient")

module _ {P : Protocol} (C : Codecs P) where
  write_inner : OutputNoteState P → List ℕ
  write_inner expected_partial = []
  write_inner (expected_full to) = C.recipient.write to
  write_inner (committed_partial proof) = C.inclusion_proof.write proof
  write_inner (committed_full to proof) = C.recipient.write to ++ C.inclusion_proof.write proof
  write_inner (consumed block_height to) = C.block_number.write block_height ++ C.recipient.write to

  pub write_into : OutputNoteState P → List ℕ
  unfolding discriminant write_inner
  write_into s = discriminant s ∷ write_inner s

  read_inner : ℕ → Reader C.DeserializationError (OutputNoteState P)
  read_inner state bytes =
      if state == state_expected_partial
      then pure expected_partial bytes
      else if state == state_expected_full
      then (do to ← C.recipient.read; pure (expected_full to)) bytes
      else if state == state_committed_partial
      then (do proof ← C.inclusion_proof.read; pure (committed_partial proof)) bytes
      else if state == state_committed_full
      then (do
        to ← C.recipient.read
        proof ← C.inclusion_proof.read
        pure (committed_full to proof))
          bytes
      else if state == state_consumed
      then (do
        block_height ← C.block_number.read
        to ← C.recipient.read
        pure (consumed block_height to))
          bytes
      else err (C.invalid_value "OutputNoteState" none)

  pub read_from : Reader C.DeserializationError (OutputNoteState P)
  unfolding read_inner
  read_from = do state ← C.read_u8; read_inner state

  read_inner-write_inner :
      (s : OutputNoteState P) (rest : List ℕ)
      → read_inner (discriminant s) (write_inner s ++ rest) ≡ ok (s, rest)
  unfolding read_inner write_inner discriminant
  read_inner-write_inner expected_partial rest = refl
  read_inner-write_inner _ rest = simp reading

  -- What is written is read back, whatever bytes follow it.
  pub round_trip :
      (s : OutputNoteState P) (rest : List ℕ) → read_from (write_into s ++ rest) ≡ ok (s, rest)
  unfolding read_from write_into
  round_trip s rest =
      >>=-ok C.read_u8 read_inner (discriminant s ∷ (write_inner s ++ rest)) (discriminant s)
        (write_inner s ++ rest) (C.read_u8-cons (discriminant s) (write_inner s ++ rest))
      ∙ read_inner-write_inner s rest
