-- ===== src/InputNote/Types.antt =====
-- The data of an input note's state, and the trait of its handlers
-- (crates/rust-client/src/store/note_record/input_note_record/states, and mod.rs above it).
use miden_client.Base.{ℕ, Option, String, Result}
use miden_client.Protocol.{Protocol}

pub data NoteRecordError (P : Protocol) : Type 0 where
  conversion_error : String → NoteRecordError P
  note_error : P.NoteError → NoteRecordError P
  note_not_consumable : String → NoteRecordError P
  invalid_state_transition : String → NoteRecordError P
  state_transition_error : String → NoteRecordError P

pub record NoteSubmissionData (P : Protocol) : Type 0 where
  pub submitted_at : Option ℕ
  pub consumer_account : P.AccountId
  pub consumer_transaction : P.TransactionId

pub record ExpectedNoteState (P : Protocol) : Type 0 where
  pub metadata : Option P.NoteMetadata
  pub after_block_num : ℕ
  pub tag : Option P.NoteTag

pub record UnverifiedNoteState (P : Protocol) : Type 0 where
  pub metadata : P.NoteMetadata
  pub inclusion_proof : P.NoteInclusionProof

pub record CommittedNoteState (P : Protocol) : Type 0 where
  pub metadata : P.NoteMetadata
  pub inclusion_proof : P.NoteInclusionProof
  pub block_note_root : P.Word

pub record InvalidNoteState (P : Protocol) : Type 0 where
  pub metadata : P.NoteMetadata
  pub invalid_inclusion_proof : P.NoteInclusionProof
  pub block_note_root : P.Word

pub record ProcessingAuthenticatedNoteState (P : Protocol) : Type 0 where
  pub metadata : P.NoteMetadata
  pub inclusion_proof : P.NoteInclusionProof
  pub block_note_root : P.Word
  pub submission_data : NoteSubmissionData P

pub record ProcessingUnauthenticatedNoteState (P : Protocol) : Type 0 where
  pub metadata : P.NoteMetadata
  pub after_block_num : ℕ
  pub submission_data : NoteSubmissionData P

pub record ConsumedAuthenticatedLocalNoteState (P : Protocol) : Type 0 where
  pub metadata : P.NoteMetadata
  pub inclusion_proof : P.NoteInclusionProof
  pub block_note_root : P.Word
  pub nullifier_block_height : ℕ
  pub submission_data : NoteSubmissionData P
  pub consumed_tx_order : Option ℕ

pub record ConsumedUnauthenticatedLocalNoteState (P : Protocol) : Type 0 where
  pub metadata : P.NoteMetadata
  pub nullifier_block_height : ℕ
  pub submission_data : NoteSubmissionData P
  pub consumed_tx_order : Option ℕ

pub record ConsumedExternalNoteState (P : Protocol) : Type 0 where
  pub nullifier_block_height : ℕ
  pub consumed_tx_order : Option ℕ

pub data InputNoteState (P : Protocol) : Type 0 where
  expected : ExpectedNoteState P → InputNoteState P
  unverified : UnverifiedNoteState P → InputNoteState P
  committed : CommittedNoteState P → InputNoteState P
  invalid : InvalidNoteState P → InputNoteState P
  processing_authenticated : ProcessingAuthenticatedNoteState P → InputNoteState P
  processing_unauthenticated : ProcessingUnauthenticatedNoteState P → InputNoteState P
  consumed_authenticated_local : ConsumedAuthenticatedLocalNoteState P → InputNoteState P
  consumed_unauthenticated_local : ConsumedUnauthenticatedLocalNoteState P → InputNoteState P
  consumed_external : ConsumedExternalNoteState P → InputNoteState P

-- What a transition returns: the new state, or nothing if the state stays, or an error.
abbrev pub Transition : Protocol → Type 0
Transition P = Result (NoteRecordError P) (Option (InputNoteState P))

pub record NoteStateHandler (P : Protocol) : Type 0 where
  pub metadata : Option P.NoteMetadata
  pub inclusion_proof : Option P.NoteInclusionProof
  pub consumer_transaction_id : Option P.TransactionId
  pub inclusion_proof_received : P.NoteInclusionProof → P.NoteMetadata → Transition P
  pub consumed_externally : ℕ → Transition P
  pub block_header_received : P.NoteId → P.BlockHeader → Transition P
  pub consumed_locally : P.AccountId → P.TransactionId → Option ℕ → Transition P
  pub transaction_committed : P.TransactionId → ℕ → Transition P
