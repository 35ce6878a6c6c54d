-- ===== src/InputNote/Record.antt =====
-- The input note record and its transitions
-- (crates/rust-client/src/store/note_record/input_note_record/mod.rs). A method that takes
-- `&mut self` returns its result and the record that it leaves behind.
pub mod RoundTrip
use miden_client.Base.{
  ℕ, ◌+◌, ite, Bool, true, false, not, Option, none, some, List, ◌++◌, Result, ok, err,
}
use mathlib.Core.Option
use miden_client.Protocol.{
  Protocol, InputNote, authenticated, unauthenticated, Codecs, Reader, ◌>>=◌, pure,
}
use miden_client.InputNote.Types.{
  NoteRecordError, conversion_error, state_transition_error, Transition, InputNoteState, expected,
  unverified, committed, processing_authenticated, processing_unauthenticated,
  consumed_authenticated_local, consumed_unauthenticated_local, consumed_external,
}
use miden_client.InputNote.States

pub record InputNoteRecord (P : Protocol) : Type 0 where
  pub details : P.NoteDetails
  pub created_at : Option ℕ
  pub state : InputNoteState P

module _ {P : Protocol} where
  abbrev pub new : P.NoteDetails → Option ℕ → InputNoteState P → InputNoteRecord P
  new details created_at state = record {
    details = details;
    created_at = created_at;
    state = state;
  }

  unfoldable pub id : InputNoteRecord P → P.NoteId
  id r = P.details_id r.details

  unfoldable pub recipient : InputNoteRecord P → P.Word
  recipient r = P.recipient_digest (P.details_recipient r.details)

  unfoldable pub metadata : InputNoteRecord P → Option P.NoteMetadata
  unfolding States.metadata
  metadata r = States.metadata r.state

  unfoldable pub commitment : InputNoteRecord P → Option P.Word
  unfolding metadata id
  commitment r = Option.map (λ m. P.header_commitment (id r) m) (metadata r)

  unfoldable pub nullifier : InputNoteRecord P → P.Nullifier
  nullifier r = P.details_nullifier r.details

  unfoldable pub inclusion_proof : InputNoteRecord P → Option P.NoteInclusionProof
  unfolding States.inclusion_proof
  inclusion_proof r = States.inclusion_proof r.state

  unfoldable pub consumer_transaction_id : InputNoteRecord P → Option P.TransactionId
  unfolding States.consumer_transaction_id
  consumer_transaction_id r = States.consumer_transaction_id r.state

  consumer_of : InputNoteState P → Option P.AccountId
  consumer_of (processing_authenticated s) = some s.submission_data.consumer_account
  consumer_of (processing_unauthenticated s) = some s.submission_data.consumer_account
  consumer_of (consumed_authenticated_local s) = some s.submission_data.consumer_account
  consumer_of (consumed_unauthenticated_local s) = some s.submission_data.consumer_account
  consumer_of _ = none

  unfoldable pub consumer_account : InputNoteRecord P → Option P.AccountId
  unfolding consumer_of
  consumer_account r = consumer_of r.state

  -- The `matches!` of the four tests.
  unfoldable pub is_authenticated_state : InputNoteState P → Bool
  is_authenticated_state (committed _) = true
  is_authenticated_state (processing_authenticated _) = true
  is_authenticated_state (consumed_authenticated_local _) = true
  is_authenticated_state _ = false

  unfoldable pub is_consumed_state : InputNoteState P → Bool
  is_consumed_state (consumed_external _) = true
  is_consumed_state (consumed_authenticated_local _) = true
  is_consumed_state (consumed_unauthenticated_local _) = true
  is_consumed_state _ = false

  unfoldable pub is_processing_state : InputNoteState P → Bool
  is_processing_state (processing_authenticated _) = true
  is_processing_state (processing_unauthenticated _) = true
  is_processing_state _ = false

  unfoldable pub is_committed_state : InputNoteState P → Bool
  is_committed_state (committed _) = true
  is_committed_state _ = false

  unfoldable pub is_authenticated : InputNoteRecord P → Bool
  unfolding is_authenticated_state
  is_authenticated r = is_authenticated_state r.state

  unfoldable pub is_consumed : InputNoteRecord P → Bool
  unfolding is_consumed_state
  is_consumed r = is_consumed_state r.state

  unfoldable pub is_processing : InputNoteRecord P → Bool
  unfolding is_processing_state
  is_processing r = is_processing_state r.state

  unfoldable pub is_committed : InputNoteRecord P → Bool
  unfolding is_committed_state
  is_committed r = is_committed_state r.state

  unfoldable pub set_consumed_tx_order : Option ℕ → InputNoteRecord P → InputNoteRecord P
  unfolding States.set_consumed_tx_order
  set_consumed_tx_order order r = record r { state = States.set_consumed_tx_order r.state order }

  -- The end that the five transitions share: `?` on an error, and whether the state was replaced.
  unfoldable pub adopt :
      Transition P → InputNoteRecord P → Result (NoteRecordError P) Bool × InputNoteRecord P
  adopt (err e) r = (err e, r)
  adopt (ok none) r = (ok false, r)
  adopt (ok (some new_state)) r = (ok true, record r { state = new_state })

  unfoldable pub inclusion_proof_received :
      P.NoteInclusionProof
      → P.NoteMetadata
      → InputNoteRecord P
      → Result (NoteRecordError P) Bool × InputNoteRecord P
  unfolding adopt States.inclusion_proof_received
  inclusion_proof_received proof note_metadata r =
      adopt (States.inclusion_proof_received r.state proof note_metadata) r

  unfoldable pub block_header_received :
      P.BlockHeader → InputNoteRecord P → Result (NoteRecordError P) Bool × InputNoteRecord P
  unfolding adopt States.block_header_received id
  block_header_received block_header r =
      adopt (States.block_header_received r.state (id r) block_header) r

  unfoldable pub consumed_externally :
      P.Nullifier → ℕ → InputNoteRecord P → Result (NoteRecordError P) Bool × InputNoteRecord P
  unfolding adopt States.consumed_externally nullifier
  consumed_externally note_nullifier nullifier_block_height r =
      ite (P.nullifier_eq (nullifier r) note_nullifier)
        (adopt (States.consumed_externally r.state nullifier_block_height) r)
        (err (state_transition_error "Nullifier does not match the expected value"), r)

  unfoldable pub consumed_locally :
      P.AccountId
      → P.TransactionId
      → Option ℕ
      → InputNoteRecord P
      → Result (NoteRecordError P) Bool × InputNoteRecord P
  unfolding adopt States.consumed_locally
  consumed_locally account transaction current_timestamp r =
      adopt (States.consumed_locally r.state account transaction current_timestamp) r

  unfoldable pub transaction_committed :
      P.TransactionId → ℕ → InputNoteRecord P → Result (NoteRecordError P) Bool × InputNoteRecord P
  unfolding adopt States.transaction_committed
  transaction_committed transaction_id block_height r =
      adopt (States.transaction_committed r.state transaction_id block_height) r

  -- `From<Note>` and `From<InputNote>`
  unfoldable pub from_note : P.Note → InputNoteRecord P
  from_note note = record {
    details = P.note_details note;
    created_at = none;
    state = expected (record {
      metadata = some (P.note_metadata note);
      after_block_num = 0;
      tag = some (P.metadata_tag (P.note_metadata note));
    });
  }

  unfoldable pub from_input_note : InputNote P → InputNoteRecord P
  unfolding from_note
  from_input_note (authenticated note proof) = record {
    details = P.note_details note;
    created_at = none;
    state = unverified (record { metadata = P.note_metadata note; inclusion_proof = proof });
  }
  from_input_note (unauthenticated note) = from_note note

  abbrev rebuild : InputNoteRecord P → P.NoteMetadata → P.Note
  rebuild r note_metadata =
      P.note_new (P.details_assets r.details) note_metadata (P.details_recipient r.details)

  as_input_note :
      InputNoteRecord P
      → Option P.NoteMetadata
      → Option P.NoteInclusionProof
      → Result (NoteRecordError P) (InputNote P)
  as_input_note r (some m) (some proof) = ok (authenticated (rebuild r m) proof)
  as_input_note r (some m) none = ok (unauthenticated (rebuild r m))
  as_input_note r _ _ = err (conversion_error "Input Note Record does not contain metadata")

  -- `TryInto<InputNote>` and `TryInto<Note>`
  unfoldable pub try_into_input_note : InputNoteRecord P → Result (NoteRecordError P) (InputNote P)
  unfolding as_input_note metadata inclusion_proof
  try_into_input_note r = as_input_note r (metadata r) (inclusion_proof r)

  unfoldable pub try_into_note : InputNoteRecord P → Result (NoteRecordError P) P.Note
  unfolding metadata
  try_into_note r = elim (metadata r) [
    | some m ↦ ok (rebuild r m)
    | none ↦ err (conversion_error "Input Note Record does not contain metadata")
  ]

module _ {P : Protocol} (C : Codecs P) where
  pub write_into : InputNoteRecord P → List ℕ
  write_into r =
      C.details.write r.details ++ (C.option_u64.write r.created_at ++ States.write_into C r.state)

  pub read_from : Reader C.DeserializationError (InputNoteRecord P)
  read_from = do
    details ← C.details.read
    created_at ← C.option_u64.read
    state ← States.read_from C
    pure (record { details = details; created_at = created_at; state = state })
