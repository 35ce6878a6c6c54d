-- ===== src/InputNote/States.antt =====
-- The input note state: the choice of a handler, the accessors, and the encoding with a leading
-- discriminant (crates/rust-client/src/store/note_record/input_note_record/states/mod.rs).
pub mod Submission
pub mod Expected
pub mod Unverified
pub mod Committed
pub mod Invalid
pub mod ProcessingAuthenticated
pub mod ProcessingUnauthenticated
pub mod ConsumedAuthenticatedLocal
pub mod ConsumedUnauthenticatedLocal
pub mod ConsumedExternal
pub mod RoundTrip
use miden_client.Base.{ℕ, ◌∷◌, List, Option, none, some, err, ◌==◌, if◌then◌else◌}
use miden_client.Protocol.{Protocol, Codecs, Reader, ◌>>=◌, pure}
use miden_client.InputNote.Types.{
  InputNoteState, expected, unverified, committed, invalid, processing_authenticated,
  processing_unauthenticated, consumed_authenticated_local, consumed_unauthenticated_local,
  consumed_external, NoteStateHandler, Transition,
}

abbrev pub state_expected : ℕ
state_expected = 0

abbrev pub state_unverified : ℕ
state_unverified = 1

abbrev pub state_committed : ℕ
state_committed = 2

abbrev pub state_invalid : ℕ
state_invalid = 3

abbrev pub state_processing_authenticated : ℕ
state_processing_authenticated = 4

abbrev pub state_processing_unauthenticated : ℕ
state_processing_unauthenticated = 5

abbrev pub state_consumed_authenticated_local : ℕ
state_consumed_authenticated_local = 6

abbrev pub state_consumed_unauthenticated_local : ℕ
state_consumed_unauthenticated_local = 7

abbrev pub state_consumed_external : ℕ
state_consumed_external = 8

module _ {P : Protocol} where
  unfoldable pub inner : InputNoteState P → NoteStateHandler P
  unfolding Expected.handler Unverified.handler Committed.handler Invalid.handler
      ProcessingAuthenticated.handler ProcessingUnauthenticated.handler
      ConsumedAuthenticatedLocal.handler ConsumedUnauthenticatedLocal.handler
      ConsumedExternal.handler
  inner (expected s) = Expected.handler s
  inner (unverified s) = Unverified.handler s
  inner (committed s) = Committed.handler s
  inner (invalid s) = Invalid.handler s
  inner (processing_authenticated s) = ProcessingAuthenticated.handler s
  inner (processing_unauthenticated s) = ProcessingUnauthenticated.handler s
  inner (consumed_authenticated_local s) = ConsumedAuthenticatedLocal.handler s
  inner (consumed_unauthenticated_local s) = ConsumedUnauthenticatedLocal.handler s
  inner (consumed_external s) = ConsumedExternal.handler s

  unfoldable pub discriminant : InputNoteState P → ℕ
  discriminant (expected _) = state_expected
  discriminant (unverified _) = state_unverified
  discriminant (committed _) = state_committed
  discriminant (invalid _) = state_invalid
  discriminant (processing_authenticated _) = state_processing_authenticated
  discriminant (processing_unauthenticated _) = state_processing_unauthenticated
  discriminant (consumed_authenticated_local _) = state_consumed_authenticated_local
  discriminant (consumed_unauthenticated_local _) = state_consumed_unauthenticated_local
  discriminant (consumed_external _) = state_consumed_external

  unfoldable pub metadata : InputNoteState P → Option P.NoteMetadata
  unfolding inner
  metadata s = (inner s).metadata

  unfoldable pub inclusion_proof : InputNoteState P → Option P.NoteInclusionProof
  unfolding inner
  inclusion_proof s = (inner s).inclusion_proof

  unfoldable pub consumer_transaction_id : InputNoteState P → Option P.TransactionId
  unfolding inner
  consumer_transaction_id s = (inner s).consumer_transaction_id

  unfoldable pub consumed_block_height : InputNoteState P → Option ℕ
  consumed_block_height (consumed_authenticated_local s) = some s.nullifier_block_height
  consumed_block_height (consumed_unauthenticated_local s) = some s.nullifier_block_height
  consumed_block_height (consumed_external s) = some s.nullifier_block_height
  consumed_block_height _ = none

  unfoldable pub consumed_tx_order : InputNoteState P → Option ℕ
  consumed_tx_order (consumed_authenticated_local s) = s.consumed_tx_order
  consumed_tx_order (consumed_unauthenticated_local s) = s.consumed_tx_order
  consumed_tx_order (consumed_external s) = s.consumed_tx_order
  consumed_tx_order _ = none

  unfoldable pub set_consumed_tx_order : InputNoteState P → Option ℕ → InputNoteState P
  set_consumed_tx_order (consumed_authenticated_local s) order =
      consumed_authenticated_local (record s { consumed_tx_order = order })
  set_consumed_tx_order (consumed_unauthenticated_local s) order =
      consumed_unauthenticated_local (record s { consumed_tx_order = order })
  set_consumed_tx_order (consumed_external s) order =
      consumed_external (record s { consumed_tx_order = order })
  set_consumed_tx_order s order = s

  unfoldable pub inclusion_proof_received :
      InputNoteState P → P.NoteInclusionProof → P.NoteMetadata → Transition P
  unfolding inner
  inclusion_proof_received s = (inner s).inclusion_proof_received

  unfoldable pub consumed_externally : InputNoteState P → ℕ → Transition P
  unfolding inner
  consumed_externally s = (inner s).consumed_externally

  unfoldable pub block_header_received : InputNoteState P → P.NoteId → P.BlockHeader → Transition P
  unfolding inner
  block_header_received s = (inner s).block_header_received

  unfoldable pub consumed_locally :
      InputNoteState P → P.AccountId → P.TransactionId → Option ℕ → Transition P
  unfolding inner
  consumed_locally s = (inner s).consumed_locally

  unfoldable pub transaction_committed : InputNoteState P → P.TransactionId → ℕ → Transition P
  unfolding inner
  transaction_committed s = (inner s).transaction_committed

module _ {P : Protocol} (C : Codecs P) where
  write_inner : InputNoteState P → List ℕ
  write_inner (expected s) = Expected.write_into C s
  write_inner (unverified s) = Unverified.write_into C s
  write_inner (committed s) = Committed.write_into C s
  write_inner (invalid s) = Invalid.write_into C s
  write_inner (processing_authenticated s) = ProcessingAuthenticated.write_into C s
  write_inner (processing_unauthenticated s) = ProcessingUnauthenticated.write_into C s
  write_inner (consumed_authenticated_local s) = ConsumedAuthenticatedLocal.write_into C s
  write_inner (consumed_unauthenticated_local s) = ConsumedUnauthenticatedLocal.write_into C s
  write_inner (consumed_external s) = ConsumedExternal.write_into C s

  -- `write_u8` puts one byte in front.
  pub write_into : InputNoteState P → List ℕ
  write_into s = discriminant s ∷ write_inner s

  read_inner : ℕ → Reader C.DeserializationError (InputNoteState P)
  read_inner discriminant bytes =
      if discriminant == state_expected
      then (do s ← Expected.read_from C; pure (expected s)) bytes
      else if discriminant == state_unverified
      then (do s ← Unverified.read_from C; pure (unverified s)) bytes
      else if discriminant == state_committed
      then (do s ← Committed.read_from C; pure (committed s)) bytes
      else if discriminant == state_invalid
      then (do s ← Invalid.read_from C; pure (invalid s)) bytes
      else if discriminant == state_processing_authenticated
      then (do s ← ProcessingAuthenticated.read_from C; pure (processing_authenticated s)) bytes
      else if discriminant == state_processing_unauthenticated
      then (do s ← ProcessingUnauthenticated.read_from C; pure (processing_unauthenticated s)) bytes
      else if discriminant == state_consumed_authenticated_local
      then (do s ← ConsumedAuthenticatedLocal.read_from C; pure (consumed_authenticated_local s))
          bytes
      else if discriminant == state_consumed_unauthenticated_local
      then (do
        s ← ConsumedUnauthenticatedLocal.read_from C
        pure (consumed_unauthenticated_local s))
          bytes
      else if discriminant == state_consumed_external
      then (do s ← ConsumedExternal.read_from C; pure (consumed_external s)) bytes
      else err (C.invalid_value "Invalid NoteState discriminant: " (some discriminant))

  pub read_from : Reader C.DeserializationError (InputNoteState P)
  unfolding read_inner
  read_from = do discriminant ← C.read_u8; read_inner discriminant
