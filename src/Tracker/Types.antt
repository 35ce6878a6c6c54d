-- ===== src/Tracker/Types.antt =====
-- The data of the note update tracker (crates/rust-client/src/note/note_update_tracker.rs), and of
-- what the node reports (crates/rust-client/src/rpc/domain/note.rs and nullifier.rs).
use miden_client.Base.{ℕ, String, Option, none, some}
use miden_client.Protocol.{Protocol}
use miden_client.BTreeMap.{Ord, BTreeMap}
use miden_client.InputNote.Types.{NoteRecordError}
use miden_client.InputNote.Record.{InputNoteRecord}
use miden_client.OutputNote.Record.{OutputNoteRecord}

pub data NoteUpdateType : Type 0 where
  unchanged insert update : NoteUpdateType

pub record InputNoteUpdate (P : Protocol) : Type 0 where
  pub note : InputNoteRecord P
  pub update_type : NoteUpdateType

pub record OutputNoteUpdate (P : Protocol) : Type 0 where
  pub note : OutputNoteRecord P
  pub update_type : NoteUpdateType

pub record NoteUpdateTracker (P : Protocol) : Type 0 where
  pub input_notes : BTreeMap P.NoteId (InputNoteUpdate P)
  pub output_notes : BTreeMap P.NoteId (OutputNoteUpdate P)
  pub input_notes_by_nullifier : BTreeMap P.Nullifier P.NoteId
  pub output_notes_by_nullifier : BTreeMap P.Nullifier P.NoteId
  pub nullifier_order : BTreeMap P.Nullifier ℕ

-- The orders of the keys.
abbrev pub by_note_id : (P : Protocol) → Ord P.NoteId
by_note_id P = record { eq = P.note_id_eq; lt = P.note_id_lt }

abbrev pub by_nullifier : (P : Protocol) → Ord P.Nullifier
by_nullifier P = record { eq = P.nullifier_eq; lt = P.nullifier_lt }

pub data CommittedNoteMetadata (P : Protocol) : Type 0 where
  full : P.NoteMetadata → CommittedNoteMetadata P
  header : P.AccountId → P.NoteType → P.NoteTag → P.NoteAttachmentKind → CommittedNoteMetadata P

pub record CommittedNote (P : Protocol) : Type 0 where
  pub note_id : P.NoteId
  pub metadata : CommittedNoteMetadata P
  pub inclusion_proof : P.NoteInclusionProof

unfoldable pub full_metadata : {P : Protocol} → CommittedNoteMetadata P → Option P.NoteMetadata
full_metadata (full m) = some m
full_metadata (header _ _ _ _) = none

pub record NullifierUpdate (P : Protocol) : Type 0 where
  pub nullifier : P.Nullifier
  pub block_num : ℕ

-- The errors of the client that the tracker returns. The text of `ExpectedDataMissing` carries the
-- ID of the committed note.
pub data RpcError (P : Protocol) : Type 0 where
  expected_data_missing : String → P.NoteId → RpcError P

pub data ClientError (P : Protocol) : Type 0 where
  note_record_conversion_error : NoteRecordError P → ClientError P
  rpc_error : RpcError P → ClientError P
