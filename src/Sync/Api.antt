-- ===== src/Sync/Api.antt =====
-- What a synchronisation takes from the node, the note screener and the Merkle mountain range
-- (crates/rust-client/src/sync/state_sync.rs). The node is remote, screening executes transactions,
-- and the range, accounts and headers are of the crates miden-protocol and miden-crypto.
use miden_client.Base.{ℕ, Bool, Option, List, Result, ok, err}
use miden_client.Protocol.{Protocol}
use miden_client.BTreeMap.{BTreeMap}
use miden_client.InputNote.Record.{InputNoteRecord}
use miden_client.OutputNote.Record.{OutputNoteRecord}
use miden_client.Transaction.Record.{TransactionRecord}
use miden_client.Tracker.Types.{CommittedNote, full, header, NullifierUpdate, ClientError}
use miden_client.Sync.Headers.{HeaderApi, RpcTransactionRecord}

-- The action to take for a note of the node.
pub data NoteUpdateAction (P : Protocol) : Type 0 where
  commit : CommittedNote P → NoteUpdateAction P
  insert : InputNoteRecord P → NoteUpdateAction P
  discard : NoteUpdateAction P

-- `FetchedAccount` of crates/rust-client/src/rpc/domain/account.rs: only a public account comes with
-- its state.
pub data FetchedAccount (Account : Type 0) : Type 0 where
  private_account : FetchedAccount Account
  public_account : Account → FetchedAccount Account

-- One block of `sync_notes` (crates/rust-client/src/rpc/domain/note.rs)
pub record NoteSyncBlock (P : Protocol) (MerklePath : Type 0) : Type 0 where
  pub block_header : P.BlockHeader
  pub mmr_path : MerklePath
  pub notes : BTreeMap P.NoteId (CommittedNote P)

pub record SyncApi (P : Protocol) (H : HeaderApi P) : Type 1 where
  -- What the calls fail with.
  pub Failure : Type 0
  -- `BlockHeader`
  pub header_block_num : P.BlockHeader → ℕ
  pub header_commitment : P.BlockHeader → P.Word
  pub timestamp : P.BlockHeader → ℕ
  -- `NoteMetadata::note_type`, and whether a type is `NoteType::Private`
  pub metadata_note_type : P.NoteMetadata → P.NoteType
  pub is_private_note : P.NoteType → Bool
  -- `OnNoteReceived::on_note_received`
  pub on_note_received :
      CommittedNote P → Option (InputNoteRecord P) → Result Failure (NoteUpdateAction P)
  -- `Nullifier::prefix`, and the node's `sync_nullifiers`
  pub nullifier_prefix : P.Nullifier → ℕ
  pub sync_nullifiers : List ℕ → ℕ → Option ℕ → Result Failure (List (NullifierUpdate P))
  -- `Account` and `AccountHeader`
  pub Account : Type 0
  pub account_id : Account → P.AccountId
  pub account_nonce : Account → ℕ
  pub AccountHeader : Type 0
  pub header_id : AccountHeader → P.AccountId
  pub header_nonce : AccountHeader → ℕ
  pub to_commitment : AccountHeader → P.Word
  pub is_private : P.AccountId → Bool
  pub get_account_details : P.AccountId → Result Failure (FetchedAccount Account)
  -- `PartialMmr`, whose `forest().num_leaves()` is the number of blocks
  pub PartialMmr : Type 0
  pub MmrDelta : Type 0
  pub MmrPeaks : Type 0
  pub MerklePath : Type 0
  pub InOrderIndex : Type 0
  pub index_eq : Discrete InOrderIndex
  -- An empty delta for a block number
  pub no_delta : ℕ → MmrDelta
  pub num_leaves : PartialMmr → ℕ
  pub apply_delta :
      MmrDelta → PartialMmr → Result Failure (List (InOrderIndex × P.Word)) × PartialMmr
  pub peaks : PartialMmr → MmrPeaks
  pub add_leaf : P.Word → Bool → PartialMmr → List (InOrderIndex × P.Word) × PartialMmr
  pub is_tracked : PartialMmr → ℕ → Bool
  pub track_leaf : ℕ → P.Word → MerklePath → PartialMmr → Result Failure (Unit {0}) × PartialMmr
  pub nodes : PartialMmr → List (InOrderIndex × P.Word)
  -- The node's `get_block_header_by_number` for the tip, `sync_chain_mmr`, `sync_notes_with_details`
  -- and `sync_transactions`
  pub get_chain_tip_header : Result Failure P.BlockHeader
  pub sync_chain_mmr : ℕ → Option ℕ → Result Failure MmrDelta
  pub sync_notes_with_details :
      ℕ
      → Option ℕ
      → List P.NoteTag
      → Result Failure (List (NoteSyncBlock P MerklePath) × BTreeMap P.NoteId P.Note)
  pub sync_transactions :
      ℕ → Option ℕ → List P.AccountId → Result Failure (List (RpcTransactionRecord H))

-- The errors of a synchronisation, of `ClientError`. A panic is the overflow of the counter of
-- `extend_nullifiers`; `out_of_fuel` is not of the program.
pub data SyncError {P : Protocol} {H : HeaderApi P} (A : SyncApi P H) : Type 0 where
  tracker_error : ClientError P → SyncError A
  failed : A.Failure → SyncError A
  invalid_partial_mmr_forest panicked out_of_fuel : SyncError A

-- `?` between two steps on a state
abbrev pub and_then :
    {E X Y S : Type 0} → Result E X × S → (X → S → Result E Y × S) → Result E Y × S
and_then (ok x, s) f = f x s
and_then (err e, s) f = (err e, s)

-- `?` on a result without a state
abbrev pub try_ok : {E X Y : Type 0} → Result E X → (X → Result E Y) → Result E Y
try_ok (ok x) f = f x
try_ok (err e) f = err e

-- `map_err`
abbrev pub map_err : {E E' X : Type 0} → (E → E') → Result E X → Result E' X
map_err f (ok x) = ok x
map_err f (err e) = err (f e)

module _ {P : Protocol} {H : HeaderApi P} (A : SyncApi P H) where
  -- `CommittedNote::note_type`
  abbrev pub note_type : CommittedNote P → P.NoteType
  note_type c = elim c.metadata [ full m ↦ A.metadata_note_type m | header _ t _ _ ↦ t ]

-- The state of the client that a synchronisation starts from.
pub record StateSyncInput {P : Protocol} {H : HeaderApi P} (A : SyncApi P H) : Type 0 where
  pub accounts : List A.AccountHeader
  pub note_tags : List P.NoteTag
  pub input_notes : List (InputNoteRecord P)
  pub output_notes : List (OutputNoteRecord P)
  pub uncommitted_transactions : List (TransactionRecord P)

-- `tx_discard_delta` and `sync_nullifiers` of `StateSync`
pub record StateSyncOptions : Type 0 where
  pub tx_discard_delta : Option ℕ
  pub sync_nullifiers : Bool
