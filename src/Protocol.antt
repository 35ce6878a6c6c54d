-- ===== src/Protocol.antt =====
-- What the client takes from the crates miden-protocol and miden-tx: the types of notes, accounts
-- and blocks with the functions that the client calls, and the byte encodings of those types.
-- These crates are not part of the repository, so they are parameters of the development.
use miden_client.Base.{
  ℕ, ◌+◌, ◌-◌, String, ◌≡◌, Bool, Option, List, ◌∷◌, ◌++◌, append_assoc, Result, ok,
}

-- `PartialEq` of a type is a decision of its equality. `BlockNumber` is a `u32`, here a number.
pub record Protocol : Type 1 where
  pub Word : Type 0
  pub AccountId : Type 0
  pub TransactionId : Type 0
  pub NoteId : Type 0
  pub Nullifier : Type 0
  pub NoteTag : Type 0
  pub NoteMetadata : Type 0
  pub NoteAssets : Type 0
  pub NoteRecipient : Type 0
  pub NoteDetails : Type 0
  pub Note : Type 0
  pub PartialNote : Type 0
  pub NoteInclusionProof : Type 0
  pub SparseMerklePath : Type 0
  pub BlockHeader : Type 0
  pub NoteType : Type 0
  pub NoteAttachmentKind : Type 0
  pub TransactionScript : Type 0
  pub RawOutputNotes : Type 0
  pub NoteError : Type 0
  -- equality tests
  pub account_id_eq : Discrete AccountId
  pub word_eq : Discrete Word
  pub transaction_id_eq : Discrete TransactionId
  pub note_id_eq : Discrete NoteId
  pub nullifier_eq : Discrete Nullifier
  pub metadata_eq : Discrete NoteMetadata
  pub inclusion_proof_eq : Discrete NoteInclusionProof
  -- `Ord` of the types that are keys of maps
  pub transaction_id_lt : TransactionId → TransactionId → Bool
  pub note_id_lt : NoteId → NoteId → Bool
  pub nullifier_lt : Nullifier → Nullifier → Bool
  -- `Nullifier::as_word`
  pub nullifier_as_word : Nullifier → Word
  -- `BlockHeader::note_root`
  pub note_root : BlockHeader → Word
  -- `NoteInclusionProof::note_path`, `location().block_num()`, `location().block_note_tree_index()`
  pub note_path : NoteInclusionProof → SparseMerklePath
  pub block_num : NoteInclusionProof → ℕ
  pub block_note_tree_index : NoteInclusionProof → ℕ
  -- `SparseMerklePath::verify(index, leaf, root).is_ok()`
  pub verify : SparseMerklePath → ℕ → Word → Word → Bool
  pub compute_note_commitment : NoteId → NoteMetadata → Word
  -- `NoteHeader::new(id, metadata).to_commitment()`
  pub header_commitment : NoteId → NoteMetadata → Word
  pub metadata_tag : NoteMetadata → NoteTag
  -- `NoteDetails::{new, id, nullifier, assets, recipient}`
  pub details_new : NoteAssets → NoteRecipient → NoteDetails
  pub details_id : NoteDetails → NoteId
  pub details_nullifier : NoteDetails → Nullifier
  pub details_assets : NoteDetails → NoteAssets
  pub details_recipient : NoteDetails → NoteRecipient
  -- `NoteRecipient::digest`, `NoteId::new(recipient digest, assets commitment)` and
  -- `Nullifier::new` on the parts of a recipient and the commitment of the assets
  pub recipient_digest : NoteRecipient → Word
  pub note_id_new : Word → NoteAssets → NoteId
  pub nullifier_new : NoteRecipient → NoteAssets → Nullifier
  -- `Note::new`, `Note::metadata` and `NoteDetails::from(Note)`
  pub note_new : NoteAssets → NoteMetadata → NoteRecipient → Note
  pub note_metadata : Note → NoteMetadata
  pub note_details : Note → NoteDetails
  -- `PartialNote::{recipient_digest, assets, metadata}`
  pub partial_recipient_digest : PartialNote → Word
  pub partial_assets : PartialNote → NoteAssets
  pub partial_metadata : PartialNote → NoteMetadata

-- `InputNote`: a note with or without an inclusion proof.
pub data InputNote (P : Protocol) : Type 0 where
  authenticated : P.Note → P.NoteInclusionProof → InputNote P
  unauthenticated : P.Note → InputNote P

-- What the protocol documents of notes: a note is its details and its metadata, its ID is made
-- from the digest of its recipient and its assets, and its nullifier from its recipient's parts and
-- its assets.
pub record NoteLaws (P : Protocol) : Type 0 where
  pub note_new-parts :
      (n : P.Note)
      → P.note_new
          (P.details_assets (P.note_details n))
          (P.note_metadata n)
          (P.details_recipient (P.note_details n))
        ≡ n
  pub details_new-parts :
      (d : P.NoteDetails) → P.details_new (P.details_assets d) (P.details_recipient d) ≡ d
  pub note_id_new-parts :
      (d : P.NoteDetails)
      → P.note_id_new (P.recipient_digest (P.details_recipient d)) (P.details_assets d)
        ≡ P.details_id d
  pub nullifier_new-parts :
      (d : P.NoteDetails)
      → P.nullifier_new (P.details_recipient d) (P.details_assets d) ≡ P.details_nullifier d

-- `RawOutputNote`: what a transaction says of a note that it creates.
pub data RawOutputNote (P : Protocol) : Type 0 where
  full : P.Note → RawOutputNote P
  partial : P.PartialNote → RawOutputNote P

-- The variants of `NoteFile` that the client exports.
pub data NoteFile (P : Protocol) : Type 0 where
  note_id : P.NoteId → NoteFile P
  note_details : P.NoteDetails → ℕ → Option P.NoteTag → NoteFile P
  note_with_proof : P.Note → P.NoteInclusionProof → NoteFile P

-- `ByteReader` over a byte sequence, as a state passing function.
abbrev pub Reader : Type 0 → Type 0 → Type 0
Reader E A = List ℕ → Result E (A × List ℕ)

-- A type with `Serializable` and `Deserializable`, whose encoding can be read back whatever
-- bytes follow it.
pub record Codec (E A : Type 0) : Type 0 where
  pub write : A → List ℕ
  pub read : Reader E A
  pub read-write : (a : A) (rest : List ℕ) → read (write a ++ rest) ≡ ok (a, rest)

pub record Codecs (P : Protocol) : Type 1 where
  pub DeserializationError : Type 0
  -- `InvalidValue`, with the text of its message and the number formatted into it, if any
  pub invalid_value : String → Option ℕ → DeserializationError
  pub read_u8 : Reader DeserializationError ℕ
  pub read_u8-cons : (b : ℕ) (rest : List ℕ) → read_u8 (b ∷ rest) ≡ ok (b, rest)
  pub word : Codec DeserializationError P.Word
  pub account_id : Codec DeserializationError P.AccountId
  pub transaction_id : Codec DeserializationError P.TransactionId
  pub metadata : Codec DeserializationError P.NoteMetadata
  pub inclusion_proof : Codec DeserializationError P.NoteInclusionProof
  pub details : Codec DeserializationError P.NoteDetails
  pub recipient : Codec DeserializationError P.NoteRecipient
  pub block_number : Codec DeserializationError ℕ
  pub u64 : Codec DeserializationError ℕ
  pub note_id : Codec DeserializationError P.NoteId
  pub option_u32 : Codec DeserializationError (Option ℕ)
  pub option_u64 : Codec DeserializationError (Option ℕ)
  pub option_metadata : Codec DeserializationError (Option P.NoteMetadata)
  pub option_tag : Codec DeserializationError (Option P.NoteTag)

-- Reading in sequence.
infixl 5 ◌>>=◌
abbrev pub ◌>>=◌ : {E A B : Type 0} → Reader E A → (A → Reader E B) → Reader E B
◌>>=◌ m f bytes = elim (m bytes) [ ok (a, rest) ↦ f a rest | Result.err e ↦ Result.err e ]

abbrev pub pure : {E A : Type 0} → A → Reader E A
pure a bytes = ok (a, bytes)

-- Reading what was just written: the reader goes on with the value and the bytes behind it.
pub >>=-ok :
    {E A B : Type 0} (m : Reader E A) (f : A → Reader E B) (bytes : List ℕ) (a : A) (rest : List ℕ)
    → m bytes ≡ ok (a, rest)
    → (m >>= f) bytes ≡ f a rest
>>=-ok m f bytes a rest h = rw (h, ◌>>=◌)

pub >>=-write :
    {E A B : Type 0} (c : Codec E A) (f : A → Reader E B) (a : A) (rest : List ℕ)
    → (c.read >>= f) (c.write a ++ rest) ≡ f a rest
>>=-write c f a rest = >>=-ok c.read f (c.write a ++ rest) a rest (c.read-write a rest)

pub ruleset reading = (append_assoc, >>=-write)
