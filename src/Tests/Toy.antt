-- ===== src/Tests/Toy.antt =====
-- A protocol of small numbers: a note is its metadata and its recipient, its ID and its nullifier
-- are its recipient, and a proof is a block number with an index, which verifies if the note's
-- commitment is the root.
use miden_client.Base.{
  ℕ, zero, suc, ◌+◌, ◌≡◌, refl, Option, none, some, List, [], ◌∷◌, ◌++◌, arith, ℕ_discrete, ltb,
  ◌==◌, ok, err,
}
use miden_client.BTreeMap.Sorted.{OrdLaws}
use miden_client.Protocol.{Protocol, NoteLaws, Codec, Codecs, Reader}

abbrev pub toy : Protocol
toy = record {
  Word = ℕ;
  AccountId = ℕ;
  TransactionId = ℕ;
  NoteId = ℕ;
  Nullifier = ℕ;
  NoteTag = ℕ;
  NoteMetadata = ℕ;
  NoteAssets = Unit {0};
  NoteRecipient = ℕ;
  NoteDetails = ℕ;
  Note = ℕ × ℕ;
  PartialNote = ℕ;
  NoteInclusionProof = ℕ;
  SparseMerklePath = ℕ;
  BlockHeader = ℕ;
  NoteType = ℕ;
  NoteAttachmentKind = ℕ;
  TransactionScript = ℕ;
  RawOutputNotes = ℕ;
  NoteError = ℕ;
  account_id_eq = ℕ_discrete;
  word_eq = ℕ_discrete;
  transaction_id_eq = ℕ_discrete;
  note_id_eq = ℕ_discrete;
  nullifier_eq = ℕ_discrete;
  metadata_eq = ℕ_discrete;
  inclusion_proof_eq = ℕ_discrete;
  transaction_id_lt = ltb;
  note_id_lt = ltb;
  nullifier_lt = ltb;
  nullifier_as_word = λ n. n;
  note_root = λ header. header;
  note_path = λ proof. proof;
  block_num = λ proof. proof;
  block_note_tree_index = λ proof. 0;
  verify = λ path index leaf root. leaf == root;
  compute_note_commitment = λ note_id metadata. note_id + metadata;
  header_commitment = λ note_id metadata. note_id + metadata;
  metadata_tag = λ metadata. metadata;
  details_new = λ assets recipient. recipient;
  details_id = λ details. details;
  details_nullifier = λ details. details;
  details_assets = λ details. tt;
  details_recipient = λ details. details;
  recipient_digest = λ recipient. recipient;
  note_id_new = λ digest assets. digest;
  nullifier_new = λ recipient assets. recipient;
  note_new = λ assets metadata recipient. (metadata, recipient);
  note_metadata = λ note. note.0;
  note_details = λ note. note.1;
  partial_recipient_digest = λ partial. partial;
  partial_assets = λ partial. tt;
  partial_metadata = λ partial. 0;
}

abbrev pub toy_laws : NoteLaws toy
toy_laws = record {
  note_new-parts = λ n. refl;
  details_new-parts = λ d. refl;
  note_id_new-parts = λ d. refl;
  nullifier_new-parts = λ d. refl;
}

-- A number is one entry of the byte sequence.
abbrev read_number : Reader (Option ℕ) ℕ
read_number [] = err none
read_number (b ∷ rest) = ok (b, rest)

abbrev number : Codec (Option ℕ) ℕ
number = record { write = λ n. n ∷ []; read = read_number; read-write = λ n rest. refl }

abbrev write_option : Option ℕ → List ℕ
write_option none = 0 ∷ []
write_option (some n) = 1 ∷ n ∷ []

abbrev read_option : Reader (Option ℕ) (Option ℕ)
read_option [] = err none
read_option (zero ∷ rest) = ok (none, rest)
read_option (suc b ∷ []) = err none
read_option (suc b ∷ n ∷ rest) = ok (some n, rest)

pub read_option-write_option :
    (o : Option ℕ) (rest : List ℕ) → read_option (write_option o ++ rest) ≡ ok (o, rest)
read_option-write_option none rest = refl
read_option-write_option (some n) rest = refl

abbrev optional : Codec (Option ℕ) (Option ℕ)
optional = record {
  write = write_option;
  read = read_option;
  read-write = read_option-write_option;
}

abbrev pub toy_codecs : Codecs toy
toy_codecs = record {
  DeserializationError = Option ℕ;
  invalid_value = λ text number. number;
  read_u8 = read_number;
  read_u8-cons = λ b rest. refl;
  word = number;
  account_id = number;
  transaction_id = number;
  metadata = number;
  inclusion_proof = number;
  details = number;
  recipient = number;
  block_number = number;
  u64 = number;
  note_id = number;
  option_u32 = optional;
  option_u64 = optional;
  option_metadata = optional;
  option_tag = optional;
}

-- The order of the numbers
pub ltb_laws : OrdLaws (record { eq = ℕ_discrete; lt = ltb })
ltb_laws = record {
  irrefl = λ a. ground arith;
  trans = λ a b c h h'. ground arith;
  total = λ a b ne h. ground arith;
}
