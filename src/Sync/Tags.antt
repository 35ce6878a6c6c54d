-- ===== src/Sync/Tags.antt =====
-- Note tags and where they come from (crates/rust-client/src/sync/tag.rs).
use miden_client.Base.{
  ℕ, ◌≡◌, refl, ◌∙◌, none, some, List, [], ◌∷◌, ◌++◌, ◌==◌, if◌then◌else◌, Result, ok, err,
}
use miden_client.Protocol.{Protocol, Codecs, Reader, ◌>>=◌, pure, reading, >>=-ok}
use miden_client.InputNote.Types.{NoteRecordError, conversion_error}
use miden_client.InputNote.Record.{InputNoteRecord}
use miden_client.InputNote.Record as Input

pub data NoteTagSource (P : Protocol) : Type 0 where
  account : P.AccountId → NoteTagSource P
  note : P.NoteId → NoteTagSource P
  user : NoteTagSource P

pub record NoteTagRecord (P : Protocol) : Type 0 where
  pub tag : P.NoteTag
  pub source : NoteTagSource P

module _ {P : Protocol} where
  unfoldable pub with_note_source : P.NoteTag → P.NoteId → NoteTagRecord P
  with_note_source tag note_id = record { tag = tag; source = note note_id }

  unfoldable pub with_account_source : P.NoteTag → P.AccountId → NoteTagRecord P
  with_account_source tag account_id = record { tag = tag; source = account account_id }

  -- `TryInto<NoteTagRecord>`
  unfoldable pub try_into_note_tag :
      InputNoteRecord P → Result {0, 0} (NoteRecordError P) (NoteTagRecord P)
  try_into_note_tag r = elim (Input.metadata r) [
    | some metadata ↦ ok (with_note_source (P.metadata_tag metadata) (Input.id r))
    | none ↦ err (conversion_error "Input Note Record does not contain tag")
  ]

module _ {P : Protocol} (C : Codecs P) where
  source_byte : NoteTagSource P → ℕ
  source_byte (account _) = 0
  source_byte (note _) = 1
  source_byte user = 2

  write_source_rest : NoteTagSource P → List ℕ
  write_source_rest (account account_id) = C.account_id.write account_id
  write_source_rest (note note_id) = C.note_id.write note_id
  write_source_rest user = []

  pub write_source : NoteTagSource P → List ℕ
  unfolding source_byte write_source_rest
  write_source s = source_byte s ∷ write_source_rest s

  read_source_rest : ℕ → Reader C.DeserializationError (NoteTagSource P)
  read_source_rest b bytes =
      if b == 0
      then (do account_id ← C.account_id.read; pure (account account_id)) bytes
      else if b == 1
      then (do note_id ← C.note_id.read; pure (note note_id)) bytes
      else if b == 2
      then pure user bytes
      else err (C.invalid_value "Invalid tag source: " (some b))

  pub read_source : Reader C.DeserializationError (NoteTagSource P)
  unfolding read_source_rest
  read_source = do b ← C.read_u8; read_source_rest b

  read_rest-write_rest :
      (s : NoteTagSource P) (rest : List ℕ)
      → read_source_rest (source_byte s) (write_source_rest s ++ rest) ≡ ok (s, rest)
  unfolding read_source_rest write_source_rest source_byte
  read_rest-write_rest user rest = refl
  read_rest-write_rest _ rest = simp reading

  -- A source that is written is read back, whatever bytes follow it.
  pub read_source-write_source :
      (s : NoteTagSource P) (rest : List ℕ) → read_source (write_source s ++ rest) ≡ ok (s, rest)
  unfolding read_source write_source
  read_source-write_source s rest =
      >>=-ok C.read_u8 read_source_rest (source_byte s ∷ (write_source_rest s ++ rest))
        (source_byte s) (write_source_rest s ++ rest)
        (C.read_u8-cons (source_byte s) (write_source_rest s ++ rest))
      ∙ read_rest-write_rest s rest
