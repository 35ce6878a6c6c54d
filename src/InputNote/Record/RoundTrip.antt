-- ===== src/InputNote/Record/RoundTrip.antt =====
-- Encoding and decoding of input note records, and their conversions from and to notes
-- (crates/rust-client/src/store/note_record/input_note_record/mod.rs).
use miden_client.Base.{ℕ, ◌≡◌, List, ◌++◌, ok}
use miden_client.Protocol.{
  Protocol, NoteLaws, InputNote, authenticated, unauthenticated, Codecs, reading, ◌>>=◌, Reader,
  >>=-ok,
}
use miden_client.InputNote.Types.{InputNoteState}
use miden_client.InputNote.States
use miden_client.InputNote.States.RoundTrip
use miden_client.InputNote.Record.{
  InputNoteRecord, write_into, read_from, from_note, from_input_note, try_into_input_note,
  try_into_note,
}

module _ {P : Protocol} (C : Codecs P) where
  >>=-state :
      {B : Type 0} (f : InputNoteState P → Reader C.DeserializationError B) (s : InputNoteState P)
      (rest : List ℕ)
      → (States.read_from C >>= f) (States.write_into C s ++ rest) ≡ f s rest
  >>=-state f s rest =
      >>=-ok (States.read_from C) f (States.write_into C s ++ rest) s rest
        (RoundTrip.read_from-write_into C s rest)

  -- A record that is written, with any bytes behind it, is read back as it was, and the reader
  -- stops at those bytes.
  pub read_from-write_into :
      (r : InputNoteRecord P) (rest : List ℕ) → read_from C (write_into C r ++ rest) ≡ ok (r, rest)
  unfolding read_from write_into
  read_from-write_into r rest = simp (reading, >>=-state)

module _ {P : Protocol} (laws : NoteLaws P) where
  -- An input note that becomes a record and is turned back is the same note, with its proof if it
  -- had one.
  pub try_into_input_note-from_input_note :
      (n : InputNote P) → try_into_input_note (from_input_note n) ≡ ok n
  unfolding try_into_input_note from_input_note
  try_into_input_note-from_input_note (authenticated note proof) = rw (laws.note_new-parts note)
  try_into_input_note-from_input_note (unauthenticated note) = rw (laws.note_new-parts note)

  -- So is a note that becomes an expected record.
  pub try_into_note-from_note : (n : P.Note) → try_into_note (from_note {P = P} n) ≡ ok n
  unfolding try_into_note from_note
  try_into_note-from_note n = rw (laws.note_new-parts n)
