-- ===== src/Tracker/Notes.antt =====
-- The tracker's notes: how they enter it, and what it reports of them
-- (crates/rust-client/src/note/note_update_tracker.rs).
use miden_client.Base.{
  Bool, true, false, ◌&&◌, Option, none, some, List, [], ◌∷◌, ◌++◌, if◌then◌else◌,
}
use miden_client.Protocol.{Protocol}
use miden_client.BTreeMap.{BTreeMap, insert, values}
use miden_client.InputNote.Record as Input
use miden_client.InputNote.Record.{InputNoteRecord}
use miden_client.OutputNote.Record as Output
use miden_client.OutputNote.Record.{OutputNoteRecord}
use miden_client.Tracker.Types.{
  NoteUpdateType, unchanged, update, InputNoteUpdate, OutputNoteUpdate, NoteUpdateTracker,
  by_note_id, by_nullifier,
}

-- The type that `inner_mut` leaves behind: what is to be inserted stays so.
abbrev pub touched : NoteUpdateType → NoteUpdateType
touched unchanged = update
touched NoteUpdateType.insert = NoteUpdateType.insert
touched update = update

abbrev pub is_updated : NoteUpdateType → Bool
is_updated unchanged = false
is_updated _ = true

-- An entry of the nullifier index, if the nullifier is known.
unfoldable pub index_nullifier :
    (P : Protocol)
    → Option P.Nullifier
    → P.NoteId
    → BTreeMap P.Nullifier P.NoteId
    → BTreeMap P.Nullifier P.NoteId
index_nullifier P none note_id m = m
index_nullifier P (some nullifier) note_id m = insert (by_nullifier P) nullifier note_id m

abbrev is_nil : {A : Type 0} → List A → Bool
is_nil [] = true
is_nil (_ ∷ _) = false

abbrev cons_some : {A : Type 0} → Option A → List A → List A
cons_some none ns = ns
cons_some (some n) ns = n ∷ ns

module _ {P : Protocol} where
  unfoldable pub insert_input_note :
      InputNoteRecord P → NoteUpdateType → NoteUpdateTracker P → NoteUpdateTracker P
  insert_input_note note update_type t = record t {
    input_notes_by_nullifier =
        insert (by_nullifier P) (Input.nullifier note) (Input.id note) t.input_notes_by_nullifier;
    input_notes =
        insert (by_note_id P) (Input.id note) (record { note = note; update_type = update_type })
          t.input_notes;
  }

  unfoldable pub insert_output_note :
      OutputNoteRecord P → NoteUpdateType → NoteUpdateTracker P → NoteUpdateTracker P
  unfolding index_nullifier
  insert_output_note note update_type t = record t {
    output_notes_by_nullifier =
        index_nullifier P (Output.nullifier note) (Output.id note) t.output_notes_by_nullifier;
    output_notes =
        insert (by_note_id P) (Output.id note) (record { note = note; update_type = update_type })
          t.output_notes;
  }

  -- `for note in notes { tracker.insert_input_note(note, update_type) }`, and so for output notes
  unfoldable pub insert_input_notes :
      List (InputNoteRecord P) → NoteUpdateType → NoteUpdateTracker P → NoteUpdateTracker P
  insert_input_notes [] update_type t = t
  insert_input_notes (note ∷ notes) update_type t =
      insert_input_notes notes update_type (insert_input_note note update_type t)

  unfoldable pub insert_output_notes :
      List (OutputNoteRecord P) → NoteUpdateType → NoteUpdateTracker P → NoteUpdateTracker P
  insert_output_notes [] update_type t = t
  insert_output_notes (note ∷ notes) update_type t =
      insert_output_notes notes update_type (insert_output_note note update_type t)

abbrev pub empty : (P : Protocol) → NoteUpdateTracker P
empty P = record {
  input_notes = [];
  output_notes = [];
  input_notes_by_nullifier = [];
  output_notes_by_nullifier = [];
  nullifier_order = [];
}

module _ {P : Protocol} where
  unfoldable pub new : List (InputNoteRecord P) → List (OutputNoteRecord P) → NoteUpdateTracker P
  new input_notes output_notes =
      insert_output_notes output_notes unchanged
        (insert_input_notes input_notes unchanged (empty P))

  unfoldable pub for_transaction_updates :
      List (InputNoteRecord P)
      → List (InputNoteRecord P)
      → List (OutputNoteRecord P)
      → NoteUpdateTracker P
  for_transaction_updates new_input_notes updated_input_notes new_output_notes =
      insert_output_notes new_output_notes NoteUpdateType.insert (
        insert_input_notes updated_input_notes update
          (insert_input_notes new_input_notes NoteUpdateType.insert (empty P)))

  unfoldable pub keep_input : List (InputNoteUpdate P) → List (InputNoteUpdate P)
  keep_input [] = []
  keep_input (u ∷ us) = if is_updated u.update_type then u ∷ keep_input us else keep_input us

  unfoldable pub keep_output : List (OutputNoteUpdate P) → List (OutputNoteUpdate P)
  keep_output [] = []
  keep_output (u ∷ us) = if is_updated u.update_type then u ∷ keep_output us else keep_output us

  unfoldable pub updated_input_notes : NoteUpdateTracker P → List (InputNoteUpdate P)
  unfolding keep_input
  updated_input_notes t = keep_input (values t.input_notes)

  unfoldable pub updated_output_notes : NoteUpdateTracker P → List (OutputNoteUpdate P)
  unfolding keep_output
  updated_output_notes t = keep_output (values t.output_notes)

  unfoldable pub is_empty : NoteUpdateTracker P → Bool
  is_empty t = is_nil t.input_notes && is_nil t.output_notes

  unspent_input : List (InputNoteUpdate P) → List P.Nullifier
  unspent_input [] = []
  unspent_input (u ∷ us) =
      if Input.is_consumed u.note
      then unspent_input us
      else Input.nullifier u.note ∷ unspent_input us

  unspent_output : List (OutputNoteUpdate P) → List P.Nullifier
  unspent_output [] = []
  unspent_output (u ∷ us) =
      if Output.is_consumed u.note
      then unspent_output us
      else cons_some (Output.nullifier u.note) (unspent_output us)

  unfoldable pub unspent_nullifiers : NoteUpdateTracker P → List P.Nullifier
  unfolding unspent_input unspent_output
  unspent_nullifiers t =
      unspent_input (values t.input_notes) ++ unspent_output (values t.output_notes)
