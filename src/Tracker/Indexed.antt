-- ===== src/Tracker/Indexed.antt =====
-- The indices by nullifier of the note update tracker (crates/rust-client/src/note/note_update_tracker.rs).
pub mod Methods
pub mod Outputs
use miden_client.Base.{
  ◌≡◌, refl, sym, ap, ◌∙◌, ◌≢◌, ◌↔◌, inl, inr, Option, none, some, List, [], ◌∷◌, arith,
  Option-cases,
}
use miden_client.Protocol.{Protocol}
use miden_client.BTreeMap.{BTreeMap, get}
use miden_client.BTreeMap.Laws.{get-insert, get-insert_self}
use miden_client.InputNote.Record as Input
use miden_client.InputNote.Record.{InputNoteRecord}
use miden_client.OutputNote.Record as Output
use miden_client.OutputNote.Record.{OutputNoteRecord}
use miden_client.Tracker.Types.{
  NoteUpdateType, InputNoteUpdate, OutputNoteUpdate, NoteUpdateTracker, by_note_id, by_nullifier,
}
use miden_client.Tracker.Notes.{insert_input_note, insert_output_note, index_nullifier, empty}

-- The ID of a note and its nullifier are digests of the same parts, so two notes have the same ID
-- exactly when they have the same nullifier, unless digests collide: for details of notes, and for
-- a recipient and assets.
abbrev pub NoCollision : Protocol → Type 0
NoCollision P =
    ((d d' : P.NoteDetails)
      → (P.details_nullifier d ≡ P.details_nullifier d') ↔ (P.details_id d ≡ P.details_id d'))
    × ((r r' : P.NoteRecipient) (a a' : P.NoteAssets)
        → (P.nullifier_new r a ≡ P.nullifier_new r' a')
          ↔ (P.note_id_new (P.recipient_digest r) a ≡ P.note_id_new (P.recipient_digest r') a'))

-- The nullifier and the ID of one note: of a recipient and assets.
abbrev pub IsOf : (P : Protocol) → P.Nullifier → P.NoteId → Type 0
IsOf P n i =
    (r : P.NoteRecipient) × (a : P.NoteAssets) × (P.nullifier_new r a ≡ n)
    × (P.note_id_new (P.recipient_digest r) a ≡ i)

-- An output note whose recipient is known has the digest of that recipient.
abbrev pub IsWellFormed : {P : Protocol} → OutputNoteRecord P → Type 0
IsWellFormed {P} r =
    (to : P.NoteRecipient)
    → Output.recipient r ≡ some to
    → P.recipient_digest to ≡ r.recipient_digest

abbrev pub AllWellFormed : {P : Protocol} → List (OutputNoteRecord P) → Type 0
AllWellFormed [] = Unit
AllWellFormed (r ∷ rs) = IsWellFormed r × AllWellFormed rs

-- Every note stands under its ID. The nullifier of every input note, and of every output note whose
-- nullifier is known, leads to its ID. An entry of the index of input notes leads to a tracked note
-- that has that nullifier; an entry of the index of output notes leads to a tracked note, and the
-- nullifier is that of the note with this ID (an output note may have been replaced by one whose
-- recipient is not known).
pub record IsIndexed {P : Protocol} (t : NoteUpdateTracker P) : Type 0 where
  pub input_keyed :
      (i : P.NoteId) (u : InputNoteUpdate P)
      → get (by_note_id P) i t.input_notes ≡ some u
      → Input.id u.note ≡ i
  pub output_keyed :
      (i : P.NoteId) (u : OutputNoteUpdate P)
      → get (by_note_id P) i t.output_notes ≡ some u
      → Output.id u.note ≡ i
  pub input_found :
      (i : P.NoteId) (u : InputNoteUpdate P)
      → get (by_note_id P) i t.input_notes ≡ some u
      → get (by_nullifier P) (Input.nullifier u.note) t.input_notes_by_nullifier ≡ some i
  pub input_pointed :
      (n : P.Nullifier) (i : P.NoteId)
      → get (by_nullifier P) n t.input_notes_by_nullifier ≡ some i
      → (u : InputNoteUpdate P) × (get (by_note_id P) i t.input_notes ≡ some u)
        × (Input.nullifier u.note ≡ n)
  pub output_found :
      (i : P.NoteId) (u : OutputNoteUpdate P) (n : P.Nullifier)
      → get (by_note_id P) i t.output_notes ≡ some u
      → Output.nullifier u.note ≡ some n
      → (get (by_nullifier P) n t.output_notes_by_nullifier ≡ some i) × IsOf P n i
  pub output_pointed :
      (n : P.Nullifier) (i : P.NoteId)
      → get (by_nullifier P) n t.output_notes_by_nullifier ≡ some i
      → (get (by_note_id P) i t.output_notes ≢ none) × IsOf P n i

pub empty-IsIndexed : (P : Protocol) → IsIndexed (empty P)
unfolding get
empty-IsIndexed P = record {
  input_keyed = λ i u h. cc;
  output_keyed = λ i u h. cc;
  input_found = λ i u h. cc;
  input_pointed = λ n i h. cc;
  output_found = λ i u n h. cc;
  output_pointed = λ n i h. cc;
}

module _ {P : Protocol} (distinct : NoCollision P) where
  module _ (note : InputNoteRecord P) (type : NoteUpdateType) (t : NoteUpdateTracker P)
      (inv : IsIndexed t) where
    insert_input-keyed :
        (i : P.NoteId) (u : InputNoteUpdate P)
        → get (by_note_id P) i (insert_input_note note type t).input_notes ≡ some u
        → Input.id u.note ≡ i
    unfolding insert_input_note
    insert_input-keyed i u h = ground (
      arith,
      get-insert (by_note_id P) i (Input.id note) (record { note = note; update_type = type })
          t.input_notes,
      inv.input_keyed i u,
    )

    insert_input-found :
        (i : P.NoteId) (u : InputNoteUpdate P)
        → get (by_note_id P) i (insert_input_note note type t).input_notes ≡ some u
        → get
            (by_nullifier P)
            (Input.nullifier u.note)
            (insert_input_note note type t).input_notes_by_nullifier
          ≡ some i
    unfolding insert_input_note Input.id Input.nullifier
    insert_input-found i u h = ground (
      arith,
      get-insert (by_note_id P) i (Input.id note) (record { note = note; update_type = type })
          t.input_notes,
      get-insert (by_nullifier P) (Input.nullifier u.note) (Input.nullifier note) (Input.id note)
          t.input_notes_by_nullifier,
      inv.input_keyed i u,
      inv.input_found i u,
      (distinct.0 u.note.details note.details).0,
    )

    -- An entry of the nullifier index that was there before, under another nullifier.
    insert_input-pointed_old :
        (n : P.Nullifier) (i : P.NoteId)
        → n ≢ Input.nullifier note
        → get (by_nullifier P) n t.input_notes_by_nullifier ≡ some i
        → (u : InputNoteUpdate P) × (get
              (by_note_id P)
              i
              (insert_input_note note type t).input_notes
            ≡ some u)
          × (Input.nullifier u.note ≡ n)
    unfolding insert_input_note Input.id Input.nullifier
    insert_input-pointed_old n i ne h =
        let (u, at, same) = inv.input_pointed n i h in
        (
          u,
          ground (
            arith,
            get-insert (by_note_id P) i (Input.id note) (record { note = note; update_type = type })
                t.input_notes,
            inv.input_keyed i u,
            (distinct.0 u.note.details note.details).1,
          ),
          same,
        )

    insert_input-pointed :
        (n : P.Nullifier) (i : P.NoteId)
        → get (by_nullifier P) n (insert_input_note note type t).input_notes_by_nullifier ≡ some i
        → (u : InputNoteUpdate P) × (get
              (by_note_id P)
              i
              (insert_input_note note type t).input_notes
            ≡ some u)
          × (Input.nullifier u.note ≡ n)
    unfolding insert_input_note
    insert_input-pointed n i h = elim (P.nullifier_eq n (Input.nullifier note)) [
      | yes e ↦ (
        record { note = note; update_type = type },
        ground (
          arith,
          get-insert (by_nullifier P) n (Input.nullifier note) (Input.id note)
              t.input_notes_by_nullifier,
          get-insert (by_note_id P) i (Input.id note) (record { note = note; update_type = type })
              t.input_notes,
        ),
        sym e,
      )
      | no ne ↦ insert_input-pointed_old n i ne (
          ground (
            arith,
            get-insert (by_nullifier P) n (Input.nullifier note) (Input.id note)
                t.input_notes_by_nullifier,
          ))
    ]

    pub insert_input_note-IsIndexed : IsIndexed (insert_input_note note type t)
    unfolding insert_input_note
    insert_input_note-IsIndexed = record {
      input_keyed = insert_input-keyed;
      output_keyed = inv.output_keyed;
      input_found = insert_input-found;
      input_pointed = insert_input-pointed;
      output_found = inv.output_found;
      output_pointed = inv.output_pointed;
    }
