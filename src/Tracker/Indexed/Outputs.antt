-- ===== src/Tracker/Indexed/Outputs.antt =====
-- An output note enters the tracker: its entry in the index by nullifier
-- (crates/rust-client/src/note/note_update_tracker.rs).
use miden_client.Base.{
  ◌≡◌, refl, sym, ap, ◌∙◌, ◌≢◌, ◌↔◌, inl, inr, Option, none, some, arith, Option-cases,
}
use miden_client.Protocol.{Protocol}
use miden_client.BTreeMap.{BTreeMap, get}
use miden_client.BTreeMap.Laws.{get-insert, get-insert_self}
use miden_client.OutputNote.Record as Output
use miden_client.OutputNote.Record.{OutputNoteRecord}
use miden_client.Tracker.Types.{
  NoteUpdateType, OutputNoteUpdate, NoteUpdateTracker, by_note_id, by_nullifier,
}
use miden_client.Tracker.Notes.{insert_output_note, index_nullifier}
use miden_client.Tracker.Indexed.{NoCollision, IsOf, IsWellFormed, IsIndexed}

-- An old entry of the index is still there, under another nullifier.
index_nullifier-other :
    (P : Protocol) (known : Option P.Nullifier) (n : P.Nullifier) (j : P.NoteId)
    (m : BTreeMap P.Nullifier P.NoteId)
    → ((k : P.Nullifier) → known ≡ some k → n ≢ k)
    → get (by_nullifier P) n (index_nullifier P known j m) ≡ get (by_nullifier P) n m
unfolding index_nullifier
index_nullifier-other P none n j m ne = refl
index_nullifier-other P (some k) n j m ne =
    ground (arith, get-insert (by_nullifier P) n k j m, ne k refl)

IsOf-same :
    (P : Protocol)
    → NoCollision P
    → (n m : P.Nullifier) (i j : P.NoteId) → IsOf P n i
    → IsOf P m j
    → (n ≡ m) ↔ (i ≡ j)
IsOf-same P distinct n m i j (r, a, e, f) (r', a', e', f') = (
  λ same. sym f ∙ (distinct.1 r r' a a').0 (e ∙ same ∙ sym e') ∙ f',
  λ same. sym e ∙ (distinct.1 r r' a a').1 (f ∙ same ∙ sym f') ∙ e',
)

module _ {P : Protocol} (distinct : NoCollision P) where
  IsWellFormed-IsOf :
      (r : OutputNoteRecord P) (n : P.Nullifier)
      → IsWellFormed r
      → Output.nullifier r ≡ some n
      → IsOf P n (Output.id r)
  unfolding Output.nullifier Output.id
  IsWellFormed-IsOf r n fits e = elim (Option-cases (Output.recipient r)) [
    | inl unknown ↦ absurd (ground (arith, unknown))
    | inr (to, known) ↦
        (to, r.assets, ground (arith, known, e), ap (λ w. P.note_id_new w r.assets) (fits to known))
  ]

  module _ (note : OutputNoteRecord P) (type : NoteUpdateType) (t : NoteUpdateTracker P)
      (fits : IsWellFormed note) (inv : IsIndexed t) where
    insert_output-keyed :
        (i : P.NoteId) (u : OutputNoteUpdate P)
        → get (by_note_id P) i (insert_output_note note type t).output_notes ≡ some u
        → Output.id u.note ≡ i
    unfolding insert_output_note
    insert_output-keyed i u h = ground (
      arith,
      get-insert (by_note_id P) i (Output.id note) (record { note = note; update_type = type })
          t.output_notes,
      inv.output_keyed i u,
    )

    insert_output-found :
        (i : P.NoteId) (u : OutputNoteUpdate P) (n : P.Nullifier)
        → get (by_note_id P) i (insert_output_note note type t).output_notes ≡ some u
        → Output.nullifier u.note ≡ some n
        → (get (by_nullifier P) n (insert_output_note note type t).output_notes_by_nullifier
            ≡ some i)
          × IsOf P n i
    unfolding insert_output_note index_nullifier
    insert_output-found i u n h e =
        let at =
          get-insert (by_note_id P) i (Output.id note) (record { note = note; update_type = type })
            t.output_notes in
        elim (P.note_id_eq i (Output.id note)) [
          | yes here ↦
              let known : Output.nullifier note ≡ some n = ground (arith, at, here, h, e) in
              (
                rw known (
                    rw here (
                      get-insert_self (by_nullifier P) n (Output.id note)
                        t.output_notes_by_nullifier)),
                rw here (IsWellFormed-IsOf note n fits known),
              )
          | no other ↦
              let (old, of) = inv.output_found i u n (ground (arith, at, h)) e in
              (
                index_nullifier-other P (Output.nullifier note) n (Output.id note)
                      t.output_notes_by_nullifier
                      (λ k known same. other (
                        (IsOf-same P distinct n k i (Output.id note) of
                            (IsWellFormed-IsOf note k fits known)).0
                          same))
                    ∙ old,
                of,
              )
        ]

    insert_output-pointed :
        (n : P.Nullifier) (i : P.NoteId)
        → get (by_nullifier P) n (insert_output_note note type t).output_notes_by_nullifier ≡ some i
        → (get (by_note_id P) i (insert_output_note note type t).output_notes ≢ none) × IsOf P n i
    unfolding insert_output_note
    insert_output-pointed n i h =
        let at =
          get-insert (by_note_id P) i (Output.id note) (record { note = note; update_type = type })
            t.output_notes in
        elim (Option-cases (Output.nullifier note)) [
          | inl unknown ↦
              let old = inv.output_pointed n i (ground (arith, unknown, h)) in
              (ground (arith, at, old.0), old.1)
          | inr (m, known) ↦ elim (P.nullifier_eq n m) [
            | yes same ↦
                let here : i ≡ Output.id note = ground (
                  arith,
                  get-insert (by_nullifier P) n m (Output.id note) t.output_notes_by_nullifier,
                  known,
                  h,
                  same,
                ) in
                (ground (arith, at, here), rw (here, same) (IsWellFormed-IsOf note m fits known))
            | no other ↦
                let old = inv.output_pointed n i (
                  ground (
                    arith,
                    get-insert (by_nullifier P) n m (Output.id note) t.output_notes_by_nullifier,
                    known,
                    h,
                  )) in
                (ground (arith, at, old.0), old.1)
          ]
        ]

    pub insert_output_note-IsIndexed : IsIndexed (insert_output_note note type t)
    unfolding insert_output_note
    insert_output_note-IsIndexed = record {
      input_keyed = inv.input_keyed;
      output_keyed = insert_output-keyed;
      input_found = inv.input_found;
      input_pointed = inv.input_pointed;
      output_found = insert_output-found;
      output_pointed = insert_output-pointed;
    }
