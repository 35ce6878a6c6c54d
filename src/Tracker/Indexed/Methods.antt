-- ===== src/Tracker/Indexed/Methods.antt =====
-- Methods on one tracked note, and the indices of the tracker
-- (crates/rust-client/src/note/note_update_tracker.rs).
use miden_client.Base.{ℕ, ◌≡◌, ◌≢◌, inl, inr, Option, none, some, List, arith, Option-cases}
use miden_client.Protocol.{Protocol}
use miden_client.BTreeMap.{get, insert}
use miden_client.BTreeMap.Laws.{get-insert}
use miden_client.InputNote.Record as Input
use miden_client.InputNote.Record.{InputNoteRecord}
use miden_client.OutputNote.Record as Output
use miden_client.OutputNote.Record.{OutputNoteRecord}
use miden_client.Transaction.Record.{TransactionRecord}
use miden_client.Tracker.Types.{
  InputNoteUpdate, OutputNoteUpdate, NoteUpdateTracker, by_note_id, by_nullifier, CommittedNote,
  NullifierUpdate,
}
use miden_client.Tracker.Notes.{touched}
use miden_client.Tracker.Transitions.{
  Method, on_input_note, on_output_note, commit_input, commit_output, nullify_input, nullify_output,
}
use miden_client.Tracker.Indexed.{IsIndexed, IsOf}

-- A method that leaves the details of an input note, or the ID and the nullifier of an output note,
-- alone.
abbrev pub KeepsDetails : {P : Protocol} → Method P (InputNoteRecord P) → Type 0
KeepsDetails {P} method = (r : InputNoteRecord P) → (method r).1.details ≡ r.details

abbrev pub KeepsParts : {P : Protocol} → Method P (OutputNoteRecord P) → Type 0
KeepsParts {P} method =
    (r : OutputNoteRecord P)
    → (Output.id (method r).1 ≡ Output.id r) × (Output.nullifier (method r).1 ≡ Output.nullifier r)

module _ {P : Protocol} where
  pub commit_input-KeepsDetails :
      (c : CommittedNote P) (header : P.BlockHeader) → KeepsDetails (commit_input c header)
  unfolding commit_input Input.inclusion_proof_received Input.block_header_received
  commit_input-KeepsDetails c header r = ground arith

  pub commit_output-KeepsParts : (c : CommittedNote P) → KeepsParts (commit_output c)
  unfolding commit_output Output.inclusion_proof_received Output.id Output.nullifier
  commit_output-KeepsParts c r = ground arith

  pub nullify_input-KeepsDetails :
      (order : Option ℕ) (n : NullifierUpdate P) (txs : List (TransactionRecord P))
      → KeepsDetails (nullify_input order n txs)
  unfolding nullify_input Input.consumed_externally Input.transaction_committed
      Input.set_consumed_tx_order
  nullify_input-KeepsDetails order n txs r = ground arith

  pub nullify_output-KeepsParts : (n : NullifierUpdate P) → KeepsParts (nullify_output n)
  unfolding nullify_output Output.nullifier_received Output.id Output.nullifier
  nullify_output-KeepsParts n r = ground arith

  module _ (k : P.NoteId) (method : Method P (InputNoteRecord P)) (keeps : KeepsDetails method)
      (t : NoteUpdateTracker P) (old : InputNoteUpdate P)
      (at : get (by_note_id P) k t.input_notes ≡ some old) (inv : IsIndexed t) where
    -- The tracker when the method has run.
    abbrev written : NoteUpdateTracker P
    written = record t {
      input_notes =
          insert (by_note_id P) k
            (record { note = (method old.note).1; update_type = touched old.update_type })
            t.input_notes;
    }

    written-keyed :
        (i : P.NoteId) (u : InputNoteUpdate P)
        → get (by_note_id P) i written.input_notes ≡ some u
        → (Input.id u.note ≡ i)
          × (get (by_nullifier P) (Input.nullifier u.note) t.input_notes_by_nullifier ≡ some i)
    unfolding Input.id Input.nullifier
    written-keyed i u h = ground (
      arith,
      get-insert (by_note_id P) i k
          (record { note = (method old.note).1; update_type = touched old.update_type })
          t.input_notes,
      inv.input_keyed i u,
      inv.input_found i u,
      inv.input_keyed k old,
      inv.input_found k old,
      keeps old.note,
    )

    written-pointed :
        (n : P.Nullifier) (i : P.NoteId)
        → get (by_nullifier P) n t.input_notes_by_nullifier ≡ some i
        → (u : InputNoteUpdate P) × (get (by_note_id P) i written.input_notes ≡ some u)
          × (Input.nullifier u.note ≡ n)
    unfolding Input.nullifier
    written-pointed n i h = elim (P.note_id_eq i k) [
      | yes e ↦
          let (u, at', same) = inv.input_pointed n i h in
          (
            record { note = (method old.note).1; update_type = touched old.update_type },
            ground (
              arith,
              get-insert (by_note_id P) i k
                  (record { note = (method old.note).1; update_type = touched old.update_type })
                  t.input_notes,
            ),
            ground (arith, keeps old.note),
          )
      | no ne ↦
          let (u, at', same) = inv.input_pointed n i h in
          (
            u,
            ground (
              arith,
              get-insert (by_note_id P) i k
                  (record { note = (method old.note).1; update_type = touched old.update_type })
                  t.input_notes,
            ),
            same,
          )
    ]

    pub written-IsIndexed : IsIndexed written
    written-IsIndexed = record {
      input_keyed = λ i u h. (written-keyed i u h).0;
      output_keyed = inv.output_keyed;
      input_found = λ i u h. (written-keyed i u h).1;
      input_pointed = written-pointed;
      output_found = inv.output_found;
      output_pointed = inv.output_pointed;
    }

  pub on_input_note-IsIndexed :
      (k : P.NoteId) (method : Method P (InputNoteRecord P)) (t : NoteUpdateTracker P)
      → KeepsDetails method
      → IsIndexed t
      → IsIndexed (on_input_note k method t).1
  unfolding on_input_note
  on_input_note-IsIndexed k method t keeps inv =
      elim (Option-cases (get (by_note_id P) k t.input_notes)) [
        | inl untracked ↦ rw (untracked, on_input_note) inv
        | inr (old, at) ↦ rw (at, on_input_note) (written-IsIndexed k method keeps t old at inv)
      ]

  module _ (k : P.NoteId) (method : Method P (OutputNoteRecord P)) (keeps : KeepsParts method)
      (t : NoteUpdateTracker P) (old : OutputNoteUpdate P)
      (old_at : get (by_note_id P) k t.output_notes ≡ some old) (inv : IsIndexed t) where
    abbrev written_output : NoteUpdateTracker P
    written_output = record t {
      output_notes =
          insert (by_note_id P) k
            (record { note = (method old.note).1; update_type = touched old.update_type })
            t.output_notes;
    }

    written_output-keyed :
        (i : P.NoteId) (u : OutputNoteUpdate P)
        → get (by_note_id P) i written_output.output_notes ≡ some u
        → Output.id u.note ≡ i
    written_output-keyed i u h = ground (
      arith,
      get-insert (by_note_id P) i k
          (record { note = (method old.note).1; update_type = touched old.update_type })
          t.output_notes,
      inv.output_keyed i u,
      inv.output_keyed k old,
      (keeps old.note).0,
    )

    written_output-found :
        (i : P.NoteId) (u : OutputNoteUpdate P) (n : P.Nullifier)
        → get (by_note_id P) i written_output.output_notes ≡ some u
        → Output.nullifier u.note ≡ some n
        → (get (by_nullifier P) n t.output_notes_by_nullifier ≡ some i) × IsOf P n i
    written_output-found i u n h e =
        let at =
          get-insert (by_note_id P) i k
            (record { note = (method old.note).1; update_type = touched old.update_type })
            t.output_notes in
        elim (P.note_id_eq i k) [
          | yes here ↦
              inv.output_found i old n (rw here old_at)
                (ground (arith, at, here, h, e, (keeps old.note).1))
          | no other ↦ inv.output_found i u n (ground (arith, at, h)) e
        ]

    written_output-pointed :
        (n : P.Nullifier) (i : P.NoteId)
        → get (by_nullifier P) n t.output_notes_by_nullifier ≡ some i
        → (get (by_note_id P) i written_output.output_notes ≢ none) × IsOf P n i
    written_output-pointed n i h =
        let (there, of) = inv.output_pointed n i h in
        (
          ground (
            arith,
            get-insert (by_note_id P) i k
                (record { note = (method old.note).1; update_type = touched old.update_type })
                t.output_notes,
            there,
          ),
          of,
        )

    written_output-IsIndexed : IsIndexed written_output
    written_output-IsIndexed = record {
      input_keyed = inv.input_keyed;
      output_keyed = written_output-keyed;
      input_found = inv.input_found;
      input_pointed = inv.input_pointed;
      output_found = written_output-found;
      output_pointed = written_output-pointed;
    }

  pub on_output_note-IsIndexed :
      (k : P.NoteId) (method : Method P (OutputNoteRecord P)) (t : NoteUpdateTracker P)
      → KeepsParts method
      → IsIndexed t
      → IsIndexed (on_output_note k method t).1
  unfolding on_output_note
  on_output_note-IsIndexed k method t keeps inv =
      elim (Option-cases (get (by_note_id P) k t.output_notes)) [
        | inl untracked ↦ rw (untracked, on_output_note) inv
        | inr (old, at) ↦
            rw (at, on_output_note) (written_output-IsIndexed k method keeps t old at inv)
      ]
