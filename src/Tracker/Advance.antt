-- ===== src/Tracker/Advance.antt =====
-- What becomes of the entries of the tracked notes in a synchronisation
-- (crates/rust-client/src/note/note_update_tracker.rs).
use miden_client.Base.{◌≡◌, refl, sym, ◌∙◌, ◌⊎◌, inl, inr, true, some, arith, Option-cases}
use mathlib.Core.Path.{subst}
use miden_client.Protocol.{Protocol}
use miden_client.BTreeMap.{Ord, BTreeMap, get, insert}
use miden_client.BTreeMap.Laws.{get-insert_self, get-insert_ne}
use miden_client.InputNote.Record as Input
use miden_client.InputNote.Record.{InputNoteRecord}
use miden_client.OutputNote.Record.{OutputNoteRecord}
use miden_client.Tracker.Types.{
  NoteUpdateType, NoteUpdateTracker, InputNoteUpdate, OutputNoteUpdate, by_note_id,
}
use miden_client.Tracker.Notes.{touched, is_updated, insert_input_note}
use miden_client.Tracker.Order.{extend_nullifiers_shape}
use miden_client.Tracker.Transitions.{
  Method, on_input_note, on_output_note, nullify_input, nullify_output, commit_input, commit_output,
}
use miden_client.Tracker.Transitions.Keeps.{
  apply_committed_keeps, apply_nullifiers_keeps, apply_new_public_note_keeps,
}
use miden_client.Tracker.Reach.{
  Step, Reach, new_public_note, committed_note, nullified, extended, here, next,
}

module _ {K V : Type 0} (o : Ord K) (type_of : V → NoteUpdateType) where
  -- What becomes of an entry: it is as it was, or it is marked as updated; and what is to be
  -- inserted stays so.
  abbrev pub Becomes : V → V → Type 0
  Becomes v v' =
      ((v' ≡ v) ⊎ (is_updated (type_of v') ≡ true))
      × ((type_of v ≡ NoteUpdateType.insert) → type_of v' ≡ NoteUpdateType.insert)

  -- No entry is lost.
  abbrev pub Advance : BTreeMap K V → BTreeMap K V → Type 0
  Advance m m' =
      (k : K) (v : V) → get o k m ≡ some v → (v' : V) × (get o k m' ≡ some v') × Becomes v v'

  Advance-refl : (m : BTreeMap K V) → Advance m m
  Advance-refl m k v e = (v, e, (inl refl, λ h. h))

  Advance-insert :
      (j : K) (w : V) (m₀ m : BTreeMap K V)
      → is_updated (type_of w) ≡ true
      → ((v : V)
          → get o j m ≡ some v
          → type_of v ≡ NoteUpdateType.insert
          → type_of w ≡ NoteUpdateType.insert)
      → Advance m₀ m
      → Advance m₀ (insert o j w m)
  Advance-insert j w m₀ m updated stays before k v e =
      let (v', e', (change, still)) = before k v e in
      elim (o.eq k j) [
        | yes same ↦ (
          w,
          subst (λ i. get o i (insert o j w m) ≡ some w) (sym same) (get-insert_self o j w m),
          (inr updated, λ h. stays v' (subst (λ i. get o i m ≡ some v') same e') (still h)),
        )
        | no other ↦ (v', get-insert_ne o k j w m other ∙ e', (change, still))
      ]

-- Both kinds of notes, from one tracker to a later one.
pub record Advances {P : Protocol} (t t' : NoteUpdateTracker P) : Type 0 where
  pub inputs :
      Advance (by_note_id P) (λ (u : InputNoteUpdate P). u.update_type) t.input_notes t'.input_notes
  pub outputs :
      Advance
        (by_note_id P)
        (λ (u : OutputNoteUpdate P). u.update_type)
        t.output_notes
        t'.output_notes

touched_lem :
    (type : NoteUpdateType)
    → (is_updated (touched type) ≡ true)
      × (type ≡ NoteUpdateType.insert → touched type ≡ NoteUpdateType.insert)
touched_lem type = ground arith

module _ {P : Protocol} (t₀ : NoteUpdateTracker P) where
  on_input_note-Advances :
      (i : P.NoteId) (method : Method P (InputNoteRecord P)) (t : NoteUpdateTracker P)
      → Advances t₀ t
      → Advances t₀ (on_input_note i method t).1
  unfolding on_input_note
  on_input_note-Advances i method t a = elim (Option-cases (get (by_note_id P) i t.input_notes)) [
    | inl e ↦ rw (on_input_note, e) a
    | inr (u, e) ↦
        rw (on_input_note, e)
          (record {
            inputs =
                Advance-insert (by_note_id P) (λ (u : InputNoteUpdate P). u.update_type) i
                  (record { note = (method u.note).1; update_type = touched u.update_type })
                  t₀.input_notes t.input_notes (touched_lem u.update_type).0
                  (λ v e' h. (touched_lem u.update_type).1 (cc (e, e', h))) a.inputs;
            outputs = a.outputs;
          })
  ]

  on_output_note-Advances :
      (i : P.NoteId) (method : Method P (OutputNoteRecord P)) (t : NoteUpdateTracker P)
      → Advances t₀ t
      → Advances t₀ (on_output_note i method t).1
  unfolding on_output_note
  on_output_note-Advances i method t a = elim (Option-cases (get (by_note_id P) i t.output_notes)) [
    | inl e ↦ rw (on_output_note, e) a
    | inr (u, e) ↦
        rw (on_output_note, e)
          (record {
            outputs =
                Advance-insert (by_note_id P) (λ (u : OutputNoteUpdate P). u.update_type) i
                  (record { note = (method u.note).1; update_type = touched u.update_type })
                  t₀.output_notes t.output_notes (touched_lem u.update_type).0
                  (λ v e' h. (touched_lem u.update_type).1 (cc (e, e', h))) a.outputs;
            inputs = a.inputs;
          })
  ]

  inserted-Advances :
      (note : InputNoteRecord P) (t : NoteUpdateTracker P)
      → Advances t₀ t
      → Advances t₀ (insert_input_note note NoteUpdateType.insert t)
  unfolding insert_input_note
  inserted-Advances note t a = record {
    inputs =
        Advance-insert (by_note_id P) (λ (u : InputNoteUpdate P). u.update_type) (Input.id note)
          (record { note = note; update_type = NoteUpdateType.insert }) t₀.input_notes t.input_notes
          refl (λ v e h. refl) a.inputs;
    outputs = a.outputs;
  }

  Step-Advances : {t t' : NoteUpdateTracker P} → Step t t' → Advances t₀ t → Advances t₀ t'
  Step-Advances {t} (new_public_note note header) a =
      apply_new_public_note_keeps (Advances t₀) note header t (λ n. inserted-Advances n t a) a
  Step-Advances {t} (committed_note c header) a =
      apply_committed_keeps (Advances t₀) c header t
        (on_input_note-Advances c.note_id (commit_input c header))
        (on_output_note-Advances c.note_id (commit_output c)) a
  Step-Advances {t} (nullified n txs) a =
      apply_nullifiers_keeps (Advances t₀) n txs t
        (λ i order. on_input_note-Advances i (nullify_input order n txs))
        (λ i. on_output_note-Advances i (nullify_output n)) a
  Step-Advances {t} (extended ns t' e) a =
      subst (Advances t₀) (extend_nullifiers_shape ns t t' e).1
        (record { inputs = a.inputs; outputs = a.outputs })

  pub Reach-Advances : {t : NoteUpdateTracker P} → Reach t₀ t → Advances t₀ t
  Reach-Advances here = record {
    inputs = Advance-refl (by_note_id P) (λ (u : InputNoteUpdate P). u.update_type) t₀.input_notes;
    outputs =
        Advance-refl (by_note_id P) (λ (u : OutputNoteUpdate P). u.update_type) t₀.output_notes;
  }
  Reach-Advances (next r s) = Step-Advances s (Reach-Advances r)
