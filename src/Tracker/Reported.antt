-- ===== src/Tracker/Reported.antt =====
-- The notes that the tracker reports as updated, in a synchronisation
-- (crates/rust-client/src/note/note_update_tracker.rs).
use miden_client.Base.{
  ◌≡◌, ◌⊎◌, inl, inr, Bool, true, false, some, List, [], ◌∷◌, arith, if◌then◌else◌,
}
use mathlib.Core.List.{Memᴰ}
use miden_client.Protocol.{Protocol}
use miden_client.BTreeMap.{values, BTreeMap, get}
use miden_client.Tracker.Types.{
  NoteUpdateType, NoteUpdateTracker, InputNoteUpdate, OutputNoteUpdate, by_note_id,
}
use miden_client.Tracker.Notes.{
  updated_input_notes, updated_output_notes, keep_input, keep_output, is_updated,
}
use miden_client.Tracker.Reach.{Reach}
use miden_client.Tracker.Advance.{Advances, Reach-Advances}

module _ {A : Type 0} where
  mem_head :
      (b : Bool) (u v : A) (rest : List A)
      → u ≡ v
      → b ≡ true
      → Memᴰ u (if b then v ∷ rest else rest)
  mem_head true u v rest e h = Memᴰ.head e
  mem_head false u v rest e h = cc

  mem_tail :
      (b : Bool) (u v : A) (rest : List A) → Memᴰ u rest → Memᴰ u (if b then v ∷ rest else rest)
  mem_tail true u v rest m = Memᴰ.tail m
  mem_tail false u v rest m = m

module _ {P : Protocol} where
  kept_input :
      (i : P.NoteId) (u : InputNoteUpdate P) (m : BTreeMap P.NoteId (InputNoteUpdate P))
      → get (by_note_id P) i m ≡ some u
      → is_updated u.update_type ≡ true
      → Memᴰ u (keep_input (values m))
  unfolding get keep_input
  kept_input i u [] e h = cc
  kept_input i u ((j, v) ∷ m) e h = elim (P.note_id_eq i j) [
    | yes same ↦
        mem_head (is_updated v.update_type) u v (keep_input (values m)) (ground arith)
          (ground arith)
    | no other ↦
        mem_tail (is_updated v.update_type) u v (keep_input (values m))
          (kept_input i u m (ground arith) h)
  ]

  kept_output :
      (i : P.NoteId) (u : OutputNoteUpdate P) (m : BTreeMap P.NoteId (OutputNoteUpdate P))
      → get (by_note_id P) i m ≡ some u
      → is_updated u.update_type ≡ true
      → Memᴰ u (keep_output (values m))
  unfolding get keep_output
  kept_output i u [] e h = cc
  kept_output i u ((j, v) ∷ m) e h = elim (P.note_id_eq i j) [
    | yes same ↦
        mem_head (is_updated v.update_type) u v (keep_output (values m)) (ground arith)
          (ground arith)
    | no other ↦
        mem_tail (is_updated v.update_type) u v (keep_output (values m))
          (kept_output i u m (ground arith) h)
  ]

  -- Each tracked note is still tracked later: its entry is as it was or is among those that the
  -- later tracker reports as updated, and a note that is to be inserted stays so.
  pub record Reports (t t' : NoteUpdateTracker P) : Type 0 where
    pub inputs :
        (i : P.NoteId) (u : InputNoteUpdate P)
        → get (by_note_id P) i t.input_notes ≡ some u
        → (u' : InputNoteUpdate P) × (get (by_note_id P) i t'.input_notes ≡ some u')
          × ((u' ≡ u) ⊎ Memᴰ u' (updated_input_notes t'))
          × (u.update_type ≡ NoteUpdateType.insert → u'.update_type ≡ NoteUpdateType.insert)
    pub outputs :
        (i : P.NoteId) (u : OutputNoteUpdate P)
        → get (by_note_id P) i t.output_notes ≡ some u
        → (u' : OutputNoteUpdate P) × (get (by_note_id P) i t'.output_notes ≡ some u')
          × ((u' ≡ u) ⊎ Memᴰ u' (updated_output_notes t'))
          × (u.update_type ≡ NoteUpdateType.insert → u'.update_type ≡ NoteUpdateType.insert)

  Advances-Reports : (t t' : NoteUpdateTracker P) → Advances t t' → Reports t t'
  unfolding updated_input_notes updated_output_notes
  Advances-Reports t t' a = record {
    inputs = λ i u e.
        let (u', e', (change, stays)) = a.inputs i u e in
        (
          u',
          e',
          elim change [
            | inl same ↦ inl same
            | inr updated ↦ inr (kept_input i u' t'.input_notes e' updated)
          ],
          stays,
        );
    outputs = λ i u e.
        let (u', e', (change, stays)) = a.outputs i u e in
        (
          u',
          e',
          elim change [
            | inl same ↦ inl same
            | inr updated ↦ inr (kept_output i u' t'.output_notes e' updated)
          ],
          stays,
        );
  }

  -- Over any steps of a synchronisation, failed ones included, no tracked note is lost: its entry
  -- is as it was or is among the updated ones that the tracker reports, and a note that is to be
  -- inserted stays so.
  pub Reach-Reports : (t t' : NoteUpdateTracker P) → Reach t t' → Reports t t'
  Reach-Reports t t' r = Advances-Reports t t' (Reach-Advances t r)
