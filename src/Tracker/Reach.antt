-- ===== src/Tracker/Reach.antt =====
-- What the tracker goes through in a synchronisation with the node, as a step relation
-- (crates/rust-client/src/note/note_update_tracker.rs).
use miden_client.Base.{◌≡◌, ◌⊎◌, inl, inr, some, List, [], ◌∷◌}
use mathlib.Core.Path.{subst}
use miden_client.Protocol.{Protocol}
use miden_client.InputNote.Record.{InputNoteRecord}
use miden_client.OutputNote.Record.{OutputNoteRecord}
use miden_client.Transaction.Record.{TransactionRecord}
use miden_client.Tracker.Types.{NoteUpdateType, NoteUpdateTracker, CommittedNote, NullifierUpdate}
use miden_client.Tracker.Notes.{
  insert_input_note, insert_output_note, insert_input_notes, insert_output_notes, new,
  for_transaction_updates, empty,
}
use miden_client.Tracker.Order.{extend_nullifiers, extend_nullifiers_shape}
use miden_client.Tracker.Transitions.{
  commit_input, commit_output, nullify_input, nullify_output, apply_new_public_note,
  apply_committed_note_state_transitions, apply_nullifiers_state_transitions,
}
use miden_client.Tracker.Transitions.Keeps.{
  apply_committed_keeps, apply_nullifiers_keeps, apply_new_public_note_keeps,
}
use miden_client.Tracker.Indexed.{
  IsIndexed, NoCollision, AllWellFormed, empty-IsIndexed, insert_input_note-IsIndexed,
}
use miden_client.Tracker.Indexed.Outputs.{insert_output_note-IsIndexed}
use miden_client.Tracker.Indexed.Methods.{
  on_input_note-IsIndexed, on_output_note-IsIndexed, commit_input-KeepsDetails,
  commit_output-KeepsParts, nullify_input-KeepsDetails, nullify_output-KeepsParts,
}

pub data Step {P : Protocol} (t : NoteUpdateTracker P) : NoteUpdateTracker P → Type 0 where
  new_public_note :
      (note : InputNoteRecord P) (header : P.BlockHeader)
      → Step t (apply_new_public_note note header t).1
  committed_note :
      (c : CommittedNote P) (header : P.BlockHeader)
      → Step t (apply_committed_note_state_transitions c header t).1
  nullified :
      (n : NullifierUpdate P) (txs : List (TransactionRecord P))
      → Step t (apply_nullifiers_state_transitions n txs t).1
  extended :
      (ns : List P.Nullifier) (t' : NoteUpdateTracker P)
      → extend_nullifiers ns t ≡ some t'
      → Step t t'

pub data Reach {P : Protocol} (t : NoteUpdateTracker P) : NoteUpdateTracker P → Type 0 where
  here : Reach t t
  next : {u v : NoteUpdateTracker P} → Reach t u → Step u v → Reach t v

module _ {P : Protocol} where
  extend_nullifiers-IsIndexed :
      (ns : List P.Nullifier) (t t' : NoteUpdateTracker P)
      → extend_nullifiers ns t ≡ some t'
      → IsIndexed t
      → IsIndexed t'
  extend_nullifiers-IsIndexed ns t t' e inv =
      subst IsIndexed (extend_nullifiers_shape ns t t' e).1 (record {
        input_keyed = inv.input_keyed;
        output_keyed = inv.output_keyed;
        input_found = inv.input_found;
        input_pointed = inv.input_pointed;
        output_found = inv.output_found;
        output_pointed = inv.output_pointed;
      })

module _ {P : Protocol} (distinct : NoCollision P) where
  pub Step-IsIndexed : {t t' : NoteUpdateTracker P} → Step t t' → IsIndexed t → IsIndexed t'
  Step-IsIndexed {t} (new_public_note note header) inv =
      apply_new_public_note_keeps IsIndexed note header t
        (λ n. insert_input_note-IsIndexed distinct n NoteUpdateType.insert t inv) inv
  Step-IsIndexed {t} (committed_note c header) inv =
      apply_committed_keeps IsIndexed c header t
        (λ t'.
          on_input_note-IsIndexed c.note_id (commit_input c header) t'
            (commit_input-KeepsDetails c header))
        (λ t'. on_output_note-IsIndexed c.note_id (commit_output c) t' (commit_output-KeepsParts c))
        inv
  Step-IsIndexed {t} (nullified n txs) inv =
      apply_nullifiers_keeps IsIndexed n txs t
        (λ i order t'.
          on_input_note-IsIndexed i (nullify_input order n txs) t'
            (nullify_input-KeepsDetails order n txs))
        (λ i t'. on_output_note-IsIndexed i (nullify_output n) t' (nullify_output-KeepsParts n)) inv
  Step-IsIndexed {t} (extended ns t' e) inv = extend_nullifiers-IsIndexed ns t t' e inv

  pub Reach-IsIndexed : {t t' : NoteUpdateTracker P} → IsIndexed t → Reach t t' → IsIndexed t'
  Reach-IsIndexed inv here = inv
  Reach-IsIndexed inv (next r s) = Step-IsIndexed s (Reach-IsIndexed inv r)

  insert_input_notes-IsIndexed :
      (notes : List (InputNoteRecord P)) (type : NoteUpdateType) (t : NoteUpdateTracker P)
      → IsIndexed t
      → IsIndexed (insert_input_notes notes type t)
  unfolding insert_input_notes
  insert_input_notes-IsIndexed [] type t inv = inv
  insert_input_notes-IsIndexed (note ∷ notes) type t inv =
      insert_input_notes-IsIndexed notes type (insert_input_note note type t)
        (insert_input_note-IsIndexed distinct note type t inv)

  insert_output_notes-IsIndexed :
      (notes : List (OutputNoteRecord P)) (type : NoteUpdateType) (t : NoteUpdateTracker P)
      → AllWellFormed notes
      → IsIndexed t
      → IsIndexed (insert_output_notes notes type t)
  unfolding insert_output_notes
  insert_output_notes-IsIndexed [] type t fits inv = inv
  insert_output_notes-IsIndexed (note ∷ notes) type t fits inv =
      insert_output_notes-IsIndexed notes type (insert_output_note note type t) fits.1
        (insert_output_note-IsIndexed distinct note type t fits.0 inv)

  -- If IDs and nullifiers do not collide, and the output notes have the digests of their
  -- recipients, then in every tracker that is made from tracked notes, or from the notes of a
  -- transaction, and has gone through any steps of a synchronisation, failed ones included: every
  -- note stands under its ID; the nullifier of every input note, and of every output note whose
  -- nullifier is known, leads to its ID; an entry of the index of input notes leads to a tracked
  -- note with that nullifier; and an entry of the index of output notes leads to a tracked note, and
  -- the nullifier is that of a recipient and assets that have this ID.
  pub tracker-IsIndexed :
      (inputs updated : List (InputNoteRecord P)) (outputs : List (OutputNoteRecord P))
      {t : NoteUpdateTracker P}
      → AllWellFormed outputs
      → (Reach (new inputs outputs) t) ⊎ (Reach (for_transaction_updates inputs updated outputs) t)
      → IsIndexed t
  unfolding new for_transaction_updates
  tracker-IsIndexed inputs updated outputs fits (inl r) =
      Reach-IsIndexed
        (insert_output_notes-IsIndexed outputs NoteUpdateType.unchanged
          (insert_input_notes inputs NoteUpdateType.unchanged (empty P)) fits
          (insert_input_notes-IsIndexed inputs NoteUpdateType.unchanged (empty P)
            (empty-IsIndexed P)))
        r
  tracker-IsIndexed inputs updated outputs fits (inr r) =
      let first = insert_input_notes inputs NoteUpdateType.insert (empty P) in
      let second = insert_input_notes updated NoteUpdateType.update first in
      Reach-IsIndexed
        (insert_output_notes-IsIndexed outputs NoteUpdateType.insert second fits (
          insert_input_notes-IsIndexed updated NoteUpdateType.update first (
            insert_input_notes-IsIndexed inputs NoteUpdateType.insert (empty P)
              (empty-IsIndexed P))))
        r
