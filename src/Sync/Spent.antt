-- ===== src/Sync/Spent.antt =====
-- The input notes that the nullifiers of a synchronisation consume
-- (crates/rust-client/src/sync/state_sync.rs).
use miden_client.Base.{
  ℕ, ◌≡◌, refl, sym, ap, ◌∙◌, ◌⊎◌, inl, inr, true, false, Option, some, List, [], ◌∷◌, arith, leb,
  if◌then◌else◌, ok, Bool-cases, Option-cases,
}
use mathlib.Core.Path.{subst}
use miden_client.Protocol.{Protocol}
use miden_client.BTreeMap.{get, values}
use miden_client.BTreeMap.Laws.{get-insert}
use miden_client.InputNote.Record as Input
use miden_client.InputNote.Record.{InputNoteRecord}
use miden_client.Transaction.Record.{TransactionRecord, is_committed}
use miden_client.Transaction.Updates.{
  TransactionUpdateTracker, committed_transactions, keep_committed,
}
use miden_client.Tracker.Types.{InputNoteUpdate, NoteUpdateTracker, by_note_id, NullifierUpdate}
use miden_client.Tracker.Notes.{touched}
use miden_client.Tracker.Transitions.{
  Method, on_input_note, on_output_note, nullify_input, nullify_output,
  apply_nullifiers_state_transitions,
}
use miden_client.Tracker.Transitions.Keeps.{apply_nullifiers_keeps}
use miden_client.Tracker.Transitions.Nullified.{AllCommitted, apply_nullifiers-is_consumed}
use miden_client.Tracker.Indexed.{IsIndexed, NoCollision}
use miden_client.Tracker.Indexed.Methods.{KeepsDetails, nullify_input-KeepsDetails}
use miden_client.Tracker.Reach.{Step-IsIndexed, nullified}
use miden_client.Sync.Headers.{HeaderApi}
use miden_client.Sync.Api.{SyncApi, StateSyncOptions}
use miden_client.Sync.Spec.{nullifier_of, Trackers, After, nullifier_reports}

module _ {P : Protocol} where
  keep_committed-AllCommitted :
      (txs : List (TransactionRecord P)) → AllCommitted (keep_committed txs)
  unfolding keep_committed
  keep_committed-AllCommitted [] = tt
  keep_committed-AllCommitted (tx ∷ txs) = elim (Bool-cases (is_committed tx.status)) [
    | inl yes_it_is ↦ rw yes_it_is (yes_it_is, keep_committed-AllCommitted txs)
    | inr not_yet ↦ rw not_yet (keep_committed-AllCommitted txs)
  ]

  committed_transactions-AllCommitted :
      (x : TransactionUpdateTracker P) → AllCommitted (committed_transactions x)
  unfolding committed_transactions
  committed_transactions-AllCommitted x = keep_committed-AllCommitted (values x.transactions)

  -- Every input note was there before with the same details, and is consumed if it was.
  abbrev Came : NoteUpdateTracker P → NoteUpdateTracker P → Type 0
  Came t t' =
      (i : P.NoteId) (e' : InputNoteUpdate P)
      → get (by_note_id P) i t'.input_notes ≡ some e'
      → (e : InputNoteUpdate P) × (get (by_note_id P) i t.input_notes ≡ some e)
        × (e'.note.details ≡ e.note.details)
        × (Input.is_consumed e.note ≡ true → Input.is_consumed e'.note ≡ true)

  -- A method that leaves a consumed note consumed
  abbrev KeepsConsumed : Method P (InputNoteRecord P) → Type 0
  KeepsConsumed method =
      (r : InputNoteRecord P) → Input.is_consumed r ≡ true → Input.is_consumed (method r).1 ≡ true

  nullify_input-KeepsConsumed :
      (order : Option ℕ) (n : NullifierUpdate P) (txs : List (TransactionRecord P))
      → KeepsConsumed (nullify_input order n txs)
  unfolding nullify_input Input.consumed_externally Input.transaction_committed
      Input.set_consumed_tx_order Input.is_consumed
  nullify_input-KeepsConsumed order n txs r h = ground arith

  on_input_note-Came :
      (k : P.NoteId) (method : Method P (InputNoteRecord P)) (t₀ t : NoteUpdateTracker P)
      → KeepsDetails method
      → KeepsConsumed method
      → Came t₀ t
      → Came t₀ (on_input_note k method t).1
  unfolding on_input_note
  on_input_note-Came k method t₀ t keeps stays came =
      elim (Option-cases (get (by_note_id P) k t.input_notes)) [
        | inl untracked ↦ rw (untracked, on_input_note) came
        | inr (old, at) ↦
            let new : InputNoteUpdate P = record {
              note = (method old.note).1;
              update_type = touched old.update_type;
            } in
            rw (at, on_input_note)
              (λ i e' g.
                let found = get-insert (by_note_id P) i k new t.input_notes in
                elim (P.note_id_eq i k) [
                  | yes here ↦
                      let (e, there, same, spent) = came i old (rw here at) in
                      let is_new : e' ≡ new = ground (arith, found, here, g) in
                      (
                        e,
                        there,
                        ap (λ x. x.note.details) is_new ∙ keeps old.note ∙ same,
                        λ c. ap (λ x. Input.is_consumed x.note) is_new ∙ stays old.note (spent c),
                      )
                  | no other ↦ came i e' (ground (arith, found, other, g))
                ])
      ]

  on_output_note-Came :
      (k : P.NoteId) (n : NullifierUpdate P) (t₀ t : NoteUpdateTracker P)
      → Came t₀ t
      → Came t₀ (on_output_note k (nullify_output n) t).1
  unfolding on_output_note
  on_output_note-Came k n t₀ t came = elim (Option-cases (get (by_note_id P) k t.output_notes)) [
    | inl untracked ↦ rw (untracked, on_output_note) came
    | inr (old, at) ↦ rw (at, on_output_note) came
  ]

  apply_nullifiers-Came :
      (n : NullifierUpdate P) (txs : List (TransactionRecord P)) (t : NoteUpdateTracker P)
      → Came t (apply_nullifiers_state_transitions n txs t).1
  apply_nullifiers-Came n txs t =
      apply_nullifiers_keeps (Came t) n txs t
        (λ i order t'.
          on_input_note-Came i (nullify_input order n txs) t t'
            (nullify_input-KeepsDetails order n txs) (nullify_input-KeepsConsumed order n txs))
        (λ i t'. on_output_note-Came i n t t') (λ i e g. (e, g, refl, λ c. c))

  -- Every tracked input note with this nullifier is consumed.
  abbrev pub IsSpent : P.Nullifier → NoteUpdateTracker P → Type 0
  IsSpent n t =
      (i : P.NoteId) (e : InputNoteUpdate P)
      → get (by_note_id P) i t.input_notes ≡ some e
      → Input.nullifier e.note ≡ n
      → Input.is_consumed e.note ≡ true

  -- And so for all nullifiers up to a block.
  abbrev pub AllSpent : ℕ → List (NullifierUpdate P) → NoteUpdateTracker P → Type 0
  AllSpent block_num [] t = Unit
  AllSpent block_num (n ∷ ns) t =
      ((leb n.block_num block_num ≡ false) ⊎ IsSpent n.nullifier t) × AllSpent block_num ns t

  apply_nullifiers-IsSpent :
      (n : NullifierUpdate P) (txs : List (TransactionRecord P)) (t : NoteUpdateTracker P)
      → IsIndexed t
      → AllCommitted txs
      → (apply_nullifiers_state_transitions n txs t).0 ≡ ok tt
      → IsSpent n.nullifier (apply_nullifiers_state_transitions n txs t).1
  unfolding Input.nullifier
  apply_nullifiers-IsSpent n txs t inv committed success i e' g own =
      let (e, there, same, _) = apply_nullifiers-Came n txs t i e' g in
      let keyed = inv.input_keyed i e there in
      let (u', at, spent, _, _) =
        apply_nullifiers-is_consumed n txs t e inv committed (rw keyed there)
          (ap (λ d. P.details_nullifier d) (sym same) ∙ own) success in
      let is_it : some e' ≡ some u' =
        sym g
        ∙ subst
            (λ j.
              get (by_note_id P) j (apply_nullifiers_state_transitions n txs t).1.input_notes
              ≡ some u')
            keyed at in
      ground (arith, is_it, spent)

  IsSpent-Came :
      (n : P.Nullifier) (t t' : NoteUpdateTracker P) → Came t t' → IsSpent n t → IsSpent n t'
  unfolding Input.nullifier
  IsSpent-Came n t t' came spent i e' g own =
      let (e, there, same, stays) = came i e' g in
      stays (spent i e there (ap (λ d. P.details_nullifier d) (sym same) ∙ own))

  Came-trans : (t u v : NoteUpdateTracker P) → Came t u → Came u v → Came t v
  Came-trans t u v came came' i e'' g =
      let (e', g', same', stays') = came' i e'' g in
      let (e, g'', same, stays) = came i e' g' in (e, g'', same' ∙ same, λ c. stays' (stays c))

module _ {P : Protocol} {H : HeaderApi P} (A : SyncApi P H) (options : StateSyncOptions)
    (distinct : NoCollision P) where
  -- One nullifier that is applied with success
  one_nullifier :
      (n : NullifierUpdate P) (s s' : Trackers P)
      → IsIndexed s.0
      → (apply_nullifiers_state_transitions n (committed_transactions s.1) s.0 ≡ (ok tt, s'.0))
      → IsIndexed s'.0 × IsSpent n.nullifier s'.0 × Came s.0 s'.0
  one_nullifier n (t, x) s' inv e =
      let txs = committed_transactions x in
      subst (λ t'. IsIndexed t' × IsSpent n.nullifier t' × Came t t') (ap (λ y. y.1) e)
        (
          Step-IsIndexed distinct (nullified n txs) inv,
          apply_nullifiers-IsSpent n txs t inv (committed_transactions-AllCommitted x)
              (ap (λ y. y.0) e),
          apply_nullifiers-Came n txs t,
        )

  -- The nullifiers up to a block, one after the other
  pub nullifier_reports-AllSpent :
      (block_num : ℕ) (ns : List (NullifierUpdate P)) (s s' : Trackers P)
      → IsIndexed s.0
      → After A options (nullifier_reports block_num ns) s s'
      → AllSpent block_num ns s'.0 × Came s.0 s'.0
  nullifier_reports-AllSpent block_num [] s s' inv same =
      (tt, subst (λ r. Came s.0 r.0) (sym same) (λ i e g. (e, g, refl, λ c. c)))
  nullifier_reports-AllSpent block_num (n ∷ ns) s s' inv h =
      elim (Bool-cases (leb n.block_num block_num)) [
        | inr later ↦
            let (rest, came) = nullifier_reports-AllSpent block_num ns s s' inv (
              subst
                (λ b.
                  After A options
                    (if b
                      then nullifier_of n ∷ nullifier_reports block_num ns
                      else nullifier_reports block_num ns)
                    s s')
                later h) in
            ((inl later, rest), came)
        | inl within ↦
            let (m, (e, _), h') : After A options (nullifier_of n ∷ nullifier_reports block_num ns)
                s s' =
              subst
                (λ b.
                  After A options
                    (if b
                      then nullifier_of n ∷ nullifier_reports block_num ns
                      else nullifier_reports block_num ns)
                    s s')
                within h in
            let (inv', spent, first) = one_nullifier n s m inv e in
            let (rest, came) = nullifier_reports-AllSpent block_num ns m s' inv' h' in
            (
              (inr (IsSpent-Came n.nullifier m.0 s'.0 came spent), rest),
              Came-trans s.0 m.0 s'.0 first came,
            )
      ]
