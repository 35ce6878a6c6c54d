-- ===== src/Tracker/Transitions/Nullified.antt =====
-- What a nullifier leaves of the tracked input note that it belongs to
-- (`apply_nullifiers_state_transitions` of crates/rust-client/src/note/note_update_tracker.rs).
use miden_client.Base.{
  ℕ, ◌≡◌, refl, sym, ap, ◌∙◌, inl, inr, Bool, true, Option, none, some, List, [], ◌∷◌, arith,
  Result, ok, err, Option-cases,
}
use mathlib.Core.Path.{subst}
use miden_client.Protocol.{Protocol}
use miden_client.BTreeMap.{get}
use miden_client.BTreeMap.Laws.{get-insert_self}
use miden_client.InputNote.Record as Input
use miden_client.InputNote.Record.{InputNoteRecord}
use miden_client.InputNote.States
use miden_client.InputNote.Types.{NoteRecordError}
use miden_client.Transaction.Record.{TransactionRecord, is_committed}
use miden_client.Tracker.Types.{
  InputNoteUpdate, NoteUpdateTracker, by_note_id, by_nullifier, NullifierUpdate, ClientError,
  NoteUpdateType,
}
use miden_client.Tracker.Notes.{touched, is_updated}
use miden_client.Tracker.Transitions.{
  Method, on_input_note, on_output_note, nullify_input, find_consumer, committed_by, ordered,
  nullified_input, nullified_output, then_input, then_output, apply_nullifiers_state_transitions,
}
use miden_client.Tracker.Indexed.{IsIndexed}

touched_updated : (type : NoteUpdateType) → is_updated (touched type) ≡ true
touched_updated type = ground arith

module _ {P : Protocol} where
  -- Every one of these transactions is committed.
  abbrev pub AllCommitted : List (TransactionRecord P) → Type 0
  AllCommitted [] = Unit
  AllCommitted (tx ∷ txs) = (is_committed tx.status ≡ true) × AllCommitted txs

  find_consumer_committed :
      (r : InputNoteRecord P) (txs : List (TransactionRecord P)) (tx : TransactionRecord P)
      → AllCommitted txs
      → find_consumer r txs ≡ some tx
      → is_committed tx.status ≡ true
  unfolding find_consumer
  find_consumer_committed r [] tx h e = cc
  find_consumer_committed r (tx' ∷ txs) tx h e =
      ground (arith, find_consumer_committed r txs tx h.1)

  committed_by_lem :
      (tx : TransactionRecord P) (r : InputNoteRecord P)
      → is_committed tx.status ≡ true
      → (b : Bool) → (committed_by tx tx.status r).0 ≡ ok b
      → Input.is_consumed (committed_by tx tx.status r).1 ≡ true
  unfolding committed_by Input.transaction_committed Input.is_consumed
  committed_by_lem tx r h b e = ground arith

  set_order_lem :
      (order : Option ℕ) (r : InputNoteRecord P)
      → Input.is_consumed r ≡ true
      → (Input.is_consumed (Input.set_consumed_tx_order order r) ≡ true)
        × (States.consumed_tx_order (Input.set_consumed_tx_order order r).state ≡ order)
  unfolding Input.set_consumed_tx_order Input.is_consumed States.consumed_tx_order
  set_order_lem order r h = ground arith

  -- The method succeeded.
  abbrev IsOk : {A : Type 0} → Result (ClientError P) A → Type 0
  IsOk (ok _) = Unit
  IsOk (err _) = ⊥

  ordered_lem :
      (order : Option ℕ) (x : Result (NoteRecordError P) Bool × InputNoteRecord P)
      → ((b : Bool) → x.0 ≡ ok b → Input.is_consumed x.1 ≡ true)
      → IsOk (ordered order x).0
      → (Input.is_consumed (ordered order x).1 ≡ true)
        × (States.consumed_tx_order (ordered order x).1.state ≡ order)
  unfolding ordered
  ordered_lem order (ok b, r) consumed h = set_order_lem order r (consumed b refl)
  ordered_lem order (err e, r) consumed h = elim h [ ]

  consumed_externally-is_consumed :
      (n : P.Nullifier) (height : ℕ) (r : InputNoteRecord P) (b : Bool)
      → (Input.consumed_externally n height r).0 ≡ ok b
      → Input.is_consumed (Input.consumed_externally n height r).1 ≡ true
  unfolding Input.consumed_externally Input.is_consumed
  consumed_externally-is_consumed n height r b h = ground arith

  nullify_found :
      (order : Option ℕ) (n : NullifierUpdate P) (r : InputNoteRecord P)
      (found : Option (TransactionRecord P))
      → ((tx : TransactionRecord P) → found ≡ some tx → is_committed tx.status ≡ true)
      → let x : Result (ClientError P) Bool × InputNoteRecord P = elim found [
        | some tx ↦ ordered order (committed_by tx tx.status r)
        | none ↦ ordered order (Input.consumed_externally n.nullifier n.block_num r)
      ] in
        IsOk x.0 → (Input.is_consumed x.1 ≡ true) × (States.consumed_tx_order x.1.state ≡ order)
  nullify_found order n r (some tx) committed =
      ordered_lem order (committed_by tx tx.status r) (committed_by_lem tx r (committed tx refl))
  nullify_found order n r none committed =
      ordered_lem order (Input.consumed_externally n.nullifier n.block_num r)
        (consumed_externally-is_consumed n.nullifier n.block_num r)

  nullify_input_lem :
      (order : Option ℕ) (n : NullifierUpdate P) (txs : List (TransactionRecord P))
      (r : InputNoteRecord P)
      → AllCommitted txs
      → IsOk (nullify_input order n txs r).0
      → (Input.is_consumed (nullify_input order n txs r).1 ≡ true)
        × (States.consumed_tx_order (nullify_input order n txs r).1.state ≡ order)
  unfolding nullify_input
  nullify_input_lem order n txs r h =
      nullify_found order n r (find_consumer r txs) (λ tx. find_consumer_committed r txs tx h)

  on_input_note_lem :
      (i : P.NoteId) (method : Method P (InputNoteRecord P)) (t : NoteUpdateTracker P)
      (u : InputNoteUpdate P)
      → get (by_note_id P) i t.input_notes ≡ some u
      → ((on_input_note i method t).0 ≡ some (method u.note).0)
        × (get (by_note_id P) i (on_input_note i method t).1.input_notes
            ≡ some (record { note = (method u.note).1; update_type = touched u.update_type }))
  unfolding on_input_note
  on_input_note_lem i method t u e =
      rw (on_input_note, e)
        (
          refl,
          get-insert_self (by_note_id P) i
              (record { note = (method u.note).1; update_type = touched u.update_type })
              t.input_notes,
        )

  -- The output part leaves the input notes alone.
  then_output-tracker :
      {A : Type 0} (a : A) (x : Option (Result (ClientError P) Bool) × NoteUpdateTracker P)
      → (then_output a x).1 ≡ x.1
  unfolding then_output
  then_output-tracker a (none, t) = refl
  then_output-tracker a (some (ok _), t) = refl
  then_output-tracker a (some (err _), t) = refl

  nullified_output-input_notes :
      (i : Option P.NoteId) (n : NullifierUpdate P) (t : NoteUpdateTracker P)
      → (nullified_output i n t).1.input_notes ≡ t.input_notes
  unfolding nullified_output on_output_note
  nullified_output-input_notes none n t = refl
  nullified_output-input_notes (some i) n t =
      elim (Option-cases (get (by_note_id P) i t.output_notes)) [
        | inl e ↦ rw (on_output_note, e) refl
        | inr (u, e) ↦ rw (on_output_note, e) refl
      ]

  -- If both parts succeed, so did the input part, and its input notes stay.
  then_input_lem :
      {A : Type 0}
      (next : Bool → NoteUpdateTracker P → Result (ClientError P) A × NoteUpdateTracker P)
      (result : Result (ClientError P) Bool) (t : NoteUpdateTracker P)
      → ((b : Bool) (t' : NoteUpdateTracker P) → (next b t').1.input_notes ≡ t'.input_notes)
      → IsOk (then_input next (some result, t)).0
      → IsOk result × ((then_input next (some result, t)).1.input_notes ≡ t.input_notes)
  unfolding then_input
  then_input_lem next (ok b) t keeps h = (tt, keeps true t)
  then_input_lem next (err e) t keeps h = elim h [ ]

  then_input_at :
      {A : Type 0}
      (next : Bool → NoteUpdateTracker P → Result (ClientError P) A × NoteUpdateTracker P)
      (result : Result (ClientError P) Bool)
      (x : Option (Result (ClientError P) Bool) × NoteUpdateTracker P)
      → x.0 ≡ some result
      → ((b : Bool) (t' : NoteUpdateTracker P) → (next b t').1.input_notes ≡ t'.input_notes)
      → IsOk (then_input next x).0
      → IsOk result × ((then_input next x).1.input_notes ≡ x.1.input_notes)
  then_input_at next result (o, t) e keeps =
      subst
        (λ o'.
          IsOk (then_input next (o', t)).0
          → IsOk result × ((then_input next (o', t)).1.input_notes ≡ t.input_notes))
        (sym e) (then_input_lem next result t keeps)

  -- The output part, as a step after the input part.
  outputs :
      NullifierUpdate P
      → Bool
      → NoteUpdateTracker P
      → Result (ClientError P) (Unit {0}) × NoteUpdateTracker P
  unfolding then_output nullified_output
  outputs n b t' =
      then_output tt
        (nullified_output (get (by_nullifier P) n.nullifier t'.output_notes_by_nullifier) n t')

  output_part :
      (n : NullifierUpdate P) (b : Bool) (t' : NoteUpdateTracker P)
      → (outputs n b t').1.input_notes ≡ t'.input_notes
  unfolding outputs
  output_part n b t' =
      let i = get (by_nullifier P) n.nullifier t'.output_notes_by_nullifier in
      ap (λ t. t.input_notes) (then_output-tracker tt (nullified_output i n t'))
      ∙ nullified_output-input_notes i n t'

  apply_nullifiers_found :
      (i : P.NoteId) (n : NullifierUpdate P) (txs : List (TransactionRecord P))
      (t : NoteUpdateTracker P)
      → get (by_nullifier P) n.nullifier t.input_notes_by_nullifier ≡ some i
      → apply_nullifiers_state_transitions n txs t
        ≡ then_input (outputs n) (
            on_input_note i
              (nullify_input (get (by_nullifier P) n.nullifier t.nullifier_order) n txs)
              t)
  unfolding apply_nullifiers_state_transitions nullified_input outputs
  apply_nullifiers_found i n txs t e = rw (apply_nullifiers_state_transitions, e) refl

  -- In a tracker whose indices agree with its notes, when the nullifier of a tracked input note is
  -- applied with success and with transactions that are all committed, the note is consumed
  -- afterwards, is among those to be stored, and has the nullifier's position in the order of
  -- consumers, if it has one.
  pub apply_nullifiers-is_consumed :
      (n : NullifierUpdate P) (txs : List (TransactionRecord P)) (t : NoteUpdateTracker P)
      (u : InputNoteUpdate P)
      → IsIndexed t
      → AllCommitted txs
      → get (by_note_id P) (Input.id u.note) t.input_notes ≡ some u
      → Input.nullifier u.note ≡ n.nullifier
      → (apply_nullifiers_state_transitions n txs t).0 ≡ ok tt
      → (u' : InputNoteUpdate P) × (get
            (by_note_id P)
            (Input.id u.note)
            (apply_nullifiers_state_transitions n txs t).1.input_notes
          ≡ some u')
        × (Input.is_consumed u'.note ≡ true)
        × (States.consumed_tx_order u'.note.state
            ≡ get (by_nullifier P) n.nullifier t.nullifier_order)
        × (is_updated u'.update_type ≡ true)
  apply_nullifiers-is_consumed n txs t u inv committed tracked own success =
      let i = Input.id u.note in
      let order = get (by_nullifier P) n.nullifier t.nullifier_order in
      let method : Method P (InputNoteRecord P) = nullify_input order n txs in
      let pointed =
        subst (λ w. get (by_nullifier P) w t.input_notes_by_nullifier ≡ some i) own
          (inv.input_found i u tracked) in
      let e = apply_nullifiers_found i n txs t pointed in
      let (result, entry) = on_input_note_lem i method t u tracked in
      let (fine, same) =
        then_input_at (outputs n) (method u.note).0 (on_input_note i method t) result
          (output_part n) (subst (λ r. IsOk r.0) e (subst IsOk (sym success) tt)) in
      let (consumed, position) = nullify_input_lem order n txs u.note committed fine in
      (
        record { note = (method u.note).1; update_type = touched u.update_type },
        ap (λ r. get (by_note_id P) i r.1.input_notes) e ∙ ap (get (by_note_id P) i) same ∙ entry,
        consumed,
        position,
        touched_updated u.update_type,
      )
