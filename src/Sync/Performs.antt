-- ===== src/Sync/Performs.antt =====
-- The steps of a synchronisation do what the reports say
-- (crates/rust-client/src/sync/state_sync.rs).
pub mod Applied
use miden_client.Base.{
  ℕ, ◌≡◌, refl, sym, ap, ◌∙◌, inl, inr, Bool, true, false, ◌||◌, Option, none, some, List, [], ◌∷◌,
  ◌++◌, map, leb, if◌then◌else◌, Result, ok, err, Bool-cases,
}
use miden_client.Protocol.{Protocol}
use miden_client.BTreeMap.{BTreeMap}
use miden_client.InputNote.Record.{InputNoteRecord}
use miden_client.Tracker.Types.{CommittedNote, NullifierUpdate, NoteUpdateTracker}
use miden_client.Tracker.Notes.{unspent_nullifiers}
use miden_client.Tracker.Transitions.{
  apply_new_public_note, apply_committed_note_state_transitions, apply_nullifiers_state_transitions,
}
use miden_client.Transaction.Updates.{
  TransactionUpdateTracker, committed_transactions, apply_input_note_nullified,
}
use miden_client.Sync.Headers.{HeaderApi}
use miden_client.Sync.Api.{
  SyncApi, tracker_error, failed, NoteUpdateAction, commit, insert, discard, and_then, map_err,
  StateSyncOptions,
}
use miden_client.Sync.Updates.{StateSyncUpdate}
use miden_client.Sync.Notes.{
  take_action, public_note_of, receive_notes, with_transactions, nullify, nullify_all, up_to,
  prefixes, nullifiers_state_sync,
}
use miden_client.Sync.Spec.{
  Report, nullifier_of, note_in, Trackers, trackers, Acts, Effect, After, After-append,
  note_reports, nullifier_reports,
}

-- What holds of the value and the state that a step leaves if it succeeds.
abbrev pub Post : {E X S : Type 0} → Result E X × S → (X → S → Type 0) → Type 0
Post {E} {X} x Q = (a : X) → x.0 ≡ ok a → Q a x.1

pub and_then-Post :
    {E X Y S : Type 0} (Q : X → S → Type 0) (R : Y → S → Type 0) (x : Result E X × S)
    (f : X → S → Result E Y × S)
    → Post x Q
    → ((a : X) (s : S) → Q a s → Post (f a s) R)
    → Post (and_then x f) R
and_then-Post Q R (ok a, s) f q k = k a s (q a refl)
and_then-Post Q R (err e, s) f q k = λ b h. absurd (cc)

pub map_err-ok :
    {E E' X : Type 0} (f : E → E') (r : Result E X) (a : X) → map_err f r ≡ ok a → r ≡ ok a
map_err-ok f (ok x) a h = cc
map_err-ok f (err e) a h = absurd (cc)

-- A pair whose result succeeds
whole :
    {E E' X S : Type 0} (f : E → E') (p : Result E X × S) (a : X)
    → map_err f p.0 ≡ ok a
    → p ≡ (ok a, p.1)
whole f (r, s) a h = ap (λ r'. (r', s)) (map_err-ok f r a h)

module _ {P : Protocol} {H : HeaderApi P} (A : SyncApi P H) where
  take_action-Post :
      (action : NoteUpdateAction P) (found : Bool) (header : P.BlockHeader)
      (t : NoteUpdateTracker P)
      → Post (take_action A action found header t) (λ _ t'. Acts A action header t t')
  take_action-Post (commit c) found header t =
      let x = apply_committed_note_state_transitions c header t in
      and_then-Post (λ b t'. x ≡ (ok b, t')) (λ _ t'. Acts A (commit c) header t t')
        (map_err tracker_error x.0, x.1) (λ relevant t''. (ok (found || relevant), t''))
        (whole tracker_error x) (λ b t' q _ _. (b, q))
  take_action-Post (insert note) found header t =
      let x = apply_new_public_note note header t in
      and_then-Post (λ _ t'. x ≡ (ok tt, t')) (λ _ t'. Acts A (insert note) header t t')
        (map_err tracker_error x.0, x.1) (λ _ t''. (ok true, t'')) (whole tracker_error x)
        (λ _ t' q _ _. q)
  take_action-Post discard found header t = λ _ _. refl

  module _ (options : StateSyncOptions) where
    pub receive_notes-Post :
        (notes : BTreeMap P.NoteId (CommittedNote P)) (found : Bool) (header : P.BlockHeader)
        (public_notes : BTreeMap P.NoteId (InputNoteRecord P)) (t : NoteUpdateTracker P)
        (x : TransactionUpdateTracker P)
        → Post
            (receive_notes A notes found header public_notes t)
            (λ _ t'. After A options (note_reports A notes header public_notes) (t, x) (t', x))
    unfolding receive_notes
    receive_notes-Post [] found header public_notes t x = λ _ _. refl
    receive_notes-Post ((i, c) ∷ notes) found header public_notes t x =
        on_received (λ found' t'. receive_notes-Post notes found' header public_notes t' x)
          (A.on_note_received c (public_note_of A c public_notes)) refl
      where
        on_received :
            ((found' : Bool) (t' : NoteUpdateTracker P)
              → Post (receive_notes A notes found' header public_notes t') (λ _ t''.
                After A options (note_reports A notes header public_notes) (t', x) (t'', x)))
            → (r : Result A.Failure (NoteUpdateAction P))
            → A.on_note_received c (public_note_of A c public_notes) ≡ r
            → Post
                (and_then
                  (map_err failed r, t)
                  (λ action t'.
                    and_then
                      (take_action A action found header t')
                      (λ found' t''. receive_notes A notes found' header public_notes t'')))
                (λ _ t'.
                  After A options
                    (note_reports A ((i, c) ∷ notes) header public_notes)
                    (t, x)
                    (t', x))
        on_received rest (ok action) e =
            and_then-Post (λ _ t'. Acts A action header t t')
              (λ _ t'.
                After A options (note_reports A ((i, c) ∷ notes) header public_notes) (t, x)
                  (t', x))
              (take_action A action found header t)
              (λ found' t''. receive_notes A notes found' header public_notes t'')
              (take_action-Post action found header t)
              (λ found' t'' q b h. ((t'', x), ((action, e, q), refl), rest found' t'' b h))
        on_received rest (err _) e = λ b h. absurd (cc)

    -- An update that has gone through reports, in the same synchronisation
    abbrev pub Moves : List (Report P) → StateSyncUpdate A → StateSyncUpdate A → Type 0
    Moves rs u u' = After A options rs (trackers A u) (trackers A u') × (u'.block_num ≡ u.block_num)

    pub Moves-append :
        (rs rs' : List (Report P)) (u m u' : StateSyncUpdate A)
        → Moves rs u m
        → Moves rs' m u'
        → Moves (rs ++ rs') u u'
    Moves-append rs rs' u m u' (h, e) (h', e') =
        (After-append A options rs rs' (trackers A u) (trackers A m) (trackers A u') h h', e' ∙ e)

    with_transactions-Post :
        (n : NullifierUpdate P) (u s : StateSyncUpdate A)
        (txs : Option (TransactionUpdateTracker P))
        → apply_nullifiers_state_transitions n
            (committed_transactions u.transaction_updates)
            u.note_updates
          ≡ (ok tt, s.note_updates)
        → apply_input_note_nullified n.nullifier u.transaction_updates ≡ txs
        → s.block_num ≡ u.block_num
        → Post (with_transactions A txs s) (λ _ u'. Moves (nullifier_of n ∷ []) u u')
    with_transactions-Post n u s none e e' b = λ _ h. absurd (cc)
    with_transactions-Post n u s (some txs) e e' b =
        λ _ _. (((s.note_updates, txs), (e, e'), refl), b)

    nullify-Post :
        (n : NullifierUpdate P) (u : StateSyncUpdate A)
        → Post (nullify A n u) (λ _ u'. Moves (nullifier_of n ∷ []) u u')
    unfolding nullify
    nullify-Post n u =
        let x =
          apply_nullifiers_state_transitions n (committed_transactions u.transaction_updates)
            u.note_updates in
        on_result x.0 x.1 refl
      where
        on_result :
            (r : _) (t : NoteUpdateTracker P)
            → apply_nullifiers_state_transitions n
                (committed_transactions u.transaction_updates)
                u.note_updates
              ≡ (r, t)
            → Post
                (and_then
                  (map_err tracker_error r, record u { note_updates = t })
                  (λ _ s'.
                    with_transactions A
                      (apply_input_note_nullified n.nullifier s'.transaction_updates)
                      s'))
                (λ _ u'. Moves (nullifier_of n ∷ []) u u')
        on_result (ok _) t e =
            with_transactions-Post n u (record u { note_updates = t })
              (apply_input_note_nullified n.nullifier u.transaction_updates) e refl refl
        on_result (err _) t e = λ b h. absurd (cc)

    nullify_all-Post :
        (block_num : ℕ) (ns : List (NullifierUpdate P)) (u : StateSyncUpdate A)
        → Post
            (nullify_all A (up_to A block_num ns) u)
            (λ _ u'. Moves (nullifier_reports block_num ns) u u')
    unfolding nullify_all
    nullify_all-Post block_num [] u = λ _ _. (refl, refl)
    nullify_all-Post block_num (n ∷ ns) u = elim (Bool-cases (leb n.block_num block_num)) [
      | inl within ↦ rw within (
          and_then-Post (λ _ u'. Moves (nullifier_of n ∷ []) u u')
            (λ _ u'. Moves (nullifier_of n ∷ nullifier_reports block_num ns) u u') (nullify A n u)
            (λ _ s'. nullify_all A (up_to A block_num ns) s') (nullify-Post n u)
            (λ _ s q b h.
              Moves-append (nullifier_of n ∷ []) (nullifier_reports block_num ns) u s
                (nullify_all A (up_to A block_num ns) s).1 q (nullify_all-Post block_num ns s b h)))
      | inr later ↦ rw later (nullify_all-Post block_num ns u)
    ]

    -- What the node is asked for, and what its answer does.
    abbrev pub Nullified : ℕ → StateSyncUpdate A → StateSyncUpdate A → Type 0
    Nullified block_num u u' =
        (ns : List (NullifierUpdate P)) × (A.sync_nullifiers
            (map A.nullifier_prefix (unspent_nullifiers u.note_updates)) block_num
            (some u.block_num)
          ≡ ok ns)
        × Moves (nullifier_reports u.block_num ns) u u'

    prefixes-map : (ns : List P.Nullifier) → prefixes A ns ≡ map A.nullifier_prefix ns
    prefixes-map [] = refl
    prefixes-map (n ∷ ns) = ap (λ l. A.nullifier_prefix n ∷ l) (prefixes-map ns)

    pub nullifiers_state_sync-Post :
        (block_num : ℕ) (u : StateSyncUpdate A)
        → Post (nullifiers_state_sync A block_num u) (λ _ u'. Nullified block_num u u')
    unfolding nullifiers_state_sync
    nullifiers_state_sync-Post block_num u =
        on_answer
          (A.sync_nullifiers (prefixes A (unspent_nullifiers u.note_updates)) block_num
            (some u.block_num))
          refl
      where
        on_answer :
            (r : Result A.Failure (List (NullifierUpdate P)))
            → A.sync_nullifiers
                (prefixes A (unspent_nullifiers u.note_updates))
                block_num
                (some u.block_num)
              ≡ r
            → Post
                (and_then
                  (map_err failed r, u)
                  (λ ns s'. nullify_all A (up_to A u.block_num ns) s'))
                (λ _ u'. Nullified block_num u u')
        on_answer (ok ns) e = λ b h. (
          ns,
          ap (λ tags. A.sync_nullifiers tags block_num (some u.block_num))
                (sym (prefixes-map (unspent_nullifiers u.note_updates)))
              ∙ e,
          nullify_all-Post u.block_num ns u b h,
        )
        on_answer (err _) e = λ b h. absurd (cc)
