-- ===== src/Sync/Errors.antt =====
-- The errors of the loops of a synchronisation (crates/rust-client/src/sync/state_sync.rs).
pub mod Apply
use miden_client.Base.{
  ℕ, zero, suc, ◌+◌, ◌-◌, ◌^◌, ◌≤◌, ◌<◌, String, ◌≡◌, refl, sym, ap, ◌∙◌, ◌≢◌, ◌↔◌, ◌⊎◌, inl, inr,
  ite, Bool, true, false, not, ◌&&◌, ◌||◌, Option, none, some, List, [], ◌∷◌, ◌++◌, map,
  append_assoc, arith, ℕ_discrete, ltb, leb, ◌==◌, if◌then◌else◌, Result, ok, err, Bool-cases,
  Option-cases, lt→ltb, length, List-cases,
}
use mathlib.Core.Path.{subst}
use miden_client.Tracker.Notes.{unspent_nullifiers}
use miden_client.Protocol.{Protocol}
use miden_client.BTreeMap.{BTreeMap}
use miden_client.InputNote.Record.{InputNoteRecord}
use miden_client.Tracker.Types.{CommittedNote, NullifierUpdate, NoteUpdateTracker, ClientError}
use miden_client.Tracker.Transitions.{
  apply_new_public_note, apply_committed_note_state_transitions, apply_nullifiers_state_transitions,
}
use miden_client.Transaction.Updates.{committed_transactions, apply_input_note_nullified}
use miden_client.Transaction.Updates.Complete.{apply_input_note_nullified_lem}
use miden_client.Sync.Headers.{HeaderApi}
use miden_client.Sync.Api.{
  SyncApi, SyncError, tracker_error, failed, out_of_fuel, NoteUpdateAction, commit, insert, discard,
  and_then, try_ok, map_err,
}
use miden_client.Sync.Updates.{StateSyncUpdate}
use miden_client.Sync.Notes.{
  take_action, public_note_of, receive_notes, with_transactions, nullify, nullify_all, up_to,
  prefixes, nullifiers_state_sync,
}

module _ {P : Protocol} {H : HeaderApi P} (A : SyncApi P H) where
  -- Not the end of fuel
  abbrev pub NoFuel : {X : Type 0} → Result (SyncError A) X → Type 0
  NoFuel (ok _) = Unit
  NoFuel (err e) = e ≢ out_of_fuel

  pub and_then-NoFuel :
      {X Y S : Type 0} (x : Result (SyncError A) X × S) (f : X → S → Result (SyncError A) Y × S)
      → NoFuel x.0
      → ((a : X) (s : S) → NoFuel (f a s).0)
      → NoFuel (and_then x f).0
  and_then-NoFuel (ok a, s) f h h' = h' a s
  and_then-NoFuel (err e, s) f h h' = h

  pub try_ok-NoFuel :
      {X Y : Type 0} (x : Result (SyncError A) X) (f : X → Result (SyncError A) Y)
      → NoFuel x
      → ((a : X) → NoFuel (f a))
      → NoFuel (try_ok x f)
  try_ok-NoFuel (ok a) f h h' = h' a
  try_ok-NoFuel (err e) f h h' = h

  pub failed-NoFuel : {X : Type 0} (r : Result A.Failure X) → NoFuel (map_err failed r)
  failed-NoFuel (ok _) = tt
  failed-NoFuel (err _) = λ e. cc

  tracker_error-NoFuel :
      {X : Type 0} (r : Result (ClientError P) X) → NoFuel (map_err tracker_error r)
  tracker_error-NoFuel (ok _) = tt
  tracker_error-NoFuel (err _) = λ e. cc

  take_action-NoFuel :
      (action : NoteUpdateAction P) (found : Bool) (header : P.BlockHeader)
      (t : NoteUpdateTracker P)
      → NoFuel (take_action A action found header t).0
  take_action-NoFuel (commit c) found header t =
      let x = apply_committed_note_state_transitions c header t in
      and_then-NoFuel (map_err tracker_error x.0, x.1) (λ relevant t'. (ok (found || relevant), t'))
        (tracker_error-NoFuel x.0) (λ _ _. tt)
  take_action-NoFuel (insert note) found header t =
      let x = apply_new_public_note note header t in
      and_then-NoFuel (map_err tracker_error x.0, x.1) (λ _ t'. (ok true, t'))
        (tracker_error-NoFuel x.0) (λ _ _. tt)
  take_action-NoFuel discard found header t = tt

  pub receive_notes-NoFuel :
      (notes : BTreeMap P.NoteId (CommittedNote P)) (found : Bool) (header : P.BlockHeader)
      (public_notes : BTreeMap P.NoteId (InputNoteRecord P)) (t : NoteUpdateTracker P)
      → NoFuel (receive_notes A notes found header public_notes t).0
  unfolding receive_notes
  receive_notes-NoFuel [] found header public_notes t = tt
  receive_notes-NoFuel ((_, c) ∷ notes) found header public_notes t =
      let answer = A.on_note_received c (public_note_of A c public_notes) in
      and_then-NoFuel (map_err failed answer, t)
        (λ action t'.
          and_then (take_action A action found header t')
            (λ found' t''. receive_notes A notes found' header public_notes t''))
        (failed-NoFuel answer)
        (λ action t'.
          and_then-NoFuel (take_action A action found header t')
            (λ found' t''. receive_notes A notes found' header public_notes t'')
            (take_action-NoFuel action found header t')
            (λ found' t''. receive_notes-NoFuel notes found' header public_notes t''))

  nullified-NoFuel :
      (n : P.Nullifier) (s : StateSyncUpdate A)
      → NoFuel (with_transactions A (apply_input_note_nullified n s.transaction_updates) s).0
  nullified-NoFuel n s =
      let (t, e, _) = apply_input_note_nullified_lem n s.transaction_updates in
      subst (λ o. NoFuel (with_transactions A o s).0) (sym e) tt

  nullify-NoFuel : (u : NullifierUpdate P) (s : StateSyncUpdate A) → NoFuel (nullify A u s).0
  unfolding nullify
  nullify-NoFuel u s =
      let x =
        apply_nullifiers_state_transitions u (committed_transactions s.transaction_updates)
          s.note_updates in
      and_then-NoFuel (map_err tracker_error x.0, record s { note_updates = x.1 })
        (λ _ s'.
          with_transactions A (apply_input_note_nullified u.nullifier s'.transaction_updates) s')
        (tracker_error-NoFuel x.0) (λ _ s'. nullified-NoFuel u.nullifier s')

  nullify_all-NoFuel :
      (us : List (NullifierUpdate P)) (s : StateSyncUpdate A) → NoFuel (nullify_all A us s).0
  unfolding nullify_all
  nullify_all-NoFuel [] s = tt
  nullify_all-NoFuel (u ∷ us) s =
      and_then-NoFuel (nullify A u s) (λ _ s'. nullify_all A us s') (nullify-NoFuel u s)
        (λ _ s'. nullify_all-NoFuel us s')

  pub nullifiers_state_sync-NoFuel :
      (block_num : ℕ) (s : StateSyncUpdate A) → NoFuel (nullifiers_state_sync A block_num s).0
  unfolding nullifiers_state_sync
  nullifiers_state_sync-NoFuel block_num s =
      let answer =
        A.sync_nullifiers (prefixes A (unspent_nullifiers s.note_updates)) block_num
          (some s.block_num) in
      and_then-NoFuel (map_err failed answer, s)
        (λ ns s'. nullify_all A (up_to A s.block_num ns) s') (failed-NoFuel answer)
        (λ ns s'. nullify_all-NoFuel (up_to A s.block_num ns) s')
