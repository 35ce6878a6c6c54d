-- ===== src/Sync/Notes.antt =====
-- The notes and the transactions of a synchronisation
-- (crates/rust-client/src/sync/state_sync.rs).
use miden_client.Base.{
  ℕ, Bool, true, false, ◌||◌, Option, none, some, List, [], ◌∷◌, leb, if◌then◌else◌, Result, ok,
  err,
}
use miden_client.Protocol.{Protocol}
use miden_client.BTreeMap.{BTreeMap, get}
use miden_client.InputNote.Record.{InputNoteRecord}
use miden_client.Tracker.Types.{CommittedNote, NullifierUpdate, NoteUpdateTracker, by_note_id}
use miden_client.Tracker.Notes.{unspent_nullifiers}
use miden_client.Tracker.Transitions.{
  apply_new_public_note, apply_committed_note_state_transitions, apply_nullifiers_state_transitions,
}
use miden_client.Transaction.Updates.{
  TransactionUpdateTracker, TransactionInclusion, committed_transactions,
  apply_transaction_inclusion, apply_input_note_nullified, apply_sync_height_update,
}
use miden_client.Sync.Headers.{HeaderApi}
use miden_client.Sync.Api.{
  SyncApi, SyncError, tracker_error, failed, out_of_fuel, NoteUpdateAction, commit, insert, discard,
  and_then, map_err, note_type, StateSyncOptions,
}
use miden_client.Sync.Updates.{StateSyncUpdate}

module _ {P : Protocol} {H : HeaderApi P} (A : SyncApi P H) where
  -- The `match` on the action; the flag says whether a relevant note is found.
  abbrev pub take_action :
      NoteUpdateAction P
      → Bool
      → P.BlockHeader
      → NoteUpdateTracker P
      → Result (SyncError A) Bool × NoteUpdateTracker P
  take_action (commit c) found header t =
      let (r, t') = apply_committed_note_state_transitions c header t in
      and_then (map_err tracker_error r, t') (λ relevant t''. (ok (found || relevant), t''))
  take_action (insert note) found header t =
      let (r, t') = apply_new_public_note note header t in
      and_then (map_err tracker_error r, t') (λ _ t''. (ok true, t''))
  take_action discard found header t = (ok found, t)

  abbrev pub public_note_of :
      CommittedNote P → BTreeMap P.NoteId (InputNoteRecord P) → Option (InputNoteRecord P)
  public_note_of c public_notes =
      if A.is_private_note (note_type A c) then none else get (by_note_id P) c.note_id public_notes

  -- The `for` loop of `note_state_sync`
  unfoldable pub receive_notes :
      BTreeMap P.NoteId (CommittedNote P)
      → Bool
      → P.BlockHeader
      → BTreeMap P.NoteId (InputNoteRecord P)
      → NoteUpdateTracker P
      → Result (SyncError A) Bool × NoteUpdateTracker P
  receive_notes [] found header public_notes t = (ok found, t)
  receive_notes ((_, c) ∷ notes) found header public_notes t =
      and_then (map_err failed (A.on_note_received c (public_note_of c public_notes)), t)
        (λ action t'.
          and_then (take_action action found header t')
            (λ found' t''. receive_notes notes found' header public_notes t''))

  unfoldable pub note_state_sync :
      BTreeMap P.NoteId (CommittedNote P)
      → P.BlockHeader
      → BTreeMap P.NoteId (InputNoteRecord P)
      → NoteUpdateTracker P
      → Result (SyncError A) Bool × NoteUpdateTracker P
  note_state_sync note_inclusions block_header public_notes t =
      receive_notes note_inclusions false block_header public_notes t

  abbrev pub prefixes : List P.Nullifier → List ℕ
  prefixes [] = []
  prefixes (n ∷ ns) = A.nullifier_prefix n ∷ prefixes ns

  -- `retain`
  abbrev pub up_to : ℕ → List (NullifierUpdate P) → List (NullifierUpdate P)
  up_to block_num [] = []
  up_to block_num (u ∷ us) =
      let rest = up_to block_num us in if leb u.block_num block_num then u ∷ rest else rest

  -- `out_of_fuel` stands for the fuel of the tracker.
  abbrev pub with_transactions :
      Option (TransactionUpdateTracker P)
      → StateSyncUpdate A
      → Result (SyncError A) (Unit {0}) × StateSyncUpdate A
  with_transactions none s = (err out_of_fuel, s)
  with_transactions (some txs) s = (ok tt, record s { transaction_updates = txs })

  -- One round of the `for` loop of `nullifiers_state_sync`
  unfoldable pub nullify :
      NullifierUpdate P → StateSyncUpdate A → Result (SyncError A) (Unit {0}) × StateSyncUpdate A
  nullify u s =
      let (r, notes) =
        apply_nullifiers_state_transitions u (committed_transactions s.transaction_updates)
          s.note_updates in
      and_then (map_err tracker_error r, record s { note_updates = notes })
        (λ _ s'.
          with_transactions (apply_input_note_nullified u.nullifier s'.transaction_updates) s')

  unfoldable pub nullify_all :
      List (NullifierUpdate P)
      → StateSyncUpdate A
      → Result (SyncError A) (Unit {0}) × StateSyncUpdate A
  nullify_all [] s = (ok tt, s)
  nullify_all (u ∷ us) s = and_then (nullify u s) (λ _ s'. nullify_all us s')

  unfoldable pub nullifiers_state_sync :
      ℕ → StateSyncUpdate A → Result (SyncError A) (Unit {0}) × StateSyncUpdate A
  nullifiers_state_sync current_block_num s =
      let nullifiers_tags = prefixes (unspent_nullifiers s.note_updates) in
      and_then
        (map_err failed (A.sync_nullifiers nullifiers_tags current_block_num (some s.block_num)), s)
        (λ new_nullifiers s'. nullify_all (up_to s.block_num new_nullifiers) s')

  -- The `for` loop of `transaction_state_sync`
  abbrev pub include_all :
      List (TransactionInclusion P) → ℕ → TransactionUpdateTracker P → TransactionUpdateTracker P
  include_all [] timestamp t = t
  include_all (inc ∷ incs) timestamp t =
      include_all incs timestamp (apply_transaction_inclusion inc timestamp t)

  -- `none` stands for the fuel of the tracker.
  unfoldable pub transaction_state_sync :
      StateSyncOptions
      → P.BlockHeader
      → List (TransactionInclusion P)
      → TransactionUpdateTracker P
      → Option (TransactionUpdateTracker P)
  transaction_state_sync options new_block_header transaction_inclusions t =
      apply_sync_height_update (A.header_block_num new_block_header) options.tx_discard_delta
        (include_all transaction_inclusions (A.timestamp new_block_header) t)
