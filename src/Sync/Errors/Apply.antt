-- ===== src/Sync/Errors/Apply.antt =====
-- The errors while a synchronisation applies what it fetched (crates/rust-client/src/sync/state_sync.rs).
use miden_client.Base.{
  sym, inl, inr, Bool, true, false, Option, none, some, List, [], ◌∷◌, if◌then◌else◌, Result, ok,
  Bool-cases,
}
use mathlib.Core.Path.{subst}
use miden_client.Protocol.{Protocol}
use miden_client.BTreeMap.{BTreeMap}
use miden_client.InputNote.Record.{InputNoteRecord}
use miden_client.Tracker.Types.{NoteUpdateTracker}
use miden_client.Tracker.Order.{extend_nullifiers}
use miden_client.Transaction.Updates.Height.{apply_sync_height_update_lem}
use miden_client.Sync.Headers.{HeaderApi}
use miden_client.Sync.Api.{
  SyncApi, SyncError, failed, and_then, map_err, NoteSyncBlock, StateSyncOptions,
}
use miden_client.Sync.Notes.{note_state_sync, include_all, transaction_state_sync}
use miden_client.Sync.Fetch.{RawStateSyncData}
use miden_client.Sync.Apply.{
  SyncState, store_tracked, store_tip, track_block, apply_blocks, with_order, with_inclusions,
  advance_mmr, apply_sync_result,
}
use miden_client.Sync.Errors.{NoFuel, and_then-NoFuel, failed-NoFuel, receive_notes-NoFuel}

module _ {P : Protocol} {H : HeaderApi P} (A : SyncApi P H) where
  track_block-NoFuel :
      (b : NoteSyncBlock P A.MerklePath) (s : SyncState A) → NoFuel A (track_block A b s).0
  unfolding track_block
  track_block-NoFuel b (u, mmr) =
      elim (Bool-cases (A.is_tracked mmr (A.header_block_num b.block_header))) [
        | inl tracked ↦ rw tracked tt
        | inr new ↦
            let x =
              A.track_leaf (A.header_block_num b.block_header) (A.header_commitment b.block_header)
                b.mmr_path mmr in
            rw new (
              and_then-NoFuel A (map_err failed x.0, (u, x.1))
                (λ _ s. (ok tt, store_tracked A b mmr s)) (failed-NoFuel A x.0) (λ _ _. tt))
      ]

  apply_blocks-NoFuel :
      (blocks : List (NoteSyncBlock P A.MerklePath))
      (public_notes : BTreeMap P.NoteId (InputNoteRecord P)) (s : SyncState A)
      → NoFuel A (apply_blocks A blocks public_notes s).0
  unfolding apply_blocks note_state_sync
  apply_blocks-NoFuel [] public_notes s = tt
  apply_blocks-NoFuel (b ∷ blocks) public_notes (u, mmr) =
      let x = note_state_sync A b.notes b.block_header public_notes u.note_updates in
      and_then-NoFuel A (x.0, (record u { note_updates = x.1 }, mmr))
        (λ found s.
          and_then (if found then track_block A b s else (ok tt, s))
            (λ _ s'. apply_blocks A blocks public_notes s'))
        (receive_notes-NoFuel A b.notes false b.block_header public_notes u.note_updates)
        (λ found s.
          and_then-NoFuel A (if found then track_block A b s else (ok tt, s))
            (λ _ s'. apply_blocks A blocks public_notes s') (relevant b found s)
            (λ _ s'. apply_blocks-NoFuel blocks public_notes s'))
    where
      relevant :
          (b : NoteSyncBlock P A.MerklePath) (found : Bool) (s : SyncState A)
          → NoFuel A
              (if◌then◌else◌ {A = Result (SyncError A) (Unit {0}) × SyncState A} found
                (track_block A b s)
                (ok tt, s)).0
      relevant b true s = track_block-NoFuel b s
      relevant b false s = tt

  with_order-NoFuel :
      (notes : Option (NoteUpdateTracker P)) (s : SyncState A) → NoFuel A (with_order A notes s).0
  with_order-NoFuel none s = λ e. cc
  with_order-NoFuel (some _) s = tt

  included-NoFuel :
      (options : StateSyncOptions) (d : RawStateSyncData A) (s : SyncState A)
      → NoFuel A
          (with_inclusions A
            (transaction_state_sync A options d.chain_tip_header d.transactions
              s.0.transaction_updates)
            s).0
  unfolding transaction_state_sync
  included-NoFuel options d s =
      let (t, e, _) =
        apply_sync_height_update_lem (A.header_block_num d.chain_tip_header)
          options.tx_discard_delta
          (include_all A d.transactions (A.timestamp d.chain_tip_header) s.0.transaction_updates) in
      subst (λ o. NoFuel A (with_inclusions A o s).0) (sym e) tt

  advance_mmr-NoFuel : (d : RawStateSyncData A) (s : SyncState A) → NoFuel A (advance_mmr A d s).0
  advance_mmr-NoFuel d (u, mmr) =
      let x = A.apply_delta d.mmr_delta mmr in
      and_then-NoFuel A (map_err failed x.0, (u, x.1))
        (λ nodes s. (ok tt, store_tip A d.chain_tip_header nodes s)) (failed-NoFuel A x.0)
        (λ _ _. tt)

  pub apply_sync_result-NoFuel :
      (options : StateSyncOptions) (d : RawStateSyncData A)
      (public_notes : BTreeMap P.NoteId (InputNoteRecord P)) (s : SyncState A)
      → NoFuel A (apply_sync_result A options d public_notes s).0
  unfolding apply_sync_result
  apply_sync_result-NoFuel options d public_notes s =
      let last = λ (s' : SyncState A).
        with_inclusions A
          (transaction_state_sync A options d.chain_tip_header d.transactions
            s'.0.transaction_updates)
          s' in
      let later = λ (s' : SyncState A).
        and_then (with_order A (extend_nullifiers d.nullifiers s'.0.note_updates) s')
          (λ _ s''. last s'') in
      and_then-NoFuel A (advance_mmr A d s)
        (λ _ s'. and_then (apply_blocks A d.note_blocks public_notes s') (λ _ s''. later s''))
        (advance_mmr-NoFuel d s)
        (λ _ s'.
          and_then-NoFuel A (apply_blocks A d.note_blocks public_notes s') (λ _ s''. later s'')
            (apply_blocks-NoFuel d.note_blocks public_notes s')
            (λ _ s''.
              and_then-NoFuel A
                (with_order A (extend_nullifiers d.nullifiers s''.0.note_updates) s'')
                (λ _ s₃. last s₃)
                (with_order-NoFuel (extend_nullifiers d.nullifiers s''.0.note_updates) s'')
                (λ _ s₃. included-NoFuel options d s₃)))
