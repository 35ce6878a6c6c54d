-- ===== src/Sync/Performs/Applied.antt =====
-- What a synchronisation applies is what was fetched (crates/rust-client/src/sync/state_sync.rs).
use miden_client.Base.{
  ℕ, ◌≡◌, refl, ap, inl, inr, Bool, true, false, Option, none, some, List, [], ◌∷◌, ◌++◌,
  if◌then◌else◌, Result, ok, Bool-cases,
}
use miden_client.Protocol.{Protocol}
use miden_client.BTreeMap.{BTreeMap}
use miden_client.InputNote.Record.{InputNoteRecord}
use miden_client.Tracker.Types.{NoteUpdateTracker}
use miden_client.Tracker.Order.{extend_nullifiers}
use miden_client.Transaction.Updates.{TransactionUpdateTracker, TransactionInclusion}
use miden_client.Sync.Headers.{HeaderApi}
use miden_client.Sync.Api.{
  SyncApi, SyncError, and_then, map_err, failed, NoteSyncBlock, StateSyncOptions,
}
use miden_client.Sync.Notes.{include_all, note_state_sync, transaction_state_sync}
use miden_client.Sync.Fetch.{RawStateSyncData}
use miden_client.Sync.Apply.{
  SyncState, track_block, store_tracked, store_tip, apply_blocks, with_order, with_inclusions,
  advance_mmr, apply_sync_result,
}
use miden_client.Sync.Spec.{
  Report, order_of, tip_at, trackers, After, After-append, note_reports, block_reports,
  inclusion_reports, reports,
}
use miden_client.Sync.Performs.{Post, and_then-Post, Moves, Moves-append, receive_notes-Post}

module _ {P : Protocol} {H : HeaderApi P} (A : SyncApi P H) (options : StateSyncOptions) where
  abbrev pub Goes : List (Report P) → SyncState A → SyncState A → Type 0
  Goes rs s s' = Moves A options rs s.0 s'.0

  track_block-Post :
      (b : NoteSyncBlock P A.MerklePath) (s : SyncState A)
      → Post (track_block A b s) (λ _ s'. Goes [] s s')
  unfolding track_block
  track_block-Post b (u, mmr) =
      elim (Bool-cases (A.is_tracked mmr (A.header_block_num b.block_header))) [
        | inl tracked ↦ rw tracked (λ _ _. (refl, refl))
        | inr new ↦
            let x =
              A.track_leaf (A.header_block_num b.block_header) (A.header_commitment b.block_header)
                b.mmr_path mmr in
            rw new (
              and_then-Post (λ _ s. s ≡ (u, x.1)) (λ _ s'. Goes [] (u, mmr) s')
                (map_err failed x.0, (u, x.1)) (λ _ s. (ok tt, store_tracked A b mmr s))
                (λ _ _. refl)
                (λ _ s same _ _. (ap (λ s'. trackers A s'.0) same, ap (λ s'. s'.0.block_num) same)))
      ]

  relevant-Post :
      (b : NoteSyncBlock P A.MerklePath) (found : Bool) (s : SyncState A)
      → Post (if found then track_block A b s else (ok tt, s)) (λ _ s'. Goes [] s s')
  relevant-Post b true s = track_block-Post b s
  relevant-Post b false s = λ _ _. (refl, refl)

  apply_blocks-Post :
      (blocks : List (NoteSyncBlock P A.MerklePath))
      (public_notes : BTreeMap P.NoteId (InputNoteRecord P)) (s : SyncState A)
      → Post
          (apply_blocks A blocks public_notes s)
          (λ _ s'. Goes (block_reports A blocks public_notes) s s')
  unfolding apply_blocks note_state_sync
  apply_blocks-Post [] public_notes s = λ _ _. (refl, refl)
  apply_blocks-Post (b ∷ blocks) public_notes (u, mmr) =
      let x = note_state_sync A b.notes b.block_header public_notes u.note_updates in
      let first = note_reports A b.notes b.block_header public_notes in
      let rest = block_reports A blocks public_notes in
      and_then-Post (λ _ s'. Goes first (u, mmr) s') (λ _ s'. Goes (first ++ rest) (u, mmr) s')
        (x.0, (record u { note_updates = x.1 }, mmr))
        (λ found s.
          and_then (if found then track_block A b s else (ok tt, s))
            (λ _ s'. apply_blocks A blocks public_notes s'))
        (λ a e. (
          receive_notes-Post A options b.notes false b.block_header public_notes u.note_updates
              u.transaction_updates a e,
          refl,
        ))
        (λ found s q.
          and_then-Post (λ _ s'. Goes [] s s') (λ _ s'. Goes (first ++ rest) (u, mmr) s')
            (if found then track_block A b s else (ok tt, s))
            (λ _ s'. apply_blocks A blocks public_notes s') (relevant-Post b found s)
            (λ _ s' q' a e.
              let end = (apply_blocks A blocks public_notes s').1 in
              Moves-append A options first rest u s.0 end.0 q (
                Moves-append A options [] rest s.0 s'.0 end.0 q'
                  (apply_blocks-Post blocks public_notes s' a e))))

  with_order-Post :
      (notes : Option (NoteUpdateTracker P)) (nullifiers : List P.Nullifier) (s : SyncState A)
      → extend_nullifiers nullifiers s.0.note_updates ≡ notes
      → Post (with_order A notes s) (λ _ s'. Goes (order_of nullifiers ∷ []) s s')
  with_order-Post none nullifiers s e = λ _ h. absurd (cc)
  with_order-Post (some notes) nullifiers (u, mmr) e =
      λ _ _. (((notes, u.transaction_updates), (e, refl), refl), refl)

  include_all-After :
      (incs : List (TransactionInclusion P)) (timestamp : ℕ) (t : NoteUpdateTracker P)
      (x : TransactionUpdateTracker P)
      → After A options
          (inclusion_reports incs timestamp)
          (t, x)
          (t, include_all A incs timestamp x)
  include_all-After [] timestamp t x = refl
  include_all-After (inc ∷ incs) timestamp t x =
      (_, (refl, refl), include_all-After incs timestamp t _)

  -- The reports on transactions
  abbrev about_transactions : P.BlockHeader → List (TransactionInclusion P) → List (Report P)
  about_transactions header incs = inclusion_reports incs (A.timestamp header) ++ tip_at header ∷ []

  with_inclusions-Post :
      (header : P.BlockHeader) (incs : List (TransactionInclusion P))
      (txs : Option (TransactionUpdateTracker P)) (s : SyncState A)
      → transaction_state_sync A options header incs s.0.transaction_updates ≡ txs
      → Post (with_inclusions A txs s) (λ _ s'. Goes (about_transactions header incs) s s')
  unfolding transaction_state_sync
  with_inclusions-Post header incs none s e = λ _ h. absurd (cc)
  with_inclusions-Post header incs (some txs) (u, mmr) e = λ _ _.
      let included = include_all A incs (A.timestamp header) u.transaction_updates in
      (
        After-append A options (inclusion_reports incs (A.timestamp header)) (tip_at header ∷ [])
            (trackers A u) (u.note_updates, included) (u.note_updates, txs)
            (include_all-After incs (A.timestamp header) u.note_updates u.transaction_updates)
            ((u.note_updates, txs), (refl, e), refl),
        refl,
      )

  advance_mmr-Post :
      (d : RawStateSyncData A) (s : SyncState A) → Post (advance_mmr A d s) (λ _ s'. Goes [] s s')
  advance_mmr-Post d (u, mmr) =
      let x = A.apply_delta d.mmr_delta mmr in
      and_then-Post (λ _ s. s ≡ (u, x.1)) (λ _ s'. Goes [] (u, mmr) s')
        (map_err failed x.0, (u, x.1)) (λ nodes s. (ok tt, store_tip A d.chain_tip_header nodes s))
        (λ _ _. refl)
        (λ _ s same _ _. (ap (λ s'. trackers A s'.0) same, ap (λ s'. s'.0.block_num) same))

  module _ (d : RawStateSyncData A) (public_notes : BTreeMap P.NoteId (InputNoteRecord P)) where
    abbrev after_order : SyncState A → Result (SyncError A) (Unit {0}) × SyncState A
    after_order s =
        with_inclusions A
          (transaction_state_sync A options d.chain_tip_header d.transactions
            s.0.transaction_updates)
          s

    abbrev after_blocks : SyncState A → Result (SyncError A) (Unit {0}) × SyncState A
    after_blocks s =
        and_then (with_order A (extend_nullifiers d.nullifiers s.0.note_updates) s)
          (λ _ s'. after_order s')

    abbrev last_reports : List (Report P)
    last_reports = order_of d.nullifiers ∷ about_transactions d.chain_tip_header d.transactions

    after_blocks-Post : (s : SyncState A) → Post (after_blocks s) (λ _ s'. Goes last_reports s s')
    after_blocks-Post s =
        let notes = extend_nullifiers d.nullifiers s.0.note_updates in
        and_then-Post (λ _ s'. Goes (order_of d.nullifiers ∷ []) s s')
          (λ _ s'. Goes last_reports s s') (with_order A notes s) (λ _ s'. after_order s')
          (with_order-Post notes d.nullifiers s refl)
          (λ _ s' q a e.
            Moves-append A options (order_of d.nullifiers ∷ [])
              (about_transactions d.chain_tip_header d.transactions) s.0 s'.0 (after_order s').1.0 q
              (with_inclusions-Post d.chain_tip_header d.transactions
                (transaction_state_sync A options d.chain_tip_header d.transactions
                  s'.0.transaction_updates)
                s' refl a e))

    pub apply_sync_result-Post :
        (s : SyncState A)
        → Post
            (apply_sync_result A options d public_notes s)
            (λ _ s'. Goes (reports A d public_notes) s s')
    unfolding apply_sync_result
    apply_sync_result-Post s =
        let first = block_reports A d.note_blocks public_notes in
        and_then-Post (λ _ s'. Goes [] s s') (λ _ s'. Goes (first ++ last_reports) s s')
          (advance_mmr A d s)
          (λ _ s'.
            and_then (apply_blocks A d.note_blocks public_notes s') (λ _ s''. after_blocks s''))
          (advance_mmr-Post d s)
          (λ _ s' q.
            and_then-Post (λ _ s''. Goes first s s'') (λ _ s''. Goes (first ++ last_reports) s s'')
              (apply_blocks A d.note_blocks public_notes s') (λ _ s''. after_blocks s'')
              (λ a e.
                Moves-append A options [] first s.0 s'.0
                  (apply_blocks A d.note_blocks public_notes s').1.0 q
                  (apply_blocks-Post d.note_blocks public_notes s' a e))
              (λ _ s'' q' a e.
                Moves-append A options first last_reports s.0 s''.0 (after_blocks s'').1.0 q'
                  (after_blocks-Post s'' a e)))
