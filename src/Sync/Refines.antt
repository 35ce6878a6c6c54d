-- ===== src/Sync/Refines.antt =====
-- The notes of the update of a synchronisation, as steps of the note update tracker
-- (crates/rust-client/src/sync/state_sync.rs).
use miden_client.Base.{
  ℕ, ◌≡◌, refl, sym, ap, ◌⊎◌, inl, inr, Bool, true, false, some, List, [], ◌∷◌, map, ok,
}
use mathlib.Core.Path.{subst}
use miden_client.Protocol.{Protocol}
use miden_client.Tracker.Types.{NoteUpdateTracker, NullifierUpdate}
use miden_client.Tracker.Notes as Tracker
use miden_client.Tracker.Notes.{unspent_nullifiers}
use miden_client.Tracker.Reach.{
  Reach, here, next, new_public_note, committed_note, nullified, extended, tracker-IsIndexed,
}
use miden_client.Transaction.Updates.{committed_transactions}
use miden_client.Tracker.Indexed.{IsIndexed, NoCollision, AllWellFormed}
use miden_client.Tracker.Reported.{Reports, Reach-Reports}
use miden_client.Sync.Headers.{HeaderApi}
use miden_client.Sync.Api.{
  SyncApi, NoteUpdateAction, commit, insert, discard, StateSyncOptions, StateSyncInput,
}
use miden_client.Sync.Updates.{StateSyncUpdate}
use miden_client.Sync.State.{current_block, sync_state}
use miden_client.Sync.Spec.{
  Report, note_in, order_of, included, tip_at, nullifier_of, Trackers, trackers, Acts, Effect,
  After, reports, nullifier_reports,
}
use miden_client.Sync.Fetch.{RawStateSyncData, fetch_sync_data}
use miden_client.Sync.Apply.{public_note_records}
use miden_client.Sync.Outcome.{initial, AskedNullifiers, sync_state-Outcome}
use miden_client.Sync.Spent.{AllSpent, nullifier_reports-AllSpent}

module _ {P : Protocol} {H : HeaderApi P} (A : SyncApi P H) (options : StateSyncOptions)
    (t₀ : NoteUpdateTracker P) where
  Acts-Reach :
      (action : NoteUpdateAction P) (header : P.BlockHeader) (t t' : NoteUpdateTracker P)
      → Acts A action header t t'
      → Reach t₀ t
      → Reach t₀ t'
  Acts-Reach (commit c) header t t' (_, e) r =
      subst (Reach t₀) (ap (λ y. y.1) e) (next r (committed_note c header))
  Acts-Reach (insert note) header t t' e r =
      subst (Reach t₀) (ap (λ y. y.1) e) (next r (new_public_note note header))
  Acts-Reach discard header t t' e r = subst (Reach t₀) (sym e) r

  Effect-Reach :
      (report : Report P) (s s' : Trackers P)
      → Effect A options report s s'
      → Reach t₀ s.0
      → Reach t₀ s'.0
  Effect-Reach (note_in c header public) (t, x) (t', x') ((action, _, acts), _) r =
      Acts-Reach action header t t' acts r
  Effect-Reach (order_of ns) (t, x) (t', x') (e, _) r = next r (extended ns t' e)
  Effect-Reach (included _ _) (t, x) (t', x') (e, _) r = subst (Reach t₀) (sym e) r
  Effect-Reach (tip_at _) (t, x) (t', x') (e, _) r = subst (Reach t₀) (sym e) r
  Effect-Reach (nullifier_of n) (t, x) (t', x') (e, _) r =
      subst (Reach t₀) (ap (λ y. y.1) e) (next r (nullified n (committed_transactions x)))

  After-Reach :
      (rs : List (Report P)) (s s' : Trackers P)
      → After A options rs s s'
      → Reach t₀ s.0
      → Reach t₀ s'.0
  After-Reach [] s s' e r = subst (λ x. Reach t₀ x.0) (sym e) r
  After-Reach (report ∷ rs) s s' (m, e, h) r = After-Reach rs m s' h (Effect-Reach report s m e r)

module _ {P : Protocol} {H : HeaderApi P} (A : SyncApi P H) (options : StateSyncOptions)
    (input : StateSyncInput A) where
  abbrev tracked : NoteUpdateTracker P
  tracked = Tracker.new input.input_notes input.output_notes

  -- The tip is the last block of the range, or no nullifiers were asked for, or every tracked input note with a nullifier
  -- of the node's answer, up to the block of the update, is consumed. The answer is that for the
  -- notes that were unspent after some steps.
  abbrev pub Consumed : A.PartialMmr → StateSyncUpdate A → Type 0
  Consumed mmr u =
      ((block_num : ℕ) × (d : RawStateSyncData A) × (current_block A mmr ≡ ok block_num)
        × (fetch_sync_data A block_num (map A.header_id input.accounts) input.note_tags ≡ ok d)
        × (d.chain_tip ≡ block_num)
        × (u.note_updates ≡ tracked))
      ⊎ (options.sync_nullifiers ≡ false)
      ⊎ ((block_num : ℕ) × (t : NoteUpdateTracker P) × (ns : List (NullifierUpdate P)) × Reach
            tracked t
          × (A.sync_nullifiers (map A.nullifier_prefix (unspent_nullifiers t)) block_num
                (some u.block_num)
              ≡ ok ns)
          × AllSpent u.block_num ns u.note_updates)

  module _ (distinct : NoCollision P) (fits : AllWellFormed input.output_notes)
      (mmr : A.PartialMmr) where
    -- All that is shown of an update.
    abbrev Shown : StateSyncUpdate A → Type 0
    Shown u = IsIndexed u.note_updates × Reports tracked u.note_updates × Consumed mmr u

    shown : (u : StateSyncUpdate A) → Reach tracked u.note_updates → Consumed mmr u → Shown u
    shown u r spent = (
      tracker-IsIndexed distinct input.input_notes [] input.output_notes fits (inl r),
      Reach-Reports tracked u.note_updates r,
      spent,
    )

    asked-Shown :
        (b : Bool) (block_num : ℕ) (m u : StateSyncUpdate A)
        → options.sync_nullifiers ≡ b
        → Reach tracked m.note_updates
        → AskedNullifiers A options input b block_num m u
        → Shown u
    asked-Shown true block_num m u b r (ns, answer, (h, e)) =
        let inv = tracker-IsIndexed distinct input.input_notes [] input.output_notes fits (inl r) in
        shown u
          (After-Reach A options tracked (nullifier_reports m.block_num ns) (trackers A m)
            (trackers A u) h r)
          (inr (
            inr (
              block_num,
              m.note_updates,
              ns,
              r,
              subst
                  (λ k.
                    A.sync_nullifiers (map A.nullifier_prefix (unspent_nullifiers m.note_updates))
                      block_num (some k)
                    ≡ ok ns)
                  (sym e) answer,
              subst (λ k. AllSpent k ns u.note_updates) (sym e)
                  (nullifier_reports-AllSpent A options distinct m.block_num ns (trackers A m)
                    (trackers A u) inv h).0,
            )))
    asked-Shown false block_num m u b r e =
        shown u (subst (λ v. Reach tracked v.note_updates) (sym e) r) (inr (inl b))

  -- If IDs and nullifiers do not collide, and the tracked output notes have the digests of their
  -- recipients, then in the update that a synchronisation returns the indices agree with the notes
  -- (as they do in every tracker), no tracked note is lost (its entry is as it was or is reported as
  -- updated), and every tracked input note that has a nullifier of the node's answer, up to the
  -- block of the update, is consumed, unless the tip is the last block of the range or no nullifiers are synchronised.
  pub sync_state-IsIndexed :
      NoCollision P
      → AllWellFormed input.output_notes
      → (mmr : A.PartialMmr) (u : StateSyncUpdate A) → (sync_state A options input mmr).0 ≡ ok u
      → IsIndexed u.note_updates × Reports tracked u.note_updates × Consumed mmr u
  sync_state-IsIndexed distinct fits mmr u e =
      let (block_num, d, last, fetched, outcome) = sync_state-Outcome A options input mmr u e in
      elim outcome [
        | inl (tip, same, _) ↦
            let old : u.note_updates ≡ tracked = ap (λ s. s.0) same in
            shown distinct fits mmr u (subst (Reach tracked) (sym old) here)
              (inl (block_num, d, last, fetched, tip, old))
        | inr (_, (m, h, _, asked)) ↦
            asked-Shown distinct fits mmr options.sync_nullifiers block_num m u refl
              (After-Reach A options tracked
                (reports A d (public_note_records A d.public_notes d.note_blocks []))
                (initial A options input) (trackers A m) h here)
              asked
      ]
