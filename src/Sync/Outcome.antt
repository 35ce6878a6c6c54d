-- ===== src/Sync/Outcome.antt =====
-- A synchronisation as a whole, against what it is to do
-- (crates/rust-client/src/sync/state_sync.rs).
use miden_client.Base.{
  ℕ, ◌≡◌, refl, sym, ap, ◌∙◌, ◌≢◌, ◌⊎◌, inl, inr, Bool, true, false, [], map, ◌==◌, Result, ok, err,
  arith,
}
use mathlib.Core.Path.{subst}
use miden_client.Protocol.{Protocol}
use miden_client.Sync.Headers.{HeaderApi}
use miden_client.Sync.Api.{SyncApi, SyncError, and_then, StateSyncOptions, StateSyncInput}
use miden_client.Sync.Updates.{StateSyncUpdate}
use miden_client.Sync.Accounts.{account_state_sync}
use miden_client.Sync.Fetch.{RawStateSyncData, fetch_sync_data}
use miden_client.Sync.Apply.{SyncState, apply_sync_result, public_note_records}
use miden_client.Sync.State.{
  start, when_enabled, after_accounts, finish, apply_fetched, current_block, sync_state,
}
use miden_client.Tracker.Notes as Tracker
use miden_client.Transaction.Updates as Transactions
use miden_client.Sync.Spec.{Trackers, trackers, After, reports}
use miden_client.Sync.Performs.{Post, and_then-Post, Moves, Nullified, nullifiers_state_sync-Post}
use miden_client.Sync.Performs.Applied.{apply_sync_result-Post}

module _ {P : Protocol} {H : HeaderApi P} (A : SyncApi P H) (options : StateSyncOptions)
    (input : StateSyncInput A) where
  -- The tracked notes and transactions
  abbrev pub initial : Trackers P
  initial = (
    Tracker.new input.input_notes input.output_notes,
    Transactions.new input.uncommitted_transactions,
  )

  -- The nullifiers, if they are asked for; otherwise nothing.
  abbrev pub AskedNullifiers : Bool → ℕ → StateSyncUpdate A → StateSyncUpdate A → Type 0
  AskedNullifiers true block_num m u = Nullified A options block_num m u
  AskedNullifiers false block_num m u = u ≡ m

  -- All that was fetched has had its effect, and then the nullifiers; the update is for the tip.
  abbrev pub Progress : ℕ → RawStateSyncData A → StateSyncUpdate A → Type 0
  Progress block_num d u =
      (m : StateSyncUpdate A) × After A options
        (reports A d (public_note_records A d.public_notes d.note_blocks [])) initial (trackers A m)
      × (m.block_num ≡ d.chain_tip)
      × AskedNullifiers options.sync_nullifiers block_num m u

  -- What a synchronisation from this range is to return.
  abbrev pub Outcome : A.PartialMmr → StateSyncUpdate A → Type 0
  Outcome mmr u =
      (block_num : ℕ) × (d : RawStateSyncData A) × (current_block A mmr ≡ ok block_num)
      × (fetch_sync_data A block_num (map A.header_id input.accounts) input.note_tags ≡ ok d)
      × (((d.chain_tip ≡ block_num) × (trackers A u ≡ initial) × (u.block_num ≡ block_num))
          ⊎ ((d.chain_tip ≢ block_num) × Progress block_num d u))

  when_enabled-Post :
      (b : Bool) (block_num : ℕ) (s : SyncState A)
      → Post (when_enabled A b block_num s) (λ _ s'. AskedNullifiers b block_num s.0 s'.0)
  when_enabled-Post true block_num s = nullifiers_state_sync-Post A options block_num s.0
  when_enabled-Post false block_num s = λ _ _. refl

  apply_fetched-Post :
      (block_num : ℕ) (d : RawStateSyncData A) (mmr : A.PartialMmr)
      → Post
          (apply_fetched A options input block_num d (start A block_num input, mmr))
          (λ _ s'. Progress block_num d s'.0)
  unfolding start
  apply_fetched-Post block_num d mmr =
      let public_notes = public_note_records A d.public_notes d.note_blocks [] in
      let u = start A block_num input in
      let v : StateSyncUpdate A = record u { block_num = d.chain_tip } in
      let all = reports A d public_notes in
      and_then-Post (λ _ s. s ≡ (v, mmr)) (λ _ s'. Progress block_num d s'.0)
        (
          account_state_sync A input.accounts d.account_commitment_updates u.account_updates,
          (v, mmr),
        )
        (λ account_updates s. after_accounts A options block_num d account_updates s) (λ _ _. refl)
        (λ account_updates s same.
          let w : SyncState A = (record (s.0) { account_updates = account_updates }, s.1) in
          and_then-Post (λ _ s'. Moves A options all w.0 s'.0) (λ _ s'. Progress block_num d s'.0)
            (apply_sync_result A options d public_notes w)
            (λ _ s'. when_enabled A options.sync_nullifiers block_num s')
            (apply_sync_result-Post A options d public_notes w)
            (λ _ s' q a e. (
              s'.0,
              subst (λ x. After A options all x (trackers A s'.0)) (ap (λ x. trackers A x.0) same)
                  q.0,
              q.1 ∙ ap (λ x. x.0.block_num) same,
              when_enabled-Post options.sync_nullifiers block_num s' a e,
            )))

  finish-Post :
      (b : Bool) (block_num : ℕ) (d : RawStateSyncData A) (mmr : A.PartialMmr)
      → d.chain_tip == block_num ≡ b
      → Post (finish A b options input block_num d mmr) (λ u _.
        ((d.chain_tip ≡ block_num) × (trackers A u ≡ initial) × (u.block_num ≡ block_num))
        ⊎ ((d.chain_tip ≢ block_num) × Progress block_num d u))
  unfolding start
  finish-Post true block_num d mmr h = λ u e.
      let same : start A block_num input ≡ u = cc in
      inl (ground (arith, h), ap (λ v. trackers A v) (sym same), ap (λ v. v.block_num) (sym same))
  finish-Post false block_num d mmr h =
      let x = apply_fetched A options input block_num d (start A block_num input, mmr) in
      on_applied x.0 x.1 (apply_fetched-Post block_num d mmr)
    where
      on_applied :
          (r : Result (SyncError A) (Unit {0})) (s : SyncState A)
          → Post (r, s) (λ _ s'. Progress block_num d s'.0)
          → Post (and_then (r, s.1) (λ _ mmr''. (ok s.0, mmr''))) (λ u _.
            ((d.chain_tip ≡ block_num) × (trackers A u ≡ initial) × (u.block_num ≡ block_num))
            ⊎ ((d.chain_tip ≢ block_num) × Progress block_num d u))
      on_applied (ok _) s p =
          λ u e. inr (ground (arith, h), subst (λ v. Progress block_num d v) (cc) (p tt refl))
      on_applied (err _) s p = λ u e. absurd (cc)

  fetched-Outcome :
      (block_num : ℕ) (x : Result (SyncError A) (RawStateSyncData A)) (mmr : A.PartialMmr)
      → current_block A mmr ≡ ok block_num
      → fetch_sync_data A block_num (map A.header_id input.accounts) input.note_tags ≡ x
      → Post
          (and_then
            (x, mmr)
            (λ d mmr'. finish A (d.chain_tip == block_num) options input block_num d mmr'))
          (λ u _. Outcome mmr u)
  fetched-Outcome block_num (ok d) mmr e f =
      λ u h. (block_num, d, e, f, finish-Post (d.chain_tip == block_num) block_num d mmr refl u h)
  fetched-Outcome block_num (err _) mmr e f = λ u h. absurd (cc)

  started-Outcome :
      (x : Result (SyncError A) ℕ) (mmr : A.PartialMmr)
      → current_block A mmr ≡ x
      → Post
          (and_then
            (x, mmr)
            (λ block_num mmr'.
              and_then
                (fetch_sync_data A block_num (map A.header_id input.accounts) input.note_tags, mmr')
                (λ d mmr''. finish A (d.chain_tip == block_num) options input block_num d mmr'')))
          (λ u _. Outcome mmr u)
  started-Outcome (ok block_num) mmr e =
      fetched-Outcome block_num
        (fetch_sync_data A block_num (map A.header_id input.accounts) input.note_tags) mmr e refl
  started-Outcome (err _) mmr e = λ u h. absurd (cc)

  -- If a synchronisation returns an update, then it fetched the data after the last block of its
  -- range, and either the tip is that block and the update has the tracked notes and transactions as
  -- they are, or these have gone successfully, in this order, through: every note of every fetched
  -- block, with the action of the screener for it (a commit, an insertion or nothing); the order of
  -- the nullifiers; the inclusion of every transaction; the height of the tip; and, if nullifiers
  -- are synchronised, the nullifiers up to the tip that the node reports for the notes that are then
  -- unspent, each of which is applied to the notes, with the transactions committed by then, and to
  -- the transactions.
  pub sync_state-Outcome :
      (mmr : A.PartialMmr) (u : StateSyncUpdate A)
      → (sync_state A options input mmr).0 ≡ ok u
      → Outcome mmr u
  unfolding sync_state
  sync_state-Outcome mmr u e = started-Outcome (current_block A mmr) mmr refl u e
