-- ===== src/Sync/Fuel.antt =====
-- The errors of a whole synchronisation (crates/rust-client/src/sync/state_sync.rs).
use miden_client.Base.{
  ℕ, ◌-◌, ◌^◌, ◌≢◌, inl, inr, Bool, true, false, some, List, [], ◌∷◌, map, ltb, ◌==◌, Result, ok,
  err, Bool-cases,
}
use miden_client.Protocol.{Protocol}
use miden_client.Sync.Headers.{HeaderApi}
use miden_client.Sync.Api.{
  SyncApi, SyncError, failed, out_of_fuel, and_then, try_ok, map_err, StateSyncOptions,
  StateSyncInput,
}
use miden_client.Sync.Updates.{AccountUpdates, extend_accounts}
use miden_client.Sync.Fetch.{RawStateSyncData}
use miden_client.Sync.Apply.{SyncState, apply_sync_result, public_note_records}
use miden_client.Sync.Errors.{
  NoFuel, and_then-NoFuel, try_ok-NoFuel, failed-NoFuel, nullifiers_state_sync-NoFuel,
}
use miden_client.Sync.State.{
  start, when_enabled, after_accounts, apply_fetched, current_block, finish, sync_state,
}
use miden_client.Sync.Fetch.{
  fetch_sync_data, fetch_new, fetch_transaction_data, raw_data, inclusions,
}
use miden_client.Sync.Nullifiers.{compute_ordered_nullifiers}
use miden_client.Sync.Accounts.{
  derive_account_commitment_updates, account_state_sync, get_updated_public_accounts,
  public_accounts, private_accounts, mismatched_public, mismatched_private, fetch_newer,
}
use miden_client.Sync.Errors.Apply.{apply_sync_result-NoFuel}

module _ {P : Protocol} {H : HeaderApi P} (A : SyncApi P H) (options : StateSyncOptions)
    (input : StateSyncInput A) where
  account_state_sync-NoFuel :
      (updates : List (P.AccountId × P.Word)) (u : AccountUpdates A)
      → NoFuel A (account_state_sync A input.accounts updates u)
  unfolding account_state_sync get_updated_public_accounts
  account_state_sync-NoFuel updates u =
      let answer = fetch_newer A (mismatched_public A updates (public_accounts A input.accounts)) in
      try_ok-NoFuel A (map_err failed answer)
        (λ updated. ok (
          extend_accounts A
            (record {
              updated_public_accounts = updated;
              mismatched_private_accounts =
                  mismatched_private A updates (private_accounts A input.accounts);
            })
            u))
        (failed-NoFuel A answer) (λ _. tt)

  when_enabled-NoFuel :
      (b : Bool) (block_num : ℕ) (s : SyncState A) → NoFuel A (when_enabled A b block_num s).0
  when_enabled-NoFuel true block_num s = nullifiers_state_sync-NoFuel A block_num s.0
  when_enabled-NoFuel false block_num s = tt

  after_accounts-NoFuel :
      (block_num : ℕ) (d : RawStateSyncData A) (account_updates : AccountUpdates A)
      (s : SyncState A)
      → NoFuel A (after_accounts A options block_num d account_updates s).0
  after_accounts-NoFuel block_num d account_updates s =
      let public_notes = public_note_records A d.public_notes d.note_blocks [] in
      let s' : SyncState A = (record (s.0) { account_updates = account_updates }, s.1) in
      and_then-NoFuel A (apply_sync_result A options d public_notes s')
        (λ _ s''. when_enabled A options.sync_nullifiers block_num s'')
        (apply_sync_result-NoFuel A options d public_notes s')
        (λ _ s''. when_enabled-NoFuel options.sync_nullifiers block_num s'')

  apply_fetched-NoFuel :
      (block_num : ℕ) (d : RawStateSyncData A) (s : SyncState A)
      → NoFuel A (apply_fetched A options input block_num d s).0
  apply_fetched-NoFuel block_num d (u, mmr) =
      and_then-NoFuel A
        (
          account_state_sync A input.accounts d.account_commitment_updates u.account_updates,
          (record u { block_num = d.chain_tip }, mmr),
        )
        (λ account_updates s. after_accounts A options block_num d account_updates s)
        (account_state_sync-NoFuel d.account_commitment_updates u.account_updates)
        (λ account_updates s. after_accounts-NoFuel block_num d account_updates s)

  finish-NoFuel :
      (b : Bool) (block_num : ℕ) (d : RawStateSyncData A) (mmr : A.PartialMmr)
      → NoFuel A (finish A b options input block_num d mmr).0
  finish-NoFuel true block_num d mmr = tt
  finish-NoFuel false block_num d mmr =
      let x = apply_fetched A options input block_num d (start A block_num input, mmr) in
      and_then-NoFuel A (x.0, x.1.1) (λ _ mmr'. (ok x.1.0, mmr'))
        (apply_fetched-NoFuel block_num d (start A block_num input, mmr)) (λ _ _. tt)

  current_block-NoFuel : (mmr : A.PartialMmr) → NoFuel A (current_block A mmr)
  current_block-NoFuel mmr = elim (Bool-cases (ltb (A.num_leaves mmr - 1) (2 ^ 32))) [
    | inl less ↦ rw less tt
    | inr more ↦ rw more (λ e. cc)
  ]

  fetch_transaction_data-NoFuel :
      (from to : ℕ) (ids : List P.AccountId) → NoFuel A (fetch_transaction_data A from to ids)
  unfolding fetch_transaction_data
  fetch_transaction_data-NoFuel from to [] = tt
  fetch_transaction_data-NoFuel from to (id ∷ ids) =
      let answer = A.sync_transactions from (some to) (id ∷ ids) in
      try_ok-NoFuel A (map_err failed answer)
        (λ records. ok (
          derive_account_commitment_updates records,
          inclusions A records,
          compute_ordered_nullifiers records,
        ))
        (failed-NoFuel A answer) (λ _. tt)

  fetch_new-NoFuel :
      (b : Bool) (n : ℕ) (ids : List P.AccountId) (tags : List P.NoteTag) (header : P.BlockHeader)
      → NoFuel A (fetch_new A b n ids tags header)
  fetch_new-NoFuel true n ids tags header = tt
  fetch_new-NoFuel false n ids tags header =
      let tip = A.header_block_num header in
      let delta_answer = A.sync_chain_mmr n (some tip) in
      let notes_answer = A.sync_notes_with_details n (some tip) tags in
      try_ok-NoFuel A (map_err failed delta_answer)
        (λ delta. try_ok (map_err failed notes_answer) (λ notes.
          try_ok (fetch_transaction_data A n tip ids)
            (λ fetched. ok (raw_data A header delta notes fetched))))
        (failed-NoFuel A delta_answer)
        (λ delta.
          try_ok-NoFuel A (map_err failed notes_answer)
            (λ notes.
              try_ok (fetch_transaction_data A n tip ids)
                (λ fetched. ok (raw_data A header delta notes fetched)))
            (failed-NoFuel A notes_answer)
            (λ notes.
              try_ok-NoFuel A (fetch_transaction_data A n tip ids)
                (λ fetched. ok (raw_data A header delta notes fetched))
                (fetch_transaction_data-NoFuel n tip ids) (λ _. tt)))

  fetch_sync_data-NoFuel :
      (n : ℕ) (ids : List P.AccountId) (tags : List P.NoteTag)
      → NoFuel A (fetch_sync_data A n ids tags)
  unfolding fetch_sync_data
  fetch_sync_data-NoFuel n ids tags =
      try_ok-NoFuel A (map_err failed A.get_chain_tip_header)
        (λ header. fetch_new A (A.header_block_num header == n) n ids tags header)
        (failed-NoFuel A A.get_chain_tip_header)
        (λ header. fetch_new-NoFuel (A.header_block_num header == n) n ids tags header)

  not_out_of_fuel : {X : Type 0} (r : Result (SyncError A) X) → NoFuel A r → r ≢ err out_of_fuel
  not_out_of_fuel (ok _) h e = cc
  not_out_of_fuel (err _) h e = h (cc)

  -- A synchronisation that fails does so by a call of the node, the screener or the range, by an
  -- error of the note update tracker, by the number of the blocks, or by the overflow of the
  -- positions of nullifiers: the fuel of the transaction update tracker never runs out.
  pub sync_state-NoFuel :
      (mmr : A.PartialMmr) → (sync_state A options input mmr).0 ≢ err out_of_fuel
  unfolding sync_state
  sync_state-NoFuel mmr =
      let ids = map A.header_id input.accounts in
      not_out_of_fuel (sync_state A options input mmr).0 (
        and_then-NoFuel A (current_block A mmr, mmr)
          (λ n mmr'.
            and_then (fetch_sync_data A n ids input.note_tags, mmr')
              (λ d mmr''. finish A (d.chain_tip == n) options input n d mmr''))
          (current_block-NoFuel mmr)
          (λ n mmr'.
            and_then-NoFuel A (fetch_sync_data A n ids input.note_tags, mmr')
              (λ d mmr''. finish A (d.chain_tip == n) options input n d mmr'')
              (fetch_sync_data-NoFuel n ids input.note_tags)
              (λ d mmr''. finish-NoFuel (d.chain_tip == n) n d mmr'')))
