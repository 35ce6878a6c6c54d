-- ===== src/Transaction/Updates.antt =====
-- The transaction update tracker of a synchronisation
-- (crates/rust-client/src/sync/state_sync_update.rs). The discarding of transactions calls itself
-- for the final states of those that it discards, so it takes fuel; `none` means that the fuel ran
-- out, and one more than the number of pending transactions is given.
pub mod Discard
pub mod Reasons
pub mod Chain
pub mod Complete
pub mod Height
pub mod Inclusion
use miden_client.Base.{
  ℕ, zero, suc, ◌+◌, ◌-◌, ite, Bool, true, false, ◌&&◌, Option, none, some, List, [], ◌∷◌, ◌++◌,
  map, ltb, leb, if◌then◌else◌,
}
use miden_client.Protocol.{Protocol}
use miden_client.BTreeMap.{Ord, BTreeMap, get, insert, values}
use miden_client.Transaction.Record.{
  TransactionRecord, DiscardCause, expired, input_consumed, discarded_initial_state, stale,
  is_pending, is_committed, is_discarded, commit_transaction, discard_transaction,
}

pub record TransactionUpdateTracker (P : Protocol) : Type 0 where
  pub transactions : BTreeMap P.TransactionId (TransactionRecord P)

abbrev pub by_transaction_id : (P : Protocol) → Ord P.TransactionId
by_transaction_id P = record { eq = P.transaction_id_eq; lt = P.transaction_id_lt }

-- crates/rust-client/src/rpc/domain/transaction.rs
pub record TransactionInclusion (P : Protocol) : Type 0 where
  pub transaction_id : P.TransactionId
  pub block_num : ℕ
  pub account_id : P.AccountId
  pub initial_state_commitment : P.Word

abbrev pub contains : {A : Type 0} → Discrete A → A → List A → Bool
contains dec a [] = false
contains dec a (x ∷ xs) = ite (dec x a) true (contains dec a xs)

abbrev pub Entries : Protocol → Type 0
Entries P = BTreeMap P.TransactionId (TransactionRecord P)

module _ {P : Protocol} where
  collect : List (TransactionRecord P) → Entries P → Entries P
  collect [] m = m
  collect (tx ∷ txs) m = collect txs (insert (by_transaction_id P) tx.id tx m)

  unfoldable pub new : List (TransactionRecord P) → TransactionUpdateTracker P
  unfolding collect
  new txs = record { transactions = collect txs [] }

  unfoldable pub keep_committed : List (TransactionRecord P) → List (TransactionRecord P)
  keep_committed [] = []
  keep_committed (tx ∷ txs) =
      if is_committed tx.status then tx ∷ keep_committed txs else keep_committed txs

  keep_discarded : List (TransactionRecord P) → List (TransactionRecord P)
  keep_discarded [] = []
  keep_discarded (tx ∷ txs) =
      if is_discarded tx.status then tx ∷ keep_discarded txs else keep_discarded txs

  unfoldable pub committed_transactions : TransactionUpdateTracker P → List (TransactionRecord P)
  unfolding keep_committed
  committed_transactions t = keep_committed (values t.transactions)

  unfoldable pub discarded_transactions : TransactionUpdateTracker P → List (TransactionRecord P)
  unfolding keep_discarded
  discarded_transactions t = keep_discarded (values t.transactions)

  unfoldable pub updated_transaction_ids : TransactionUpdateTracker P → List P.TransactionId
  unfolding committed_transactions discarded_transactions
  updated_transaction_ids t =
      map (λ tx. tx.id) (committed_transactions t ++ discarded_transactions t)

  -- The match by account and initial state.
  abbrev pub is_same_start : TransactionInclusion P → TransactionRecord P → Bool
  is_same_start inc tx =
      ite (P.account_id_eq tx.details.account_id inc.account_id)
        (ite (P.word_eq tx.details.init_account_state inc.initial_state_commitment) true false)
        false

  -- The first entry that matches is committed.
  commit_first : TransactionInclusion P → ℕ → Entries P → Entries P
  commit_first inc timestamp [] = []
  commit_first inc timestamp ((k, tx) ∷ m) =
      if is_same_start inc tx
      then (k, (commit_transaction inc.block_num timestamp tx).1) ∷ m
      else (k, tx) ∷ commit_first inc timestamp m

  unfoldable pub apply_transaction_inclusion :
      TransactionInclusion P → ℕ → TransactionUpdateTracker P → TransactionUpdateTracker P
  unfolding commit_first
  apply_transaction_inclusion inc timestamp t =
      elim (get (by_transaction_id P) inc.transaction_id t.transactions) [
        | some tx ↦ record t {
          transactions =
              insert (by_transaction_id P) inc.transaction_id
                (commit_transaction inc.block_num timestamp tx).1 t.transactions;
        }
        | none ↦ record t { transactions = commit_first inc timestamp t.transactions }
      ]

  -- The loop over the pending transactions: those that meet the predicate are discarded, and
  -- their final states are collected in order.
  pub mark : (TransactionRecord P → Bool) → DiscardCause → Entries P → Entries P × List P.Word
  mark predicate cause [] = ([], [])
  mark predicate cause ((k, tx) ∷ m) =
      let (rest, states) = mark predicate cause m in
      let (done, tx') = discard_transaction cause tx in
      if is_pending tx.status && predicate tx && done
      then ((k, tx') ∷ rest, tx.details.final_account_state ∷ states)
      else ((k, tx) ∷ rest, states)

  -- `for state in new_invalid_account_states`
  cascade : (P.Word → Entries P → Option (Entries P)) → List P.Word → Entries P → Option (Entries P)
  cascade discard [] m = some m
  cascade discard (s ∷ ss) m = elim (discard s m) [ some m' ↦ cascade discard ss m' | none ↦ none ]

  abbrev pub starts_at : P.Word → TransactionRecord P → Bool
  starts_at state tx = ite (P.word_eq tx.details.init_account_state state) true false

  pub discard_entries :
      ℕ → (TransactionRecord P → Bool) → DiscardCause → Entries P → Option (Entries P)
  unfolding mark cascade
  discard_entries zero predicate cause m = none
  discard_entries (suc fuel) predicate cause m =
      let (marked, states) = mark predicate cause m in
      cascade (λ s. discard_entries fuel (starts_at s) discarded_initial_state) states marked

  -- The number of pending transactions.
  abbrev pub count_pending : Entries P → ℕ
  count_pending [] = 0
  count_pending ((k, tx) ∷ m) =
      if is_pending tx.status then suc (count_pending m) else count_pending m

  abbrev with_entries : Option (Entries P) → Option (TransactionUpdateTracker P)
  with_entries none = none
  with_entries (some m) = some (record { transactions = m })

  unfoldable pub discard_transaction_with_predicate :
      (TransactionRecord P → Bool)
      → DiscardCause
      → TransactionUpdateTracker P
      → Option (TransactionUpdateTracker P)
  unfolding discard_entries
  discard_transaction_with_predicate predicate cause t =
      with_entries
        (discard_entries (suc (count_pending t.transactions)) predicate cause t.transactions)

  unfoldable pub apply_invalid_initial_account_state :
      P.Word → TransactionUpdateTracker P → Option (TransactionUpdateTracker P)
  apply_invalid_initial_account_state state =
      discard_transaction_with_predicate (starts_at state) discarded_initial_state

  -- The predicate of `apply_input_note_nullified`
  abbrev pub spends : P.Nullifier → TransactionRecord P → Bool
  spends nullifier tx =
      contains P.word_eq (P.nullifier_as_word nullifier) tx.details.input_note_nullifiers

  unfoldable pub apply_input_note_nullified :
      P.Nullifier → TransactionUpdateTracker P → Option (TransactionUpdateTracker P)
  apply_input_note_nullified nullifier =
      discard_transaction_with_predicate (spends nullifier) input_consumed

  -- `checked_sub` with the default 0 is `-` on ℕ.
  abbrev pub is_stale : ℕ → ℕ → TransactionRecord P → Bool
  is_stale new_sync_height delta tx = ltb tx.details.submission_height (new_sync_height - delta)

  abbrev pub is_expired : ℕ → TransactionRecord P → Bool
  is_expired new_sync_height tx = leb tx.details.expiration_block_num new_sync_height

  discard_stale : ℕ → Option ℕ → TransactionUpdateTracker P → Option (TransactionUpdateTracker P)
  discard_stale new_sync_height none t = some t
  discard_stale new_sync_height (some delta) t =
      discard_transaction_with_predicate (is_stale new_sync_height delta) stale t

  unfoldable pub apply_sync_height_update :
      ℕ → Option ℕ → TransactionUpdateTracker P → Option (TransactionUpdateTracker P)
  unfolding discard_stale
  apply_sync_height_update new_sync_height tx_discard_delta t =
      elim (discard_stale new_sync_height tx_discard_delta t) [
        | none ↦ none
        | some t' ↦ discard_transaction_with_predicate (is_expired new_sync_height) expired t'
      ]
