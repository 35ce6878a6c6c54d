-- ===== src/Tests/Transactions.antt =====
-- A tracker of three transactions, and the theorems on it: the second starts from the state that
-- the first ends with, and the third is of another account.
use miden_client.Base.{ℕ, ◌≡◌, refl, true, none, some, List, [], ◌∷◌, ◌++◌, ok, ℕ_discrete}
use miden_client.Transaction.Record.{
  TransactionRecord, TransactionStatus, pending, committed, discarded, discard_transaction, expired,
  input_consumed, discarded_initial_state,
}
use miden_client.Transaction.Updates.{
  TransactionUpdateTracker, TransactionInclusion, discard_transaction_with_predicate,
  apply_input_note_nullified, apply_sync_height_update, apply_transaction_inclusion, is_expired,
}
use mathlib.Core.List.{Memᴰ}
use miden_client.Transaction.Encoding.{write_status, read_status, read_status-write_status}
use miden_client.Transaction.Updates.Complete.{
  Effect, discard_transaction_with_predicate_lem, apply_input_note_nullified_lem,
}
use miden_client.Transaction.Updates.Height.{IsOutdated, apply_sync_height_update_lem}
use miden_client.Transaction.Updates.Inclusion.{Included, apply_transaction_inclusion_lem}
use miden_client.Tests.Toy.{toy, toy_codecs}

abbrev transaction : ℕ → ℕ → ℕ → ℕ → List ℕ → TransactionStatus → TransactionRecord toy
transaction id account initial final nullifiers status = record {
  id = id;
  details = record {
    account_id = account;
    init_account_state = initial;
    final_account_state = final;
    input_note_nullifiers = nullifiers;
    output_notes = 0;
    block_num = 3;
    submission_height = 3;
    expiration_block_num = 50;
    creation_timestamp = 0;
  };
  script = none;
  status = status;
}

abbrev tracked : TransactionUpdateTracker toy
tracked = record {
  transactions =
      (1, transaction 1 1 100 101 (5 ∷ []) pending)
      ∷ (2, transaction 2 1 101 102 [] pending)
      ∷ (3, transaction 3 2 100 200 (6 ∷ []) pending)
      ∷ [];
}

-- The nullifier of note 5 discards the first transaction, and with it the second.
nullified_chain :
    apply_input_note_nullified 5 tracked
    ≡ some (record {
      transactions =
          (1, transaction 1 1 100 101 (5 ∷ []) (discarded input_consumed))
          ∷ (2, transaction 2 1 101 102 [] (discarded discarded_initial_state))
          ∷ (3, transaction 3 2 100 200 (6 ∷ []) pending)
          ∷ [];
    })
unfolding apply_input_note_nullified discard_transaction_with_predicate ℕ_discrete
    discard_transaction
nullified_chain = refl

abbrev included : TransactionInclusion toy
included = record {
  transaction_id = 9;
  block_num = 12;
  account_id = 2;
  initial_state_commitment = 100;
}

discard_transaction_with_predicate_lem_example :
    (t' : TransactionUpdateTracker toy) × (discard_transaction_with_predicate
        (is_expired 60)
        expired
        tracked
      ≡ some t')
    × Effect (λ x. is_expired 60 x ≡ true) tracked.transactions t'.transactions
discard_transaction_with_predicate_lem_example =
    discard_transaction_with_predicate_lem (is_expired 60) expired tracked

apply_input_note_nullified_lem_example :
    (t' : TransactionUpdateTracker toy) × (apply_input_note_nullified 5 tracked ≡ some t')
    × Effect (λ x. Memᴰ 5 x.details.input_note_nullifiers) tracked.transactions t'.transactions
apply_input_note_nullified_lem_example = apply_input_note_nullified_lem 5 tracked

apply_sync_height_update_lem_example :
    (t' : TransactionUpdateTracker toy) × (apply_sync_height_update 30 (some 20) tracked ≡ some t')
    × Effect (IsOutdated 30 (some 20)) tracked.transactions t'.transactions
apply_sync_height_update_lem_example = apply_sync_height_update_lem 30 (some 20) tracked

apply_transaction_inclusion_lem_example :
    Included included 1000 tracked.transactions
      (apply_transaction_inclusion included 1000 tracked).transactions
apply_transaction_inclusion_lem_example = apply_transaction_inclusion_lem included 1000 tracked

read_status-write_status_example :
    read_status toy_codecs (write_status toy_codecs (committed 5 9) ++ 7 ∷ [])
    ≡ ok (committed 5 9, 7 ∷ [])
read_status-write_status_example = read_status-write_status toy_codecs (committed 5 9) (7 ∷ [])
