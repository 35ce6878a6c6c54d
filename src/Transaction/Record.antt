-- ===== src/Transaction/Record.antt =====
-- The record of a transaction of the client
-- (crates/rust-client/src/transaction/record.rs). A method that takes `&mut self` returns the
-- record that it leaves behind and its result.
use miden_client.Base.{ℕ, Bool, true, false, Option, List, if◌then◌else◌}
use miden_client.Protocol.{Protocol}

pub data DiscardCause : Type 0 where
  expired input_consumed discarded_initial_state stale : DiscardCause

pub data TransactionStatus : Type 0 where
  pending : TransactionStatus
  committed : ℕ → ℕ → TransactionStatus
  discarded : DiscardCause → TransactionStatus

pub record TransactionDetails (P : Protocol) : Type 0 where
  pub account_id : P.AccountId
  pub init_account_state : P.Word
  pub final_account_state : P.Word
  pub input_note_nullifiers : List P.Word
  pub output_notes : P.RawOutputNotes
  pub block_num : ℕ
  pub submission_height : ℕ
  pub expiration_block_num : ℕ
  pub creation_timestamp : ℕ

pub record TransactionRecord (P : Protocol) : Type 0 where
  pub id : P.TransactionId
  pub details : TransactionDetails P
  pub script : Option P.TransactionScript
  pub status : TransactionStatus

abbrev pub is_pending : TransactionStatus → Bool
is_pending pending = true
is_pending _ = false

abbrev pub is_committed : TransactionStatus → Bool
is_committed (committed _ _) = true
is_committed _ = false

abbrev pub is_discarded : TransactionStatus → Bool
is_discarded (discarded _) = true
is_discarded _ = false

module _ {P : Protocol} where
  unfoldable pub commit_transaction : ℕ → ℕ → TransactionRecord P → Bool × TransactionRecord P
  commit_transaction commit_height commit_timestamp tx =
      if is_pending tx.status
      then (true, record tx { status = committed commit_height commit_timestamp })
      else (false, tx)

  unfoldable pub discard_transaction :
      DiscardCause → TransactionRecord P → Bool × TransactionRecord P
  discard_transaction cause tx =
      if is_pending tx.status then (true, record tx { status = discarded cause }) else (false, tx)
