-- ===== src/Transaction/Encoding.antt =====
-- The status of a transaction as bytes (crates/rust-client/src/transaction/record.rs).
use miden_client.Base.{ℕ, ◌≡◌, refl, ◌∙◌, none, List, [], ◌∷◌, ◌++◌, ◌==◌, if◌then◌else◌, ok, err}
use miden_client.Protocol.{Protocol, Codecs, Reader, ◌>>=◌, pure, reading, >>=-ok}
use miden_client.Transaction.Record.{
  DiscardCause, expired, input_consumed, discarded_initial_state, stale, TransactionStatus, pending,
  committed, discarded,
}

-- `TransactionStatusVariant`
unfoldable pub variant : TransactionStatus → ℕ
variant pending = 0
variant (committed _ _) = 1
variant (discarded _) = 2

unfoldable pub cause_byte : DiscardCause → ℕ
cause_byte expired = 0
cause_byte input_consumed = 1
cause_byte discarded_initial_state = 2
cause_byte stale = 3

module _ {P : Protocol} (C : Codecs P) where
  pub write_cause : DiscardCause → List ℕ
  write_cause cause = cause_byte cause ∷ []

  read_cause_byte : ℕ → Reader C.DeserializationError DiscardCause
  read_cause_byte b bytes =
      if b == 0
      then pure expired bytes
      else if b == 1
      then pure input_consumed bytes
      else if b == 2
      then pure discarded_initial_state bytes
      else if b == 3
      then pure stale bytes
      else err (C.invalid_value "Invalid discard cause" none)

  pub read_cause : Reader C.DeserializationError DiscardCause
  unfolding read_cause_byte
  read_cause = do b ← C.read_u8; read_cause_byte b

  -- What follows the variant
  write_rest : TransactionStatus → List ℕ
  write_rest pending = []
  write_rest (committed block_number commit_timestamp) =
      C.block_number.write block_number ++ C.u64.write commit_timestamp
  write_rest (discarded cause) = write_cause cause

  pub write_status : TransactionStatus → List ℕ
  unfolding write_rest
  write_status s = variant s ∷ write_rest s

  read_rest : ℕ → Reader C.DeserializationError TransactionStatus
  read_rest v bytes =
      if v == 0
      then pure pending bytes
      else if v == 1
      then (do
        block_number ← C.block_number.read
        commit_timestamp ← C.u64.read
        pure (committed block_number commit_timestamp))
          bytes
      else if v == 2
      then (do cause ← read_cause; pure (discarded cause)) bytes
      else err (C.invalid_value "Invalid transaction status" none)

  pub read_status : Reader C.DeserializationError TransactionStatus
  unfolding read_rest
  read_status = do v ← C.read_u8; read_rest v

  read_cause-write_cause :
      (c : DiscardCause) (rest : List ℕ) → read_cause (write_cause c ++ rest) ≡ ok (c, rest)
  unfolding read_cause write_cause read_cause_byte cause_byte
  read_cause-write_cause c rest =
      >>=-ok C.read_u8 read_cause_byte (cause_byte c ∷ rest) (cause_byte c) rest
        (C.read_u8-cons (cause_byte c) rest)
      ∙ cause_back c
    where
      cause_back : (c : DiscardCause) → read_cause_byte (cause_byte c) rest ≡ ok (c, rest)
      cause_back expired = refl
      cause_back input_consumed = refl
      cause_back discarded_initial_state = refl
      cause_back stale = refl

  read_rest-write_rest :
      (s : TransactionStatus) (rest : List ℕ)
      → read_rest (variant s) (write_rest s ++ rest) ≡ ok (s, rest)
  unfolding read_rest write_rest variant
  read_rest-write_rest pending rest = refl
  read_rest-write_rest (committed block_number commit_timestamp) rest = simp reading
  read_rest-write_rest (discarded c) rest =
      >>=-ok read_cause (λ cause. pure (discarded cause)) (write_cause c ++ rest) c rest
        (read_cause-write_cause c rest)

  -- A status of a transaction that is written is read back, whatever bytes follow it.
  pub read_status-write_status :
      (s : TransactionStatus) (rest : List ℕ) → read_status (write_status s ++ rest) ≡ ok (s, rest)
  unfolding read_status write_status
  read_status-write_status s rest =
      >>=-ok C.read_u8 read_rest (variant s ∷ (write_rest s ++ rest)) (variant s)
        (write_rest s ++ rest) (C.read_u8-cons (variant s) (write_rest s ++ rest))
      ∙ read_rest-write_rest s rest
