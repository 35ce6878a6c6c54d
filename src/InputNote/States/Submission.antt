-- ===== src/InputNote/States/Submission.antt =====
-- `NoteSubmissionData` as bytes
-- (crates/rust-client/src/store/note_record/input_note_record/states/mod.rs).
use miden_client.Base.{ℕ, ◌≡◌, ◌++◌, List, ok}
use miden_client.Protocol.{Protocol, Codecs, Reader, ◌>>=◌, pure, reading, >>=-ok}
use miden_client.InputNote.Types.{NoteSubmissionData}

module _ {P : Protocol} (C : Codecs P) where
  pub write_into : NoteSubmissionData P → List ℕ
  write_into s =
      C.option_u64.write s.submitted_at
      ++ (C.account_id.write s.consumer_account ++ C.transaction_id.write s.consumer_transaction)

  pub read_from : Reader C.DeserializationError (NoteSubmissionData P)
  read_from = do
    submitted_at ← C.option_u64.read
    consumer_account ← C.account_id.read
    consumer_transaction ← C.transaction_id.read
    pure (record {
      submitted_at = submitted_at;
      consumer_account = consumer_account;
      consumer_transaction = consumer_transaction;
    })

  -- What is written is read back, whatever bytes follow it.
  pub read_from-write_into :
      (s : NoteSubmissionData P) (rest : List ℕ) → read_from (write_into s ++ rest) ≡ ok (s, rest)
  unfolding write_into read_from
  read_from-write_into s rest = simp reading

  -- The same in front of another reader.
  pub >>=-submission :
      {B : Type 0} (f : NoteSubmissionData P → Reader C.DeserializationError B)
      (s : NoteSubmissionData P) (rest : List ℕ)
      → (read_from >>= f) (write_into s ++ rest) ≡ f s rest
  >>=-submission f s rest =
      >>=-ok read_from f (write_into s ++ rest) s rest (read_from-write_into s rest)
