-- ===== src/InputNote/States/RoundTrip.antt =====
-- Encoding and decoding of input note states
-- (crates/rust-client/src/store/note_record/input_note_record/states/mod.rs).
use miden_client.Base.{ℕ, ◌≡◌, ◌∙◌, List, ◌∷◌, ◌++◌, ok}
use miden_client.Protocol.{Protocol, Codecs, Reader, ◌>>=◌, pure, >>=-ok}
use miden_client.InputNote.Types.{
  InputNoteState, expected, unverified, committed, invalid, processing_authenticated,
  processing_unauthenticated, consumed_authenticated_local, consumed_unauthenticated_local,
  consumed_external,
}
use miden_client.InputNote.States.{discriminant, write_inner, read_inner, write_into, read_from}
use miden_client.InputNote.States.Expected
use miden_client.InputNote.States.Unverified
use miden_client.InputNote.States.Committed
use miden_client.InputNote.States.Invalid
use miden_client.InputNote.States.ProcessingAuthenticated
use miden_client.InputNote.States.ProcessingUnauthenticated
use miden_client.InputNote.States.ConsumedAuthenticatedLocal
use miden_client.InputNote.States.ConsumedUnauthenticatedLocal
use miden_client.InputNote.States.ConsumedExternal

-- Reading a value and wrapping it up.
wrap_ok :
    {E A B : Type 0} (m : Reader E A) (f : A → B) (bytes : List ℕ) (a : A) (rest : List ℕ)
    → m bytes ≡ ok (a, rest)
    → (m >>= λ s. pure (f s)) bytes ≡ ok (f a, rest)
wrap_ok m f bytes a rest h = >>=-ok m (λ s. pure (f s)) bytes a rest h

module _ {P : Protocol} (C : Codecs P) where
  read_inner-write_inner :
      (s : InputNoteState P) (rest : List ℕ)
      → read_inner C (discriminant s) (write_inner C s ++ rest) ≡ ok (s, rest)
  unfolding read_inner write_inner discriminant
  read_inner-write_inner (expected s) rest =
      wrap_ok (Expected.read_from C) expected _ s rest (Expected.read_from-write_into C s rest)
  read_inner-write_inner (unverified s) rest =
      wrap_ok (Unverified.read_from C) unverified _ s rest
        (Unverified.read_from-write_into C s rest)
  read_inner-write_inner (committed s) rest =
      wrap_ok (Committed.read_from C) committed _ s rest (Committed.read_from-write_into C s rest)
  read_inner-write_inner (invalid s) rest =
      wrap_ok (Invalid.read_from C) invalid _ s rest (Invalid.read_from-write_into C s rest)
  read_inner-write_inner (processing_authenticated s) rest =
      wrap_ok (ProcessingAuthenticated.read_from C) processing_authenticated _ s rest
        (ProcessingAuthenticated.read_from-write_into C s rest)
  read_inner-write_inner (processing_unauthenticated s) rest =
      wrap_ok (ProcessingUnauthenticated.read_from C) processing_unauthenticated _ s rest
        (ProcessingUnauthenticated.read_from-write_into C s rest)
  read_inner-write_inner (consumed_authenticated_local s) rest =
      wrap_ok (ConsumedAuthenticatedLocal.read_from C) consumed_authenticated_local _ s rest
        (ConsumedAuthenticatedLocal.read_from-write_into C s rest)
  read_inner-write_inner (consumed_unauthenticated_local s) rest =
      wrap_ok (ConsumedUnauthenticatedLocal.read_from C) consumed_unauthenticated_local _ s rest
        (ConsumedUnauthenticatedLocal.read_from-write_into C s rest)
  read_inner-write_inner (consumed_external s) rest =
      wrap_ok (ConsumedExternal.read_from C) consumed_external _ s rest
        (ConsumedExternal.read_from-write_into C s rest)

  -- What is written is read back, whatever bytes follow it.
  pub read_from-write_into :
      (s : InputNoteState P) (rest : List ℕ) → read_from C (write_into C s ++ rest) ≡ ok (s, rest)
  unfolding read_from write_into
  read_from-write_into s rest =
      >>=-ok C.read_u8 (read_inner C) (discriminant s ∷ (write_inner C s ++ rest)) (discriminant s)
        (write_inner C s ++ rest) (C.read_u8-cons (discriminant s) (write_inner C s ++ rest))
      ∙ read_inner-write_inner s rest
