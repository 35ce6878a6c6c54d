-- ===== src/Transaction/Updates/Complete.antt =====
-- The operations of the transaction update tracker that discard transactions
-- (crates/rust-client/src/sync/state_sync_update.rs).
use miden_client.Base.{
  suc, ◌≡◌, sym, ap, ◌≢◌, ◌⊎◌, inl, inr, Bool, true, false, some, List, [], ◌∷◌, arith,
}
use mathlib.Core.List.{Memᴰ}
use miden_client.Protocol.{Protocol}
use miden_client.Transaction.Record.{TransactionRecord, DiscardCause, input_consumed, is_pending}
use miden_client.Transaction.Updates.{
  Entries, starts_at, count_pending, TransactionUpdateTracker, spends, contains,
  discard_transaction_with_predicate, apply_input_note_nullified, with_entries,
}
use miden_client.Transaction.Updates.Discard.{NonePending, Discards, Later, EndsAt, Turned}
use miden_client.Transaction.Updates.Chain.{discard_entries_lem}

module _ {A : Type 0} (dec : Discrete A) where
  contains-Memᴰ : (a : A) (xs : List A) → contains dec a xs ≡ true → Memᴰ a xs
  contains-Memᴰ a [] h = cc
  contains-Memᴰ a (x ∷ xs) h = elim (dec x a) [
    | yes e ↦ Memᴰ.head (sym e)
    | no ne ↦ Memᴰ.tail (contains-Memᴰ a xs (ground arith))
  ]

  contains_not : (a : A) (xs : List A) → contains dec a xs ≡ false → Memᴰ a xs → ⊥
  contains_not a [] h m = elim m [ ]
  contains_not a (x ∷ xs) h (Memᴰ.head e) = ground arith
  contains_not a (x ∷ xs) h (Memᴰ.tail t) = contains_not a xs (ground arith) t

module _ {P : Protocol} where
  -- Every transaction that is pending has the property.
  abbrev pub Pending : (TransactionRecord P → Type 0) → Entries P → Type 0
  Pending Q [] = Unit
  Pending Q ((k, x) ∷ m) = ((is_pending x.status ≡ true) → Q x) × Pending Q m

  -- What a discard of the transactions that are hit does to a table. Entries keep their keys, and
  -- change at most from pending to discarded; what is still pending is not hit, nor does it start
  -- from the final state of a transaction that is no more pending; and what is no more pending was
  -- hit or starts from such a state.
  pub record Effect (Hit : TransactionRecord P → Type 0) (m m' : Entries P) : Type 0 where
    pub later : Later m m'
    pub complete : Pending (λ x. Hit x → ⊥) m'
    pub closed : (s : P.Word) → EndsAt s m m' → Pending (λ x. x.details.init_account_state ≢ s) m'
    pub justified :
        (x : TransactionRecord P) → Turned x m m' → Hit x ⊎ EndsAt x.details.init_account_state m m'

  Pending-NonePending :
      (p : TransactionRecord P → Bool) (Q : TransactionRecord P → Type 0) (m : Entries P)
      → ((x : TransactionRecord P) → p x ≡ false → Q x)
      → NonePending p m
      → Pending Q m
  Pending-NonePending p Q [] f h = tt
  Pending-NonePending p Q ((k, x) ∷ m) f h = (λ e. f x (h.0 e), Pending-NonePending p Q m f h.1)

  starts_at-ne :
      (s : P.Word) (x : TransactionRecord P)
      → starts_at s x ≡ false
      → x.details.init_account_state ≢ s
  starts_at-ne s x h = ground arith

  pub Effect-Discards :
      (p : TransactionRecord P → Bool) (Hit : TransactionRecord P → Type 0) (m m' : Entries P)
      → ((x : TransactionRecord P) → p x ≡ true → Hit x)
      → ((x : TransactionRecord P) → p x ≡ false → Hit x → ⊥)
      → Discards p m m'
      → Effect Hit m m'
  Effect-Discards p Hit m m' hit miss d = record {
    later = d.later;
    complete = Pending-NonePending p (λ x. Hit x → ⊥) m' miss d.complete;
    closed = λ s e.
        Pending-NonePending (starts_at s) (λ x. x.details.init_account_state ≢ s) m'
          (starts_at-ne s) (d.closed s e);
    justified = λ x t. elim (d.justified x t) [ inl h ↦ inl (hit x h) | inr e ↦ inr e ];
  }

  pub discard_transaction_with_predicate-Discards :
      (p : TransactionRecord P → Bool) (cause : DiscardCause) (t : TransactionUpdateTracker P)
      → (t' : TransactionUpdateTracker P) × (discard_transaction_with_predicate p cause t ≡ some t')
        × Discards p t.transactions t'.transactions
  unfolding discard_transaction_with_predicate
  discard_transaction_with_predicate-Discards p cause t =
      let (m', e, d) =
        discard_entries_lem (suc (count_pending t.transactions)) p cause t.transactions
          (omega arith) in
      (record { transactions = m' }, ap with_entries e, d)

  -- A discard with any predicate and cause returns, in every tracker. Entries keep their keys and
  -- change at most in the status, from pending to discarded. Afterwards no pending transaction
  -- meets the predicate or starts from the final state of a transaction that was discarded; and
  -- each transaction that was discarded meets the predicate or starts from such a state.
  pub discard_transaction_with_predicate_lem :
      (p : TransactionRecord P → Bool) (cause : DiscardCause) (t : TransactionUpdateTracker P)
      → (t' : TransactionUpdateTracker P) × (discard_transaction_with_predicate p cause t ≡ some t')
        × Effect (λ x. p x ≡ true) t.transactions t'.transactions
  discard_transaction_with_predicate_lem p cause t =
      let (t', e, d) = discard_transaction_with_predicate-Discards p cause t in
      (
        t',
        e,
        Effect-Discards p (λ x. p x ≡ true) t.transactions t'.transactions (λ x h. h) (λ x h h'. cc)
            d,
      )

  -- After a note was nullified, the update returns, in every tracker. Entries keep their keys and
  -- change at most in the status, from pending to discarded. Afterwards no pending transaction
  -- spends the note or starts from the final state of a transaction that was discarded; and each
  -- transaction that was discarded spends the note or starts from such a state.
  pub apply_input_note_nullified_lem :
      (nullifier : P.Nullifier) (t : TransactionUpdateTracker P)
      → (t' : TransactionUpdateTracker P) × (apply_input_note_nullified nullifier t ≡ some t')
        × Effect
            (λ x. Memᴰ (P.nullifier_as_word nullifier) x.details.input_note_nullifiers)
            t.transactions
            t'.transactions
  unfolding apply_input_note_nullified
  apply_input_note_nullified_lem nullifier t =
      let (t', e, d) =
        discard_transaction_with_predicate-Discards (spends nullifier) input_consumed t in
      (
        t',
        e,
        Effect-Discards (spends nullifier)
            (λ x. Memᴰ (P.nullifier_as_word nullifier) x.details.input_note_nullifiers)
            t.transactions t'.transactions
            (λ x.
              contains-Memᴰ P.word_eq (P.nullifier_as_word nullifier)
                x.details.input_note_nullifiers)
            (λ x.
              contains_not P.word_eq (P.nullifier_as_word nullifier)
                x.details.input_note_nullifiers)
            d,
      )
