-- ===== src/Transaction/Updates/Height.antt =====
-- What a new sync height leaves of the pending transactions (`apply_sync_height_update` of
-- crates/rust-client/src/sync/state_sync_update.rs).
use miden_client.Base.{
  ℕ, ◌+◌, ◌≤◌, ◌<◌, ◌≡◌, refl, ◌∙◌, ◌⊎◌, inl, inr, Bool, ◌||◌, Option, none, some, [], ◌∷◌, arith,
}
use miden_client.Protocol.{Protocol}
use miden_client.Transaction.Record.{TransactionRecord, stale, expired}
use miden_client.Transaction.Updates.{
  Entries, starts_at, TransactionUpdateTracker, is_stale, is_expired, apply_sync_height_update,
  discard_stale, discard_transaction_with_predicate,
}
use miden_client.Transaction.Updates.Discard.{
  NonePending, Discards, Later-trans, NonePending-Later, EndsAt-split,
}
use miden_client.Transaction.Updates.Reasons.{Turned-split, EndsAt-before, EndsAt-after}
use miden_client.Transaction.Updates.Complete.{
  Effect, Effect-Discards, discard_transaction_with_predicate-Discards,
}

module _ {P : Protocol} where
  NonePending-or :
      (p q : TransactionRecord P → Bool) (m : Entries P)
      → NonePending p m
      → NonePending q m
      → NonePending (λ x. p x || q x) m
  NonePending-or p q [] h h' = tt
  NonePending-or p q ((k, x) ∷ m) h h' = ((λ e. ground arith), NonePending-or p q m h.1 h'.1)

  -- Two discards, one after the other, are one of what either hits.
  Discards-or :
      {m n o : Entries P} (p q : TransactionRecord P → Bool)
      → Discards p m n
      → Discards q n o
      → Discards (λ x. p x || q x) m o
  Discards-or {o = o} p q d e = record {
    later = Later-trans d.later e.later;
    complete = NonePending-or p q o (NonePending-Later p e.later d.complete) e.complete;
    closed = λ s x. elim (EndsAt-split s d.later e.later x) [
      | inl before ↦ NonePending-Later (starts_at s) e.later (d.closed s before)
      | inr after ↦ e.closed s after
    ];
    justified = λ x t. elim (Turned-split x d.later e.later t) [
      | inl before ↦ elim (d.justified x before) [
        | inl h ↦ inl (ground arith)
        | inr ends ↦ inr (EndsAt-before x.details.init_account_state e.later ends)
      ]
      | inr after ↦ elim (e.justified x after) [
        | inl h ↦ inl (ground arith)
        | inr ends ↦ inr (EndsAt-after x.details.init_account_state d.later ends)
      ]
    ];
  }

  -- Out of date at a height: expired, or submitted longer ago than the delta, if there is one.
  abbrev pub IsOutdated : ℕ → Option ℕ → TransactionRecord P → Type 0
  IsOutdated height none x = x.details.expiration_block_num ≤ height
  IsOutdated height (some delta) x =
      (x.details.submission_height + delta < height) ⊎ (x.details.expiration_block_num ≤ height)

  apply_sync_height_update-step :
      (height : ℕ) (delta : Option ℕ) (t t₁ : TransactionUpdateTracker P)
      → discard_stale height delta t ≡ some t₁
      → apply_sync_height_update height delta t
        ≡ discard_transaction_with_predicate (is_expired height) expired t₁
  unfolding apply_sync_height_update
  apply_sync_height_update-step height delta t t₁ e = rw (apply_sync_height_update, e) refl

  -- The update to a new sync height returns, in every tracker and with or without a discard delta.
  -- Entries keep their keys and change at most in the status, from pending to discarded. Afterwards
  -- no pending transaction has an expiration height up to the new height, was submitted more than
  -- the delta below it (if there is a delta), or starts from the final state of a transaction that
  -- was discarded; and each transaction that was discarded was out of date in one of these ways or
  -- starts from such a state.
  pub apply_sync_height_update_lem :
      (height : ℕ) (delta : Option ℕ) (t : TransactionUpdateTracker P)
      → (t' : TransactionUpdateTracker P) × (apply_sync_height_update height delta t ≡ some t')
        × Effect (IsOutdated height delta) t.transactions t'.transactions
  unfolding discard_stale
  apply_sync_height_update_lem height none t =
      let (t', e, d) = discard_transaction_with_predicate-Discards (is_expired height) expired t in
      (
        t',
        apply_sync_height_update-step height none t t refl ∙ e,
        Effect-Discards (is_expired height) (IsOutdated height none) t.transactions t'.transactions
            (λ x h. ground arith) (λ x h h'. ground arith) d,
      )
  apply_sync_height_update_lem height (some delta) t =
      let (t₁, e₁, d₁) =
        discard_transaction_with_predicate-Discards (is_stale height delta) stale t in
      let (t₂, e₂, d₂) =
        discard_transaction_with_predicate-Discards (is_expired height) expired t₁ in
      (
        t₂,
        apply_sync_height_update-step height (some delta) t t₁ e₁ ∙ e₂,
        Effect-Discards (λ x. is_stale height delta x || is_expired height x)
            (IsOutdated height (some delta)) t.transactions t₂.transactions (λ x h. ground arith)
            (λ x h h'. ground arith)
            (Discards-or (is_stale height delta) (is_expired height) d₁ d₂),
      )
