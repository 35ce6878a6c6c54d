-- ===== src/Transaction/Updates/Chain.antt =====
-- The discard of a whole chain of transactions, with its fuel (`discard_transaction_with_predicate`
-- of crates/rust-client/src/sync/state_sync_update.rs).
use miden_client.Base.{
  ℕ, zero, suc, ◌+◌, ◌≤◌, ◌<◌, ◌≡◌, refl, sym, ◌∙◌, ◌⊎◌, inl, inr, Bool, Option, some, List, [],
  ◌∷◌, arith, length,
}
use mathlib.Core.List.{Memᴰ}
use mathlib.Core.Path.{subst}
use miden_client.Protocol.{Protocol}
use miden_client.Transaction.Record.{TransactionRecord, DiscardCause, discarded_initial_state}
use miden_client.Transaction.Updates.{
  Entries, mark, cascade, starts_at, count_pending, discard_entries,
}
use miden_client.Transaction.Updates.Reasons.{
  Turned-same, Turned-split, EndsAt-before, EndsAt-after, starts_at-init, mark_only, mark_states,
}
use miden_client.Transaction.Updates.Discard.{
  Turned, Later, NonePending, EndsAt, Discards, Later-refl, Later-trans, NonePending-Later,
  EndsAt-split, EndsAt-same, count-Later, mark-Later, mark-count, mark_complete, mark-EndsAt,
}

module _ {P : Protocol} where
  -- What a discard of the transactions from one state does on tables of fewer pending ones.
  abbrev IsDiscard : ℕ → (P.Word → Entries P → Option (Entries P)) → Type 0
  IsDiscard fuel discard =
      (s : P.Word) (m : Entries P)
      → count_pending m < fuel
      → (m' : Entries P) × (discard s m ≡ some m') × Discards (starts_at s) m m'

  -- The result of a cascade over the states `ss`.
  record Cascades (ss : List P.Word) (m m' : Entries P) : Type 0 where
    later : Later m m'
    each : (s : P.Word) → Memᴰ s ss → NonePending (starts_at s) m'
    closed : (s : P.Word) → EndsAt s m m' → NonePending (starts_at s) m'
    justified :
        (x : TransactionRecord P)
        → Turned x m m'
        → Memᴰ x.details.init_account_state ss ⊎ EndsAt x.details.init_account_state m m'

  cascade-cons :
      (discard : P.Word → Entries P → Option (Entries P)) (s : P.Word) (ss : List P.Word)
      (m m₁ : Entries P)
      → discard s m ≡ some m₁
      → cascade discard (s ∷ ss) m ≡ cascade discard ss m₁
  unfolding cascade
  cascade-cons discard s ss m m₁ e = rw (cascade, e) refl

  cascade-Cascades :
      (fuel : ℕ) (discard : P.Word → Entries P → Option (Entries P))
      → IsDiscard fuel discard
      → (ss : List P.Word) (m : Entries P) → count_pending m + length ss ≤ fuel
      → (m' : Entries P) × (cascade discard ss m ≡ some m') × Cascades ss m m'
  unfolding cascade
  cascade-Cascades fuel discard ih [] m h = (
    m,
    refl,
    record {
      later = Later-refl m;
      each = λ s e. elim e [ ];
      closed = λ s e. elim (EndsAt-same s m e) [ ];
      justified = λ x t. elim (Turned-same x m t) [ ];
    },
  )
  cascade-Cascades fuel discard ih (s ∷ ss) m h =
      let (m₁, e₁, d) = ih s m (omega arith) in
      let (m₂, e₂, c) =
        cascade-Cascades fuel discard ih ss m₁ (omega (arith, count-Later d.later)) in
      (
        m₂,
        cascade-cons discard s ss m m₁ e₁ ∙ e₂,
        record {
          later = Later-trans d.later c.later;
          each = λ s' e. elim e [
            | Memᴰ.head q ↦
                NonePending-Later (starts_at s') c.later
                  (subst (λ z. NonePending (starts_at z) m₁) (sym q) d.complete)
            | Memᴰ.tail t ↦ c.each s' t
          ];
          closed = λ s' e. elim (EndsAt-split s' d.later c.later e) [
            | inl before ↦ NonePending-Later (starts_at s') c.later (d.closed s' before)
            | inr after ↦ c.closed s' after
          ];
          justified = λ x t. elim (Turned-split x d.later c.later t) [
            | inl before ↦ elim (d.justified x before) [
              | inl starts ↦ inl (Memᴰ.head (starts_at-init s x starts))
              | inr ends ↦ inr (EndsAt-before x.details.init_account_state c.later ends)
            ]
            | inr after ↦ elim (c.justified x after) [
              | inl listed ↦ inl (Memᴰ.tail listed)
              | inr ends ↦ inr (EndsAt-after x.details.init_account_state d.later ends)
            ]
          ];
        },
      )

  not_below : (m : Entries P) → count_pending m < 0 → ⊥
  not_below m = omega arith

  -- One more than the number of pending transactions is fuel enough.
  pub discard_entries_lem :
      (fuel : ℕ) (p : TransactionRecord P → Bool) (cause : DiscardCause) (m : Entries P)
      → count_pending m < fuel
      → (m' : Entries P) × (discard_entries fuel p cause m ≡ some m') × Discards p m m'
  unfolding discard_entries
  discard_entries_lem zero p cause m h = elim (not_below m h) [ ]
  discard_entries_lem (suc fuel) p cause m h =
      let (m', e, c) =
        cascade-Cascades fuel (λ s. discard_entries fuel (starts_at s) discarded_initial_state)
          (λ s. discard_entries_lem fuel (starts_at s) discarded_initial_state) (mark p cause m).1
          (mark p cause m).0 (omega (arith, mark-count p cause m)) in
      (
        m',
        e,
        record {
          later = Later-trans (mark-Later p cause m) c.later;
          complete = NonePending-Later p c.later (mark_complete p cause m);
          closed = λ s x. elim (EndsAt-split s (mark-Later p cause m) c.later x) [
            | inl before ↦ c.each s (mark-EndsAt p cause s m before)
            | inr after ↦ c.closed s after
          ];
          justified = λ x t. elim (Turned-split x (mark-Later p cause m) c.later t) [
            | inl before ↦ inl (mark_only p cause x m before)
            | inr after ↦ elim (c.justified x after) [
              | inl listed ↦ inr (
                  EndsAt-before x.details.init_account_state c.later
                    (mark_states p cause x.details.init_account_state m listed))
              | inr ends ↦
                  inr (EndsAt-after x.details.init_account_state (mark-Later p cause m) ends)
            ]
          ];
        },
      )
