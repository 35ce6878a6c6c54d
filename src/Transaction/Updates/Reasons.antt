-- ===== src/Transaction/Updates/Reasons.antt =====
-- The reasons for which transactions are discarded
-- (crates/rust-client/src/sync/state_sync_update.rs).
use miden_client.Base.{
  ◌≡◌, refl, sym, ap, ◌∙◌, ◌⊎◌, inl, inr, Bool, true, false, [], ◌∷◌, arith, Bool-cases,
}
use mathlib.Core.List.{Memᴰ}
use mathlib.Core.Path.{subst}
use mathlib.Core.Bool.{true≢false}
use miden_client.Protocol.{Protocol}
use miden_client.Transaction.Record.{TransactionRecord, DiscardCause, discarded, is_pending}
use miden_client.Transaction.Updates.{Entries, mark, starts_at}
use miden_client.Transaction.Updates.Discard.{
  Later, nil, cons, EndsAt, Turned, Change, Change-pending, mark-hit, mark-miss, mark-cases,
}

module _ {P : Protocol} where
  Turned-cons :
      {k k' : P.TransactionId} {x x' y : TransactionRecord P} {m n : Entries P}
      → Turned x ((k, x') ∷ m) ((k', y) ∷ n)
      → ((x' ≡ x) × (is_pending x'.status ≡ true) × (is_pending y.status ≡ false)) ⊎ Turned x m n
  Turned-cons (Turned.head h h') = inl (refl, h, h')
  Turned-cons (Turned.tail t) = inr t

  pub Turned-same : (x : TransactionRecord P) (m : Entries P) → Turned x m m → ⊥
  Turned-same x [] t = elim t [ ]
  Turned-same x ((k, x') ∷ m) t = elim (Turned-cons t) [
    | inl (_, still, done) ↦ true≢false (sym still ∙ done)
    | inr t' ↦ Turned-same x m t'
  ]

  Turned-at :
      {k k' : P.TransactionId} {z : TransactionRecord P} {n o : Entries P}
      (x y : TransactionRecord P)
      → x ≡ y
      → is_pending x.status ≡ true
      → is_pending z.status ≡ false
      → Turned x ((k, y) ∷ n) ((k', z) ∷ o)
  Turned-at {k} {k'} {z} {n} {o} x y e h h' =
      subst (λ w. Turned x ((k, w) ∷ n) ((k', z) ∷ o)) e (Turned.head h h')

  -- What turned in two runs turned in one of them.
  pub Turned-split :
      {m n o : Entries P} (x : TransactionRecord P)
      → Later m n
      → Later n o
      → Turned x m o
      → Turned x m n ⊎ Turned x n o
  Turned-split x nil l t = elim t [ ]
  Turned-split x (cons {y = y} c l) (cons c' l') (Turned.head h h') =
      elim (Bool-cases (is_pending y.status)) [
        | inl still ↦ inr (Turned-at x y (Change-pending x y c still) h h')
        | inr done ↦ inl (Turned.head h done)
      ]
  Turned-split x (cons c l) (cons c' l') (Turned.tail t) = elim (Turned-split x l l' t) [
    | inl before ↦ inl (Turned.tail before)
    | inr after ↦ inr (Turned.tail after)
  ]

  Change-done :
      (x y : TransactionRecord P)
      → Change x y
      → is_pending x.status ≡ false
      → is_pending y.status ≡ false
  Change-done x y c h = ground arith

  -- An end stays one in a longer run.
  pub EndsAt-before :
      {n o : Entries P} (s : P.Word) → Later n o → {m : Entries P} → EndsAt s m n → EndsAt s m o
  EndsAt-before s nil t = elim t [ ]
  EndsAt-before s (cons {x = y} {y = z} c l) (EndsAt.head h h' e) =
      EndsAt.head h (Change-done y z c h') e
  EndsAt-before s (cons c l) (EndsAt.tail t) = EndsAt.tail (EndsAt-before s l t)

  pub EndsAt-after : {m n o : Entries P} (s : P.Word) → Later m n → EndsAt s n o → EndsAt s m o
  EndsAt-after s nil t = elim t [ ]
  EndsAt-after s (cons {x = x} {y = y} c l) (EndsAt.head h h' e) =
      EndsAt.head (ap (λ z. is_pending z.status) (Change-pending x y c h) ∙ h) h'
        (ap (λ z. z.details.final_account_state) (Change-pending x y c h) ∙ e)
  EndsAt-after s (cons c l) (EndsAt.tail t) = EndsAt.tail (EndsAt-after s l t)

  pub starts_at-init :
      (s : P.Word) (x : TransactionRecord P)
      → starts_at s x ≡ true
      → x.details.init_account_state ≡ s
  starts_at-init s x h = ground arith

  module _ (p : TransactionRecord P → Bool) (cause : DiscardCause) where
    pub mark_only :
        (x : TransactionRecord P) (m : Entries P) → Turned x m (mark p cause m).0 → p x ≡ true
    unfolding mark
    mark_only x [] t = elim t [ ]
    mark_only x ((k, x') ∷ m) t = elim (mark-cases p cause x') [
      | inl (h, h') ↦
          elim (Turned-cons
            (subst (λ r. Turned x ((k, x') ∷ m) r.0) (mark-hit p cause k x' m h h') t)) [
              | inl (e, _, _) ↦ subst (λ z. p z ≡ true) e h'
              | inr t' ↦ mark_only x m t'
            ]
      | inr h ↦
          elim (Turned-cons
            (subst (λ r. Turned x ((k, x') ∷ m) r.0) (mark-miss p cause k x' m h) t)) [
              | inl (_, still, done) ↦ elim (true≢false (sym still ∙ done)) [ ]
              | inr t' ↦ mark_only x m t'
            ]
    ]

    mem_states :
        (s : P.Word) (k : P.TransactionId) (x : TransactionRecord P) (m : Entries P)
        → is_pending x.status ≡ true
        → (Memᴰ s (mark p cause m).1 → EndsAt s m (mark p cause m).0)
        → Memᴰ s (x.details.final_account_state ∷ (mark p cause m).1)
        → EndsAt s ((k, x) ∷ m) ((k, record x { status = discarded cause }) ∷ (mark p cause m).0)
    mem_states s k x m h rest (Memᴰ.head e) = EndsAt.head h refl (sym e)
    mem_states s k x m h rest (Memᴰ.tail t) = EndsAt.tail (rest t)

    pub mark_states :
        (s : P.Word) (m : Entries P) → Memᴰ s (mark p cause m).1 → EndsAt s m (mark p cause m).0
    unfolding mark
    mark_states s [] e = elim e [ ]
    mark_states s ((k, x) ∷ m) e = elim (mark-cases p cause x) [
      | inl (h, h') ↦ rw (mark-hit p cause k x m h h') (
          mem_states s k x m h (mark_states s m)
            (subst (λ r. Memᴰ s r.1) (mark-hit p cause k x m h h') e))
      | inr h ↦
          rw (mark-miss p cause k x m h)
            (EndsAt.tail (mark_states s m (subst (λ r. Memᴰ s r.1) (mark-miss p cause k x m h) e)))
    ]
