-- ===== src/Transaction/Updates/Discard.antt =====
-- One round of discarding transactions (the loop of `discard_transaction_with_predicate` in
-- crates/rust-client/src/sync/state_sync_update.rs), and how a table compares with a later one.
use miden_client.Base.{
  ◌+◌, ◌≤◌, ◌≡◌, refl, sym, ap, ◌∙◌, ◌⊎◌, inl, inr, Bool, true, false, ◌&&◌, [], ◌∷◌, arith,
  Bool-cases, length,
}
use mathlib.Core.List.{Memᴰ}
use mathlib.Core.Path.{subst}
use mathlib.Core.Bool.{true≢false}
use miden_client.Protocol.{Protocol}
use miden_client.Transaction.Record.{
  TransactionRecord, DiscardCause, discarded, is_pending, discard_transaction,
}
use miden_client.Transaction.Updates.{Entries, mark, starts_at, count_pending}

module _ {P : Protocol} where
  -- A transaction is as it was, or was pending and is now discarded.
  abbrev pub Change : TransactionRecord P → TransactionRecord P → Type 0
  Change x y =
      (y ≡ x)
      ⊎ ((cause : DiscardCause) × (is_pending x.status ≡ true)
          × (y ≡ record x { status = discarded cause }))

  -- Entry by entry, under the same keys.
  pub data Later : Entries P → Entries P → Type 0 where
    nil : Later [] []
    cons :
        {k : P.TransactionId} {x y : TransactionRecord P} {m n : Entries P}
        → Change x y
        → Later m n
        → Later ((k, x) ∷ m) ((k, y) ∷ n)

  -- No pending transaction meets the predicate.
  abbrev pub NonePending : (TransactionRecord P → Bool) → Entries P → Type 0
  NonePending p [] = Unit
  NonePending p ((k, x) ∷ m) = ((is_pending x.status ≡ true) → p x ≡ false) × NonePending p m

  -- Some transaction with this final state was pending and is so no more.
  pub data EndsAt (s : P.Word) : Entries P → Entries P → Type 0 where
    head :
        {k k' : P.TransactionId} {x y : TransactionRecord P} {m n : Entries P}
        → is_pending x.status ≡ true
        → is_pending y.status ≡ false
        → x.details.final_account_state ≡ s
        → EndsAt s ((k, x) ∷ m) ((k', y) ∷ n)
    tail :
        {k k' : P.TransactionId} {x y : TransactionRecord P} {m n : Entries P}
        → EndsAt s m n
        → EndsAt s ((k, x) ∷ m) ((k', y) ∷ n)

  -- This transaction was pending and is so no more.
  pub data Turned (x : TransactionRecord P) : Entries P → Entries P → Type 0 where
    head :
        {k k' : P.TransactionId} {y : TransactionRecord P} {m n : Entries P}
        → is_pending x.status ≡ true
        → is_pending y.status ≡ false
        → Turned x ((k, x) ∷ m) ((k', y) ∷ n)
    tail :
        {k k' : P.TransactionId} {x' y : TransactionRecord P} {m n : Entries P}
        → Turned x m n
        → Turned x ((k, x') ∷ m) ((k', y) ∷ n)

  -- What a discard does, for its predicate.
  pub record Discards (p : TransactionRecord P → Bool) (m m' : Entries P) : Type 0 where
    pub later : Later m m'
    pub complete : NonePending p m'
    pub closed : (s : P.Word) → EndsAt s m m' → NonePending (starts_at s) m'
    pub justified :
        (x : TransactionRecord P)
        → Turned x m m'
        → (p x ≡ true) ⊎ EndsAt x.details.init_account_state m m'

  Change-trans : (x y z : TransactionRecord P) → Change x y → Change y z → Change x z
  Change-trans x y z (inl e) c = rw (← e) c
  Change-trans x y z (inr (cause, h, e)) (inl e') = inr (cause, h, e' ∙ e)
  Change-trans x y z (inr (cause, h, e)) (inr (cause', h', e')) = ground arith

  pub Change-pending : (x y : TransactionRecord P) → Change x y → is_pending y.status ≡ true → x ≡ y
  Change-pending x y c h = ground arith

  pub Later-refl : (m : Entries P) → Later m m
  Later-refl [] = nil
  Later-refl ((k, x) ∷ m) = cons (inl refl) (Later-refl m)

  pub Later-trans : {m n o : Entries P} → Later m n → Later n o → Later m o
  Later-trans nil nil = nil
  Later-trans (cons {x = x} {y = y} c l) (cons {y = z} c' l') =
      cons (Change-trans x y z c c') (Later-trans l l')

  pub NonePending-Later :
      {m n : Entries P} (p : TransactionRecord P → Bool)
      → Later m n
      → NonePending p m
      → NonePending p n
  NonePending-Later p nil h = tt
  NonePending-Later p (cons {x = x} {y = y} c l) h = (
    λ e.
        subst (λ z. p z ≡ false) (Change-pending x y c e)
          (h.0 (ap (λ z. is_pending z.status) (Change-pending x y c e) ∙ e)),
    NonePending-Later p l h.1,
  )

  Change-final :
      (x y : TransactionRecord P)
      → Change x y
      → y.details.final_account_state ≡ x.details.final_account_state
  Change-final x y c = ground arith

  EndsAt-nil : {n : Entries P} (s : P.Word) → EndsAt s [] n → ⊥
  EndsAt-nil s e = elim e [ ]

  pub EndsAt-cons :
      {k k' : P.TransactionId} {x y : TransactionRecord P} {m n : Entries P} {s : P.Word}
      → EndsAt s ((k, x) ∷ m) ((k', y) ∷ n)
      → ((is_pending x.status ≡ true)
          × (is_pending y.status ≡ false)
          × (x.details.final_account_state ≡ s))
        ⊎ EndsAt s m n
  EndsAt-cons (head h h' e) = inl (h, h', e)
  EndsAt-cons (tail t) = inr t

  pub EndsAt-same : (s : P.Word) (m : Entries P) → EndsAt s m m → ⊥
  EndsAt-same s [] e = EndsAt-nil s e
  EndsAt-same s ((k, x) ∷ m) e = elim (EndsAt-cons e) [
    | inl (still, done, _) ↦ true≢false (sym still ∙ done)
    | inr t ↦ EndsAt-same s m t
  ]

  pub EndsAt-split :
      {m n o : Entries P} (s : P.Word)
      → Later m n
      → Later n o
      → EndsAt s m o
      → EndsAt s m n ⊎ EndsAt s n o
  EndsAt-split s nil l x = elim (EndsAt-nil s x) [ ]
  EndsAt-split s (cons {x = x} {y = y} c l) (cons c' l') (head h h' e) =
      elim (Bool-cases (is_pending y.status)) [
        | inl still ↦ inr (head still h' (Change-final x y c ∙ e))
        | inr done ↦ inl (head h done e)
      ]
  EndsAt-split s (cons c l) (cons c' l') (tail t) = elim (EndsAt-split s l l' t) [
    | inl before ↦ inl (tail before)
    | inr after ↦ inr (tail after)
  ]

  pub count-Later : {m n : Entries P} → Later m n → count_pending n ≤ count_pending m
  count-Later nil = omega arith
  count-Later (cons c l) = ground (arith, count-Later l)

  module _ (p : TransactionRecord P → Bool) (cause : DiscardCause) where
    pub mark-hit :
        (k : P.TransactionId) (x : TransactionRecord P) (m : Entries P)
        → is_pending x.status ≡ true
        → p x ≡ true
        → mark p cause ((k, x) ∷ m) ≡ (
          (k, record x { status = discarded cause }) ∷ (mark p cause m).0,
          x.details.final_account_state ∷ (mark p cause m).1,
        )
    unfolding mark discard_transaction
    mark-hit k x m h h' = rw (h, h') refl

    pub mark-miss :
        (k : P.TransactionId) (x : TransactionRecord P) (m : Entries P)
        → (is_pending x.status && p x) ≡ false
        → mark p cause ((k, x) ∷ m) ≡ ((k, x) ∷ (mark p cause m).0, (mark p cause m).1)
    unfolding mark discard_transaction
    mark-miss k x m h = ground arith

    -- The two ways of an entry.
    pub mark-cases :
        (x : TransactionRecord P)
        → ((is_pending x.status ≡ true) × (p x ≡ true)) ⊎ ((is_pending x.status && p x) ≡ false)
    mark-cases x = ground arith

    pub mark-Later : (m : Entries P) → Later m (mark p cause m).0
    unfolding mark
    mark-Later [] = nil
    mark-Later ((k, x) ∷ m) = elim (mark-cases x) [
      | inl (h, h') ↦ rw (mark-hit k x m h h') (cons (inr (cause, h, refl)) (mark-Later m))
      | inr h ↦ rw (mark-miss k x m h) (cons (inl refl) (mark-Later m))
    ]

    pub mark-count :
        (m : Entries P)
        → count_pending (mark p cause m).0 + length (mark p cause m).1 ≡ count_pending m
    unfolding mark
    mark-count [] = refl
    mark-count ((k, x) ∷ m) = elim (mark-cases x) [
      | inl (h, h') ↦ rw (mark-hit k x m h h', h) (omega (arith, mark-count m))
      | inr h ↦ rw (mark-miss k x m h) (ground (arith, mark-count m))
    ]

    pub mark_complete : (m : Entries P) → NonePending p (mark p cause m).0
    unfolding mark
    mark_complete [] = tt
    mark_complete ((k, x) ∷ m) = elim (mark-cases x) [
      | inl (h, h') ↦ rw (mark-hit k x m h h') ((λ e. cc), mark_complete m)
      | inr h ↦ rw (mark-miss k x m h) ((λ e. ground arith), mark_complete m)
    ]

    pub mark-EndsAt :
        (s : P.Word) (m : Entries P) → EndsAt s m (mark p cause m).0 → Memᴰ s (mark p cause m).1
    unfolding mark
    mark-EndsAt s [] e = elim (EndsAt-nil s e) [ ]
    mark-EndsAt s ((k, x) ∷ m) e = elim (mark-cases x) [
      | inl (h, h') ↦
          rw (mark-hit k x m h h')
            (elim (EndsAt-cons (subst (λ r. EndsAt s ((k, x) ∷ m) r.0) (mark-hit k x m h h') e)) [
              | inl (_, _, final) ↦ Memᴰ.head (sym final)
              | inr t ↦ Memᴰ.tail (mark-EndsAt s m t)
            ])
      | inr h ↦
          rw (mark-miss k x m h)
            (elim (EndsAt-cons (subst (λ r. EndsAt s ((k, x) ∷ m) r.0) (mark-miss k x m h) e)) [
              | inl (still, done, _) ↦ elim (true≢false (sym still ∙ done)) [ ]
              | inr t ↦ mark-EndsAt s m t
            ])
    ]
