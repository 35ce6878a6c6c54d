-- ===== src/Store/Forest/Rollback.antt =====
-- A staged change that is discarded (`stage_roots` and `discard_roots` of
-- crates/rust-client/src/store/smt_forest.rs).
use miden_client.Base.{
  ℕ, ◌≡◌, refl, sym, ap, ◌∙◌, ◌≢◌, inl, inr, ite, Option, none, some, List, [], ◌∷◌, ◌++◌, arith,
  Option-cases, List-cases,
}
use mathlib.Core.List.{Memᴰ}
use miden_client.Protocol.{Protocol}
use miden_client.BTreeMap.{get, insert}
use miden_client.BTreeMap.Laws.{get-insert, get-insert_self}
use miden_client.BTreeMap.Sorted.{IsSorted, insert-IsSorted, get-remove}
use miden_client.BTreeMap.Same.{same_lookups}
use miden_client.Store.Forest.Api.{ForestApi, ForestLaws, by_word, by_account}
use miden_client.Store.Forest.Counts.{or_zero}
use miden_client.Store.Forest.{
  AccountSmtForest, release, or_nil, clean_up, stage_roots, discard_roots,
}
use miden_client.Store.Forest.Invariant.{IsValid, AllHeld, occurrences}
use miden_client.Store.Forest.Stage.{
  inserted, pushed, stage_roots-first, stage_roots-again, stage_roots-IsValid,
}
use miden_client.Store.Forest.Discard.{
  dropped, restored, clean_up-empty, clean_up-more, discard_roots-first, discard_roots-back,
}
use miden_client.Store.Forest.Restore.{discard_roots-IsValid}

module _ {P : Protocol} (F : ForestApi P) (laws : ForestLaws F) (a : P.AccountId)
    (new_roots : List P.Word) (s : AccountSmtForest F) (v : IsValid F s) (held : AllHeld F laws s)
    (new_held : (r : P.Word) → Memᴰ r new_roots → laws.Holds r s.forest) where
  same_count :
      (m m' : Option ℕ)
      → m ≢ some 0
      → m' ≢ some 0
      → or_zero (by_word F) m ≡ or_zero (by_word F) m'
      → m ≡ m'
  same_count none none h h' e = refl
  same_count none (some n) h h' e = absurd (h' (ap some (sym e)))
  same_count (some n) none h h' e = absurd (h (ap some e))
  same_count (some n) (some m) h h' e = ap some e

  -- The same accounts, now and before staged changes.
  abbrev SameAccounts : AccountSmtForest F → Type 0
  SameAccounts t =
      (b : P.AccountId)
      → (get (by_account F) b t.account_roots ≡ get (by_account F) b s.account_roots)
        × (get (by_account F) b t.pending_old_roots ≡ get (by_account F) b s.pending_old_roots)

  first_same :
      get (by_account F) a s.account_roots ≡ none
      → SameAccounts
          (release new_roots (dropped F a (inserted F laws a new_roots s v held new_held)))
  unfolding release
  first_same e b = (
    ground (
      arith,
      get-insert (by_account F) b a new_roots s.account_roots,
      get-remove (by_account F) laws.accounts b a
          (insert (by_account F) a new_roots s.account_roots)
          (insert-IsSorted (by_account F) laws.accounts a new_roots s.account_roots v.roots_sorted),
    ),
    refl,
  )

  module _ (old_roots : List P.Word)
      (e : get (by_account F) a s.account_roots ≡ some old_roots) where
    abbrev stack : List (List P.Word)
    stack = or_nil (get (by_account F) a s.pending_old_roots)

    abbrev staged : AccountSmtForest F
    staged = pushed F laws a new_roots s v held new_held old_roots

    abbrev back : AccountSmtForest F
    back = release new_roots (restored F a staged old_roots stack)

    back_roots :
        (b : P.AccountId)
        → get (by_account F) b back.account_roots ≡ get (by_account F) b s.account_roots
    unfolding release
    back_roots b = ground (
      arith,
      get-insert (by_account F) b a old_roots (insert (by_account F) a new_roots s.account_roots),
      get-insert (by_account F) b a new_roots s.account_roots,
    )

    back_pending :
        (b : P.AccountId)
        → get (by_account F) b back.pending_old_roots
          ≡ ite (P.account_id_eq b a) (some stack) (get (by_account F) b s.pending_old_roots)
    unfolding release
    back_pending b = ground (
      arith,
      get-insert (by_account F) b a stack staged.pending_old_roots,
      get-insert (by_account F) b a (stack ++ old_roots ∷ []) s.pending_old_roots,
    )

    at_back : get (by_account F) a back.pending_old_roots ≡ some stack
    unfolding release
    at_back = get-insert_self (by_account F) a stack staged.pending_old_roots

    back-IsSorted : IsSorted (by_account F) back.pending_old_roots
    unfolding release
    back-IsSorted = insert-IsSorted (by_account F) laws.accounts a stack staged.pending_old_roots (
        insert-IsSorted (by_account F) laws.accounts a (stack ++ old_roots ∷ []) s.pending_old_roots
          v.pending_sorted)

    cleared_same : stack ≡ [] → SameAccounts (clean_up a back)
    cleared_same empty = rw (clean_up-empty F a s back (at_back ∙ ap some empty)) (λ b. (
      back_roots b,
      ground (
        arith,
        empty,
        back_pending b,
        v.stacked a,
        get-remove (by_account F) laws.accounts b a back.pending_old_roots back-IsSorted,
      ),
    ))

    kept_same :
        (x : List P.Word) (xs : List (List P.Word))
        → stack ≡ x ∷ xs
        → SameAccounts (clean_up a back)
    kept_same x xs more =
        rw (clean_up-more F a s back x xs (at_back ∙ ap some more))
          (λ b. (back_roots b, ground (arith, more, back_pending b)))

    back_same : SameAccounts (clean_up a back)
    back_same = elim (List-cases stack) [
      | inl empty ↦ cleared_same empty
      | inr (x, xs, more) ↦ kept_same x xs more
    ]

  rolled_back_same : SameAccounts (discard_roots a (stage_roots a new_roots s))
  rolled_back_same = elim (Option-cases (get (by_account F) a s.account_roots)) [
    | inl e ↦ rw (stage_roots-first F laws a new_roots s v held new_held e) (
        rw
          (discard_roots-first F a (inserted F laws a new_roots s v held new_held) new_roots
            (v.backed a e) (get-insert_self (by_account F) a new_roots s.account_roots))
          (first_same e))
    | inr (old_roots, e) ↦ rw (stage_roots-again F laws a new_roots s v held new_held old_roots e) (
        rw
          (discard_roots-back F a (staged old_roots e) new_roots old_roots (stack old_roots e)
            (get-insert_self (by_account F) a (stack old_roots e ++ old_roots ∷ [])
              s.pending_old_roots)
            (get-insert_self (by_account F) a new_roots s.account_roots))
          (back_same old_roots e))
  ]

  same_refcounts :
      (t : AccountSmtForest F)
      → IsValid F t
      → t.account_roots ≡ s.account_roots
      → t.pending_old_roots ≡ s.pending_old_roots
      → t.root_refcounts ≡ s.root_refcounts
  same_refcounts t w roots pending =
      let same_occurrences : (r : P.Word) → occurrences F r t ≡ occurrences F r s =
        λ r. rw (roots, pending) refl in
      let same = λ (r : P.Word). w.exact r ∙ same_occurrences r ∙ sym (v.exact r) in
      same_lookups (by_word F) laws.words t.root_refcounts s.root_refcounts w.counts.sorted
        v.counts.sorted
        (λ r.
          same_count (get (by_word F) r t.root_refcounts) (get (by_word F) r s.root_refcounts)
            (w.counts.positive r) (v.counts.positive r) (same r))

  -- Discarding right after staging brings back the roots of every account, the staged changes from
  -- before and the counts. The forest is valid beforehand, and has the trees of the new roots.
  pub discard_roots-stage_roots :
      let s' = discard_roots a (stage_roots a new_roots s) in
      (s'.account_roots ≡ s.account_roots)
      × (s'.pending_old_roots ≡ s.pending_old_roots)
      × (s'.root_refcounts ≡ s.root_refcounts)
  discard_roots-stage_roots =
      let (staged_v, staged_held) = stage_roots-IsValid F laws a new_roots s v held new_held in
      let v' =
        (discard_roots-IsValid F laws a (stage_roots a new_roots s) staged_v staged_held).0 in
      let s' = discard_roots a (stage_roots a new_roots s) in
      let roots =
        same_lookups (by_account F) laws.accounts s'.account_roots s.account_roots v'.roots_sorted
          v.roots_sorted (λ b. (rolled_back_same b).0) in
      let pending =
        same_lookups (by_account F) laws.accounts s'.pending_old_roots s.pending_old_roots
          v'.pending_sorted v.pending_sorted (λ b. (rolled_back_same b).1) in
      (roots, pending, same_refcounts s' v' roots pending)
