-- ===== src/Store/Forest/Restore.antt =====
-- The roots and their counts when a staged change is discarded (`discard_roots` of
-- crates/rust-client/src/store/smt_forest.rs).
use miden_client.Base.{
  ◌+◌, ◌≡◌, refl, ap, ◌∙◌, ◌≢◌, inl, inr, ite, none, some, List, [], ◌∷◌, ◌++◌, arith, Option-cases,
  List-cases,
}
use miden_client.Protocol.{Protocol}
use miden_client.BTreeMap.{get, remove}
use miden_client.BTreeMap.Laws.{get-insert, get-insert_self}
use miden_client.BTreeMap.Sorted.{
  total, measure, total-remove, total-insert, insert-IsSorted, remove-IsSorted, get-remove,
}
use miden_client.Store.Forest.Api.{ForestApi, ForestLaws, by_word, by_account}
use miden_client.Store.Forest.Counts.{IsCounts, ref, count}
use miden_client.Store.Forest.{AccountSmtForest, release, clean_up, discard_roots}
use miden_client.Store.Forest.Invariant.{
  IsValid, AllHeld, occurrences, count_stack, count_stack-append, release_lem,
}
use miden_client.Store.Forest.Discard.{
  dropped, restored, pop-cases, clean_up-empty, clean_up-more, discard_roots-none,
  discard_roots-first, discard_roots-back,
}

module _ {P : Protocol} (F : ForestApi P) (laws : ForestLaws F) (a : P.AccountId)
    (s : AccountSmtForest F) (v : IsValid F s) (held : AllHeld F laws s) where
  dropped-total :
      (r : P.Word)
      → total (by_account F) (count (by_word F) r) (dropped F a s).account_roots
          + measure (by_account F) (count (by_word F) r) (get (by_account F) a s.account_roots)
        ≡ total (by_account F) (count (by_word F) r) s.account_roots
  dropped-total r =
      total-remove (by_account F) laws.accounts (count (by_word F) r) a s.account_roots

  -- An account without staged changes is dropped F a s.
  dropped-IsValid :
      (t : AccountSmtForest F)
      → t.account_roots ≡ (dropped F a s).account_roots
      → t.pending_old_roots ≡ s.pending_old_roots
      → get (by_account F) a s.pending_old_roots ≡ none
      → IsCounts (by_word F) t.root_refcounts
      → ((r : P.Word) → ref (by_word F) r t.root_refcounts ≡ occurrences F r (dropped F a s))
      → IsValid F t
  dropped-IsValid t roots pending quiet c e = record {
    roots_sorted =
        rw roots (remove-IsSorted (by_account F) laws.accounts a s.account_roots v.roots_sorted);
    pending_sorted = rw pending v.pending_sorted;
    counts = c;
    exact = λ r. rw (roots, pending) (e r);
    backed = λ b.
        rw (roots, pending)
          (ground (
            arith,
            get-remove (by_account F) laws.accounts b a s.account_roots v.roots_sorted,
            v.backed b,
          ));
    stacked = λ b. rw pending (v.stacked b);
  }

  dropped-exact :
      (r : P.Word)
      → ref (by_word F) r s.root_refcounts
        ≡ occurrences F r (dropped F a s)
          + measure (by_account F) (count (by_word F) r) (get (by_account F) a s.account_roots)
  dropped-exact r = omega (arith, dropped-total r, v.exact r)

  discard_roots-IsValid_first :
      (roots : List P.Word)
      → get (by_account F) a s.pending_old_roots ≡ none
      → get (by_account F) a s.account_roots ≡ some roots
      → IsValid F (release roots (dropped F a s)) × AllHeld F laws (release roots (dropped F a s))
  unfolding release
  discard_roots-IsValid_first roots quiet e =
      let (c, e', h) =
        release_lem F laws roots (λ r. occurrences F r (dropped F a s)) (dropped F a s) v.counts
          (λ r. ground (arith, dropped-exact r)) held in
      (dropped-IsValid (release roots (dropped F a s)) refl refl quiet c e', h)

  -- The account has its old roots back: all of validity but the empty stack.
  restored-exact :
      (roots old_roots : List P.Word) (rest : List (List P.Word)) (r : P.Word)
      → get (by_account F) a s.pending_old_roots ≡ some (rest ++ old_roots ∷ [])
      → get (by_account F) a s.account_roots ≡ some roots
      → ref (by_word F) r s.root_refcounts
        ≡ occurrences F r (restored F a s old_roots rest) + count (by_word F) r roots
  restored-exact roots old_roots rest r e e' = ground (
    arith,
    v.exact r,
    count_stack-append F r rest (old_roots ∷ []),
    total-insert (by_account F) laws.accounts (count (by_word F) r) a old_roots s.account_roots
        v.roots_sorted,
    total-insert (by_account F) laws.accounts (count_stack F r) a rest s.pending_old_roots
        v.pending_sorted,
  )

  module _ (roots old_roots : List P.Word) (rest : List (List P.Word))
      (e : get (by_account F) a s.pending_old_roots ≡ some (rest ++ old_roots ∷ []))
      (e' : get (by_account F) a s.account_roots ≡ some roots) where
    abbrev back : AccountSmtForest F
    back = release roots (restored F a s old_roots rest)

    back_lem :
        IsCounts (by_word F) back.root_refcounts
        × ((r : P.Word)
            → ref (by_word F) r back.root_refcounts
              ≡ occurrences F r (restored F a s old_roots rest))
        × AllHeld F laws back
    back_lem =
        release_lem F laws roots (λ r. occurrences F r (restored F a s old_roots rest))
          (restored F a s old_roots rest) v.counts (λ r. restored-exact roots old_roots rest r e e')
          held

    at_pending :
        (b : P.AccountId)
        → get (by_account F) b back.pending_old_roots
          ≡ ite (P.account_id_eq b a) (some rest) (get (by_account F) b s.pending_old_roots)
    unfolding release
    at_pending b = get-insert (by_account F) b a rest s.pending_old_roots

    at_roots :
        (b : P.AccountId)
        → get (by_account F) b back.account_roots
          ≡ ite (P.account_id_eq b a) (some old_roots) (get (by_account F) b s.account_roots)
    unfolding release
    at_roots b = get-insert (by_account F) b a old_roots s.account_roots

    kept-IsValid : rest ≢ [] → IsValid F back
    unfolding release
    kept-IsValid more = record {
      roots_sorted =
          insert-IsSorted (by_account F) laws.accounts a old_roots s.account_roots v.roots_sorted;
      pending_sorted =
          insert-IsSorted (by_account F) laws.accounts a rest s.pending_old_roots v.pending_sorted;
      counts = back_lem.0;
      exact = back_lem.1;
      backed = λ b. ground (arith, at_pending b, at_roots b, v.backed b);
      stacked = λ b. ground (arith, at_pending b, v.stacked b);
    }

    -- Without the empty stack.
    abbrev cleared : AccountSmtForest F
    cleared = record back { pending_old_roots = remove (by_account F) a back.pending_old_roots }

    at_cleared :
        (b : P.AccountId)
        → get (by_account F) b cleared.pending_old_roots
          ≡ ite (P.account_id_eq b a) none (get (by_account F) b back.pending_old_roots)
    unfolding release
    at_cleared b =
        get-remove (by_account F) laws.accounts b a back.pending_old_roots
          (insert-IsSorted (by_account F) laws.accounts a rest s.pending_old_roots v.pending_sorted)

    cleared-total :
        (r : P.Word)
        → rest ≡ []
        → total (by_account F) (count_stack F r) cleared.pending_old_roots
          ≡ total (by_account F) (count_stack F r) back.pending_old_roots
    cleared-total r empty = ground (
      arith,
      total-remove (by_account F) laws.accounts (count_stack F r) a back.pending_old_roots,
      at_pending a,
    )

    cleared-IsValid : rest ≡ [] → IsValid F cleared
    unfolding release
    cleared-IsValid empty = record {
      roots_sorted =
          insert-IsSorted (by_account F) laws.accounts a old_roots s.account_roots v.roots_sorted;
      pending_sorted = remove-IsSorted (by_account F) laws.accounts a back.pending_old_roots (
          insert-IsSorted (by_account F) laws.accounts a rest s.pending_old_roots v.pending_sorted);
      counts = back_lem.0;
      exact = λ r. omega (arith, back_lem.1 r, cleared-total r empty);
      backed = λ b. ground (arith, at_cleared b, at_pending b, at_roots b, v.backed b);
      stacked = λ b. ground (arith, at_cleared b, at_pending b, v.stacked b);
    }

    at_back : get (by_account F) a back.pending_old_roots ≡ some rest
    unfolding release
    at_back = get-insert_self (by_account F) a rest s.pending_old_roots

    back-IsValid : IsValid F (clean_up a back) × AllHeld F laws (clean_up a back)
    back-IsValid = elim (List-cases rest) [
      | inl empty ↦
          rw (clean_up-empty F a s back (at_back ∙ ap some empty))
            (cleared-IsValid empty, back_lem.2)
      | inr (x, xs, e'') ↦
          rw (clean_up-more F a s back x xs (at_back ∙ ap some e''))
            (kept-IsValid (λ empty. absurd (ground (arith, empty, e''))), back_lem.2)
    ]

  pub discard_roots-IsValid : IsValid F (discard_roots a s) × AllHeld F laws (discard_roots a s)
  discard_roots-IsValid = elim (Option-cases (get (by_account F) a s.pending_old_roots)) [
    | inl quiet ↦ elim (Option-cases (get (by_account F) a s.account_roots)) [
      | inl none_yet ↦ rw (discard_roots-none F a s quiet none_yet) (
        dropped-IsValid (dropped F a s) refl refl quiet v.counts
            (λ r. ground (arith, dropped-exact r)),
        held,
      )
      | inr (roots, e) ↦
          rw (discard_roots-first F a s roots quiet e) (discard_roots-IsValid_first roots quiet e)
    ]
    | inr (stack, e) ↦
        let (rest, old_roots, split) = pop-cases stack (λ empty. v.stacked a (e ∙ ap some empty)) in
        elim (Option-cases (get (by_account F) a s.account_roots)) [
          | inl none_yet ↦ absurd (ground (arith, v.backed a none_yet, e))
          | inr (roots, e') ↦
              rw (discard_roots-back F a s roots old_roots rest (e ∙ ap some split) e')
                (back-IsValid roots old_roots rest (e ∙ ap some split) e')
        ]
  ]
