-- ===== src/Store/Forest/Commit.antt =====
-- The roots and their counts when staged changes are committed (`commit_roots` of
-- crates/rust-client/src/store/smt_forest.rs).
use miden_client.Base.{◌≡◌, inl, inr, some, List, arith, Option-cases}
use miden_client.Protocol.{Protocol}
use miden_client.BTreeMap.{get, remove}
use miden_client.BTreeMap.Sorted.{total-remove, remove-IsSorted, get-remove}
use miden_client.Store.Forest.Api.{ForestApi, ForestLaws, by_account}
use miden_client.Store.Forest.{AccountSmtForest, release_all, commit_roots}
use miden_client.Store.Forest.Invariant.{
  IsValid, AllHeld, occurrences, count_stack, release_all_lem, release_all-accounts,
}

module _ {P : Protocol} (F : ForestApi P) (laws : ForestLaws F) (a : P.AccountId)
    (s : AccountSmtForest F) (v : IsValid F s) (held : AllHeld F laws s) where
  -- Without the account's staged changes.
  abbrev settled : AccountSmtForest F
  settled = record s { pending_old_roots = remove (by_account F) a s.pending_old_roots }

  committed-IsValid :
      (stack : List (List P.Word))
      → get (by_account F) a s.pending_old_roots ≡ some stack
      → IsValid F (release_all stack settled) × AllHeld F laws (release_all stack settled)
  committed-IsValid stack e =
      let (c, e', h) =
        release_all_lem F laws stack (λ r. occurrences F r settled) settled v.counts
          (λ r. ground (
            arith,
            v.exact r,
            total-remove (by_account F) laws.accounts (count_stack F r) a s.pending_old_roots,
          ))
          held in
      let (roots, pending) = release_all-accounts F stack settled in
      let at = λ (b : P.AccountId).
        get-remove (by_account F) laws.accounts b a s.pending_old_roots v.pending_sorted in
      (
        record {
          roots_sorted = rw roots v.roots_sorted;
          pending_sorted =
              rw pending (
                remove-IsSorted (by_account F) laws.accounts a s.pending_old_roots
                  v.pending_sorted);
          counts = c;
          exact = λ r. rw (roots, pending) (e' r);
          backed = λ b. rw (roots, pending) (ground (arith, at b, v.backed b));
          stacked = λ b. rw pending (ground (arith, at b, v.stacked b));
        },
        h,
      )

  -- Committing keeps the forest valid.
  pub commit_roots-IsValid : IsValid F (commit_roots a s) × AllHeld F laws (commit_roots a s)
  unfolding commit_roots
  commit_roots-IsValid = elim (Option-cases (get (by_account F) a s.pending_old_roots)) [
    | inl e ↦ rw (commit_roots, e) (v, held)
    | inr (stack, e) ↦ rw (commit_roots, e) (committed-IsValid stack e)
  ]
