-- ===== src/Store/Forest/Invariant.antt =====
-- Every root is counted as often as an account has it, and the forest holds every counted root
-- (crates/rust-client/src/store/smt_forest.rs).
use miden_client.Base.{ℕ, ◌+◌, ◌≡◌, refl, ◌≢◌, inl, inr, none, some, List, [], ◌∷◌, ◌++◌, arith}
use miden_client.Protocol.{Protocol}
use miden_client.BTreeMap.{get}
use miden_client.BTreeMap.Sorted.{IsSorted, total}
use miden_client.Store.Forest.Api.{ForestApi, ForestLaws, by_word, by_account}
use miden_client.Store.Forest.Counts.{
  IsCounts, ref, count, decrement_refcounts, decrement_refcounts_lem,
}
use miden_client.Store.Forest.{AccountSmtForest, release, release_all}

module _ {P : Protocol} (F : ForestApi P) where
  abbrev pub count_stack : P.Word → List (List P.Word) → ℕ
  count_stack r [] = 0
  count_stack r (roots ∷ stack) = count (by_word F) r roots + count_stack r stack

  -- How often accounts have a root, current and pending.
  abbrev pub occurrences : P.Word → AccountSmtForest F → ℕ
  occurrences r s =
      total (by_account F) (count (by_word F) r) s.account_roots
      + total (by_account F) (count_stack r) s.pending_old_roots

  -- The counts are exact, every account with staged changes has roots, and no stack is empty.
  pub record IsValid (s : AccountSmtForest F) : Type 0 where
    pub roots_sorted : IsSorted (by_account F) s.account_roots
    pub pending_sorted : IsSorted (by_account F) s.pending_old_roots
    pub counts : IsCounts (by_word F) s.root_refcounts
    pub exact : (r : P.Word) → ref (by_word F) r s.root_refcounts ≡ occurrences r s
    pub backed :
        (a : P.AccountId)
        → get (by_account F) a s.account_roots ≡ none
        → get (by_account F) a s.pending_old_roots ≡ none
    pub stacked : (a : P.AccountId) → get (by_account F) a s.pending_old_roots ≢ some []

  pub count_stack-append :
      (r : P.Word) (xs ys : List (List P.Word))
      → count_stack r (xs ++ ys) ≡ count_stack r xs + count_stack r ys
  count_stack-append r [] ys = omega arith
  count_stack-append r (x ∷ xs) ys = omega (arith, count_stack-append r xs ys)

  -- Releasing roots leaves the accounts alone.
  pub release_all-accounts :
      (stack : List (List P.Word)) (s : AccountSmtForest F)
      → ((release_all stack s).account_roots ≡ s.account_roots)
        × ((release_all stack s).pending_old_roots ≡ s.pending_old_roots)
  unfolding release_all release
  release_all-accounts [] s = (refl, refl)
  release_all-accounts (roots ∷ stack) s = release_all-accounts stack (release roots s)

  module _ (laws : ForestLaws F) where
    -- Every counted root is held.
    abbrev pub AllHeld : AccountSmtForest F → Type 0
    AllHeld s = (r : P.Word) → ref (by_word F) r s.root_refcounts ≢ 0 → laws.Holds r s.forest

    pub release_lem :
        (roots : List P.Word) (n : P.Word → ℕ) (s : AccountSmtForest F)
        → IsCounts (by_word F) s.root_refcounts
        → ((r : P.Word) → ref (by_word F) r s.root_refcounts ≡ n r + count (by_word F) r roots)
        → AllHeld s
        → IsCounts (by_word F) (release roots s).root_refcounts
          × ((r : P.Word) → ref (by_word F) r (release roots s).root_refcounts ≡ n r)
          × AllHeld (release roots s)
    unfolding release
    release_lem roots n s c e held =
        let (c', e', popped) =
          decrement_refcounts_lem (by_word F) laws.words roots s.root_refcounts c in
        (
          c',
          λ r. omega (arith, e r, e' r),
          λ r h.
              elim (laws.pop_smts-Holds r (decrement_refcounts (by_word F) roots s.root_refcounts).1
                s.forest (held r (omega (arith, e' r)))) [
                  | inl still ↦ still
                  | inr gone ↦ absurd (h (popped r gone))
                ],
        )

    pub release_all_lem :
        (stack : List (List P.Word)) (n : P.Word → ℕ) (s : AccountSmtForest F)
        → IsCounts (by_word F) s.root_refcounts
        → ((r : P.Word) → ref (by_word F) r s.root_refcounts ≡ n r + count_stack r stack)
        → AllHeld s
        → IsCounts (by_word F) (release_all stack s).root_refcounts
          × ((r : P.Word) → ref (by_word F) r (release_all stack s).root_refcounts ≡ n r)
          × AllHeld (release_all stack s)
    unfolding release_all
    release_all_lem [] n s c e held = (c, λ r. omega (arith, e r), held)
    release_all_lem (roots ∷ stack) n s c e held =
        let (c', e', held') =
          release_lem roots (λ r. n r + count_stack r stack) s c (λ r. omega (arith, e r)) held in
        release_all_lem stack n (release roots s) c' e' held'
