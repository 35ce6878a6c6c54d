-- ===== src/Store/Forest/Stage.antt =====
-- The roots and their counts when roots are staged or replaced (`stage_roots` and `replace_roots`
-- of crates/rust-client/src/store/smt_forest.rs).
use miden_client.Base.{
  ◌+◌, ◌≡◌, refl, ◌≢◌, inl, inr, none, some, List, [], ◌∷◌, ◌++◌, arith, ℕ_discrete, Option-cases,
}
use mathlib.Core.List.{Memᴰ}
use miden_client.Protocol.{Protocol}
use miden_client.BTreeMap.{get, insert}
use miden_client.BTreeMap.Laws.{get-insert}
use miden_client.BTreeMap.Sorted.{IsSorted, total, measure, total-insert, insert-IsSorted}
use miden_client.Store.Forest.Api.{ForestApi, ForestLaws, by_word, by_account}
use miden_client.Store.Forest.Counts.{
  IsCounts, ref, count, increment_refcounts, increment_refcounts_lem,
}
use miden_client.Store.Forest.{AccountSmtForest, stage_roots, or_nil}
use miden_client.Store.Forest.Invariant.{
  IsValid, AllHeld, count_stack, occurrences, count_stack-append,
}

module _ {P : Protocol} (F : ForestApi P) (laws : ForestLaws F) (a : P.AccountId)
    (new_roots : List P.Word) (s : AccountSmtForest F) (v : IsValid F s) (held : AllHeld F laws s)
    (new_held : (r : P.Word) → Memᴰ r new_roots → laws.Holds r s.forest) where
  -- The state after the first two writes.
  abbrev pub inserted : AccountSmtForest F
  inserted = record s {
    root_refcounts = increment_refcounts (by_word F) new_roots s.root_refcounts;
    account_roots = insert (by_account F) a new_roots s.account_roots;
  }

  -- With the account's staged roots on top.
  abbrev pub pushed : List P.Word → AccountSmtForest F
  pushed old_roots = record inserted {
    pending_old_roots =
        insert (by_account F) a
          (or_nil (get (by_account F) a s.pending_old_roots) ++ old_roots ∷ []) s.pending_old_roots;
  }

  pub stage_roots-first :
      get (by_account F) a s.account_roots ≡ none → stage_roots a new_roots s ≡ inserted
  unfolding stage_roots
  stage_roots-first e = rw (stage_roots, e) refl

  pub stage_roots-again :
      (old_roots : List P.Word)
      → get (by_account F) a s.account_roots ≡ some old_roots
      → stage_roots a new_roots s ≡ pushed old_roots
  unfolding stage_roots
  stage_roots-again old_roots e = rw (stage_roots, e) refl

  pub counted :
      IsCounts (by_word F) inserted.root_refcounts
      × ((r : P.Word)
          → ref (by_word F) r inserted.root_refcounts
            ≡ occurrences F r s + count (by_word F) r new_roots)
  counted =
      let (c, e) =
        increment_refcounts_lem (by_word F) laws.words new_roots s.root_refcounts v.counts in
      (c, λ r. omega (arith, e r, v.exact r))

  -- A root that is counted was counted or is a new one.
  count_Memᴰ : (r : P.Word) (roots : List P.Word) → count (by_word F) r roots ≢ 0 → Memᴰ r roots
  count_Memᴰ r [] h = absurd (h refl)
  count_Memᴰ r (x ∷ roots) h = elim (P.word_eq r x) [
    | yes e ↦ Memᴰ.head e
    | no ne ↦ Memᴰ.tail (count_Memᴰ r roots (ground arith))
  ]

  pub inserted-AllHeld : AllHeld F laws inserted
  inserted-AllHeld r h = elim (ℕ_discrete (count (by_word F) r new_roots) 0) [
    | yes e ↦ held r (omega (arith, counted.1 r, v.exact r))
    | no ne ↦ new_held r (count_Memᴰ r new_roots ne)
  ]

  pub inserted-IsSorted : IsSorted (by_account F) inserted.account_roots
  inserted-IsSorted =
      insert-IsSorted (by_account F) laws.accounts a new_roots s.account_roots v.roots_sorted

  pub inserted_total :
      (r : P.Word)
      → total (by_account F) (count (by_word F) r) inserted.account_roots
          + measure (by_account F) (count (by_word F) r) (get (by_account F) a s.account_roots)
        ≡ total (by_account F) (count (by_word F) r) s.account_roots + count (by_word F) r new_roots
  inserted_total r =
      total-insert (by_account F) laws.accounts (count (by_word F) r) a new_roots s.account_roots
        v.roots_sorted

  pub inserted-IsValid : get (by_account F) a s.account_roots ≡ none → IsValid F inserted
  inserted-IsValid e = record {
    roots_sorted = inserted-IsSorted;
    pending_sorted = v.pending_sorted;
    counts = counted.0;
    exact = λ r. ground (arith, counted.1 r, inserted_total r);
    backed =
        λ b. ground (arith, get-insert (by_account F) b a new_roots s.account_roots, v.backed b);
    stacked = v.stacked;
  }

  pushed_total :
      (r : P.Word) (old_roots : List P.Word)
      → total (by_account F) (count_stack F r) (pushed old_roots).pending_old_roots
        ≡ total (by_account F) (count_stack F r) s.pending_old_roots + count (by_word F) r old_roots
  pushed_total r old_roots =
      let stack = or_nil (get (by_account F) a s.pending_old_roots) in
      ground (
        arith,
        total-insert (by_account F) laws.accounts (count_stack F r) a (stack ++ old_roots ∷ [])
            s.pending_old_roots v.pending_sorted,
        count_stack-append F r stack (old_roots ∷ []),
      )

  append_not : (xs : List (List P.Word)) (x : List P.Word) → xs ++ x ∷ [] ≢ []
  append_not [] x e = cc
  append_not (y ∷ ys) x e = cc

  pushed-IsValid :
      (old_roots : List P.Word)
      → get (by_account F) a s.account_roots ≡ some old_roots
      → IsValid F (pushed old_roots)
  pushed-IsValid old_roots e =
      let stack = or_nil (get (by_account F) a s.pending_old_roots) in
      let at = λ (b : P.AccountId).
        get-insert (by_account F) b a (stack ++ old_roots ∷ []) s.pending_old_roots in
      record {
        roots_sorted = inserted-IsSorted;
        pending_sorted =
            insert-IsSorted (by_account F) laws.accounts a (stack ++ old_roots ∷ [])
              s.pending_old_roots v.pending_sorted;
        counts = counted.0;
        exact = λ r. ground (arith, counted.1 r, inserted_total r, pushed_total r old_roots);
        backed = λ b.
            ground
              (arith, at b, get-insert (by_account F) b a new_roots s.account_roots, v.backed b);
        stacked = λ b. ground (arith, at b, append_not stack old_roots, v.stacked b);
      }

  -- Staging keeps the forest valid.
  pub stage_roots-IsValid :
      IsValid F (stage_roots a new_roots s) × AllHeld F laws (stage_roots a new_roots s)
  stage_roots-IsValid = elim (Option-cases (get (by_account F) a s.account_roots)) [
    | inl e ↦ rw (stage_roots-first e) (inserted-IsValid e, inserted-AllHeld)
    | inr (old_roots, e) ↦
        rw (stage_roots-again old_roots e) (pushed-IsValid old_roots e, inserted-AllHeld)
  ]
