-- ===== src/Store/Forest/Replace.antt =====
-- The roots and their counts when roots are replaced at once (`replace_roots` of
-- crates/rust-client/src/store/smt_forest.rs).
use miden_client.Base.{◌≡◌, refl, inl, inr, none, some, List, arith, Option-cases}
use mathlib.Core.List.{Memᴰ}
use miden_client.Protocol.{Protocol}
use miden_client.BTreeMap.{get}
use miden_client.BTreeMap.Laws.{get-insert}
use miden_client.Store.Forest.Api.{ForestApi, ForestLaws, by_account}
use miden_client.Store.Forest.{AccountSmtForest, release, release_some, replace_roots}
use miden_client.Store.Forest.Invariant.{IsValid, AllHeld, occurrences, release_lem}
use miden_client.Store.Forest.Stage.{
  inserted, counted, inserted-AllHeld, inserted-IsSorted, inserted_total, inserted-IsValid,
}

module _ {P : Protocol} (F : ForestApi P) (laws : ForestLaws F) (a : P.AccountId)
    (new_roots : List P.Word) (s : AccountSmtForest F) (v : IsValid F s) (held : AllHeld F laws s)
    (new_held : (r : P.Word) → Memᴰ r new_roots → laws.Holds r s.forest)
    (quiet : get (by_account F) a s.pending_old_roots ≡ none) where
  abbrev after : AccountSmtForest F
  after = inserted F laws a new_roots s v held new_held

  replaced-IsValid :
      (old_roots : List P.Word)
      → get (by_account F) a s.account_roots ≡ some old_roots
      → IsValid F (release old_roots after) × AllHeld F laws (release old_roots after)
  unfolding release
  replaced-IsValid old_roots e =
      let (c, e', h) =
        release_lem F laws old_roots (λ r. occurrences F r after) after
          (counted F laws a new_roots s v held new_held).0
          (λ r. ground (
            arith,
            (counted F laws a new_roots s v held new_held).1 r,
            inserted_total F laws a new_roots s v held new_held r,
          ))
          (inserted-AllHeld F laws a new_roots s v held new_held) in
      (
        record {
          roots_sorted = inserted-IsSorted F laws a new_roots s v held new_held;
          pending_sorted = v.pending_sorted;
          counts = c;
          exact = e';
          backed = λ b.
              ground (arith, get-insert (by_account F) b a new_roots s.account_roots, v.backed b);
          stacked = v.stacked;
        },
        h,
      )

  -- Replacing does not panic, and keeps the forest valid.
  pub replace_roots-IsValid :
      (s' : AccountSmtForest F) × (replace_roots a new_roots s ≡ some s')
      × IsValid F s'
      × AllHeld F laws s'
  unfolding replace_roots release_some
  replace_roots-IsValid = elim (Option-cases (get (by_account F) a s.account_roots)) [
    | inl e ↦ (
      after,
      rw (replace_roots, quiet) (rw e refl),
      inserted-IsValid F laws a new_roots s v held new_held e,
      inserted-AllHeld F laws a new_roots s v held new_held,
    )
    | inr (old_roots, e) ↦ (
      release old_roots after,
      rw (replace_roots, quiet) (rw e refl),
      (replaced-IsValid old_roots e).0,
      (replaced-IsValid old_roots e).1,
    )
  ]
