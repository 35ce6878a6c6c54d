-- ===== src/Store/Forest/Discard.antt =====
-- The ways of discarding a staged change (`discard_roots` of
-- crates/rust-client/src/store/smt_forest.rs).
use miden_client.Base.{◌≡◌, refl, ap, ◌∙◌, ◌≢◌, Option, none, some, List, [], ◌∷◌, ◌++◌}
use miden_client.Protocol.{Protocol}
use miden_client.BTreeMap.{get, insert, remove}
use miden_client.Store.Forest.Api.{ForestApi, by_account}
use miden_client.Store.Forest.{
  AccountSmtForest, release, release_some, pop, pop_pending, restore, clean_up, discard_roots,
}

module _ {A : Type 0} where
  pop-append : (xs : List A) (x : A) → pop (xs ++ x ∷ []) ≡ some (xs, x)
  pop-append [] x = refl
  pop-append (y ∷ []) x = refl
  pop-append (y ∷ z ∷ zs) x = rw (pop-append (z ∷ zs) x) refl

  -- What `pop` leaves, with the last element put back.
  pub pop-cases : (xs : List A) → xs ≢ [] → (rest : List A) × (x : A) × (xs ≡ rest ++ x ∷ [])
  pop-cases [] h = absurd (h refl)
  pop-cases (x ∷ []) h = ([], x, refl)
  pop-cases (x ∷ y ∷ ys) h =
      let (rest, z, e) = pop-cases (y ∷ ys) (λ e'. cc) in (x ∷ rest, z, ap (λ l. x ∷ l) e)

module _ {P : Protocol} (F : ForestApi P) (a : P.AccountId) (s : AccountSmtForest F) where
  -- The account without roots, and with its old roots back.
  abbrev pub dropped : AccountSmtForest F
  dropped = record s { account_roots = remove (by_account F) a s.account_roots }

  abbrev pub restored : List P.Word → List (List P.Word) → AccountSmtForest F
  restored old_roots rest = record s {
    account_roots = insert (by_account F) a old_roots s.account_roots;
    pending_old_roots = insert (by_account F) a rest s.pending_old_roots;
  }

  -- What follows the pop.
  finish : Option (List P.Word) × AccountSmtForest F → AccountSmtForest F
  unfolding restore
  finish x = let (new_roots, s') = restore a x in clean_up a (release_some new_roots s')

  pop_pending-none : get (by_account F) a s.pending_old_roots ≡ none → pop_pending a s ≡ (none, s)
  unfolding pop_pending
  pop_pending-none e = rw (pop_pending, e) refl

  pop_pending-some :
      (old_roots : List P.Word) (rest : List (List P.Word))
      → get (by_account F) a s.pending_old_roots ≡ some (rest ++ old_roots ∷ [])
      → pop_pending a s ≡ (
        some old_roots,
        record s { pending_old_roots = insert (by_account F) a rest s.pending_old_roots },
      )
  unfolding pop_pending
  pop_pending-some old_roots rest e = rw (pop_pending, e) (rw (pop-append rest old_roots) refl)

  clean_up-none :
      (t : AccountSmtForest F) → get (by_account F) a t.pending_old_roots ≡ none → clean_up a t ≡ t
  unfolding clean_up
  clean_up-none t e = rw (clean_up, e) refl

  pub clean_up-empty :
      (t : AccountSmtForest F)
      → get (by_account F) a t.pending_old_roots ≡ some []
      → clean_up a t ≡ record t { pending_old_roots = remove (by_account F) a t.pending_old_roots }
  unfolding clean_up
  clean_up-empty t e = rw (clean_up, e) refl

  pub clean_up-more :
      (t : AccountSmtForest F) (x : List P.Word) (xs : List (List P.Word))
      → get (by_account F) a t.pending_old_roots ≡ some (x ∷ xs)
      → clean_up a t ≡ t
  unfolding clean_up
  clean_up-more t x xs e = rw (clean_up, e) refl

  pub discard_roots-none :
      get (by_account F) a s.pending_old_roots ≡ none
      → get (by_account F) a s.account_roots ≡ none
      → discard_roots a s ≡ dropped
  unfolding discard_roots finish restore release_some
  discard_roots-none e e' =
      ap finish (pop_pending-none e)
      ∙ ap (λ o. clean_up a (release_some o dropped)) e'
      ∙ clean_up-none dropped e

  pub discard_roots-first :
      (roots : List P.Word)
      → get (by_account F) a s.pending_old_roots ≡ none
      → get (by_account F) a s.account_roots ≡ some roots
      → discard_roots a s ≡ release roots dropped
  unfolding discard_roots finish restore release_some release
  discard_roots-first roots e e' =
      ap finish (pop_pending-none e)
      ∙ ap (λ o. clean_up a (release_some o dropped)) e'
      ∙ clean_up-none (release roots dropped) e

  pub discard_roots-back :
      (roots old_roots : List P.Word) (rest : List (List P.Word))
      → get (by_account F) a s.pending_old_roots ≡ some (rest ++ old_roots ∷ [])
      → get (by_account F) a s.account_roots ≡ some roots
      → discard_roots a s ≡ clean_up a (release roots (restored old_roots rest))
  unfolding discard_roots finish restore release_some
  discard_roots-back roots old_roots rest e e' =
      ap finish (pop_pending-some old_roots rest e)
      ∙ ap (λ o. clean_up a (release_some o (restored old_roots rest))) e'
