-- ===== src/Store/Forest.antt =====
-- The Merkle trees of the accounts, with their roots counted
-- (crates/rust-client/src/store/smt_forest.rs). A method on `&mut self` returns the forest that it
-- leaves behind.
pub mod Api
pub mod Counts
pub mod Invariant
pub mod Stage
pub mod Replace
pub mod Commit
pub mod Discard
pub mod Restore
pub mod Trees
pub mod Held
pub mod Account
pub mod Reach
pub mod Rollback
use miden_client.Base.{
  ℕ, zero, suc, ◌+◌, ◌-◌, ◌^◌, ◌≤◌, ◌<◌, String, ◌≡◌, refl, sym, ap, ◌∙◌, ◌≢◌, ◌↔◌, ◌⊎◌, inl, inr,
  ite, Bool, true, false, not, ◌&&◌, ◌||◌, Option, none, some, List, [], ◌∷◌, ◌++◌, append_assoc,
  arith, ℕ_discrete, ltb, leb, ◌==◌, if◌then◌else◌, Result, ok, err, Bool-cases, Option-cases,
  lt→ltb, length, List-cases,
}
use miden_client.Protocol.{Protocol}
use miden_client.BTreeMap.{BTreeMap, get, insert, remove}
use miden_client.Store.Forest.Counts.{increment_refcounts, decrement_refcounts}
use miden_client.Store.Forest.Api.{ForestApi, by_word, by_account, StorageSlotContent, map, value}

pub record AccountSmtForest {P : Protocol} (F : ForestApi P) : Type 0 where
  pub forest : F.SmtForest
  pub account_roots : BTreeMap P.AccountId (List P.Word)
  -- Each stack has its last entry on top.
  pub pending_old_roots : BTreeMap P.AccountId (List (List P.Word))
  pub root_refcounts : BTreeMap P.Word ℕ

pub data StoreError {P : Protocol} (F : ForestApi P) : Type 0 where
  merkle_error : F.MerkleError → StoreError F

-- `or_default` on a list
abbrev pub or_nil : {A : Type 0} → Option (List A) → List A
or_nil none = []
or_nil (some xs) = xs

-- `Vec::pop`: what is left, and the last element.
abbrev pub pop : {A : Type 0} → List A → Option (List A × A)
pop [] = none
pop (x ∷ []) = some ([], x)
pop (x ∷ y ∷ ys) = elim (pop (y ∷ ys)) [ none ↦ none | some (rest, z) ↦ some (x ∷ rest, z) ]

abbrev pub is_empty : {A : Type 0} → List A → Bool
is_empty [] = true
is_empty (_ ∷ _) = false

module _ {P : Protocol} {F : ForestApi P} where
  abbrev pub new : AccountSmtForest F
  new = record {
    forest = F.default;
    account_roots = [];
    pending_old_roots = [];
    root_refcounts = [];
  }

  unfoldable pub get_roots : P.AccountId → AccountSmtForest F → Option (List P.Word)
  get_roots account_id s = get (by_account F) account_id s.account_roots

  -- `decrement_refcounts` and `safe_pop_smts`
  unfoldable pub release : List P.Word → AccountSmtForest F → AccountSmtForest F
  unfolding decrement_refcounts
  release roots s =
      let (counts, to_pop) = decrement_refcounts (by_word F) roots s.root_refcounts in
      record s { root_refcounts = counts; forest = F.pop_smts to_pop s.forest }

  unfoldable pub release_all : List (List P.Word) → AccountSmtForest F → AccountSmtForest F
  release_all [] s = s
  release_all (roots ∷ stack) s = release_all stack (release roots s)

  -- `if let Some(roots) = … { release }`
  release_some : Option (List P.Word) → AccountSmtForest F → AccountSmtForest F
  release_some none s = s
  release_some (some roots) s = release roots s

  unfoldable pub stage_roots : P.AccountId → List P.Word → AccountSmtForest F → AccountSmtForest F
  stage_roots account_id new_roots s =
      let s' = record s {
        root_refcounts = increment_refcounts (by_word F) new_roots s.root_refcounts;
        account_roots = insert (by_account F) account_id new_roots s.account_roots;
      } in
      elim (get (by_account F) account_id s.account_roots) [
        | none ↦ s'
        | some old_roots ↦ record s' {
          pending_old_roots =
              insert (by_account F) account_id
                (or_nil (get (by_account F) account_id s.pending_old_roots) ++ old_roots ∷ [])
                s.pending_old_roots;
        }
      ]

  unfoldable pub commit_roots : P.AccountId → AccountSmtForest F → AccountSmtForest F
  commit_roots account_id s = elim (get (by_account F) account_id s.pending_old_roots) [
    | none ↦ s
    | some stack ↦
        release_all stack
          (record s { pending_old_roots = remove (by_account F) account_id s.pending_old_roots })
  ]

  -- `get_mut` and `pop` on the account's stack
  pop_pending : P.AccountId → AccountSmtForest F → Option (List P.Word) × AccountSmtForest F
  pop_pending account_id s = elim (get (by_account F) account_id s.pending_old_roots) [
    | none ↦ (none, s)
    | some stack ↦ elim (pop stack) [
      | none ↦ (none, s)
      | some (rest, old_roots) ↦ (
        some old_roots,
        record s { pending_old_roots = insert (by_account F) account_id rest s.pending_old_roots },
      )
    ]
  ]

  -- The roots that are put back, and those that they replace.
  restore :
      P.AccountId
      → Option (List P.Word) × AccountSmtForest F
      → Option (List P.Word) × AccountSmtForest F
  restore account_id (some old_roots, s) = (
    get (by_account F) account_id s.account_roots,
    record s { account_roots = insert (by_account F) account_id old_roots s.account_roots },
  )
  restore account_id (none, s) = (
    get (by_account F) account_id s.account_roots,
    record s { account_roots = remove (by_account F) account_id s.account_roots },
  )

  -- The end of `discard_roots`: an empty stack goes.
  pub clean_up : P.AccountId → AccountSmtForest F → AccountSmtForest F
  clean_up account_id s = elim (get (by_account F) account_id s.pending_old_roots) [
    | none ↦ s
    | some stack ↦
        if is_empty stack
        then record s { pending_old_roots = remove (by_account F) account_id s.pending_old_roots }
        else s
  ]

  unfoldable pub discard_roots : P.AccountId → AccountSmtForest F → AccountSmtForest F
  unfolding pop_pending restore release_some clean_up
  discard_roots account_id s =
      let (new_roots, s') = restore account_id (pop_pending account_id s) in
      clean_up account_id (release_some new_roots s')

  -- `none` is the panic of the assertion.
  unfoldable pub replace_roots :
      P.AccountId → List P.Word → AccountSmtForest F → Option (AccountSmtForest F)
  unfolding release_some
  replace_roots account_id new_roots s = elim (get (by_account F) account_id s.pending_old_roots) [
    | some _ ↦ none
    | none ↦ some (
        release_some (get (by_account F) account_id s.account_roots) (record s {
          root_refcounts = increment_refcounts (by_word F) new_roots s.root_refcounts;
          account_roots = insert (by_account F) account_id new_roots s.account_roots;
        }))
  ]
