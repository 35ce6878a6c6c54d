-- ===== src/Store/Forest/Reach.antt =====
-- What the forest goes through, as a step relation
-- (crates/rust-client/src/store/smt_forest.rs).
use miden_client.Base.{
  ◌≡◌, refl, sym, ap, ◌∙◌, ◌≢◌, inl, inr, Option, none, some, List, Result, ok, err, Option-cases,
}
use mathlib.Core.List.{Memᴰ}
use mathlib.Core.Option
use mathlib.Core.Option.{some-injective}
use mathlib.Core.Path.{subst}
use miden_client.Protocol.{Protocol}
use miden_client.BTreeMap.{get}
use miden_client.Store.Forest.Api.{ForestApi, ForestLaws, StorageSlotContent, by_account}
use miden_client.Store.Forest.{
  AccountSmtForest, StoreError, new, stage_roots, commit_roots, discard_roots, replace_roots,
}
use miden_client.Store.Forest.Trees.{
  update_asset_nodes, update_storage_map_nodes, insert_account_state, collect_account_roots,
  insert_and_stage_account_state, insert_and_register_account_state, register,
  insert_storage_map_nodes_for_map, insert_asset_nodes, then_step,
}
use miden_client.Store.Forest.Held.{
  Grows, insert_entries-Grows, insert_account_state-Grows, insert_for_map-Grows,
  insert_assets-Grows,
}
use miden_client.Store.Forest.Account.{account_held}
use miden_client.Store.Forest.Invariant.{IsValid, AllHeld}
use miden_client.Store.Forest.Stage.{stage_roots-IsValid}
use miden_client.Store.Forest.Replace.{replace_roots-IsValid}
use miden_client.Store.Forest.Commit.{commit_roots-IsValid}
use miden_client.Store.Forest.Restore.{discard_roots-IsValid}

module _ {P : Protocol} (F : ForestApi P) (laws : ForestLaws F) where
  -- A call of a method, failed or not. Roots that are set by hand have their trees in the forest.
  pub data Step (s : AccountSmtForest F) : AccountSmtForest F → Type 0 where
    updated_assets :
        (root : P.Word) (new_assets : List F.Asset) (removed_vault_keys : List F.AssetVaultKey)
        → Step s (update_asset_nodes root new_assets removed_vault_keys s).1
    updated_storage_map :
        (root : P.Word) (entries : List (F.StorageMapKey × P.Word))
        → Step s (update_storage_map_nodes root entries s).1
    inserted_assets : (vault : F.AssetVault) → Step s (insert_asset_nodes vault s).1
    inserted_map : (m : F.StorageMap) → Step s (insert_storage_map_nodes_for_map m s).1
    inserted_state :
        (vault : F.AssetVault) (storage : List (StorageSlotContent F))
        → Step s (insert_account_state vault storage s).1
    staged_state :
        (a : P.AccountId) (vault : F.AssetVault) (storage : List (StorageSlotContent F))
        → Step s (insert_and_stage_account_state a vault storage s).1
    registered_state :
        (a : P.AccountId) (vault : F.AssetVault) (storage : List (StorageSlotContent F))
        (x : Result {0, 0} (StoreError F) Unit × AccountSmtForest F)
        → insert_and_register_account_state a vault storage s ≡ some x
        → Step s x.1
    staged :
        (a : P.AccountId) (roots : List P.Word)
        → ((r : P.Word) → Memᴰ r roots → laws.Holds r s.forest)
        → Step s (stage_roots a roots s)
    replaced :
        (a : P.AccountId) (roots : List P.Word) (s' : AccountSmtForest F)
        → ((r : P.Word) → Memᴰ r roots → laws.Holds r s.forest)
        → replace_roots a roots s ≡ some s'
        → Step s s'
    committed : (a : P.AccountId) → Step s (commit_roots a s)
    discarded : (a : P.AccountId) → Step s (discard_roots a s)

  pub data Reach (s : AccountSmtForest F) : AccountSmtForest F → Type 0 where
    here : Reach s s
    next : {t u : AccountSmtForest F} → Reach s t → Step t u → Reach s u

  -- Valid, and every counted root is held.
  abbrev Good : AccountSmtForest F → Type 0
  Good s = IsValid F s × AllHeld F laws s

  new-Good : Good new
  unfolding get
  new-Good = (
    record {
      roots_sorted = tt;
      pending_sorted = tt;
      counts = record { sorted = tt; positive = λ k e. absurd (cc) };
      exact = λ r. refl;
      backed = λ a e. refl;
      stacked = λ a e. absurd (cc);
    },
    λ r h. absurd (h refl),
  )

  Grows-Good : (s s' : AccountSmtForest F) → Grows F laws s s' → Good s → Good s'
  Grows-Good s s' g (v, held) = (
    record {
      roots_sorted = rw g.same_roots v.roots_sorted;
      pending_sorted = rw g.same_pending v.pending_sorted;
      counts = rw g.same_counts v.counts;
      exact = λ r. rw (g.same_roots, g.same_pending, g.same_counts) (v.exact r);
      backed = λ a. rw (g.same_roots, g.same_pending) (v.backed a);
      stacked = λ a. rw g.same_pending (v.stacked a);
    },
    λ r. rw g.same_counts (λ h. g.keeps r (held r h)),
  )

  replace_pending :
      (a : P.AccountId) (roots : List P.Word) (s : AccountSmtForest F) (stack : List (List P.Word))
      → get (by_account F) a s.pending_old_roots ≡ some stack
      → (s' : AccountSmtForest F) → replace_roots a roots s ≢ some s'
  unfolding replace_roots
  replace_pending a roots s stack pending s' e =
      let e' : replace_roots a roots s ≡ none = rw (replace_roots, pending) refl in cc

  replaced-Good :
      (a : P.AccountId) (roots : List P.Word) (s s' : AccountSmtForest F)
      → ((r : P.Word) → Memᴰ r roots → laws.Holds r s.forest)
      → replace_roots a roots s ≡ some s'
      → Good s
      → Good s'
  replaced-Good a roots s s' h e (v, held) =
      elim (Option-cases (get (by_account F) a s.pending_old_roots)) [
        | inl quiet ↦
            let (s'', e', v', held') = replace_roots-IsValid F laws a roots s v held h quiet in
            subst Good (some-injective _ _ (sym e' ∙ e)) (v', held')
        | inr (stack, pending) ↦ absurd (replace_pending a roots s stack pending s' e)
      ]

  module _ (a : P.AccountId) (roots : List P.Word) (s : AccountSmtForest F) (g : Good s) where
    stage_after :
        (x : Result {0, 0} (StoreError F) Unit × AccountSmtForest F)
        → Grows F laws s x.1
        → (x.0 ≡ ok tt → (r : P.Word) → Memᴰ r roots → laws.Holds r x.1.forest)
        → Good (then_step x (λ s'. (ok tt, stage_roots a roots s'))).1
    stage_after (ok tt, s') grows h =
        let (v, held) = Grows-Good s s' grows g in
        stage_roots-IsValid F laws a roots s' v held (h refl)
    stage_after (err _, s') grows h = Grows-Good s s' grows g

    register_after :
        (x y : Result {0, 0} (StoreError F) Unit × AccountSmtForest F)
        → Grows F laws s x.1
        → (x.0 ≡ ok tt → (r : P.Word) → Memᴰ r roots → laws.Holds r x.1.forest)
        → register a roots x ≡ some y
        → Good y.1
    register_after (ok tt, s') y grows h e = registered (replace_roots a roots s') refl e
      where
        registered :
            (o : Option (AccountSmtForest F))
            → replace_roots a roots s' ≡ o
            → Option.map (λ s''. (ok tt, s'')) o ≡ some y
            → Good y.1
        registered none e₁ e₂ = absurd (cc)
        registered (some s'') e₁ e₂ =
            subst Good (ap (λ z. z.1) (some-injective _ _ e₂))
              (replaced-Good a roots s' s'' (h refl) e₁ (Grows-Good s s' grows g))
    register_after (err _, s') y grows h e =
        subst (λ z. Good z.1) (some-injective _ _ e) (Grows-Good s s' grows g)

  Step-Good : {s s' : AccountSmtForest F} → Step s s' → Good s → Good s'
  unfolding update_asset_nodes update_storage_map_nodes insert_and_stage_account_state
      insert_and_register_account_state
  Step-Good {s} (committed a) (v, held) = commit_roots-IsValid F laws a s v held
  Step-Good {s} (discarded a) (v, held) = discard_roots-IsValid F laws a s v held
  Step-Good {s} (staged a roots h) (v, held) = stage_roots-IsValid F laws a roots s v held h
  Step-Good {s} (replaced a roots s' h e) g = replaced-Good a roots s s' h e g
  Step-Good {s} (updated_assets root new_assets removed) g =
      Grows-Good s _ (insert_entries-Grows F laws root _ s) g
  Step-Good {s} (updated_storage_map root entries) g =
      Grows-Good s _ (insert_entries-Grows F laws root _ s) g
  Step-Good {s} (inserted_assets vault) g =
      Grows-Good s (insert_asset_nodes vault s).1 (insert_assets-Grows F laws vault s) g
  Step-Good {s} (inserted_map m) g =
      Grows-Good s (insert_storage_map_nodes_for_map m s).1 (insert_for_map-Grows F laws m s) g
  Step-Good {s} (inserted_state vault storage) g =
      Grows-Good s (insert_account_state vault storage s).1
        (insert_account_state-Grows F laws vault storage s) g
  Step-Good {s} (staged_state a vault storage) g =
      stage_after a (collect_account_roots vault storage) s g (insert_account_state vault storage s)
        (insert_account_state-Grows F laws vault storage s) (account_held F laws vault storage s)
  Step-Good {s} (registered_state a vault storage x e) g =
      register_after a (collect_account_roots vault storage) s g
        (insert_account_state vault storage s) x (insert_account_state-Grows F laws vault storage s)
        (account_held F laws vault storage s) e

  -- In every forest that calls of its methods lead to, failed ones included, each root is counted as
  -- often as accounts have it, now or before a staged change, and every counted root has its tree in
  -- the forest. Roots that a call sets by hand have theirs there beforehand.
  pub forest-IsValid : {s : AccountSmtForest F} → Reach new s → IsValid F s × AllHeld F laws s
  forest-IsValid here = new-Good
  forest-IsValid (next reach step) = Step-Good step (forest-IsValid reach)
