-- ===== src/Sync/Nullifiers/Walk.antt =====
-- The fuel of the walk along a chain (`compute_ordered_nullifiers` of
-- crates/rust-client/src/sync/state_sync.rs).
use miden_client.Base.{
  ℕ, zero, suc, ◌<◌, ◌≡◌, refl, sym, ap, ◌∙◌, inl, inr, Option, none, some, [], ◌∷◌, ◌++◌, arith,
  Option-cases,
}
use miden_client.Protocol.{Protocol}
use miden_client.BTreeMap.{Ord, BTreeMap, get, remove, len}
use miden_client.Sync.Headers.{HeaderApi, RpcTransactionRecord, by_state}
use miden_client.Sync.Nullifiers.{final_state, walk}

module _ {K V : Type 0} (o : Ord K) where
  pub len-remove :
      (k : K) (v : V) (m : BTreeMap K V) → get o k m ≡ some v → len m ≡ suc (len (remove o k m))
  unfolding get remove
  len-remove k v [] e = absurd (cc)
  len-remove k v ((j, w) ∷ m) e = ground (arith, len-remove k v m)

module _ {P : Protocol} (H : HeaderApi P) where
  pub walk-none : (fuel : ℕ) (m : BTreeMap P.Word (RpcTransactionRecord H)) → walk fuel none m ≡ []
  unfolding walk
  walk-none zero m = refl
  walk-none (suc fuel) m = refl

  -- More fuel than transactions in the map is enough: any two such fuels walk the same way.
  pub walk_enough :
      (f g : ℕ) (tx : Option (RpcTransactionRecord H))
      (m : BTreeMap P.Word (RpcTransactionRecord H))
      → len m < f
      → len m < g
      → walk f tx m ≡ walk g tx m
  unfolding walk
  walk_enough zero g tx m h h' = elim h [ ]
  walk_enough (suc f) zero tx m h h' = elim h' [ ]
  walk_enough (suc f) (suc g) none m h h' = refl
  walk_enough (suc f) (suc g) (some tx) m h h' =
      ap (λ l. H.input_nullifiers tx.transaction_header ++ l)
        (elim (Option-cases (get (by_state H) (final_state tx) m)) [
          | inl e ↦
              let m' = remove (by_state H) (final_state tx) m in
              rw e (walk-none f m' ∙ sym (walk-none g m'))
          | inr (u, e) ↦
              let fewer = len-remove (by_state H) (final_state tx) u m e in
              walk_enough f g (get (by_state H) (final_state tx) m)
                (remove (by_state H) (final_state tx) m) (omega (arith, fewer))
                (omega (arith, fewer))
        ])
