-- ===== src/BTreeMap/Laws.antt =====
-- What is looked up in a map after a change to it.
use miden_client.Base.{suc, ◌≡◌, refl, ◌≢◌, ite, none, some, [], ◌∷◌, arith}
use miden_client.BTreeMap.{Ord, BTreeMap, get, insert, or_insert, len}

module _ {K V : Type 0} (o : Ord K) where
  pub get-insert_self : (k : K) (v : V) (m : BTreeMap K V) → get o k (insert o k v m) ≡ some v
  unfolding get insert
  get-insert_self k v [] = ground arith
  get-insert_self k v ((j, w) ∷ m) = ground (arith, get-insert_self k v m)

  pub get-insert_ne :
      (i k : K) (v : V) (m : BTreeMap K V) → i ≢ k → get o i (insert o k v m) ≡ get o i m
  unfolding get insert
  get-insert_ne i k v [] h = ground arith
  get-insert_ne i k v ((j, w) ∷ m) h = ground (arith, get-insert_ne i k v m h)

  pub get-insert :
      (i k : K) (v : V) (m : BTreeMap K V)
      → get o i (insert o k v m) ≡ ite (o.eq i k) (some v) (get o i m)
  get-insert i k v m = ground (arith, get-insert_self k v m, get-insert_ne i k v m)

  pub len-insert_new :
      (k : K) (v : V) (m : BTreeMap K V) → get o k m ≡ none → len (insert o k v m) ≡ suc (len m)
  unfolding get insert
  len-insert_new k v [] h = refl
  len-insert_new k v ((j, w) ∷ m) h = ground (arith, len-insert_new k v m)

  pub get-or_insert_old :
      (i k : K) (v w : V) (m : BTreeMap K V)
      → get o i m ≡ some w
      → get o i (or_insert o k v m) ≡ some w
  unfolding or_insert
  get-or_insert_old i k v w m h = ground (arith, get-insert_ne i k v m)
