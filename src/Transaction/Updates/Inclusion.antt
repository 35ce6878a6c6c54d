-- ===== src/Transaction/Updates/Inclusion.antt =====
-- What the inclusion of a transaction in a block does to the tracked transactions
-- (`apply_transaction_inclusion` of crates/rust-client/src/sync/state_sync_update.rs).
use miden_client.Base.{
  ℕ, ◌≡◌, refl, ◌≢◌, ◌⊎◌, inl, inr, true, none, some, [], ◌∷◌, arith, Option-cases,
}
use miden_client.Protocol.{Protocol}
use miden_client.BTreeMap.{insert, get}
use miden_client.BTreeMap.Laws.{get-insert}
use miden_client.Transaction.Record.{TransactionRecord, is_pending, committed, commit_transaction}
use miden_client.Transaction.Updates.{
  Entries, TransactionInclusion, TransactionUpdateTracker, by_transaction_id, is_same_start,
  commit_first, apply_transaction_inclusion,
}

module _ {P : Protocol} (inc : TransactionInclusion P) (timestamp : ℕ) where
  -- The record of the transaction in the block.
  abbrev in_block : TransactionRecord P → TransactionRecord P
  in_block tx = record tx { status = committed inc.block_num timestamp }

  -- No entry appears.
  commit_first-none :
      (i : P.TransactionId) (m : Entries P)
      → get (by_transaction_id P) i m ≡ none
      → get (by_transaction_id P) i (commit_first inc timestamp m) ≡ none
  unfolding get commit_first commit_transaction
  commit_first-none i [] h = refl
  commit_first-none i ((k, tx) ∷ m) h = ground (arith, commit_first-none i m)

  -- An entry stays as it is, or was pending, matches and is committed.
  commit_first-some :
      (i : P.TransactionId) (tx : TransactionRecord P) (m : Entries P)
      → get (by_transaction_id P) i m ≡ some tx
      → (get (by_transaction_id P) i (commit_first inc timestamp m) ≡ some tx)
        ⊎ ((is_pending tx.status ≡ true)
            × (is_same_start inc tx ≡ true)
            × (get (by_transaction_id P) i (commit_first inc timestamp m) ≡ some (in_block tx)))
  unfolding get commit_first commit_transaction
  commit_first-some i tx [] h = cc
  commit_first-some i tx ((k, tx') ∷ m) h = ground (arith, commit_first-some i tx m)

  -- What the inclusion means for the entry of each ID.
  pub record Included (m m' : Entries P) : Type 0 where
    pub absent :
        (i : P.TransactionId)
        → get (by_transaction_id P) i m ≡ none
        → get (by_transaction_id P) i m' ≡ none
    pub present :
        (i : P.TransactionId) (tx : TransactionRecord P)
        → get (by_transaction_id P) i m ≡ some tx
        → (get (by_transaction_id P) i m' ≡ some tx)
          ⊎ ((is_pending tx.status ≡ true)
              × ((i ≡ inc.transaction_id) ⊎ (is_same_start inc tx ≡ true))
              × (get (by_transaction_id P) i m' ≡ some (in_block tx)))
    pub named :
        (tx : TransactionRecord P)
        → get (by_transaction_id P) inc.transaction_id m ≡ some tx
        → is_pending tx.status ≡ true
        → get (by_transaction_id P) inc.transaction_id m' ≡ some (in_block tx)
    pub only_named :
        (tx : TransactionRecord P) (i : P.TransactionId)
        → get (by_transaction_id P) inc.transaction_id m ≡ some tx
        → i ≢ inc.transaction_id
        → get (by_transaction_id P) i m' ≡ get (by_transaction_id P) i m

  -- The two ways of the inclusion.
  by_id :
      (t : TransactionUpdateTracker P) (tx : TransactionRecord P)
      → get (by_transaction_id P) inc.transaction_id t.transactions ≡ some tx
      → (apply_transaction_inclusion inc timestamp t).transactions
        ≡ insert
            (by_transaction_id P)
            inc.transaction_id
            (commit_transaction inc.block_num timestamp tx).1
            t.transactions
  unfolding apply_transaction_inclusion
  by_id t tx e = rw (apply_transaction_inclusion, e) refl

  by_start :
      (t : TransactionUpdateTracker P)
      → get (by_transaction_id P) inc.transaction_id t.transactions ≡ none
      → (apply_transaction_inclusion inc timestamp t).transactions
        ≡ commit_first inc timestamp t.transactions
  unfolding apply_transaction_inclusion
  by_start t e = rw (apply_transaction_inclusion, e) refl

  by_id-Included :
      (m : Entries P) (tx : TransactionRecord P)
      → get (by_transaction_id P) inc.transaction_id m ≡ some tx
      → Included m (
          insert
            (by_transaction_id P)
            inc.transaction_id
            (commit_transaction inc.block_num timestamp tx).1
            m)
  unfolding commit_transaction
  by_id-Included m tx e =
      let tx' = (commit_transaction inc.block_num timestamp tx).1 in
      let at =
        λ (i : P.TransactionId). get-insert (by_transaction_id P) i inc.transaction_id tx' m in
      record {
        absent = λ i h. ground (arith, at i);
        present = λ i x h. ground (arith, at i);
        named = λ x h pending. ground (arith, at inc.transaction_id);
        only_named = λ x i h ne. ground (arith, at i);
      }

  by_start-Included :
      (m : Entries P)
      → get (by_transaction_id P) inc.transaction_id m ≡ none
      → Included m (commit_first inc timestamp m)
  by_start-Included m e = record {
    absent = λ i. commit_first-none i m;
    present = λ i tx h. ground (arith, commit_first-some i tx m h);
    named = λ tx h. cc;
    only_named = λ tx i h. cc;
  }

  -- When a block includes a transaction: no entry appears or goes; an entry changes only if it was
  -- pending and has the included transaction's ID or its account and initial state, and then it
  -- becomes committed in the block at the timestamp; a pending entry with the ID does become so,
  -- and where there is an entry with the ID, no other entry changes.
  pub apply_transaction_inclusion_lem :
      (t : TransactionUpdateTracker P)
      → Included t.transactions (apply_transaction_inclusion inc timestamp t).transactions
  apply_transaction_inclusion_lem t =
      elim (Option-cases (get (by_transaction_id P) inc.transaction_id t.transactions)) [
        | inl e ↦ rw (by_start t e) (by_start-Included t.transactions e)
        | inr (tx, e) ↦ rw (by_id t tx e) (by_id-Included t.transactions tx e)
      ]
