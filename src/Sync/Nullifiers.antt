-- ===== src/Sync/Nullifiers.antt =====
-- The nullifiers of a synchronisation, in the order in which their notes were consumed
-- (`compute_ordered_nullifiers` of crates/rust-client/src/sync/state_sync.rs). The walk along a
-- chain takes fuel; one more than the number of transactions is given.
pub mod Walk
pub mod Chain
pub mod Starts
pub mod Ordered
pub mod Groups
use miden_client.Base.{
  ℕ, zero, suc, ◌+◌, ◌-◌, ◌^◌, ◌≤◌, ◌<◌, String, ◌≡◌, refl, sym, ap, ◌∙◌, ◌≢◌, ◌↔◌, ◌⊎◌, inl, inr,
  ite, Bool, true, false, not, ◌&&◌, ◌||◌, Option, none, some, List, [], ◌∷◌, ◌++◌, map,
  append_assoc, arith, ℕ_discrete, ltb, leb, ◌==◌, if◌then◌else◌, Result, ok, err, Bool-cases,
  Option-cases, lt→ltb, length, List-cases,
}
use miden_client.Protocol.{Protocol}
use miden_client.BTreeMap.{BTreeMap, get, insert, remove, len}
use miden_client.Store.Forest.{or_nil}
use miden_client.Transaction.Updates.{contains}
use miden_client.Sync.Headers.{HeaderApi, RpcTransactionRecord, by_state, by_account_block}

module _ {P : Protocol} {H : HeaderApi P} where
  abbrev pub initial_state : RpcTransactionRecord H → P.Word
  initial_state tx = H.initial_state_commitment tx.transaction_header

  abbrev pub final_state : RpcTransactionRecord H → P.Word
  final_state tx = H.final_state_commitment tx.transaction_header

  abbrev pub group_key : RpcTransactionRecord H → P.AccountId × ℕ
  group_key tx = (H.account_id tx.transaction_header, tx.block_num)

  -- `groups`, on top of those that there are
  unfoldable pub group :
      List (RpcTransactionRecord H)
      → BTreeMap (P.AccountId × ℕ) (List (RpcTransactionRecord H))
      → BTreeMap (P.AccountId × ℕ) (List (RpcTransactionRecord H))
  group [] m = m
  group (tx ∷ txs) m = group txs (
      insert (by_account_block H) (group_key tx)
        (or_nil (get (by_account_block H) (group_key tx) m) ++ tx ∷ []) m)

  -- `init_to_tx`
  unfoldable pub by_initial_state :
      List (RpcTransactionRecord H)
      → BTreeMap P.Word (RpcTransactionRecord H)
      → BTreeMap P.Word (RpcTransactionRecord H)
  by_initial_state [] m = m
  by_initial_state (tx ∷ txs) m = by_initial_state txs (insert (by_state H) (initial_state tx) tx m)

  abbrev pub final_states : List (RpcTransactionRecord H) → List P.Word
  final_states [] = []
  final_states (tx ∷ txs) = final_state tx ∷ final_states txs

  -- The first transaction that does not follow another.
  unfoldable pub chain_start :
      List P.Word → List (RpcTransactionRecord H) → Option (RpcTransactionRecord H)
  chain_start states [] = none
  chain_start states (tx ∷ txs) =
      if contains P.word_eq (initial_state tx) states then chain_start states txs else some tx

  -- The `while` loop: each step takes its transaction out of the map.
  unfoldable pub walk :
      ℕ
      → Option (RpcTransactionRecord H)
      → BTreeMap P.Word (RpcTransactionRecord H)
      → List P.Nullifier
  walk zero current m = []
  walk (suc fuel) none m = []
  walk (suc fuel) (some tx) m =
      H.input_nullifiers tx.transaction_header
      ++ walk fuel (get (by_state H) (final_state tx) m) (remove (by_state H) (final_state tx) m)

  -- One round of the `for` loop.
  unfoldable pub ordered : List (RpcTransactionRecord H) → List P.Nullifier
  ordered txs = elim (chain_start (final_states txs) txs) [
    | none ↦ []
    | some start_tx ↦
        let m = by_initial_state txs [] in
        walk (suc (len m)) (get (by_state H) (initial_state start_tx) m)
          (remove (by_state H) (initial_state start_tx) m)
  ]

  abbrev pub ordered_groups :
      BTreeMap (P.AccountId × ℕ) (List (RpcTransactionRecord H)) → List P.Nullifier
  ordered_groups [] = []
  ordered_groups ((_, txs) ∷ groups) = ordered txs ++ ordered_groups groups

  unfoldable pub compute_ordered_nullifiers : List (RpcTransactionRecord H) → List P.Nullifier
  compute_ordered_nullifiers records = ordered_groups (group records [])
