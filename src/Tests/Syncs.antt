-- ===== src/Tests/Syncs.antt =====
-- Synchronisations on numbers: a transaction header is its ID, its account, its states and its
-- nullifiers.
use miden_client.Base.{ℕ, ◌≡◌, refl, ap, inl, inr, ite, some, List, [], ◌∷◌, arith, ℕ_discrete, ltb}
use mathlib.Core.List.Memᴰ
use mathlib.Core.List.{Memᴰ}
use miden_client.BTreeMap.{get, insert, remove}
use miden_client.BTreeMap.Sorted.{IsSorted}
use miden_client.Store.Forest.{or_nil}
use miden_client.Sync.Headers.{
  HeaderApi, pair_eq, RpcTransactionRecord, by_account, by_account_block,
}
use miden_client.Sync.Nullifiers.{
  group, walk, ordered, chain_start, by_initial_state, compute_ordered_nullifiers,
}
use miden_client.Sync.Nullifiers.Walk.{walk_enough}
use miden_client.Sync.Nullifiers.Chain.{IsChain}
use miden_client.Sync.Nullifiers.Starts.{Same}
use miden_client.Sync.Nullifiers.Groups.{
  Key, keys, in_order, transactions_at, compute_ordered_nullifiers_lem,
}
use miden_client.Sync.Accounts.{latest_by_account, derive_account_commitment_updates}
use miden_client.Sync.Accounts.Latest.{AllLatest, AllCovered, derive_account_commitment_updates_lem}
use miden_client.Tests.Toy.{toy, ltb_laws}

abbrev pub headers : HeaderApi toy
headers = record {
  word_lt = ltb;
  account_id_lt = ltb;
  TransactionHeader = ℕ × ℕ × ℕ × ℕ × List ℕ;
  id = λ h. h.0;
  account_id = λ h. h.1;
  initial_state_commitment = λ h. h.2;
  final_state_commitment = λ h. h.3;
  input_nullifiers = λ h. h.4;
}

-- Two transactions of account 1 in block 5
abbrev first : RpcTransactionRecord headers
first = record { block_num = 5; transaction_header = (7, 1, 10, 11, 100 ∷ []) }

abbrev second : RpcTransactionRecord headers
second = record { block_num = 5; transaction_header = (8, 1, 11, 12, 200 ∷ 201 ∷ []) }

abbrev reported : List (RpcTransactionRecord headers)
reported = second ∷ first ∷ []

compute_ordered_nullifiers_run : compute_ordered_nullifiers reported ≡ 100 ∷ 200 ∷ 201 ∷ []
unfolding compute_ordered_nullifiers group ordered chain_start by_initial_state walk get insert
    remove pair_eq ℕ_discrete
compute_ordered_nullifiers_run = refl

abbrev chain_at : (k : Key headers) → List (RpcTransactionRecord headers)
chain_at k = ite ((by_account_block headers).eq k (1, 5)) (first ∷ second ∷ []) []

first-second : IsChain headers (first ∷ second ∷ [])
first-second = (
  (refl, tt),
  (
    λ u x e. elim (Memᴰ.cases_cons x) [
      | inl here ↦ ground (arith, ap (λ t. t.transaction_header.3) here, e)
      | inr later ↦ ground (arith, ap (λ t. t.transaction_header.3) (Memᴰ.eq_of_singleton later), e)
    ],
    (λ u x e. ground (arith, ap (λ t. t.transaction_header.3) (Memᴰ.eq_of_singleton x), e), tt),
  ),
)

chain_at-IsChain : (k : Key headers) → IsChain headers (chain_at k)
chain_at-IsChain k = at ((by_account_block headers).eq k (1, 5))
  where
    at : (d : Dec (k ≡ (1, 5))) → IsChain headers (ite d (first ∷ second ∷ []) [])
    at (yes _) = first-second
    at (no _) = (tt, tt)

-- The two transactions in either order
swapped : (x y t : RpcTransactionRecord headers) → Memᴰ t (x ∷ y ∷ []) → Memᴰ t (y ∷ x ∷ [])
swapped x y t m = elim (Memᴰ.cases_cons m) [
  | inl here ↦ Memᴰ.tail (Memᴰ.head here)
  | inr later ↦ Memᴰ.head (Memᴰ.eq_of_singleton later)
]

chain_at-Same : (k : Key headers) → Same headers (transactions_at headers k reported) (chain_at k)
chain_at-Same k = at ((by_account_block headers).eq k (1, 5))
  where
    at :
        (d : Dec (k ≡ (1, 5)))
        → Same headers
            (ite d (second ∷ ite d (first ∷ []) []) (ite d (first ∷ []) []))
            (ite d (first ∷ second ∷ []) [])
    at (yes _) = (swapped second first, swapped first second)
    at (no _) = (λ t x. x, λ t x. x)

compute_ordered_nullifiers_lem_example :
    (compute_ordered_nullifiers reported
      ≡ in_order headers chain_at (keys headers (group reported [])))
    × IsSorted (by_account_block headers) (group reported [])
    × ((k : Key headers)
        → or_nil (get (by_account_block headers) k (group reported []))
          ≡ transactions_at headers k reported)
compute_ordered_nullifiers_lem_example =
    compute_ordered_nullifiers_lem headers ltb_laws ltb_laws reported chain_at chain_at-IsChain
      chain_at-Same

walk_enough_example :
    walk 3 (some first) ((11, second) ∷ []) ≡ walk 9 (some first) ((11, second) ∷ [])
walk_enough_example =
    walk_enough headers 3 9 (some first) ((11, second) ∷ []) (omega arith) (omega arith)

derive_account_commitment_updates_lem_example :
    IsSorted (by_account headers) (derive_account_commitment_updates reported)
    × AllLatest headers reported (derive_account_commitment_updates reported)
    × AllCovered headers reported (derive_account_commitment_updates reported)
derive_account_commitment_updates_lem_example =
    derive_account_commitment_updates_lem headers ltb_laws reported

-- Of two transactions in the highest block, the one that the node reports first is taken.
derive_account_commitment_updates_run :
    derive_account_commitment_updates (first ∷ second ∷ []) ≡ (1, 11) ∷ []
unfolding derive_account_commitment_updates latest_by_account get insert ℕ_discrete
derive_account_commitment_updates_run = refl
