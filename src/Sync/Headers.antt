-- ===== src/Sync/Headers.antt =====
-- The transactions that the node reports (crates/rust-client/src/rpc/domain/transaction.rs). The
-- header of a transaction is of the crate miden-protocol.
use miden_client.Base.{ℕ, ◌≡◌, ap, ite, Bool, List, ℕ_discrete, ltb}
use miden_client.Protocol.{Protocol}
use miden_client.BTreeMap.{Ord}

pub pair_path : {A B : Type 0} {x y : A × B} → x.0 ≡ y.0 → x.1 ≡ y.1 → x ≡ y
pair_path e e' = cc

unfoldable pub pair_eq : {A B : Type 0} → Discrete A → Discrete B → Discrete (A × B)
pair_eq d d' x y = elim (d x.0 y.0) [
  | yes e ↦ elim (d' x.1 y.1) [
    | yes e' ↦ yes (pair_path e e')
    | no ne ↦ no (λ p. ne (ap (λ z. z.1) p))
  ]
  | no ne ↦ no (λ p. ne (ap (λ z. z.0) p))
]

pub record HeaderApi (P : Protocol) : Type 1 where
  pub word_lt : P.Word → P.Word → Bool
  pub account_id_lt : P.AccountId → P.AccountId → Bool
  -- `TransactionHeader`
  pub TransactionHeader : Type 0
  pub id : TransactionHeader → P.TransactionId
  pub account_id : TransactionHeader → P.AccountId
  pub initial_state_commitment : TransactionHeader → P.Word
  pub final_state_commitment : TransactionHeader → P.Word
  -- The nullifiers of `input_notes()`, in order
  pub input_nullifiers : TransactionHeader → List P.Nullifier

-- `TransactionRecord` of the RPC client
pub record RpcTransactionRecord {P : Protocol} (H : HeaderApi P) : Type 0 where
  pub block_num : ℕ
  pub transaction_header : H.TransactionHeader

module _ {P : Protocol} (H : HeaderApi P) where
  abbrev pub by_state : Ord P.Word
  by_state = record { eq = P.word_eq; lt = H.word_lt }

  abbrev pub by_account : Ord P.AccountId
  by_account = record { eq = P.account_id_eq; lt = H.account_id_lt }

  -- `(AccountId, BlockNumber)`, whose first components are compared first
  abbrev pub by_account_block : Ord (P.AccountId × ℕ)
  by_account_block = record {
    eq = pair_eq P.account_id_eq ℕ_discrete;
    lt = λ x y. ite (P.account_id_eq x.0 y.0) (ltb x.1 y.1) (H.account_id_lt x.0 y.0);
  }
