-- ===== src/Sync/Accounts.antt =====
-- The accounts of a synchronisation (crates/rust-client/src/sync/state_sync.rs, and
-- `get_updated_public_accounts` of crates/rust-client/src/rpc/mod.rs).
pub mod Kept
pub mod Latest
use miden_client.Base.{
  ℕ, zero, suc, ◌+◌, ◌-◌, ◌^◌, ◌≤◌, ◌<◌, String, ◌≡◌, refl, sym, ap, ◌∙◌, ◌≢◌, ◌↔◌, ◌⊎◌, inl, inr,
  ite, Bool, true, false, not, ◌&&◌, ◌||◌, Option, none, some, List, [], ◌∷◌, ◌++◌, map,
  append_assoc, arith, ℕ_discrete, ltb, leb, ◌==◌, if◌then◌else◌, Result, ok, err, Bool-cases,
  Option-cases, lt→ltb, length, List-cases,
}
use miden_client.Protocol.{Protocol}
use miden_client.BTreeMap.{BTreeMap, get, insert}
use miden_client.Sync.Headers.{HeaderApi, RpcTransactionRecord, by_account}
use miden_client.Sync.Api.{
  SyncApi, FetchedAccount, private_account, public_account, SyncError, failed, map_err, try_ok,
}
use miden_client.Sync.Updates.{AccountUpdates, extend_accounts}

module _ {P : Protocol} {H : HeaderApi P} where
  -- `and_modify(..).or_insert(record)`: the record of the higher block, the earlier one of equals
  abbrev pub later :
      Option (RpcTransactionRecord H) → RpcTransactionRecord H → RpcTransactionRecord H
  later none tx = tx
  later (some existing) tx = if ltb existing.block_num tx.block_num then tx else existing

  unfoldable pub latest_by_account :
      List (RpcTransactionRecord H)
      → BTreeMap P.AccountId (RpcTransactionRecord H)
      → BTreeMap P.AccountId (RpcTransactionRecord H)
  latest_by_account [] m = m
  latest_by_account (tx ∷ txs) m =
      let account_id = H.account_id tx.transaction_header in
      latest_by_account txs
        (insert (by_account H) account_id (later (get (by_account H) account_id m) tx) m)

  abbrev pub final_commitments :
      BTreeMap P.AccountId (RpcTransactionRecord H) → List (P.AccountId × P.Word)
  final_commitments [] = []
  final_commitments ((account_id, tx) ∷ m) =
      (account_id, H.final_state_commitment tx.transaction_header) ∷ final_commitments m

  unfoldable pub derive_account_commitment_updates :
      List (RpcTransactionRecord H) → List (P.AccountId × P.Word)
  derive_account_commitment_updates records = final_commitments (latest_by_account records [])

module _ {P : Protocol} {H : HeaderApi P} (A : SyncApi P H) where
  -- `*id == acc.id() && *commitment != acc.to_commitment()`
  abbrev pub differs : P.AccountId × P.Word → A.AccountHeader → Bool
  differs (id, commitment) account =
      ite (P.account_id_eq id (A.header_id account))
        (ite (P.word_eq commitment (A.to_commitment account)) false true) false

  abbrev pub find_mismatched : P.AccountId × P.Word → List A.AccountHeader → Option A.AccountHeader
  find_mismatched update [] = none
  find_mismatched update (account ∷ accounts) =
      if differs update account then some account else find_mismatched update accounts

  -- `partition` on `is_private`
  abbrev pub public_accounts : List A.AccountHeader → List A.AccountHeader
  public_accounts [] = []
  public_accounts (account ∷ accounts) =
      let rest = public_accounts accounts in
      if A.is_private (A.header_id account) then rest else account ∷ rest

  abbrev pub private_accounts : List A.AccountHeader → List A.AccountHeader
  private_accounts [] = []
  private_accounts (account ∷ accounts) =
      let rest = private_accounts accounts in
      if A.is_private (A.header_id account) then account ∷ rest else rest

  unfoldable pub mismatched_public :
      List (P.AccountId × P.Word) → List A.AccountHeader → List A.AccountHeader
  mismatched_public [] accounts = []
  mismatched_public (update ∷ updates) accounts =
      let rest = mismatched_public updates accounts in
      elim (find_mismatched update accounts) [ none ↦ rest | some account ↦ account ∷ rest ]

  unfoldable pub mismatched_private :
      List (P.AccountId × P.Word) → List A.AccountHeader → List (P.AccountId × P.Word)
  mismatched_private [] accounts = []
  mismatched_private (update ∷ updates) accounts =
      let rest = mismatched_private updates accounts in
      elim (find_mismatched update accounts) [ none ↦ rest | some _ ↦ update ∷ rest ]

  -- Only an account that is newer than the local one is taken.
  abbrev pub newer : FetchedAccount A.Account → A.AccountHeader → List A.Account → List A.Account
  newer private_account local rest = rest
  newer (public_account account) local rest =
      if ltb (A.header_nonce local) (A.account_nonce account) then account ∷ rest else rest

  -- `NodeRpcClient::get_updated_public_accounts`
  unfoldable pub fetch_newer : List A.AccountHeader → Result A.Failure (List A.Account)
  fetch_newer [] = ok []
  fetch_newer (local ∷ locals) =
      try_ok (A.get_account_details (A.header_id local))
        (λ fetched. try_ok (fetch_newer locals) (λ rest. ok (newer fetched local rest)))

  unfoldable pub get_updated_public_accounts :
      List (P.AccountId × P.Word) → List A.AccountHeader → Result (SyncError A) (List A.Account)
  get_updated_public_accounts account_updates current_public_accounts =
      map_err failed (fetch_newer (mismatched_public account_updates current_public_accounts))

  unfoldable pub account_state_sync :
      List A.AccountHeader
      → List (P.AccountId × P.Word)
      → AccountUpdates A
      → Result (SyncError A) (AccountUpdates A)
  account_state_sync accounts account_commitment_updates account_updates =
      try_ok (get_updated_public_accounts account_commitment_updates (public_accounts accounts))
        (λ updated_public_accounts. ok (
          extend_accounts A
            (record {
              updated_public_accounts = updated_public_accounts;
              mismatched_private_accounts =
                  mismatched_private account_commitment_updates (private_accounts accounts);
            })
            account_updates))
