-- ===== src/Sync/Summary.antt =====
-- The summary of a synchronisation (crates/rust-client/src/sync/mod.rs, and
-- crates/rust-client/src/sync/state_sync_update.rs for the summary of an update).
use miden_client.Base.{
  ℕ, ◌≡◌, refl, Bool, ◌&&◌, List, [], ◌∷◌, ◌++◌, map, arith, ltb, if◌then◌else◌,
}
use miden_client.Protocol.{Protocol}
use miden_client.InputNote.Record as Input
use miden_client.OutputNote.Record as Output
use miden_client.BTreeMap.{BTreeMap, insert}
use miden_client.Tracker.Types.{NoteUpdateType, by_note_id, InputNoteUpdate, OutputNoteUpdate}
use miden_client.Tracker.Notes.{updated_input_notes, updated_output_notes}
use miden_client.Transaction.Updates.{committed_transactions}
use miden_client.Sync.Headers.{HeaderApi}
use miden_client.Sync.Api.{SyncApi}
use miden_client.Sync.Updates.{StateSyncUpdate}
use miden_client.Store.Forest.{is_empty as is_nil}

pub record SyncSummary (P : Protocol) : Type 0 where
  pub block_num : ℕ
  pub new_public_notes : List P.NoteId
  pub committed_notes : List P.NoteId
  pub consumed_notes : List P.NoteId
  pub updated_accounts : List P.AccountId
  pub locked_accounts : List P.AccountId
  pub committed_transactions : List P.TransactionId

-- `core::cmp::max`
abbrev pub max : ℕ → ℕ → ℕ
max a b = if ltb a b then b else a

is_nil-append : {A : Type 0} (xs ys : List A) → is_nil (xs ++ ys) ≡ is_nil xs && is_nil ys
is_nil-append [] ys = refl
is_nil-append (_ ∷ _) ys = refl

module _ {P : Protocol} where
  unfoldable pub new_empty : ℕ → SyncSummary P
  new_empty block_num = record {
    block_num = block_num;
    new_public_notes = [];
    committed_notes = [];
    consumed_notes = [];
    updated_accounts = [];
    locked_accounts = [];
    committed_transactions = [];
  }

  unfoldable pub is_empty : SyncSummary P → Bool
  is_empty s =
      is_nil s.new_public_notes
      && (is_nil s.committed_notes
          && (is_nil s.consumed_notes
              && (is_nil s.updated_accounts
                  && (is_nil s.locked_accounts && is_nil s.committed_transactions))))

  unfoldable pub combine_with : SyncSummary P → SyncSummary P → SyncSummary P
  combine_with other s = record {
    block_num = max s.block_num other.block_num;
    new_public_notes = s.new_public_notes ++ other.new_public_notes;
    committed_notes = s.committed_notes ++ other.committed_notes;
    consumed_notes = s.consumed_notes ++ other.consumed_notes;
    updated_accounts = s.updated_accounts ++ other.updated_accounts;
    locked_accounts = s.locked_accounts ++ other.locked_accounts;
    committed_transactions = s.committed_transactions ++ other.committed_transactions;
  }

  -- A combined summary is empty just if both are.
  pub is_empty-combine_with :
      (s other : SyncSummary P) → is_empty (combine_with other s) ≡ is_empty s && is_empty other
  unfolding is_empty combine_with
  is_empty-combine_with s other = ground (
    arith,
    is_nil-append s.new_public_notes other.new_public_notes,
    is_nil-append s.committed_notes other.committed_notes,
    is_nil-append s.consumed_notes other.consumed_notes,
    is_nil-append s.updated_accounts other.updated_accounts,
    is_nil-append s.locked_accounts other.locked_accounts,
    is_nil-append s.committed_transactions other.committed_transactions,
  )

  -- The notes that are inserted, committed or consumed
  abbrev pub inserted_ids : List (InputNoteUpdate P) → List P.NoteId
  inserted_ids [] = []
  inserted_ids (u ∷ us) = elim u.update_type [
    | NoteUpdateType.insert ↦ Input.id u.note ∷ inserted_ids us
    | _ ↦ inserted_ids us
  ]

  abbrev pub committed_inputs : List (InputNoteUpdate P) → List P.NoteId
  committed_inputs [] = []
  committed_inputs (u ∷ us) = elim u.update_type [
    | NoteUpdateType.update ↦
        if Input.is_committed u.note
        then Input.id u.note ∷ committed_inputs us
        else committed_inputs us
    | _ ↦ committed_inputs us
  ]

  abbrev pub committed_outputs : List (OutputNoteUpdate P) → List P.NoteId
  committed_outputs [] = []
  committed_outputs (u ∷ us) = elim u.update_type [
    | NoteUpdateType.update ↦
        if Output.is_committed u.note
        then Output.id u.note ∷ committed_outputs us
        else committed_outputs us
    | _ ↦ committed_outputs us
  ]

  abbrev pub consumed_inputs : List (InputNoteUpdate P) → List P.NoteId
  consumed_inputs [] = []
  consumed_inputs (u ∷ us) =
      if Input.is_consumed u.note then Input.id u.note ∷ consumed_inputs us else consumed_inputs us

-- A `BTreeSet` of IDs, and its elements in order
abbrev pub id_set :
    (P : Protocol) → List P.NoteId → BTreeMap P.NoteId (Unit {0}) → BTreeMap P.NoteId (Unit {0})
id_set P [] m = m
id_set P (i ∷ is) m = id_set P is (insert (by_note_id P) i tt m)

abbrev pub elements : (P : Protocol) → List P.NoteId → List P.NoteId
elements P is = map (λ x. x.0) (id_set P is [])

-- `From<&StateSyncUpdate>`
unfoldable pub from_update :
    {P : Protocol} {H : HeaderApi P} (A : SyncApi P H) → StateSyncUpdate A → SyncSummary P
from_update {P} A u =
    let inputs = updated_input_notes u.note_updates in
    let outputs = updated_output_notes u.note_updates in
    record {
      block_num = u.block_num;
      new_public_notes = inserted_ids inputs;
      committed_notes = elements P (committed_inputs inputs ++ committed_outputs outputs);
      consumed_notes = elements P (consumed_inputs inputs);
      updated_accounts = map A.account_id u.account_updates.updated_public_accounts;
      locked_accounts = map (λ x. x.0) u.account_updates.mismatched_private_accounts;
      committed_transactions = map (λ t. t.id) (committed_transactions u.transaction_updates);
    }
