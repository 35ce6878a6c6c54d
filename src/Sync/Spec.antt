-- ===== src/Sync/Spec.antt =====
-- What a synchronisation is to do with the tracked notes and transactions, as the list of what the
-- node reported (crates/rust-client/src/sync/state_sync.rs).
use miden_client.Base.{ℕ, ◌≡◌, Bool, Option, List, [], ◌∷◌, ◌++◌, some, leb, if◌then◌else◌, ok}
use mathlib.Core.Path.{subst}
use miden_client.Protocol.{Protocol}
use miden_client.BTreeMap.{BTreeMap}
use miden_client.InputNote.Record.{InputNoteRecord}
use miden_client.Tracker.Types.{CommittedNote, NullifierUpdate, NoteUpdateTracker}
use miden_client.Tracker.Order.{extend_nullifiers}
use miden_client.Tracker.Transitions.{
  apply_new_public_note, apply_committed_note_state_transitions, apply_nullifiers_state_transitions,
}
use miden_client.Transaction.Updates.{
  TransactionUpdateTracker, TransactionInclusion, committed_transactions,
  apply_transaction_inclusion, apply_input_note_nullified, apply_sync_height_update,
}
use miden_client.Sync.Headers.{HeaderApi}
use miden_client.Sync.Api.{
  SyncApi, NoteUpdateAction, commit, insert, discard, NoteSyncBlock, StateSyncOptions,
}
use miden_client.Sync.Updates.{StateSyncUpdate}
use miden_client.Sync.Notes.{public_note_of}
use miden_client.Sync.Fetch.{RawStateSyncData}

-- What the node reports: a note of a block, with the public note that it has; the nullifiers in the
-- order of their transactions; a transaction in a block, with the time of the tip; the tip; and a
-- nullifier.
pub data Report (P : Protocol) : Type 0 where
  note_in : CommittedNote P → P.BlockHeader → Option (InputNoteRecord P) → Report P
  order_of : List P.Nullifier → Report P
  included : TransactionInclusion P → ℕ → Report P
  tip_at : P.BlockHeader → Report P
  nullifier_of : NullifierUpdate P → Report P

-- The notes and the transactions
abbrev pub Trackers : Protocol → Type 0
Trackers P = NoteUpdateTracker P × TransactionUpdateTracker P

module _ {P : Protocol} where
  -- The transactions of a synchronisation, at the time of the tip
  abbrev pub inclusion_reports : List (TransactionInclusion P) → ℕ → List (Report P)
  inclusion_reports [] timestamp = []
  inclusion_reports (inc ∷ incs) timestamp =
      included inc timestamp ∷ inclusion_reports incs timestamp

  -- The nullifiers up to a block
  abbrev pub nullifier_reports : ℕ → List (NullifierUpdate P) → List (Report P)
  nullifier_reports block_num [] = []
  nullifier_reports block_num (n ∷ ns) =
      if leb n.block_num block_num
      then nullifier_of n ∷ nullifier_reports block_num ns
      else nullifier_reports block_num ns

module _ {P : Protocol} {H : HeaderApi P} (A : SyncApi P H) where
  abbrev pub trackers : StateSyncUpdate A → Trackers P
  trackers u = (u.note_updates, u.transaction_updates)

  -- What an action of the screener makes of the notes.
  abbrev pub Acts :
      NoteUpdateAction P → P.BlockHeader → NoteUpdateTracker P → NoteUpdateTracker P → Type 0
  Acts (commit c) header t t' =
      (relevant : Bool) × (apply_committed_note_state_transitions c header t ≡ (ok relevant, t'))
  Acts (insert note) header t t' = apply_new_public_note note header t ≡ (ok tt, t')
  Acts discard header t t' = t' ≡ t

  module _ (options : StateSyncOptions) where
    -- What a report makes of the notes and the transactions.
    abbrev pub Effect : Report P → Trackers P → Trackers P → Type 0
    Effect (note_in c header public) (t, x) (t', x') =
        ((action : NoteUpdateAction P) × (A.on_note_received c public ≡ ok action)
          × Acts action header t t')
        × (x' ≡ x)
    Effect (order_of ns) (t, x) (t', x') = (extend_nullifiers ns t ≡ some t') × (x' ≡ x)
    Effect (included inc timestamp) (t, x) (t', x') =
        (t' ≡ t) × (x' ≡ apply_transaction_inclusion inc timestamp x)
    Effect (tip_at header) (t, x) (t', x') =
        (t' ≡ t)
        × (apply_sync_height_update (A.header_block_num header) options.tx_discard_delta x
            ≡ some x')
    Effect (nullifier_of n) (t, x) (t', x') =
        (apply_nullifiers_state_transitions n (committed_transactions x) t ≡ (ok tt, t'))
        × (apply_input_note_nullified n.nullifier x ≡ some x')

    -- One report after the other, in their order
    abbrev pub After : List (Report P) → Trackers P → Trackers P → Type 0
    After [] s s' = s' ≡ s
    After (r ∷ rs) s s' = (m : Trackers P) × Effect r s m × After rs m s'

    pub After-append :
        (rs rs' : List (Report P)) (s m s' : Trackers P)
        → After rs s m
        → After rs' m s'
        → After (rs ++ rs') s s'
    After-append [] rs' s m s' e h = subst (λ n. After rs' n s') e h
    After-append (r ∷ rs) rs' s m s' (n, f, h) h' = (n, f, After-append rs rs' n m s' h h')

  -- The reports of the notes of one block, and of all blocks in their order
  abbrev pub note_reports :
      BTreeMap P.NoteId (CommittedNote P)
      → P.BlockHeader
      → BTreeMap P.NoteId (InputNoteRecord P)
      → List (Report P)
  note_reports [] header public_notes = []
  note_reports ((_, c) ∷ notes) header public_notes =
      note_in c header (public_note_of A c public_notes) ∷ note_reports notes header public_notes

  abbrev pub block_reports :
      List (NoteSyncBlock P A.MerklePath) → BTreeMap P.NoteId (InputNoteRecord P) → List (Report P)
  block_reports [] public_notes = []
  block_reports (b ∷ blocks) public_notes =
      note_reports b.notes b.block_header public_notes ++ block_reports blocks public_notes

  -- All that was fetched
  abbrev pub reports : RawStateSyncData A → BTreeMap P.NoteId (InputNoteRecord P) → List (Report P)
  reports d public_notes =
      block_reports d.note_blocks public_notes
      ++ order_of d.nullifiers
        ∷ (inclusion_reports d.transactions (A.timestamp d.chain_tip_header)
            ++ tip_at d.chain_tip_header ∷ [])
