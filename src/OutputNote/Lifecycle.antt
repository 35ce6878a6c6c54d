-- ===== src/OutputNote/Lifecycle.antt =====
-- The life of an output note record
-- (crates/rust-client/src/store/note_record/output_note_record/mod.rs).
use miden_client.Base.{
  ℕ, ◌≤◌, ◌≡◌, refl, ◌∙◌, ◌≢◌, ◌↔◌, ◌⊎◌, inl, inr, Bool, true, false, some, List, [], ◌∷◌, arith,
  Result, ok, Bool-cases, Option-cases,
}
use miden_client.Protocol.{Protocol}
use miden_client.InputNote.Types.{NoteRecordError}
use miden_client.OutputNote.States
use miden_client.OutputNote.States.{OutputNoteState}
use miden_client.OutputNote.Record
use miden_client.OutputNote.Record.{OutputNoteRecord}

-- What can happen to an output note record.
pub data Event (P : Protocol) : Type 0 where
  inclusion_proof_received : P.NoteInclusionProof → Event P
  nullifier_received : P.Nullifier → ℕ → Event P

module _ {P : Protocol} where
  unfoldable pub step :
      Event P → OutputNoteRecord P → Result (NoteRecordError P) Bool × OutputNoteRecord P
  unfolding Record.inclusion_proof_received Record.nullifier_received
  step (inclusion_proof_received proof) r = Record.inclusion_proof_received proof r
  step (nullifier_received nullifier height) r = Record.nullifier_received nullifier height r

  unfoldable pub run : List (Event P) → OutputNoteRecord P → OutputNoteRecord P
  run [] r = r
  run (e ∷ es) r = run es (step e r).1

  -- How far a note has come: expected, committed, consumed.
  unfoldable pub stage : OutputNoteState P → ℕ
  stage States.expected_partial = 0
  stage (States.expected_full _) = 0
  stage (States.committed_partial _) = 1
  stage (States.committed_full _ _) = 1
  stage (States.consumed _ _) = 2

  -- What a step keeps: the note's ID, its recipient (known or not) and its nullifier, assets,
  -- metadata and height; and how it may move.
  pub record Follows (r r' : OutputNoteRecord P) : Type 0 where
    pub same_id : Record.id r' ≡ Record.id r
    pub same_recipient : Record.recipient r' ≡ Record.recipient r
    pub same_nullifier : Record.nullifier r' ≡ Record.nullifier r
    pub same_assets : r'.assets ≡ r.assets
    pub same_metadata : r'.metadata ≡ r.metadata
    pub same_height : r'.expected_height ≡ r.expected_height
    pub forward : stage r.state ≤ stage r'.state

  step-Follows : (e : Event P) (r : OutputNoteRecord P) → Follows r (step e r).1
  unfolding step stage Record.id Record.recipient Record.nullifier
  step-Follows e r = ground arith

  -- After any history an output note record has the ID, the recipient, the nullifier, the assets,
  -- the metadata and the expected height that it had, and it has not gone back from consumed to
  -- committed or from committed to expected.
  pub run-Follows : (es : List (Event P)) (r : OutputNoteRecord P) → Follows r (run es r)
  unfolding run
  run-Follows [] r = record {
    same_id = refl;
    same_recipient = refl;
    same_nullifier = refl;
    same_assets = refl;
    same_metadata = refl;
    same_height = refl;
    forward = omega arith;
  }
  run-Follows (e ∷ es) r =
      let now = step-Follows e r in
      let later = run-Follows es (step e r).1 in
      record {
        same_id = later.same_id ∙ now.same_id;
        same_recipient = later.same_recipient ∙ now.same_recipient;
        same_nullifier = later.same_nullifier ∙ now.same_nullifier;
        same_assets = later.same_assets ∙ now.same_assets;
        same_metadata = later.same_metadata ∙ now.same_metadata;
        same_height = later.same_height ∙ now.same_height;
        forward = omega (arith, now.forward, later.forward);
      }

  step-consumed :
      (e : Event P) (r : OutputNoteRecord P) → Record.is_consumed r ≡ true → (step e r).1 ≡ r
  unfolding step Record.is_consumed
  step-consumed e r c = ground arith

  -- A consumed output note record never changes again.
  pub consumed_for_good :
      (es : List (Event P)) (r : OutputNoteRecord P) → Record.is_consumed r ≡ true → run es r ≡ r
  unfolding run
  consumed_for_good [] r c = refl
  consumed_for_good (e ∷ es) r c = rw (step-consumed e r c) (consumed_for_good es r c)

  -- A nullifier leaves an output note record consumed at the block of the nullifier, by its
  -- recipient, and reports a change, if the record is not consumed yet and the nullifier is that of
  -- its recipient and assets; otherwise, also if the recipient is not known, it reports no change
  -- or an error and the record is as it was.
  pub nullifier_received_lem :
      (n : P.Nullifier) (height : ℕ) (r : OutputNoteRecord P)
      → ((to : P.NoteRecipient) × (Record.is_consumed r ≡ false)
          × (Record.recipient r ≡ some to)
          × (P.nullifier_new to r.assets ≡ n)
          × (Record.nullifier_received n height r
              ≡ (ok true, record r { state = States.consumed height to })))
        ⊎ (((Record.is_consumed r ≡ true) ⊎ (Record.nullifier r ≢ some n))
            × ((Record.nullifier_received n height r).0 ≢ ok true)
            × ((Record.nullifier_received n height r).1 ≡ r))
  unfolding Record.nullifier_received Record.is_consumed Record.nullifier Record.recipient
  nullifier_received_lem n height r = elim (Option-cases (Record.recipient r)) [
    | inl unknown ↦ inr (inr (ground arith), ground arith, ground arith)
    | inr (to, known) ↦ elim (Bool-cases (Record.is_consumed r)) [
      | inl spent ↦ inr (inl spent, ground arith, ground arith)
      | inr unspent ↦ elim (P.nullifier_eq (P.nullifier_new to r.assets) n) [
        | yes same ↦ inl (to, unspent, known, same, ground arith)
        | no other ↦ inr (inr (ground arith), ground arith, ground arith)
      ]
    ]
  ]

  -- An inclusion proof is refused exactly by a committed record that holds another one.
  pub inclusion_proof_refused :
      (proof : P.NoteInclusionProof) (r : OutputNoteRecord P)
      → (((Record.inclusion_proof_received proof r).0 ≢ ok true)
          × ((Record.inclusion_proof_received proof r).0 ≢ ok false))
        ↔ ((Record.is_committed r ≡ true) × (Record.inclusion_proof r ≢ some proof))
  unfolding Record.inclusion_proof_received Record.is_committed Record.inclusion_proof
  inclusion_proof_refused proof r = ground arith
