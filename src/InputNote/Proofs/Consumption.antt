-- ===== src/InputNote/Proofs/Consumption.antt =====
-- The consumption of an input note, by a transaction of the client or by another account
-- (crates/rust-client/src/store/note_record/input_note_record/mod.rs).
use miden_client.Base.{
  ℕ, ◌≡◌, sym, ◌∙◌, ◌≢◌, ◌↔◌, ◌⊎◌, true, false, Option, none, some, List, [], ◌∷◌, arith, ok,
}
use miden_client.Protocol.{Protocol}
use miden_client.InputNote.States
use miden_client.InputNote.Record
use miden_client.InputNote.Record.{InputNoteRecord}
use miden_client.InputNote.Steps.{Event, step, run, set_consumed_tx_order}
use miden_client.InputNote.Proofs.Lifecycle.{Phase, phase}

module _ {P : Protocol} where
  -- A record that can be consumed: it is neither consumed nor processing nor invalid, and its
  -- metadata is known.
  abbrev pub IsConsumable : InputNoteRecord P → Type 0
  IsConsumable r =
      (Record.is_consumed r ≡ false)
      × (Record.is_processing r ≡ false)
      × (phase r.state ≢ Phase.invalid)
      × (Record.metadata r ≢ none)

  -- A consumable record that a local transaction takes is then processing for that account and
  -- transaction, with the metadata that it had; it counts as authenticated exactly when it was
  -- committed.
  pub consumed_locally_lem :
      (a : P.AccountId) (t : P.TransactionId) (time : Option ℕ) (r : InputNoteRecord P)
      → IsConsumable r
      → let (result, r') = Record.consumed_locally a t time r in
        (result ≡ ok true)
        × (Record.is_processing r' ≡ true)
        × (Record.consumer_account r' ≡ some a)
        × (Record.consumer_transaction_id r' ≡ some t)
        × (Record.metadata r' ≡ Record.metadata r)
        × (Record.is_authenticated r' ≡ Record.is_committed r)
  unfolding Record.consumed_locally Record.is_processing Record.is_consumed Record.metadata phase
      Record.consumer_account Record.consumer_transaction_id Record.is_authenticated
      Record.is_committed
  consumed_locally_lem a t time r c = ground arith

  -- A record can be taken by a local transaction exactly when it is consumable.
  pub consumed_locally-IsConsumable :
      (a : P.AccountId) (t : P.TransactionId) (time : Option ℕ) (r : InputNoteRecord P)
      → ((Record.consumed_locally a t time r).0 ≡ ok true) ↔ IsConsumable r
  unfolding Record.consumed_locally Record.is_processing Record.is_consumed Record.metadata phase
  consumed_locally-IsConsumable a t time r = ground arith

  -- A transaction's commit is accepted exactly by a record that this transaction is processing.
  pub transaction_committed_iff :
      (t : P.TransactionId) (height : ℕ) (r : InputNoteRecord P)
      → ((Record.transaction_committed t height r).0 ≡ ok true)
        ↔ ((Record.is_processing r ≡ true) × (Record.consumer_transaction_id r ≡ some t))
  unfolding Record.transaction_committed Record.is_processing Record.consumer_transaction_id
  transaction_committed_iff t height r = ground arith

  -- A consumable note that a transaction takes and that is then committed at a height is
  -- consumed, at that height, by that account and transaction.
  pub submitted_then_committed :
      (a : P.AccountId) (t : P.TransactionId) (time : Option ℕ) (height : ℕ) (r : InputNoteRecord P)
      → IsConsumable r
      → let r' = (Record.transaction_committed t height (Record.consumed_locally a t time r).1).1 in
        (Record.is_consumed r' ≡ true)
        × (States.consumed_block_height r'.state ≡ some height)
        × (Record.consumer_account r' ≡ some a)
        × (Record.consumer_transaction_id r' ≡ some t)
        × (Record.is_authenticated r' ≡ Record.is_committed r)
  unfolding Record.consumed_locally Record.transaction_committed Record.is_processing
      Record.is_consumed Record.metadata phase Record.consumer_account
      Record.consumer_transaction_id Record.is_authenticated Record.is_committed
      States.consumed_block_height
  submitted_then_committed a t time height r c = ground arith

  -- The nullifier of a note that is not consumed, seen on chain, always makes the record consumed
  -- at that height, with no local consumer; a nullifier of another note is refused, and the
  -- record stays as it was.
  pub consumed_externally_lem :
      (n : P.Nullifier) (height : ℕ) (r : InputNoteRecord P)
      → Record.is_consumed r ≡ false
      → let (result, r') = Record.consumed_externally n height r in
        ((Record.nullifier r ≡ n)
          × (result ≡ ok true)
          × (Record.is_consumed r' ≡ true)
          × (States.consumed_block_height r'.state ≡ some height)
          × (Record.consumer_transaction_id r' ≡ none))
        ⊎ ((Record.nullifier r ≢ n) × (result ≢ ok true) × (result ≢ ok false) × (r' ≡ r))
  unfolding Record.consumed_externally Record.is_consumed Record.nullifier
      Record.consumer_transaction_id States.consumed_block_height
  consumed_externally_lem n height r c = ground arith

  -- The order that a record has after an event, or a history.
  abbrev order_after : Event P → Option ℕ → Option ℕ
  order_after (set_consumed_tx_order order) old = order
  order_after _ old = old

  pub last_order : List (Event P) → Option ℕ → Option ℕ
  last_order [] old = old
  last_order (e ∷ es) old = last_order es (order_after e old)

  step-consumed :
      (e : Event P) (r : InputNoteRecord P)
      → Record.is_consumed r ≡ true
      → (step e r).1
        ≡ Record.set_consumed_tx_order (order_after e (States.consumed_tx_order r.state)) r
  unfolding step Record.is_consumed States.consumed_tx_order
  step-consumed e r c = ground arith

  set_order_keeps :
      (order : Option ℕ) (r : InputNoteRecord P)
      → Record.is_consumed r ≡ true
      → (Record.is_consumed (Record.set_consumed_tx_order order r) ≡ true)
        × (States.consumed_tx_order (Record.set_consumed_tx_order order r).state ≡ order)
  unfolding Record.set_consumed_tx_order Record.is_consumed States.consumed_tx_order
  set_order_keeps order r c = ground arith

  set_order_twice :
      (order order' : Option ℕ) (r : InputNoteRecord P)
      → Record.set_consumed_tx_order order (Record.set_consumed_tx_order order' r)
        ≡ Record.set_consumed_tx_order order r
  unfolding Record.set_consumed_tx_order
  set_order_twice order order' r = ground arith

  set_order_same :
      (r : InputNoteRecord P)
      → Record.set_consumed_tx_order (States.consumed_tx_order r.state) r ≡ r
  unfolding Record.set_consumed_tx_order States.consumed_tx_order
  set_order_same r = ground arith

  -- Consumption is final: no history of events changes a consumed record, but for the order of
  -- its consumer, which is the one set last.
  pub consumed_is_final :
      (es : List (Event P)) (r : InputNoteRecord P)
      → Record.is_consumed r ≡ true
      → run es r ≡ Record.set_consumed_tx_order (last_order es (States.consumed_tx_order r.state)) r
  unfolding run last_order
  consumed_is_final [] r c = sym (set_order_same r)
  consumed_is_final (e ∷ es) r c =
      let order = order_after e (States.consumed_tx_order r.state) in
      let keeps = set_order_keeps order r c in
      rw (step-consumed e r c) (
        consumed_is_final es (Record.set_consumed_tx_order order r) keeps.0
        ∙ (rw (set_order_twice, keeps.1)))
