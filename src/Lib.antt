-- ===== src/Lib.antt =====
-- The client of the Miden rollup keeps a record of every note that it may consume (input notes),
-- of every note that its transactions created (output notes) and of every transaction that it
-- submitted. Submitting a transaction and synchronising with a node move these records through
-- their states. This library models that core, which is under crates/rust-client/src:
--
-- - Protocol: what the client takes from the protocol crate (notes, digests, proofs, codecs). It is
--   one record of types and functions, the parameter of all other modules; `NoteLaws` says that a
--   note is made of its parts, and `Codecs` that each type of that crate reads back what it wrote.
-- - BTreeMap: the standard library's ordered map, as the list of its entries.
-- - InputNote: store/note_record/input_note_record. Types has the nine states with their data and
--   the record `NoteStateHandler` of the trait's methods; States/X has the handler and the encoding
--   of the state X, States the dispatch on the state, Record the methods of `InputNoteRecord`.
--   Steps gathers the methods that change a record as events. Proofs/Verified, Lifecycle and
--   Consumption follow a record through any history of events.
-- - OutputNote: store/note_record/output_note_record, in the same manner: States, Record,
--   Lifecycle, and Export for the conversions.
-- - Tracker: note/note_update_tracker.rs. Types has its data, Notes the insertions and the reports,
--   Order the order of nullifiers, Transitions what a new public note, a committed note and a
--   nullifier do. Indexed is about the indices of the notes by nullifier; Reach, Advance and
--   Reported follow a tracker through any steps of a synchronisation. The records inside are those
--   of InputNote and OutputNote, and the transactions that a nullifier may belong to are those of
--   Transaction.
-- - Transaction: transaction/record.rs (Record, and Encoding for the bytes of a status), and the
--   transaction update tracker of sync/state_sync_update.rs (Updates).
-- - Store/Forest: store/smt_forest.rs. Forest has `AccountSmtForest` with its accounts and the stacks
--   of staged changes, Counts the reference counts of the roots, Trees the insertion of trees. Api has
--   what is taken of the forest crate, with what is relied on of it (`ForestLaws`). Invariant is about
--   the counts, Reach follows a forest through any calls, Rollback is about a discarded change.
-- - Sync: sync/state_sync.rs. Headers and Api have what is taken of the node, the note screener and
--   the range of blocks, as the records `HeaderApi` and `SyncApi`; Updates is the update that a
--   synchronisation fills (sync/state_sync_update.rs), Fetch what is asked of the node, Accounts and
--   Notes the steps on accounts, notes and transactions, Apply their composition, and State
--   `sync_state`. Nullifiers is `compute_ordered_nullifiers`. Spec says what each
--   thing that the node reports is to do with the notes and the transactions; Performs follows the
--   steps of a synchronisation along the reports, and Outcome the whole of it. Spent is about the
--   input notes with the nullifiers of the node, and Refines about the notes of an update. Errors
--   with Fuel are about the errors. Tags is sync/tag.rs, and Summary the summary of an update
--   (sync/mod.rs, sync/state_sync_update.rs).
-- - Tests: a protocol of small numbers, runs of the definitions there, and the theorems applied
--   there.
--
-- Conventions. A function has the name of the Rust function. A method on `&mut self` returns its
-- result and the object that it leaves behind, errors included. Bytes and integers are natural
-- numbers. The arithmetic of this part is the conversion of a nullifier's position to u32, written
-- out as a test against 2 ^ 32 whose failure is the panic (`none`), and two subtractions that stop
-- at 0 in the source as on the natural numbers: that of a discard delta, and the block before that
-- of an inclusion proof. The discarding of transactions is recursive through the states that it
-- makes invalid: it takes fuel, one more than the number of pending transactions, which is enough
-- because every further call has at least one pending transaction less. The walk along the
-- transactions of a block takes one more than there are, since each step takes one out of the map.
-- In Sync, `out_of_fuel` is the end of the former fuel, and `panicked` the overflow of the position
-- of a nullifier. A count of roots is at least 1 where it is decreased.
--
-- Not modelled: the stores and their SQL, the client's methods around a synchronisation, the
-- network, the execution and proving of transactions, printing, the command line and the bindings, which are effects or calls of other crates; the
-- texts of errors are kept where the source has a constant text.
pub mod Base
pub mod Protocol
pub mod BTreeMap
pub mod InputNote
pub mod OutputNote
pub mod Transaction
pub mod Tracker
pub mod Store
pub mod Sync
mod Tests
