-- ===== src/OutputNote.antt =====
-- Output notes: crates/rust-client/src/store/note_record/output_note_record.
pub mod States
pub mod Record
pub mod Lifecycle
pub mod Export
