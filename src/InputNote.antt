-- ===== src/InputNote.antt =====
-- Input notes: crates/rust-client/src/store/note_record/input_note_record.
pub mod Types
pub mod States
pub mod Record
pub mod Steps
pub mod Proofs
