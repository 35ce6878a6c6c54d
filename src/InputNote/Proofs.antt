-- ===== src/InputNote/Proofs.antt =====
-- Input notes over their life: crates/rust-client/src/store/note_record/input_note_record.
pub mod Verified
pub mod Lifecycle
pub mod Consumption
