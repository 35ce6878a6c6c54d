-- ===== src/Tracker.antt =====
-- The note update tracker: crates/rust-client/src/note/note_update_tracker.rs.
pub mod Types
pub mod Notes
pub mod Order
pub mod Transitions
pub mod Indexed
pub mod Reach
pub mod Advance
pub mod Reported
