-- ===== src/Sync.antt =====
-- The synchronisation of the client with the chain tip of the node
-- (crates/rust-client/src/sync/state_sync.rs).
pub mod Headers
pub mod Api
pub mod Updates
pub mod Accounts
pub mod Notes
pub mod Fetch
pub mod Apply
pub mod State
pub mod Refines
pub mod Errors
pub mod Fuel
pub mod Tags
pub mod Spec
pub mod Performs
pub mod Outcome
pub mod Spent
pub mod Summary
pub mod Nullifiers
