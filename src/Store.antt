-- ===== src/Store.antt =====
-- What the stores share: crates/rust-client/src/store.
pub mod Forest
