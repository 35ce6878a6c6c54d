-- ===== src/Transaction.antt =====
-- Transactions: crates/rust-client/src/transaction and crates/rust-client/src/sync.
pub mod Record
pub mod Encoding
pub mod Updates
