-- ===== src/Tests.antt =====
-- Runs on a small concrete protocol, and the theorems applied there.
mod Toy
mod InputNotes
mod OutputNotes
mod Trackers
mod Transactions
mod Forests
mod Syncs
mod SyncRuns
