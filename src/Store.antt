-- ===== src/Store.antt =====
-- The package internal/agoboardstore: boards in SQLite.
pub mod Deadlines
pub mod Mapping
pub mod Picking
pub mod Rows
pub mod Tables
pub mod Projection
pub mod Receipts
pub mod Boards
pub mod Commit
pub mod Admission
pub mod Sweep
pub mod Claim
pub mod Queries
pub mod Upgrade
