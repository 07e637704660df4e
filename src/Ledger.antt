-- ===== src/Ledger.antt =====
-- The transaction pipeline of irondag-blockchain/src/blockchain/mod.rs, in memory (no database, no
-- Verkle tree, no wallet registry, no EVM executor) and without the `privacy` feature, for the
-- transactions that carry no multisig signatures.
pub mod Types
pub mod Checks
pub mod Process
pub mod Block
pub mod Supply
pub mod Accounts
pub mod Once
pub mod Replay
pub mod Spent
mod Tests
