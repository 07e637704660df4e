-- ===== src/Dag.antt =====
-- GhostDAG consensus, irondag-blockchain/src/consensus/mod.rs and consensus/storage.rs, in memory:
-- the storage has no database, as under `GhostDAG::new` and `GhostDAG::with_k`, so no storage call
-- fails. Hashes are numbers. Of a block only the header's fields that consensus reads are kept.
pub mod Storage
pub mod State
pub mod Full
pub mod Affected
pub mod Incremental
pub mod AddBlock
pub mod Queries
mod Tests
