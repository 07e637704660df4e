-- ===== src/Pow.antt =====
-- Proof of work, irondag-blockchain/src/pow.rs: the retargeting of the difficulty, the test of a hash
-- against it, and the Merkle root of a block's transactions. The hash functions are not modelled.
pub mod Retarget
pub mod Target
pub mod Merkle
mod Tests
