-- ===== src/Wallet.antt =====
-- Account abstraction, irondag-blockchain/src/account_abstraction: multi-signature transactions,
-- and social recovery.
pub mod MultiSig
pub mod Recovery
pub mod Contract
pub mod Batch
mod Tests
mod ContractTests
