-- ===== src/Lib.antt =====
-- IronDAG: the core of the blockchain node, irondag-blockchain/src.
--
-- A node keeps a DAG of blocks and an account state. A block that arrives is checked, its
-- transactions are processed one after another, and it is added to the DAG, where the consensus
-- colours it blue or red, gives it a score, and finds its place in the total order. Sponsors may pay
-- the fees of transactions, transfers to the pool's address register commitments in the privacy
-- pool, and wallets may ask for several signatures or be recovered by guardians.
--
-- The files and the code that they model:
--   Prelude: Boolean tests, lists measured by native numbers, machine words, key equality as an
--     interface, and HashMap and HashSet as lists.
--   Pow: irondag-blockchain/src/pow.rs. Pow/Retarget is adjust_difficulty and its moving average,
--     Pow/Target is difficulty_to_target and meets_difficulty, Pow/Merkle is
--     calculate_transactions_root.
--   Sponsor: irondag-blockchain/src/gas_sponsorship.rs. A SponsorPolicy is a record, the registry is
--     a map in Sponsor/Registry, and the guards of SponsorRegistry::check are check_policy.
--   Pool: irondag-blockchain/src/privacy_pool.rs, deposit and withdraw with their errors as values.
--   Ledger: irondag-blockchain/src/blockchain/mod.rs and blockchain/block.rs. Ledger/Types has the
--     state, Ledger/Checks the checks of a transaction, Ledger/Process the writes of
--     process_transaction, Ledger/Block the loop of validate_and_process_transactions. It uses
--     Sponsor for the policies and Pool for the commitments.
--   Validation: validate_block_enhanced of irondag-blockchain/src/blockchain/mod.rs, with the Merkle
--     root of Pow. Validation/Structure is validate_block_structure there, which sees of the stored
--     blocks their timestamps.
--   Dag: irondag-blockchain/src/consensus. Dag/Storage is HybridDagStorage, Dag/State is GhostDAG,
--     Dag/Full is update_blue_set, Dag/Affected and Dag/Incremental are
--     update_blue_set_incremental, Dag/AddBlock is add_block with the pruning, Dag/Queries has the
--     ordered blocks, the finalized block and the tips.
--   Sharding: irondag-blockchain/src/sharding. Sharding/Wal is the log of async_messaging.rs,
--     Sharding/Store its receipts, Sharding/Shard the pools of mod.rs, Sharding/Route the assignment
--     of addresses, and Sharding/Manager the debits and credits, with Sharding/Manager/Receipts for
--     the receivers and Sharding/Manager/Retry for the retry worker. The shards' accounts are those
--     of Ledger. process_cross_shard_transaction is a check, a debit and a send, each under its own
--     lock, which Sharding/Manager/Worth/Steps lets alternate with those of other tasks.
--   Wallet: irondag-blockchain/src/account_abstraction. Wallet/MultiSig is multisig.rs and
--     Wallet/Recovery is social_recovery.rs, each with its manager, Wallet/Contract is wallet.rs with
--     the registry of registry.rs, and Wallet/Batch is batch.rs.
--   Recurring: irondag-blockchain/src/recurring, the manager and the scheduler.
--   StopLoss: irondag-blockchain/src/stop_loss, the manager, and in StopLoss/Monitor the monitor.
--   RateLimit: irondag-blockchain/src/rpc/rate_limit.rs, both limiters. The product of the elapsed
--     seconds and the rate, which the code computes in floating point, is a parameter.
-- The other files below a component state what holds of it, and its Tests run it.
--
-- Addresses and hashes are numbers, since the code only compares them; the hash that is held against
-- a difficulty is the list of its bytes. The machine integers keep their saturation, casts and
-- wrap-around where the code has them; sums of u128 balances wrap around, as in a release build.
-- Where the code iterates over a hash map or a hash set, in an order that Rust leaves open, the
-- model takes the order of the list.
--
-- Loops on fuel: the Merkle loop gets the number of hashes, and each round at least halves what is
-- above one. The replay of the log gets one more than its length, and each frame has four bytes or
-- more. The walk from the genesis block and the search of descendants push a block once, so one
-- step for each listed child and one for the start suffice; the topological order pops a block once
-- for its start and at most once for each listed child.
--
-- Parameters: signature checks, the hashes of transactions and headers, the serialized size of a
-- block, Keccak-256, Ed25519, the recovery of a signer's address, the binary search of the
-- standard library, the channels of tokio, the format of bincode and blake3, with what they document
-- as hypotheses.
--
-- Not modelled: the database and the Verkle tree (the node without them is modelled), the wallet
-- registry's part in the processing of a block, where Ledger is the node without one, EVM
-- execution, multi-signature and privacy transactions inside a block, mining loops, networking, the
-- RPC server, zero-knowledge proofs and the programs around the node, which are input and output or
-- calls of third-party packages.
pub mod Prelude
pub mod Pow
pub mod Sponsor
pub mod Pool
pub mod Dag
pub mod Ledger
pub mod Sharding
pub mod Validation
pub mod Wallet
pub mod RateLimit
pub mod Recurring
pub mod StopLoss
