-- ===== src/Validation.antt =====
-- `validate_block_enhanced` of irondag-blockchain/src/blockchain/mod.rs, for blocks from peers, and
-- `validate_parent_hashes`. Hashes are numbers; a transaction is its hash, and of a stored block the
-- hash and the number are kept. The post-quantum signature is left out: its check only logs. The
-- block hashes of the header and the size of the serialized block are parameters.
pub mod Rules
pub mod Structure
mod Tests
use Prim.Native.Nat.{ℕ, ◌+◌, ◌-◌, ◌*◌}
use mathlib.Core.Bool.{Bool, true, false, not, ◌&&◌, ◌||◌}
use mathlib.Core.List.{List, [], ◌∷◌}
use mathlib.Core.Option.{Option, none, some}
use iron_dag.Prelude.Tests.{ltb, leb, ◌==◌, if◌then◌else◌}
use iron_dag.Prelude.Lists.{length, any, is_empty}
use iron_dag.Prelude.Eq.{nat_eq}
use iron_dag.Prelude.Map.{Map, get}
use iron_dag.Prelude.HashSet.{contains}
use iron_dag.Pow.Merkle.{calculate_transactions_root}

pub data StreamType : Type 0 where
  stream_a stream_b stream_c : StreamType

pub record Block : Type 0 where
  pub hash : ℕ
  pub parent_hashes : List ℕ
  pub block_number : ℕ
  pub stream_type : StreamType
  pub timestamp : ℕ
  pub transactions : List ℕ

-- The hashes of the known blocks, and the numbers of those that are stored.
pub record BlocksData : Type 0 where
  pub block_hashes : List ℕ
  pub blocks : Map ℕ ℕ

pub data BlockValidationError : Type 0 where
  unknown_parent no_parents duplicate_transaction : BlockValidationError
  timestamp_too_far_in_future timestamp_too_old max_transactions_exceeded : BlockValidationError
  block_size_exceeded too_many_parent_hashes invalid_block_hash : BlockValidationError

pub data Verdict : Type 0 where
  ok : Verdict
  err : BlockValidationError → Verdict

infixl 5 ◌>>◌
abbrev pub ◌>>◌ : Verdict → Verdict → Verdict
ok >> k = k
err e >> k = err e

abbrev pub reject_if : Bool → BlockValidationError → Verdict
reject_if true e = err e
reject_if false e = ok

abbrev pub max_block_size : ℕ
max_block_size = 4 * 1024 * 1024

abbrev pub max_parent_hashes : ℕ
max_parent_hashes = 10

abbrev pub max_transactions_per_block : ℕ
max_transactions_per_block = 10_000

abbrev pub max_timestamp_drift : ℕ
max_timestamp_drift = 15

abbrev pub min_timestamp : ℕ
min_timestamp = 1_577_836_800

abbrev pub max_parent_age : ℕ
max_parent_age = 100_000

-- `none` where no parent is known.
pub validate_parent_hashes : BlocksData → Block → Option Verdict
validate_parent_hashes d b =
    if b.block_number == 0
    then some ok
    else if any (λ p. contains p d.block_hashes) b.parent_hashes
    then some ok
    else none

-- A parent that is known, and stored not too far below the block, or the genesis block, or known
-- and not stored.
pub is_valid_parent : BlocksData → ℕ → ℕ → Bool
is_valid_parent d number p = contains p d.block_hashes && (elim (get p d.blocks) [
  | none ↦ true
  | some n ↦ (n == 0) || leb (number - n) max_parent_age
])

pub validate_parent_hashes_enhanced : BlocksData → Block → Verdict
unfolding is_valid_parent
validate_parent_hashes_enhanced d b =
    if b.block_number == 0
    then ok
    else reject_if (is_empty b.parent_hashes) no_parents
      >> reject_if (ltb max_parent_hashes (length b.parent_hashes)) too_many_parent_hashes
      >> reject_if (not (any (is_valid_parent d b.block_number) b.parent_hashes)) unknown_parent

-- With the hashes that were seen before.
pub has_duplicate : List ℕ → List ℕ → Bool
has_duplicate seen [] = false
has_duplicate seen (t ∷ ts) = contains t seen || has_duplicate (t ∷ seen) ts

pub check_duplicate_transactions : Block → Verdict
unfolding has_duplicate
check_duplicate_transactions b = reject_if (has_duplicate [] b.transactions) duplicate_transaction

pub validate_block_timestamp : ℕ → Block → Verdict
validate_block_timestamp now b =
    reject_if (ltb (now + max_timestamp_drift) b.timestamp) timestamp_too_far_in_future
    >> reject_if (ltb b.timestamp min_timestamp) timestamp_too_old

-- Numbers that do not follow on from a parent's are only logged.
pub validate_block_number : BlocksData → Block → Verdict
validate_block_number d b = ok

-- The hashes that the code takes: of two hashes, of 32 zeros, of a header with a root by either
-- function, and of a header with its transactions; and the size by `bincode`, if it serializes.
module _ (keccak_pair : ℕ → ℕ → ℕ) (keccak_zeros : ℕ) (hash_blake3 hash_b3memhash : Block → ℕ → ℕ)
    (hash_keccak : Block → List ℕ → ℕ) (serialized_size : Block → Option ℕ) where
  pub validate_block_limits : Block → Verdict
  validate_block_limits b =
      reject_if (ltb max_transactions_per_block (length b.transactions)) max_transactions_exceeded
      >> (elim (serialized_size b) [
        | none ↦ err block_size_exceeded
        | some size ↦ reject_if (ltb max_block_size size) block_size_exceeded
      ])

  pub expected_hash : Block → Option ℕ
  expected_hash b = elim (calculate_transactions_root keccak_pair keccak_zeros b.transactions) [
    | none ↦ none
    | some root ↦ elim b.stream_type [
      | stream_a ↦ some (hash_blake3 b root)
      | stream_b ↦ some (hash_b3memhash b root)
      | stream_c ↦ some (hash_keccak b b.transactions)
    ]
  ]

  pub verify_tx_root : Block → Verdict
  unfolding expected_hash
  verify_tx_root b = elim (expected_hash b) [
    | none ↦ err invalid_block_hash
    | some h ↦ reject_if (not (b.hash == h)) invalid_block_hash
  ]

  pub validate_block_enhanced : ℕ → BlocksData → Block → Verdict
  unfolding validate_block_limits validate_block_timestamp validate_parent_hashes_enhanced
      validate_block_number check_duplicate_transactions verify_tx_root
  validate_block_enhanced now d b =
      validate_block_limits b
      >> validate_block_timestamp now b
      >> validate_parent_hashes_enhanced d b
      >> validate_block_number d b
      >> check_duplicate_transactions b
      >> verify_tx_root b
