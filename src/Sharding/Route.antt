-- ===== src/Sharding/Route.antt =====
-- The assignment of addresses to shards and its cache, sharding/mod.rs. The hash function blake3 is a
-- parameter: it gives the byte of the hash at an index. The first key that the table gives for the
-- eviction is its first entry here, and no theorem depends on which it is.
pub mod Cache
use Prim.Native.Nat.{ℕ, ◌+◌, ◌*◌, ◌/◌, ◌%◌, ◌^◌, ◌-◌}
use mathlib.Core.Bool.{Bool}
use mathlib.Core.List.{List, [], ◌∷◌}
use mathlib.Core.Option.{Option, none, some}
use iron_dag.Prelude.Tests.{◌==◌, leb, if◌then◌else◌}
use iron_dag.Prelude.Lists.{length}
use iron_dag.Prelude.Eq.{nat_eq}
use iron_dag.Prelude.Map.{Map, get, insert, remove}
use iron_dag.Ledger.Types.{Transaction}
use iron_dag.Ledger.Process.{zero_address}

pub data AssignmentStrategy : Type 0 where
  consistent_hashing round_robin address_based : AssignmentStrategy

-- `cross_shard_timeout_secs` is 0 where there is no timeout; the path of the log is that the
-- processor has one.
pub record ShardConfig : Type 0 where
  pub shard_count : ℕ
  pub enable_cross_shard : Bool
  pub assignment_strategy : AssignmentStrategy
  pub cross_shard_timeout_secs : ℕ

abbrev pub shard_cache_size : ℕ
shard_cache_size = 10_000

-- `u64::from_le_bytes` of the first eight bytes
unfoldable pub first_u64 : (ℕ → ℕ) → ℕ
first_u64 byte =
    byte 0
    + 2 ^ 8 * byte 1
    + 2 ^ 16 * byte 2
    + 2 ^ 24 * byte 3
    + 2 ^ 32 * byte 4
    + 2 ^ 40 * byte 5
    + 2 ^ 48 * byte 6
    + 2 ^ 56 * byte 7

-- The 20 bytes of an address, of which it is the number in the big-endian order.
abbrev pub address_byte : ℕ → ℕ → ℕ
address_byte a i = a / 256 ^ (19 - i) % 256

-- The first key that an iteration gives, and its removal.
unfoldable pub evict_one : Map ℕ ℕ → Map ℕ ℕ
evict_one [] = []
evict_one ((k, v) ∷ cache) = remove k ((k, v) ∷ cache)

module _ (blake3 : ℕ → ℕ → ℕ) (config : ShardConfig) where
  -- The assignment where the cache misses.
  unfoldable pub assign : ℕ → ℕ
  assign a = elim config.assignment_strategy [
    | address_based ↦ first_u64 (address_byte a) % config.shard_count
    | _ ↦ first_u64 (blake3 a) % config.shard_count
  ]

  -- The answer, and the cache after it.
  unfoldable pub get_shard_for_address : ℕ → Map ℕ ℕ → ℕ × Map ℕ ℕ
  get_shard_for_address a cache = elim (get a cache) [
    | some shard_id ↦ (shard_id, cache)
    | none ↦
        let shard_id = assign a in
        let kept = if leb shard_cache_size (length cache) then evict_one cache else cache in
        (shard_id, insert a shard_id kept)
  ]

  unfoldable pub route_transaction : Transaction → Map ℕ ℕ → ℕ × Map ℕ ℕ
  route_transaction tx cache = get_shard_for_address tx.from cache

  -- The source and the target, of which a deployment has one.
  unfoldable pub route_transaction_full : Transaction → Map ℕ ℕ → (ℕ × ℕ) × Map ℕ ℕ
  route_transaction_full tx cache =
      let source = get_shard_for_address tx.from cache in
      if tx.to == zero_address
      then ((source.0, source.0), source.1)
      else let target = get_shard_for_address tx.to source.1 in ((source.0, target.0), target.1)
