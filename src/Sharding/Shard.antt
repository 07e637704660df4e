-- ===== src/Sharding/Shard.antt =====
-- `Shard`, sharding/mod.rs: the transaction pool of a shard, and the accounts of its chain, which
-- has no database and no Verkle tree. The blocks are not modelled, the height is a field.
pub mod Eviction
use Prim.Native.Nat.{ℕ, zero, suc}
use mathlib.Core.List.{List, [], ◌∷◌, ◌++◌}
use mathlib.Core.Option.{Option, none, some}
use iron_dag.Prelude.Tests.{leb, if◌then◌else◌}
use iron_dag.Prelude.Lists.{length, take}
use iron_dag.Prelude.Eq.{nat_eq}
use iron_dag.Prelude.Map.{Map, insert}
use iron_dag.Ledger.Types.{Transaction, AccountState, get_nonce}

abbrev pub max_shard_tx_pool_size : ℕ
max_shard_tx_pool_size = 50_000

pub record Shard : Type 0 where
  pub id : ℕ
  pub accounts : Map ℕ AccountState
  pub latest_block_number : ℕ
  pub transaction_pool : List Transaction
  pub cross_shard_outgoing : List ℕ
  pub cross_shard_incoming : List ℕ

unfoldable pub new_shard : ℕ → Shard
new_shard id = record {
  id = id;
  accounts = [];
  latest_block_number = 0;
  transaction_pool = [];
  cross_shard_outgoing = [];
  cross_shard_incoming = [];
}

unfoldable pub get_transactions : ℕ → Shard → List Transaction
get_transactions limit s = take limit s.transaction_pool

-- `pop_front` while the pool is full
unfoldable pub evict_front : List Transaction → List Transaction
evict_front [] = []
evict_front (x ∷ xs) =
    let rest = evict_front xs in
    if leb max_shard_tx_pool_size (length (x ∷ xs)) then rest else x ∷ xs

unfoldable pub add_transaction : Transaction → Shard → Shard
add_transaction tx s = record s { transaction_pool = evict_front s.transaction_pool ++ (tx ∷ []) }

-- `count` calls of `pop_front`, of which those on an empty pool give nothing
unfoldable pub pop_fronts : ℕ → List Transaction → List Transaction × List Transaction
pop_fronts zero pool = ([], pool)
pop_fronts (suc count) [] = pop_fronts count []
pop_fronts (suc count) (x ∷ xs) = let rest = pop_fronts count xs in (x ∷ rest.0, rest.1)

unfoldable pub remove_transactions : ℕ → Shard → List Transaction × Shard
remove_transactions count s =
    let popped = pop_fronts count s.transaction_pool in
    (popped.0, record s { transaction_pool = popped.1 })

unfoldable pub set_balance : ℕ → ℕ → Map ℕ AccountState → Map ℕ AccountState
set_balance a b m = insert a (record { balance = b; nonce = get_nonce a m }) m
