-- ===== src/Ledger/Types.antt =====
-- `Transaction` (irondag-blockchain/src/blockchain/block.rs), `AccountState` and the part of
-- `Blockchain` that a transaction reads and writes. Addresses and hashes are the numbers that their
-- bytes spell; `data` is the list of its bytes.
use Prim.Native.Nat.{ℕ, ◌*◌, ◌/◌, ◌^◌}
use mathlib.Core.Bool.{Bool}
use mathlib.Core.List.{List}
use mathlib.Core.Option.{Option, none, some}
use iron_dag.Prelude.Words.{u128_max}
use iron_dag.Prelude.Eq.{nat_eq}
use iron_dag.Prelude.Map.{Map, get}
use iron_dag.Sponsor.{PolicyError}
use iron_dag.Sponsor.Registry.{Policies}
use iron_dag.Pool.{PrivacyPool}

pub record Transaction : Type 0 where
  pub hash : ℕ
  pub from : ℕ
  pub to : ℕ
  pub value : ℕ
  pub fee : ℕ
  pub nonce : ℕ
  pub bytes : List ℕ
  pub gas_limit : ℕ
  pub chain_id : Option ℕ
  pub execute_at_block : Option ℕ
  pub execute_at_timestamp : Option ℕ
  pub sponsor : Option ℕ

pub record AccountState : Type 0 where
  pub balance : ℕ
  pub nonce : ℕ

pub record Chain : Type 0 where
  pub accounts : Map ℕ AccountState
  pub recent_tx_hashes : List (List ℕ)
  pub spent_outputs : Map (ℕ × ℕ) (ℕ × ℕ)
  pub sponsor_registry : Policies
  pub privacy_pool : PrivacyPool
  pub latest_block_number : ℕ
  pub chain_id : ℕ
  pub evm_enabled : Bool

-- What a rejected transaction is rejected for.
pub data TxError : Type 0 where
  invalid_signature zero_fee data_too_large value_too_large value_fee_overflow : TxError
  gas_limit_too_high zero_gas_limit wrong_chain_id invalid_hash gas_too_low : TxError
  sponsor_policy : PolicyError → TxError
  nonce_gap invalid_nonce insufficient_balance insufficient_sponsor_balance : TxError
  insufficient_fee_balance replayed double_spend time_locked : TxError

-- `BlockchainResult<()>`
pub data Outcome : Type 0 where
  ok : Outcome
  err : TxError → Outcome

-- `?` between two checks that return nothing.
infixl 5 ◌>>◌
abbrev pub ◌>>◌ : Outcome → Outcome → Outcome
ok >> k = k
err e >> k = err e

abbrev pub max_nonce_gap : ℕ
max_nonce_gap = 16

abbrev pub max_tx_value : ℕ
max_tx_value = u128_max / 2

abbrev pub max_gas_limit : ℕ
max_gas_limit = 30_000_000

abbrev pub max_tx_data_size : ℕ
max_tx_data_size = 128 * 1024

abbrev pub finality_depth : ℕ
finality_depth = 100

abbrev pub u128_mod : ℕ
u128_mod = 2 ^ 128

-- Without a database and a Verkle tree both getters read the map in memory.
abbrev pub balance_of : Option AccountState → ℕ
balance_of none = 0
balance_of (some a) = a.balance

abbrev pub nonce_of : Option AccountState → ℕ
nonce_of none = 0
nonce_of (some a) = a.nonce

unfoldable pub get_balance : ℕ → Map ℕ AccountState → ℕ
get_balance a m = balance_of (get a m)

unfoldable pub get_nonce : ℕ → Map ℕ AccountState → ℕ
get_nonce a m = nonce_of (get a m)
