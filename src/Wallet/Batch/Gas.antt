-- ===== src/Wallet/Batch/Gas.antt =====
-- The estimate of a batch's gas, account_abstraction/batch.rs.
use Prim.Native.Nat.{ℕ, ◌+◌, ◌-◌, ◌*◌, ◌≤◌}
use mathlib.Core.List.{List, [], ◌∷◌}
use native.Mathlib.Omega.{arith}
use iron_dag.Prelude.Tests.{ltb, if◌then◌else◌}
use iron_dag.Prelude.Lists.{length, is_empty}
use iron_dag.Wallet.Batch.{
  BatchOperation, transfer, contract_call, approval, custom, no_operations, Result, ok, err,
}

pub record GasEstimate : Type 0 where
  pub total_gas : ℕ
  pub base_gas : ℕ
  pub operation_gas : ℕ
  pub optimization_savings : ℕ

unfoldable pub gas_of : BatchOperation → ℕ
gas_of (transfer _ _) = 21_000
gas_of (contract_call _ bytes _) = 21_000 + length bytes * 16
gas_of (approval _ _) = 46_000
gas_of (custom _ _) = 21_000

unfoldable pub gas_of_all : List BatchOperation → ℕ
gas_of_all [] = 0
gas_of_all (op ∷ ops) = gas_of op + gas_of_all ops

-- A sum that leaves u64 would need more data than a batch can hold: no wrap-around is written out.
unfoldable pub estimate_gas : List BatchOperation → Result GasEstimate
estimate_gas ops =
    if is_empty ops
    then err no_operations
    else let savings = if ltb 1 (length ops) then 21_000 * (length ops - 1) else 0 in
      ok (record {
        total_gas = 21_000 + gas_of_all ops - savings;
        base_gas = 21_000;
        operation_gas = gas_of_all ops;
        optimization_savings = savings;
      })

-- The savings are at most the gas of the operations, so that the difference never goes below zero.
savings-le : (ops : List BatchOperation) → 21_000 * length ops ≤ gas_of_all ops
unfolding gas_of_all gas_of
savings-le [] = omega arith
savings-le (transfer _ _ ∷ ops) = omega (arith, savings-le ops)
savings-le (contract_call _ bytes _ ∷ ops) = omega (arith, savings-le ops)
savings-le (approval _ _ ∷ ops) = omega (arith, savings-le ops)
savings-le (custom _ _ ∷ ops) = omega (arith, savings-le ops)
