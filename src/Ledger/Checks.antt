-- ===== src/Ledger/Checks.antt =====
-- The checks of a transaction: `is_ready_to_execute`, `verify_tx_stateless`,
-- `validate_tx_stateful_only`, `check_double_spend`. Signatures and hashing are parameters.
use Prim.Native.Nat.{ℕ, ◌+◌}
use mathlib.Core.Bool.{Bool, true, false, not, ◌&&◌}
use mathlib.Core.Option.{none, some}
use iron_dag.Prelude.Tests.{ltb, ◌==◌, if◌then◌else◌}
use iron_dag.Prelude.Lists.{length, is_empty}
use iron_dag.Prelude.Words.{u128_max, sat_add_u64, sat_add_u128}
use iron_dag.Prelude.Eq.{pair_eq}
use iron_dag.Prelude.Map.{get}
use iron_dag.Sponsor.Registry.{check}
use iron_dag.Ledger.Types.{
  Transaction, Chain, TxError, invalid_signature, zero_fee, data_too_large, value_too_large,
  value_fee_overflow, gas_limit_too_high, zero_gas_limit, wrong_chain_id, invalid_hash, gas_too_low,
  sponsor_policy, nonce_gap, invalid_nonce, insufficient_balance, insufficient_sponsor_balance,
  double_spend, Outcome, ok, err, ◌>>◌, max_nonce_gap, max_tx_value, max_gas_limit,
  max_tx_data_size, get_balance, get_nonce,
}

abbrev pub reject_if : Bool → TxError → Outcome
reject_if true e = err e
reject_if false e = ok

unfoldable pub is_ready_to_execute : Transaction → ℕ → ℕ → Bool
is_ready_to_execute tx current_block current_timestamp =
    not (elim tx.execute_at_block [ none ↦ false | some b ↦ ltb current_block b ])
    && not (elim tx.execute_at_timestamp [ none ↦ false | some t ↦ ltb current_timestamp t ])

-- `verify_signature` at a block height (an error counts as false), and `calculate_hash`.
module _ (signature_ok : Transaction → ℕ → Bool) (calculate_hash : Transaction → ℕ) where
  unfoldable pub verify_tx_stateless : Transaction → ℕ → Bool → ℕ → Outcome
  verify_tx_stateless tx chain_id evm_enabled current_block = do
    reject_if (not (signature_ok tx current_block)) invalid_signature
    reject_if ((tx.fee == 0) && not (tx.from == 0)) zero_fee
    reject_if (ltb max_tx_data_size (length tx.bytes)) data_too_large
    reject_if (ltb max_tx_value tx.value) value_too_large
    reject_if (ltb u128_max (tx.value + tx.fee)) value_fee_overflow
    reject_if (ltb max_gas_limit tx.gas_limit) gas_limit_too_high
    reject_if (tx.gas_limit == 0) zero_gas_limit
    reject_if (elim tx.chain_id [ none ↦ false | some id ↦ not (id == chain_id) ]) wrong_chain_id
    reject_if (not (tx.hash == calculate_hash tx)) invalid_hash
    reject_if (evm_enabled && not (is_empty tx.bytes) && ltb tx.gas_limit 21_000) gas_too_low

-- The sponsor's policy, where there is a sponsor.
unfoldable pub check_sponsor : Transaction → ℕ → Chain → Outcome
check_sponsor tx current_block c = elim tx.sponsor [
  | none ↦ ok
  | some s ↦ elim (check s tx.from tx.fee current_block c.sponsor_registry) [
    | none ↦ ok
    | some e ↦ err (sponsor_policy e)
  ]
]

unfoldable pub check_nonce : Transaction → Chain → Outcome
check_nonce tx c =
    let current = get_nonce tx.from c.accounts in
    if tx.nonce == current
    then ok
    else if ltb (sat_add_u64 current max_nonce_gap) tx.nonce
    then err nonce_gap
    else err invalid_nonce

unfoldable pub check_funds : Transaction → Chain → Outcome
check_funds tx c = elim tx.sponsor [
  | some s ↦ reject_if (ltb (get_balance s c.accounts) tx.fee) insufficient_sponsor_balance
  | none ↦
      reject_if (ltb (get_balance tx.from c.accounts) (sat_add_u128 tx.value tx.fee))
        insufficient_balance
]

unfoldable pub validate_tx_stateful_only : Transaction → ℕ → Chain → Outcome
unfolding check_sponsor check_nonce check_funds
validate_tx_stateful_only tx current_block c = do
  check_sponsor tx current_block c
  check_nonce tx c
  reject_if (ltb (get_balance tx.from c.accounts) tx.value) insufficient_balance
  check_funds tx c

unfoldable pub check_double_spend : Transaction → ℕ → Chain → Outcome
check_double_spend tx block_hash c = elim (get (tx.from, tx.nonce) c.spent_outputs) [
  | none ↦ ok
  | some (existing, _) ↦ if existing == block_hash then ok else err double_spend
]
