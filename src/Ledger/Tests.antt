-- ===== src/Ledger/Tests.antt =====
-- Concrete runs of the transaction pipeline.
use Prim.Native.Nat.{ℕ, ◌+◌, ◌<◌, ◌≤◌}
use mathlib.Core.Path.{◌≡◌, refl}
use mathlib.Core.Bool.{true, false}
use mathlib.Core.List.{List, [], ◌∷◌, ◌++◌}
use mathlib.Core.Option.{none, some}
use native.Mathlib.Omega.{arith}
use iron_dag.Prelude.Eq.{nat_eq}
use iron_dag.Prelude.Map.{Map, get, insert}
use iron_dag.Ledger.Types.{
  double_spend, Transaction, AccountState, Chain, ok, err, insufficient_balance, get_balance,
  get_nonce, zero_fee, u128_mod,
}
use iron_dag.Ledger.Checks.{
  is_ready_to_execute, verify_tx_stateless, validate_tx_stateful_only, check_double_spend,
}
use iron_dag.Ledger.Process.{debit, credit, process_transaction}
use iron_dag.Ledger.Block.{
  Block, check_tx, commit_tx, apply_tx, apply_all, validate_and_process_transactions, verify_all,
}
use iron_dag.Ledger.Supply.{total, AllSettled, taken_all, total-validate_and_process_transactions}
use iron_dag.Ledger.Accounts.{nonce_after, nonce-apply_tx}
use iron_dag.Prelude.Tests.{◌==◌, if◌then◌else◌}
use iron_dag.Ledger.Spent.{apply_tx-check_double_spend}
use iron_dag.Ledger.Replay.{HasWordNonces, apply_all_partial}
use iron_dag.Ledger.Once.{Event, processed, pruned, rolled_back, count_events, processed_once}

abbrev pay : ℕ → ℕ → ℕ → ℕ → Transaction
pay from to value nonce = record {
  hash = 1000 + nonce;
  from = from;
  to = to;
  value = value;
  fee = 5;
  nonce = nonce;
  bytes = [];
  gas_limit = 21_000;
  chain_id = none;
  execute_at_block = none;
  execute_at_timestamp = none;
  sponsor = none;
}

-- Account 10 holds 100, account 11 holds 20.
abbrev two_accounts : Map ℕ AccountState
two_accounts =
    (10, record { balance = 100; nonce = 0 }) ∷ (11, record { balance = 20; nonce = 0 }) ∷ []

abbrev chain : Chain
chain = record {
  accounts = two_accounts;
  recent_tx_hashes = [];
  spent_outputs = [];
  sponsor_registry = [];
  privacy_pool = record {
    deposits = [];
    commitment_set = [];
    spent_nullifiers = [];
    denomination = 10;
    require_proof = false;
  };
  latest_block_number = 3;
  chain_id = 1;
  evm_enabled = false;
}

abbrev block : List Transaction → Block
block txs = record { block_number = 4; timestamp = 500; hash = 77; transactions = txs }

abbrev first : Transaction
first = pay 10 11 30 0

-- The second payment is more than what is left.
abbrev too_much : Transaction
too_much = pay 10 11 90 1

paid : (apply_tx (block []) first chain).0 ≡ ok
unfolding apply_tx check_tx is_ready_to_execute check_double_spend validate_tx_stateful_only get
    get_nonce get_balance process_transaction
paid = refl

paid_alone : (apply_all (block []) (first ∷ []) chain).0 ≡ ok
unfolding apply_all apply_tx check_tx is_ready_to_execute check_double_spend
    validate_tx_stateful_only get get_nonce get_balance process_transaction
paid_alone = refl

refused :
    (apply_tx (block []) too_much (apply_all (block []) (first ∷ []) chain).1).0
    ≡ err insufficient_balance
unfolding apply_all apply_tx check_tx is_ready_to_execute check_double_spend
    validate_tx_stateful_only get get_nonce get_balance process_transaction commit_tx insert credit
    debit
refused = refl

-- A block is rejected as a whole where a transaction of it does not pass the first checks.
rejected_whole :
    validate_and_process_transactions
      (λ _ _. true)
      (λ tx. tx.hash)
      (block (first ∷ record too_much { fee = 0 } ∷ []))
      chain
    ≡ (err zero_fee, chain)
unfolding validate_and_process_transactions verify_all verify_tx_stateless
rejected_whole = refl

two_accounts-HasWordNonces : HasWordNonces two_accounts
unfolding get_nonce get
two_accounts-HasWordNonces j = ground arith

-- The block comes twice, with its spent outputs forgotten in between.
abbrev events : List Event
events =
    processed (block (first ∷ too_much ∷ []))
    ∷ rolled_back 77
    ∷ pruned 200
    ∷ processed (block (first ∷ []))
    ∷ []

processed_once_example : count_events (λ _ _. true) (λ tx. tx.hash) 10 0 events chain ≤ 1
processed_once_example =
    processed_once (λ _ _. true) (λ tx. tx.hash) 10 0 events chain two_accounts-HasWordNonces
      (omega arith)

two_accounts_fit : total two_accounts < u128_mod
unfolding total
two_accounts_fit = omega arith

-- The sender sponsors itself.
abbrev own_sponsor : Transaction
own_sponsor = record first { sponsor = some 10 }

nonce-apply_tx_example :
    get_nonce 10 (apply_tx (block []) first chain).1.accounts
    ≡ nonce_after first 10 two_accounts (apply_tx (block []) first chain).0
nonce-apply_tx_example = nonce-apply_tx (block []) first 10 chain

apply_all_partial_example :
    apply_all (block []) ((first ∷ []) ++ too_much ∷ []) chain
    ≡ (err insufficient_balance, (apply_all (block []) (first ∷ []) chain).1)
apply_all_partial_example =
    apply_all_partial (block []) (first ∷ []) [] too_much chain paid_alone refused

total-validate_and_process_transactions_example :
    AllSettled (taken_all (first ∷ too_much ∷ [])) chain (
      validate_and_process_transactions
        (λ _ _. true)
        (λ tx. tx.hash)
        (block (first ∷ too_much ∷ []))
        chain)
total-validate_and_process_transactions_example =
    total-validate_and_process_transactions (λ _ _. true) (λ tx. tx.hash)
      (block (first ∷ too_much ∷ [])) chain two_accounts_fit

-- Another payment with the nonce of the first, in a block of another hash.
apply_tx-check_double_spend_example :
    check_double_spend (pay 10 12 7 0) 78 (apply_tx (block []) first chain).1
    ≡ (if 77 == 78 then ok else err double_spend)
apply_tx-check_double_spend_example =
    apply_tx-check_double_spend (block []) first (pay 10 12 7 0) 78 chain paid refl refl
