-- ===== src/Ledger/Block.antt =====
-- `validate_and_process_transactions`, `record_spent_output`, `prune_spent_outputs` and
-- `rollback_spent_outputs`. The state comes back after an error too: what the transactions before
-- the failing one have written stays written.
use Prim.Native.Nat.{ℕ, ◌-◌}
use mathlib.Core.Bool.{Bool, not}
use mathlib.Core.List.{List, [], ◌∷◌}
use mathlib.Core.Option.{none, some}
use iron_dag.Prelude.Tests.{ltb, leb, ◌==◌, if◌then◌else◌}
use iron_dag.Prelude.Eq.{pair_eq}
use iron_dag.Prelude.Map.{Map, insert}
use iron_dag.Sponsor.Registry.{record_spend_for}
use iron_dag.Ledger.Types.{Transaction, Chain, time_locked, Outcome, ok, err, ◌>>◌, finality_depth}
use iron_dag.Ledger.Checks.{
  is_ready_to_execute, verify_tx_stateless, validate_tx_stateful_only, check_double_spend,
}
use iron_dag.Ledger.Process.{process_transaction}

-- The part of a block that its transactions are judged by.
pub record Block : Type 0 where
  pub block_number : ℕ
  pub timestamp : ℕ
  pub hash : ℕ
  pub transactions : List Transaction

-- `HashMap::retain` on the spent outputs, with a test of the entry's block hash and number.
abbrev pub Spent : Type 0
Spent = Map (ℕ × ℕ) (ℕ × ℕ)

unfoldable pub retain : (ℕ × ℕ → Bool) → Spent → Spent
retain p [] = []
retain p ((k, v) ∷ m) = if p v then (k, v) ∷ retain p m else retain p m

unfoldable pub prune_spent_outputs : ℕ → Chain → Chain
unfolding retain
prune_spent_outputs current_height c = if leb current_height finality_depth then c else record c {
  spent_outputs = retain (λ v. ltb (current_height - finality_depth) v.1) c.spent_outputs;
}

unfoldable pub rollback_spent_outputs : ℕ → Chain → Chain
unfolding retain
rollback_spent_outputs block_hash c = record c {
  spent_outputs = retain (λ v. not (v.0 == block_hash)) c.spent_outputs;
}

unfoldable pub record_spent_output : Transaction → ℕ → ℕ → Chain → Chain
record_spent_output tx block_hash block_number c = record c {
  spent_outputs = insert (tx.from, tx.nonce) (block_hash, block_number) c.spent_outputs;
}

-- The sponsor's window, after the transaction is committed.
unfoldable pub record_sponsor : Transaction → ℕ → Chain → Chain
record_sponsor tx current_block c = elim tx.sponsor [
  | none ↦ c
  | some s ↦ record c {
    sponsor_registry = record_spend_for s tx.fee current_block c.sponsor_registry;
  }
]

-- The checks of one transaction in a block, in the order of the loop's body.
unfoldable pub check_tx : Block → Transaction → Chain → Outcome
check_tx b tx c = do
  if is_ready_to_execute tx b.block_number b.timestamp then ok else err time_locked
  check_double_spend tx b.hash c
  validate_tx_stateful_only tx b.block_number c

-- What follows a transaction that has been processed.
unfoldable pub commit_tx : Block → Transaction → Chain → Chain
unfolding record_spent_output record_sponsor
commit_tx b tx c = record_sponsor tx b.block_number (record_spent_output tx b.hash b.block_number c)

unfoldable pub apply_tx : Block → Transaction → Chain → Outcome × Chain
apply_tx b tx c = elim (check_tx b tx c) [
  | err e ↦ (err e, c)
  | ok ↦
      let (r, c') = process_transaction tx c in
      elim r [ ok ↦ (ok, commit_tx b tx c') | err e ↦ (err e, c') ]
]

-- The sequential loop.
unfoldable pub apply_all : Block → List Transaction → Chain → Outcome × Chain
apply_all b [] c = (ok, c)
apply_all b (tx ∷ txs) c =
    let (r, c') = apply_tx b tx c in elim r [ ok ↦ apply_all b txs c' | err e ↦ (err e, c') ]

module _ (signature_ok : Transaction → ℕ → Bool) (calculate_hash : Transaction → ℕ) where
  -- The stateless pass; of several failures it reports the first.
  unfoldable pub verify_all : Block → List Transaction → Chain → Outcome
  verify_all b [] c = ok
  verify_all b (tx ∷ txs) c =
      verify_tx_stateless signature_ok calculate_hash tx c.chain_id c.evm_enabled b.block_number
      >> verify_all b txs c

  unfoldable pub validate_and_process_transactions : Block → Chain → Outcome × Chain
  unfolding verify_all
  validate_and_process_transactions b c = elim (verify_all b b.transactions c) [
    | err e ↦ (err e, c)
    | ok ↦
        let (r, c') = apply_all b b.transactions c in
        elim r [ ok ↦ (ok, prune_spent_outputs b.block_number c') | err e ↦ (err e, c') ]
  ]
