-- ===== src/Ledger/Spent.antt =====
-- The detection of double spends between blocks.
use Prim.Native.Nat.{ℕ}
use mathlib.Core.Path.{◌≡◌, refl}
use mathlib.Core.Option.{some}
use native.Mathlib.Omega.{arith}
use iron_dag.Prelude.Tests.{◌==◌, if◌then◌else◌}
use iron_dag.Prelude.Eq.{pair_eq}
use iron_dag.Prelude.Map.{get, insert, get-insert}
use iron_dag.Ledger.Types.{Transaction, Chain, ok, err, double_spend}
use iron_dag.Ledger.Checks.{check_double_spend}
use iron_dag.Ledger.Process.{process_transaction}
use iron_dag.Ledger.Block.{Block, record_spent_output, record_sponsor, commit_tx, apply_tx}

commit_tx-spent_outputs :
    (b : Block) (tx : Transaction) (c : Chain)
    → (commit_tx b tx c).spent_outputs
      ≡ insert (tx.from, tx.nonce) (b.hash, b.block_number) c.spent_outputs
unfolding commit_tx record_spent_output record_sponsor
commit_tx-spent_outputs b tx c = ground arith

applied_spends :
    (b : Block) (tx : Transaction) (c : Chain)
    → (apply_tx b tx c).0 ≡ ok
    → get (tx.from, tx.nonce) (apply_tx b tx c).1.spent_outputs ≡ some (b.hash, b.block_number)
unfolding apply_tx
applied_spends b tx c h =
    let c' = (process_transaction tx c).1 in
    ground (
      arith,
      commit_tx-spent_outputs b tx c',
      get-insert (tx.from, tx.nonce) (tx.from, tx.nonce) (b.hash, b.block_number) c'.spent_outputs,
    )

-- After a transaction of one block has been processed, any transaction with the same sender and nonce
-- is a double spend in every other block, and none in this one.
pub apply_tx-check_double_spend :
    (b : Block) (tx other : Transaction) (hash : ℕ) (c : Chain)
    → (apply_tx b tx c).0 ≡ ok
    → other.from ≡ tx.from
    → other.nonce ≡ tx.nonce
    → check_double_spend other hash (apply_tx b tx c).1
      ≡ (if b.hash == hash then ok else err double_spend)
unfolding check_double_spend
apply_tx-check_double_spend b tx other hash c h ef en =
    let found : get (other.from, other.nonce) (apply_tx b tx c).1.spent_outputs
        ≡ some (b.hash, b.block_number) =
      cc (ef, en, applied_spends b tx c h) in
    rw (found, check_double_spend) refl
