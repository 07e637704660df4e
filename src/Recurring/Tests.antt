-- ===== src/Recurring/Tests.antt =====
-- Concrete runs of a recurring transaction.
use Prim.Native.Nat.{ℕ, ◌+◌, ◌≤◌}
use mathlib.Core.Path.{refl}
use mathlib.Core.List.{List, [], ◌∷◌}
use mathlib.Core.Option.{none, some}
use native.Mathlib.Omega.{arith}
use iron_dag.Prelude.Lists.{length}
use iron_dag.Prelude.Eq.{nat_eq}
use iron_dag.Prelude.Map.{get}
use iron_dag.Recurring.{
  RecurringTransaction, RecurringTxStatus, active, custom, interval, Transactions,
}
use iron_dag.Recurring.Events.{Event, look, pause_it, resume_it, executions, AreSpaced}
use iron_dag.Recurring.Pace.{executions-AreSpaced, executions-le-max}

-- Twice at most, every 100 seconds from second 1,000 on.
abbrev twice : RecurringTxStatus → RecurringTransaction
twice status = record {
  recurring_tx_id = 7;
  from = 1;
  to = 2;
  value = 50;
  schedule = custom 100;
  created_at = 900;
  start_date = 1000;
  end_date = none;
  next_execution = 1000;
  max_executions = some 2;
  execution_count = 0;
  status = status;
  last_execution = none;
  last_execution_tx_hash = none;
  failure_count = 0;
}

abbrev table : RecurringTxStatus → Transactions
table status = (7, twice status) ∷ []

abbrev events : List (ℕ × Event)
events =
    (1000, look 41)
    ∷ (1050, look 42)
    ∷ (1060, pause_it)
    ∷ (1100, look 43)
    ∷ (1110, resume_it)
    ∷ (1120, look 44)
    ∷ (1300, look 45)
    ∷ []

executions-AreSpaced_example :
    AreSpaced 1000 (interval (custom 100)) (executions 7 events (table active))
unfolding get interval
executions-AreSpaced_example = executions-AreSpaced 7 events (table active) (twice active) refl (
  omega arith,
  (omega arith, (omega arith, (omega arith, (omega arith, (omega arith, (omega arith, tt)))))),
)

executions-le-max_example : 0 + length (executions 7 events (table active)) ≤ 2
unfolding get
executions-le-max_example =
    executions-le-max 7 2 events (table active) (twice active) refl refl (omega arith) (omega arith)
