-- ===== src/Recurring/Pace.antt =====
-- How often a recurring transaction is executed, recurring/manager.rs.
use Prim.Native.Nat.{ℕ, ◌+◌, ◌^◌, ◌≤◌, ◌<◌}
use mathlib.Core.Path.{◌≡◌, refl, ap, ◌∙◌}
use mathlib.Core.Logic.{inl, inr}
use mathlib.Core.Bool.{Bool, true, false}
use mathlib.Core.List.{List, [], ◌∷◌}
use mathlib.Core.Option.{some}
use native.Mathlib.Omega.{arith}
use iron_dag.Prelude.Tests.{if◌then◌else◌, Bool-cases}
use iron_dag.Prelude.Lists.{length}
use iron_dag.Prelude.Eq.{nat_eq}
use iron_dag.Prelude.Map.{get}
use iron_dag.Recurring.{
  RecurringTransaction, RecurringTxStatus, Transactions, active, paused, should_execute, interval,
  cancel_one, execute_one, fail_one, pause_one, resume_one,
}
use iron_dag.Recurring.Events.{
  Event, look, cancel_it, fail_it, pause_it, resume_it, react, executions, AreSpaced, AreEarly,
  next, executes, get-react, is_executed-executes, keeps, same_plan, moves, counts,
}

-- An event of a run, by the transaction alone.
executions-step :
    (e : Event) (now id : ℕ) (es : List (ℕ × Event)) (m : Transactions) (r : RecurringTransaction)
    → get id m ≡ some r
    → executions id ((now, e) ∷ es) m ≡ (
        if executes e now r
        then now ∷ executions id es (react e now id m)
        else executions id es (react e now id m))
unfolding executions
executions-step e now id es m r f = rw (executions, is_executed-executes e now id m r f) refl

-- Whatever happens to a transaction of the manager, and at whatever times: it is executed at its next
-- execution time or later, and between two executions lies at least the interval of its schedule. No
-- time with the interval leaves u64.
pub executions-AreSpaced :
    (id : ℕ) (es : List (ℕ × Event)) (m : Transactions) (r : RecurringTransaction)
    → get id m ≡ some r
    → AreEarly (interval r.schedule) es
    → AreSpaced r.next_execution (interval r.schedule) (executions id es m)
unfolding executions
executions-AreSpaced id [] m r f h = tt
executions-AreSpaced id ((now, e) ∷ es) m r f h =
    let r' = next e now r in
    let plan = same_plan e now r in
    let step : interval r'.schedule ≡ interval r.schedule = ap interval plan.0 in
    let later =
      executions-AreSpaced id es (react e now id m) r' (get-react e now id m r f) (rw step h.1) in
    elim (Bool-cases (executes e now r)) [
      | inl is ↦
          let moved = moves e now r is h.0 in
          rw (executions-step e now id es m r f, is) (moved.0, rw (step, moved.1) at later)
      | inr not ↦
          let kept = keeps e now r not in
          rw (executions-step e now id es m r f, not) (rw (step, kept.0) at later)
    ]

-- With a largest number of executions, the executions before and those of any events are at most that
-- many, where those before are and the number is a u64 value.
pub executions-le-max :
    (id max : ℕ) (es : List (ℕ × Event)) (m : Transactions) (r : RecurringTransaction)
    → get id m ≡ some r
    → r.max_executions ≡ some max
    → max < 2 ^ 64
    → r.execution_count ≤ max
    → r.execution_count + length (executions id es m) ≤ max
unfolding executions
executions-le-max id max [] m r f g small h = omega arith
executions-le-max id max ((now, e) ∷ es) m r f g small h =
    let r' = next e now r in
    let same : r'.max_executions ≡ some max = (same_plan e now r).1 ∙ g in
    let later =
      executions-le-max id max es (react e now id m) r' (get-react e now id m r f) same small in
    elim (Bool-cases (executes e now r)) [
      | inl is ↦
          let counted = counts e now max r is g small in
          rw (executions-step e now id es m r f, is)
            (omega (arith, counted.0, counted.1, later (omega (arith, counted.0, counted.1))))
      | inr not ↦
          let kept = keeps e now r not in
          rw (executions-step e now id es m r f, not)
            (omega (arith, kept.1, later (omega (arith, kept.1))))
    ]

-- Cancelled, completed or failed.
abbrev is_over : RecurringTxStatus → Bool
is_over active = false
is_over paused = false
is_over _ = true

stays_over :
    (e : Event) (now : ℕ) (r : RecurringTransaction)
    → is_over r.status ≡ true
    → (is_over (next e now r).status ≡ true) × (executes e now r ≡ false)
unfolding next executes should_execute execute_one cancel_one fail_one pause_one resume_one
stays_over (look hash) now r h = (ground arith, ground arith)
stays_over cancel_it now r h = (ground arith, refl)
stays_over fail_it now r h = (ground arith, refl)
stays_over pause_it now r h = (ground arith, refl)
stays_over resume_it now r h = (ground arith, refl)

-- A transaction that is cancelled, completed or failed is never executed again, whatever happens to
-- it.
executions-over :
    (id : ℕ) (es : List (ℕ × Event)) (m : Transactions) (r : RecurringTransaction)
    → get id m ≡ some r
    → is_over r.status ≡ true
    → executions id es m ≡ []
unfolding executions
executions-over id [] m r f h = refl
executions-over id ((now, e) ∷ es) m r f h =
    let (over, idle) = stays_over e now r h in
    rw (executions-step e now id es m r f, idle)
      (executions-over id es (react e now id m) (next e now r) (get-react e now id m r f) over)
