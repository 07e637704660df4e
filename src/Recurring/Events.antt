-- ===== src/Recurring/Events.antt =====
-- What happens to a recurring transaction, one event after another, recurring/manager.rs.
use Prim.Native.Nat.{ℕ, ◌+◌, ◌^◌, ◌≤◌, ◌<◌}
use mathlib.Core.Path.{◌≡◌, refl}
use mathlib.Core.Bool.{Bool, true, false}
use mathlib.Core.List.{List, [], ◌∷◌}
use mathlib.Core.Option.{Option, none, some}
use native.Mathlib.Omega.{arith}
use iron_dag.Prelude.Tests.{if◌then◌else◌}
use iron_dag.Prelude.Eq.{nat_eq}
use iron_dag.Prelude.Map.{get, get-change_entry}
use iron_dag.Recurring.{
  RecurringTransaction, RecurringError, not_found, Transactions, should_execute, interval,
  calculate_next_execution, change, cancel_one, cancel, execute_one, mark_executed, fail_one,
  mark_failed, pause_one, pause, resume_one, resume,
}

-- What happens to a transaction at a time: the scheduler looks at it and marks it if it is due, with
-- the hash of the ledger transaction, or one of the manager's other calls.
pub data Event : Type 0 where
  look : ℕ → Event
  cancel_it fail_it pause_it resume_it : Event

-- Is it executed?
unfoldable pub is_executed : Event → ℕ → ℕ → Transactions → Bool
is_executed (look _) now id m = elim (get id m) [ none ↦ false | some r ↦ should_execute now r ]
is_executed _ now id m = false

unfoldable pub react : Event → ℕ → ℕ → Transactions → Transactions
react (look hash) now id m =
    if is_executed (look hash) now id m then (mark_executed id hash now m).1 else m
react cancel_it now id m = (cancel id m).1
react fail_it now id m = (mark_failed id m).1
react pause_it now id m = (pause id m).1
react resume_it now id m = (resume id m).1

-- The times at which the transaction is executed.
unfoldable pub executions : ℕ → List (ℕ × Event) → Transactions → List ℕ
executions id [] m = []
executions id ((now, e) ∷ es) m =
    let rest = executions id es (react e now id m) in
    if is_executed e now id m then now ∷ rest else rest

-- The first time is at a bound or behind it, and each next one an interval behind the one before.
abbrev pub AreSpaced : ℕ → ℕ → List ℕ → Type 0
AreSpaced bound step [] = Unit
AreSpaced bound step (t ∷ ts) = (bound ≤ t) × AreSpaced (t + step) step ts

abbrev pub AreEarly : ℕ → List (ℕ × Event) → Type 0
AreEarly step [] = Unit
AreEarly step ((now, e) ∷ es) = (now + step < 2 ^ 64) × AreEarly step es

get-change :
    (f : RecurringTransaction → Option RecurringError × RecurringTransaction) (id : ℕ)
    (m : Transactions) (r : RecurringTransaction)
    → get id m ≡ some r
    → get id (change f id m).1 ≡ some (f r).1
unfolding change
get-change f id m r e = get-change_entry (some not_found) f id m r e

-- The transaction after an event.
unfoldable pub next : Event → ℕ → RecurringTransaction → RecurringTransaction
next (look hash) now r = if should_execute now r then (execute_one hash now r).1 else r
next cancel_it now r = (cancel_one r).1
next fail_it now r = (fail_one r).1
next pause_it now r = (pause_one r).1
next resume_it now r = (resume_one r).1

pub get-react :
    (e : Event) (now id : ℕ) (m : Transactions) (r : RecurringTransaction)
    → get id m ≡ some r
    → get id (react e now id m) ≡ some (next e now r)
unfolding react is_executed next mark_executed cancel mark_failed pause resume
get-react (look hash) now id m r e = ground (arith, e, get-change (execute_one hash now) id m r e)
get-react cancel_it now id m r e = get-change cancel_one id m r e
get-react fail_it now id m r e = get-change fail_one id m r e
get-react pause_it now id m r e = get-change pause_one id m r e
get-react resume_it now id m r e = get-change resume_one id m r e

-- Is it executed, by the transaction alone?
unfoldable pub executes : Event → ℕ → RecurringTransaction → Bool
executes (look _) now r = should_execute now r
executes _ now r = false

pub is_executed-executes :
    (e : Event) (now id : ℕ) (m : Transactions) (r : RecurringTransaction)
    → get id m ≡ some r
    → is_executed e now id m ≡ executes e now r
unfolding is_executed executes
is_executed-executes (look hash) now id m r e = ground (arith, e)
is_executed-executes cancel_it now id m r e = refl
is_executed-executes fail_it now id m r e = refl
is_executed-executes pause_it now id m r e = refl
is_executed-executes resume_it now id m r e = refl

-- What an event keeps of a transaction that it does not execute.
pub keeps :
    (e : Event) (now : ℕ) (r : RecurringTransaction)
    → executes e now r ≡ false
    → ((next e now r).next_execution ≡ r.next_execution)
      × ((next e now r).execution_count ≡ r.execution_count)
unfolding executes next cancel_one fail_one pause_one resume_one
keeps (look hash) now r h = (ground arith, ground arith)
keeps cancel_it now r h = (ground arith, ground arith)
keeps fail_it now r h = (ground arith, ground arith)
keeps pause_it now r h = (ground arith, ground arith)
keeps resume_it now r h = (ground arith, ground arith)

-- And of any.
pub same_plan :
    (e : Event) (now : ℕ) (r : RecurringTransaction)
    → ((next e now r).schedule ≡ r.schedule) × ((next e now r).max_executions ≡ r.max_executions)
unfolding next execute_one cancel_one fail_one pause_one resume_one
same_plan (look hash) now r = (ground arith, ground arith)
same_plan cancel_it now r = (ground arith, ground arith)
same_plan fail_it now r = (ground arith, ground arith)
same_plan pause_it now r = (ground arith, ground arith)
same_plan resume_it now r = (ground arith, ground arith)

pub moves :
    (e : Event) (now : ℕ) (r : RecurringTransaction)
    → executes e now r ≡ true
    → now + interval r.schedule < 2 ^ 64
    → (r.next_execution ≤ now) × ((next e now r).next_execution ≡ now + interval r.schedule)
unfolding executes next execute_one should_execute calculate_next_execution
moves (look hash) now r h small = (ground arith, ground arith)
moves cancel_it now r h small = absurd (ground arith)
moves fail_it now r h small = absurd (ground arith)
moves pause_it now r h small = absurd (ground arith)
moves resume_it now r h small = absurd (ground arith)

pub counts :
    (e : Event) (now max : ℕ) (r : RecurringTransaction)
    → executes e now r ≡ true
    → r.max_executions ≡ some max
    → max < 2 ^ 64
    → (r.execution_count < max) × ((next e now r).execution_count ≡ r.execution_count + 1)
unfolding executes next execute_one should_execute
counts (look hash) now max r h m small = (ground arith, ground arith)
counts cancel_it now max r h m small = absurd (ground arith)
counts fail_it now max r h m small = absurd (ground arith)
counts pause_it now max r h m small = absurd (ground arith)
counts resume_it now max r h m small = absurd (ground arith)
