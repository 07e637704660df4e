-- ===== src/Recurring.antt =====
-- Recurring transactions, irondag-blockchain/src/recurring: `RecurringTransaction` and its manager in
-- manager.rs, and what scheduler.rs makes of those that are due. The hash that gives a transaction
-- its id is a parameter, and so is the construction of a ledger transaction. The sums of u64 wrap
-- around, as in a release build.
pub mod Events
pub mod Pace
mod Tests
use Prim.Native.Nat.{ℕ, ◌+◌, ◌%◌, ◌^◌}
use mathlib.Core.Bool.{Bool, true, false, not, ◌||◌, ◌&&◌}
use mathlib.Core.List.{List, [], ◌∷◌, map}
use mathlib.Core.Option.{Option, none, some}
use iron_dag.Prelude.Tests.{ltb, leb, ◌==◌, if◌then◌else◌}
use iron_dag.Prelude.Eq.{nat_eq}
use iron_dag.Prelude.Map.{Map, insert, change_entry}

-- The day, the hour and the minute, or the interval in seconds.
pub data Schedule : Type 0 where
  daily : ℕ → ℕ → Schedule
  weekly monthly : ℕ → ℕ → ℕ → Schedule
  custom : ℕ → Schedule

pub data RecurringTxStatus : Type 0 where
  active paused cancelled completed failed : RecurringTxStatus

pub record RecurringTransaction : Type 0 where
  pub recurring_tx_id : ℕ
  pub from : ℕ
  pub to : ℕ
  pub value : ℕ
  pub schedule : Schedule
  pub created_at : ℕ
  pub start_date : ℕ
  pub end_date : Option ℕ
  pub next_execution : ℕ
  pub max_executions : Option ℕ
  pub execution_count : ℕ
  pub status : RecurringTxStatus
  pub last_execution : Option ℕ
  pub last_execution_tx_hash : Option ℕ
  pub failure_count : ℕ

pub data RecurringError : Type 0 where
  not_found already_cancelled not_active not_paused : RecurringError

abbrev pub is_active : RecurringTxStatus → Bool
is_active active = true
is_active _ = false

abbrev pub is_paused : RecurringTxStatus → Bool
is_paused paused = true
is_paused _ = false

abbrev pub is_cancelled : RecurringTxStatus → Bool
is_cancelled cancelled = true
is_cancelled _ = false

-- The tests of an optional end and of an optional number of executions.
abbrev pub is_after : Option ℕ → ℕ → Bool
is_after none now = false
is_after (some end_date) now = ltb end_date now

abbrev pub is_used_up : Option ℕ → ℕ → Bool
is_used_up none count = false
is_used_up (some max) count = leb max count

unfoldable pub should_execute : ℕ → RecurringTransaction → Bool
should_execute now r =
    if not (is_active r.status)
    then false
    else if ltb now r.start_date
    then false
    else if is_after r.end_date now
    then false
    else if is_used_up r.max_executions r.execution_count
    then false
    else leb r.next_execution now

-- The seconds from an execution to the next one.
unfoldable pub interval : Schedule → ℕ
interval (daily _ _) = 86400
interval (weekly _ _ _) = 604800
interval (monthly _ _ _) = 2592000
interval (custom seconds) = seconds

unfoldable pub calculate_next_execution : ℕ → RecurringTransaction → ℕ
calculate_next_execution now r = (now + interval r.schedule) % 2 ^ 64

abbrev pub Transactions : Type 0
Transactions = Map ℕ RecurringTransaction

unfoldable pub create_recurring :
    (ℕ → ℕ → ℕ → Schedule → ℕ → ℕ)
    → ℕ
    → ℕ
    → ℕ
    → Schedule
    → ℕ
    → Option ℕ
    → Option ℕ
    → ℕ
    → Transactions
    → RecurringTransaction × Transactions
create_recurring calculate_id from to value schedule start end_date max_executions now m =
    let id = calculate_id from to value schedule now in
    let r : RecurringTransaction = record {
      recurring_tx_id = id;
      from = from;
      to = to;
      value = value;
      schedule = schedule;
      created_at = now;
      start_date = start;
      end_date = end_date;
      next_execution = start;
      max_executions = max_executions;
      execution_count = 0;
      status = active;
      last_execution = none;
      last_execution_tx_hash = none;
      failure_count = 0;
    } in
    (r, insert id r m)

-- `get_mut` and a change of the entry, whose error leaves it alone.
unfoldable pub change :
    (RecurringTransaction → Option RecurringError × RecurringTransaction)
    → ℕ
    → Transactions
    → Option RecurringError × Transactions
change f id m = change_entry (some not_found) f id m

unfoldable pub cancel_one : RecurringTransaction → Option RecurringError × RecurringTransaction
cancel_one r =
    if is_cancelled r.status
    then (some already_cancelled, r)
    else (none, record r { status = cancelled })

unfoldable pub cancel : ℕ → Transactions → Option RecurringError × Transactions
cancel id m = change cancel_one id m

-- Without a limit the status stays.
abbrev pub complete_if : Bool → RecurringTxStatus → RecurringTxStatus
complete_if b s = if b then completed else s

abbrev pub has_ended : Option ℕ → ℕ → Bool
has_ended none now = false
has_ended (some end_date) now = leb end_date now

unfoldable pub execute_one :
    ℕ → ℕ → RecurringTransaction → Option RecurringError × RecurringTransaction
execute_one tx_hash now r =
    let count = (r.execution_count + 1) % 2 ^ 64 in
    (
      none,
      record r {
        execution_count = count;
        last_execution = some now;
        last_execution_tx_hash = some tx_hash;
        next_execution = calculate_next_execution now r;
        status =
            complete_if (has_ended r.end_date now)
              (complete_if (is_used_up r.max_executions count) r.status);
      },
    )

unfoldable pub mark_executed : ℕ → ℕ → ℕ → Transactions → Option RecurringError × Transactions
mark_executed id tx_hash now m = change (execute_one tx_hash now) id m

unfoldable pub fail_one : RecurringTransaction → Option RecurringError × RecurringTransaction
fail_one r =
    let count = (r.failure_count + 1) % 2 ^ 64 in
    (none, record r { failure_count = count; status = if leb 5 count then failed else r.status })

unfoldable pub mark_failed : ℕ → Transactions → Option RecurringError × Transactions
mark_failed id m = change fail_one id m

unfoldable pub pause_one : RecurringTransaction → Option RecurringError × RecurringTransaction
pause_one r =
    if not (is_active r.status) then (some not_active, r) else (none, record r { status = paused })

unfoldable pub pause : ℕ → Transactions → Option RecurringError × Transactions
pause id m = change pause_one id m

unfoldable pub resume_one : RecurringTransaction → Option RecurringError × RecurringTransaction
resume_one r =
    if not (is_paused r.status) then (some not_paused, r) else (none, record r { status = active })

unfoldable pub resume : ℕ → Transactions → Option RecurringError × Transactions
resume id m = change resume_one id m

-- `values().filter(..)`
unfoldable pub filter_values :
    (RecurringTransaction → Bool) → Transactions → List RecurringTransaction
filter_values p [] = []
filter_values p ((id, r) ∷ m) = let rest = filter_values p m in if p r then r ∷ rest else rest

unfoldable pub get_for_address : ℕ → Transactions → List RecurringTransaction
get_for_address address m = filter_values (λ r. (r.from == address) || (r.to == address)) m

unfoldable pub get_ready_to_execute : ℕ → Transactions → List RecurringTransaction
get_ready_to_execute now m = filter_values (should_execute now) m

-- The ledger transactions that are due, from sender, receiver, value, fee and nonce.
unfoldable pub process_due_transactions :
    {T : Type 0} → (ℕ → ℕ → ℕ → ℕ → ℕ → T) → ℕ → Transactions → List T
process_due_transactions new now m =
    map (λ r. new r.from r.to r.value 0 0) (get_ready_to_execute now m)
