-- ===== src/StopLoss/Tests.antt =====
-- Concrete runs of a stop-loss order.
use Prim.Native.Nat.{ℕ}
use mathlib.Core.Path.{◌≡◌, refl}
use mathlib.Core.Bool.{Bool, true}
use mathlib.Core.List.{List, [], ◌∷◌}
use mathlib.Core.Option.{Option, none, some}
use iron_dag.Prelude.Tests.{ltb, ◌==◌, if◌then◌else◌}
use iron_dag.Prelude.Eq.{nat_eq}
use iron_dag.Prelude.Map.{get, insert, change_entry}
use iron_dag.Ledger.Types.{Transaction}
use iron_dag.StopLoss.{
  StopLossOrder, price_below, active, Orders, is_met, should_trigger, triggered,
  get_active_for_feed, filter_orders, set_initial_price, mark_triggered, price_order, trigger_order,
}
use iron_dag.StopLoss.Trigger.{
  Event, look, cancel_it, pause_it, resume_it, triggers, IsOnce, triggers-IsOnce,
}
use iron_dag.StopLoss.Monitor.{
  is_due, check_feed, check_feed_orders, ensure_initial, write, check_and_trigger,
  check_and_trigger_blocks,
}

-- A stand-in for the tests of a percentage.
abbrev changed_by : ℕ → ℕ → ℕ → Bool
changed_by percent initial price = ltb initial price

abbrev sale : Transaction
sale = record {
  hash = 77;
  from = 5;
  to = 6;
  value = 30;
  fee = 2;
  nonce = 0;
  bytes = [];
  gas_limit = 21_000;
  chain_id = none;
  execute_at_block = none;
  execute_at_timestamp = none;
  sponsor = none;
}

-- Sell at 100 or below, before second 2,000.
abbrev order : StopLossOrder
order = record {
  stop_loss_id = 4;
  wallet_address = 5;
  asset_pair = 1;
  trigger_type = price_below 100;
  transaction = sale;
  oracle_feed_id = none;
  created_at = 900;
  status = active;
  triggered_at = none;
  triggered_price = none;
  execution_tx_hash = none;
  initial_price = none;
  expiration_date = some 2000;
}

abbrev orders : Orders
orders = (4, order) ∷ []

abbrev events : List (ℕ × Event)
events =
    (1000, look 120)
    ∷ (1010, pause_it)
    ∷ (1020, look 90)
    ∷ (1030, resume_it)
    ∷ (1040, look 90)
    ∷ (1050, cancel_it)
    ∷ (1060, look 80)
    ∷ []

triggers-IsOnce_example : IsOnce (some 2000) (triggers changed_by changed_by 4 events orders)
unfolding get
triggers-IsOnce_example = triggers-IsOnce changed_by changed_by 4 events orders order refl

abbrev price : ℕ → Option ℕ
price pair = if pair == 1 then some 95 else none

-- A lock that grants a write when nobody reads.
abbrev granted : ℕ → Bool
granted readers = readers == 0

check_and_trigger_blocks_example :
    check_and_trigger changed_by changed_by price granted 1000 orders ≡ none
unfolding is_due should_trigger is_met
check_and_trigger_blocks_example =
    check_and_trigger_blocks changed_by changed_by price granted 1000 orders refl refl

-- What the checks leave, where the lock always grants.
abbrev sold : Orders
sold =
    (
      4,
      record order {
        status = triggered;
        triggered_at = some 1000;
        triggered_price = some 95;
        initial_price = some 95;
      },
    )
    ∷ []

-- A lock that always grants lets the order through; the other one holds the check of the feed up.
feed_1 :
    (check_feed changed_by changed_by price (λ readers. true) 1 1000 orders
      ≡ some ((4, sale) ∷ [], sold))
    × (check_feed changed_by changed_by price granted 1 1000 orders ≡ none)
unfolding check_feed check_feed_orders ensure_initial write should_trigger is_met
    get_active_for_feed filter_orders set_initial_price mark_triggered change_entry get insert
    price_order trigger_order
feed_1 = (refl, refl)
