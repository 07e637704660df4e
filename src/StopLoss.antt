-- ===== src/StopLoss.antt =====
-- Stop-loss orders, irondag-blockchain/src/stop_loss: `StopLossOrder` and its manager in manager.rs,
-- and the monitor of monitor.rs. The percentages are floating-point numbers in the source: the tests
-- of a change by a percentage are parameters here, of the bits of the percentage, the initial and the
-- current price. So is the hash that gives an order its id. Names of pairs and feeds are numbers.
pub mod Trigger
pub mod Monitor
mod Tests
use Prim.Native.Nat.{ℕ}
use mathlib.Core.Bool.{Bool, true, false, not, ◌||◌, ◌&&◌}
use mathlib.Core.List.{List, [], ◌∷◌}
use mathlib.Core.Option.{Option, none, some}
use iron_dag.Prelude.Tests.{ltb, leb, ◌==◌, if◌then◌else◌}
use iron_dag.Prelude.Eq.{nat_eq}
use iron_dag.Prelude.Map.{Map, insert, change_entry}
use iron_dag.Ledger.Types.{Transaction}

pub data StopLossType : Type 0 where
  price_above price_below percent_change_up percent_change_down : ℕ → StopLossType
  price_range : ℕ → ℕ → StopLossType

pub data StopLossStatus : Type 0 where
  active paused triggered cancelled expired : StopLossStatus

pub record StopLossOrder : Type 0 where
  pub stop_loss_id : ℕ
  pub wallet_address : ℕ
  pub asset_pair : ℕ
  pub trigger_type : StopLossType
  pub transaction : Transaction
  pub oracle_feed_id : Option ℕ
  pub created_at : ℕ
  pub status : StopLossStatus
  pub triggered_at : Option ℕ
  pub triggered_price : Option ℕ
  pub execution_tx_hash : Option ℕ
  pub initial_price : Option ℕ
  pub expiration_date : Option ℕ

pub data StopLossError : Type 0 where
  not_found already_triggered not_active not_paused no_price : StopLossError

abbrev pub is_active : StopLossStatus → Bool
is_active active = true
is_active _ = false

abbrev pub is_paused : StopLossStatus → Bool
is_paused paused = true
is_paused _ = false

abbrev pub is_triggered : StopLossStatus → Bool
is_triggered triggered = true
is_triggered _ = false

abbrev pub has_expired : Option ℕ → ℕ → Bool
has_expired none now = false
has_expired (some expiration) now = leb expiration now

abbrev pub price_or : Option ℕ → ℕ → ℕ
price_or none price = price
price_or (some initial) price = initial

module _ (percent_up percent_down : ℕ → ℕ → ℕ → Bool) where
  unfoldable pub is_met : StopLossType → ℕ → ℕ → Bool
  is_met (price_above threshold) initial price = leb threshold price
  is_met (price_below threshold) initial price = leb price threshold
  is_met (percent_change_up percent) initial price = percent_up percent initial price
  is_met (percent_change_down percent) initial price = percent_down percent initial price
  is_met (price_range min max) initial price = ltb price min || ltb max price

  unfoldable pub should_trigger : ℕ → ℕ → StopLossOrder → Bool
  should_trigger price now o =
      if not (is_active o.status)
      then false
      else if has_expired o.expiration_date now
      then false
      else is_met o.trigger_type (price_or o.initial_price price) price

abbrev pub Orders : Type 0
Orders = Map ℕ StopLossOrder

unfoldable pub create_stop_loss :
    (ℕ → ℕ → StopLossType → ℕ → ℕ)
    → ℕ
    → ℕ
    → StopLossType
    → Transaction
    → Option ℕ
    → ℕ
    → Option ℕ
    → Orders
    → StopLossOrder × Orders
create_stop_loss calculate_id wallet pair trigger tx feed now expiration m =
    let id = calculate_id wallet pair trigger now in
    let o : StopLossOrder = record {
      stop_loss_id = id;
      wallet_address = wallet;
      asset_pair = pair;
      trigger_type = trigger;
      transaction = tx;
      oracle_feed_id = feed;
      created_at = now;
      status = active;
      triggered_at = none;
      triggered_price = none;
      execution_tx_hash = none;
      initial_price = none;
      expiration_date = expiration;
    } in
    (o, insert id o m)

unfoldable pub cancel_order : StopLossOrder → Option StopLossError × StopLossOrder
cancel_order o =
    if is_triggered o.status
    then (some already_triggered, o)
    else (none, record o { status = cancelled })

unfoldable pub cancel : ℕ → Orders → Option StopLossError × Orders
cancel id m = change_entry (some not_found) cancel_order id m

unfoldable pub trigger_order : ℕ → ℕ → StopLossOrder → Option StopLossError × StopLossOrder
trigger_order price now o =
    (none, record o { status = triggered; triggered_at = some now; triggered_price = some price })

unfoldable pub mark_triggered : ℕ → ℕ → ℕ → Orders → Option StopLossError × Orders
mark_triggered id price now m = change_entry (some not_found) (trigger_order price now) id m

unfoldable pub set_execution_tx : ℕ → ℕ → Orders → Option StopLossError × Orders
set_execution_tx id tx_hash m =
    change_entry (some not_found)
      (λ (o : StopLossOrder). (none, record o { execution_tx_hash = some tx_hash })) id m

unfoldable pub price_order : ℕ → StopLossOrder → Option StopLossError × StopLossOrder
price_order price o = elim o.initial_price [
  | none ↦ (none, record o { initial_price = some price })
  | some _ ↦ (none, o)
]

unfoldable pub set_initial_price : ℕ → ℕ → Orders → Option StopLossError × Orders
set_initial_price id price m = change_entry (some not_found) (price_order price) id m

unfoldable pub pause_order : StopLossOrder → Option StopLossError × StopLossOrder
pause_order o =
    if not (is_active o.status) then (some not_active, o) else (none, record o { status = paused })

unfoldable pub pause : ℕ → Orders → Option StopLossError × Orders
pause id m = change_entry (some not_found) pause_order id m

unfoldable pub resume_order : StopLossOrder → Option StopLossError × StopLossOrder
resume_order o =
    if not (is_paused o.status) then (some not_paused, o) else (none, record o { status = active })

unfoldable pub resume : ℕ → Orders → Option StopLossError × Orders
resume id m = change_entry (some not_found) resume_order id m

unfoldable pub reprice_order : ℕ → StopLossOrder → Option StopLossError × StopLossOrder
reprice_order price o = elim o.trigger_type [
  | price_above _ ↦ (none, record o { trigger_type = price_above price })
  | price_below _ ↦ (none, record o { trigger_type = price_below price })
  | _ ↦ (some no_price, o)
]

unfoldable pub update_trigger_price : ℕ → ℕ → Orders → Option StopLossError × Orders
update_trigger_price id price m = change_entry (some not_found) (reprice_order price) id m

unfoldable pub filter_orders : (StopLossOrder → Bool) → Orders → List StopLossOrder
filter_orders p [] = []
filter_orders p ((id, o) ∷ m) = let rest = filter_orders p m in if p o then o ∷ rest else rest

unfoldable pub get_for_address : ℕ → Orders → List StopLossOrder
get_for_address address m = filter_orders (λ o. o.wallet_address == address) m

abbrev pub is_feed : Option ℕ → ℕ → Bool
is_feed none feed = true
is_feed (some id) feed = id == feed

unfoldable pub get_active_for_feed : ℕ → Orders → List StopLossOrder
get_active_for_feed feed m =
    filter_orders (λ o. is_active o.status && is_feed o.oracle_feed_id feed) m
