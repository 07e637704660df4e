-- ===== src/StopLoss/Monitor.antt =====
-- `StopLossMonitor::check_and_trigger` and `check_feed`, stop_loss/monitor.rs. They keep a read lock
-- on the manager until they return, and ask for the write lock meanwhile. Whether the lock grants a
-- write while so many read locks are held is a parameter, and so is the price of a pair; `none` is a
-- call that waits for ever.
use Prim.Native.Nat.{ℕ}
use mathlib.Core.Path.{◌≡◌}
use mathlib.Core.Logic.{inl, inr}
use mathlib.Core.Bool.{Bool, true, false}
use mathlib.Core.List.{List, [], ◌∷◌}
use mathlib.Core.Option.{Option, none, some}
use native.Mathlib.Omega.{arith}
use iron_dag.Prelude.Tests.{if◌then◌else◌, Option-cases}
use iron_dag.Prelude.Lists.{any}
use iron_dag.Prelude.Eq.{nat_eq}
use iron_dag.Ledger.Types.{Transaction}
use iron_dag.StopLoss.{
  StopLossOrder, Orders, is_active, should_trigger, mark_triggered, set_initial_price,
  get_active_for_feed,
}

module _ (percent_up percent_down : ℕ → ℕ → ℕ → Bool) (get_price : ℕ → Option ℕ)
    (granted : ℕ → Bool) where
  -- A change of the manager under the write lock, beside the monitor's own read lock.
  unfoldable pub write : (Orders → Orders) → Orders → Option Orders
  write f m = if granted 1 then some (f m) else none

  -- The first price of an order that has none.
  unfoldable pub ensure_initial : ℕ → ℕ → StopLossOrder → Orders → Option Orders
  ensure_initial id price o m = elim o.initial_price [
    | none ↦ write (λ n. (set_initial_price id price n).1) m
    | some _ ↦ some m
  ]

  -- The orders that were active at the start, as copies; with what was triggered.
  unfoldable pub check_orders :
      ℕ → List (ℕ × StopLossOrder) → Orders → Option (List (ℕ × Transaction) × Orders)
  check_orders now [] m = some ([], m)
  check_orders now ((id, o) ∷ os) m = elim (get_price o.asset_pair) [
    | none ↦ check_orders now os m
    | some price ↦ elim (ensure_initial id price o m) [
      | none ↦ none
      | some m1 ↦
          if should_trigger percent_up percent_down price now o
          then (elim (write (λ n. (mark_triggered id price now n).1) m1) [
            | none ↦ none
            | some m2 ↦ elim (check_orders now os m2) [
              | none ↦ none
              | some (rest, m3) ↦ some ((id, o.transaction) ∷ rest, m3)
            ]
          ])
          else check_orders now os m1
    ]
  ]

  unfoldable pub active_orders : Orders → List (ℕ × StopLossOrder)
  active_orders [] = []
  active_orders ((id, o) ∷ m) =
      let rest = active_orders m in if is_active o.status then (id, o) ∷ rest else rest

  unfoldable pub check_and_trigger : ℕ → Orders → Option (List (ℕ × Transaction) × Orders)
  check_and_trigger now m = check_orders now (active_orders m) m

  -- The loop of check_feed, over the copies of the orders that were active for the feed.
  unfoldable pub check_feed_orders :
      ℕ → ℕ → List StopLossOrder → Orders → Option (List (ℕ × Transaction) × Orders)
  check_feed_orders price now [] m = some ([], m)
  check_feed_orders price now (o ∷ os) m = elim (ensure_initial o.stop_loss_id price o m) [
    | none ↦ none
    | some m1 ↦
        if should_trigger percent_up percent_down price now o
        then (elim (write (λ n. (mark_triggered o.stop_loss_id price now n).1) m1) [
          | none ↦ none
          | some m2 ↦ elim (check_feed_orders price now os m2) [
            | none ↦ none
            | some (rest, m3) ↦ some ((o.stop_loss_id, o.transaction) ∷ rest, m3)
          ]
        ])
        else check_feed_orders price now os m1
  ]

  unfoldable pub check_feed : ℕ → ℕ → Orders → Option (List (ℕ × Transaction) × Orders)
  check_feed feed now m = elim (get_price feed) [
    | none ↦ some ([], m)
    | some price ↦ check_feed_orders price now (get_active_for_feed feed m) m
  ]

  -- An order whose price is known and which triggers at it.
  unfoldable pub is_due : ℕ → ℕ × StopLossOrder → Bool
  is_due now (id, o) = elim (get_price o.asset_pair) [
    | none ↦ false
    | some price ↦ should_trigger percent_up percent_down price now o
  ]

  blocks :
      (now : ℕ) (os : List (ℕ × StopLossOrder)) (m : Orders)
      → granted 1 ≡ false
      → any (is_due now) os ≡ true
      → check_orders now os m ≡ none
  unfolding check_orders is_due write ensure_initial
  blocks now [] m g h = absurd (ground arith)
  blocks now ((id, o) ∷ os) m g h = elim (Option-cases (get_price o.asset_pair)) [
    | inl e ↦ ground (arith, blocks now os m)
    | inr (price, e) ↦ ground (arith, blocks now os m)
  ]

  feed_blocks :
      (price now : ℕ) (os : List StopLossOrder) (m : Orders)
      → granted 1 ≡ false
      → any (should_trigger percent_up percent_down price now) os ≡ true
      → check_feed_orders price now os m ≡ none
  unfolding check_feed_orders write ensure_initial
  feed_blocks price now [] m g h = absurd (ground arith)
  feed_blocks price now (o ∷ os) m g h = ground (arith, feed_blocks price now os m)

  -- Where the lock grants no write beside a read lock, a check of a feed with a price never returns
  -- once an order that is active for it triggers at the price.
  check_feed_blocks :
      (feed price now : ℕ) (m : Orders)
      → granted 1 ≡ false
      → get_price feed ≡ some price
      → any (should_trigger percent_up percent_down price now) (get_active_for_feed feed m) ≡ true
      → check_feed feed now m ≡ none
  unfolding check_feed
  check_feed_blocks feed price now m g e h =
      rw (check_feed, e) (feed_blocks price now (get_active_for_feed feed m) m g h)

  is_due-active_orders :
      (now : ℕ) (m : Orders) → any (is_due now) m ≡ true → any (is_due now) (active_orders m) ≡ true
  unfolding active_orders is_due should_trigger
  is_due-active_orders now [] h = h
  is_due-active_orders now ((id, o) ∷ m) h = elim (Option-cases (get_price o.asset_pair)) [
    | inl e ↦ ground (arith, is_due-active_orders now m)
    | inr (price, e) ↦ ground (arith, is_due-active_orders now m)
  ]

  -- Where the lock grants no write beside a read lock, as it documents, a check of the orders never
  -- returns once one of them is due: it waits for its own read lock.
  pub check_and_trigger_blocks :
      (now : ℕ) (m : Orders)
      → granted 1 ≡ false
      → any (is_due now) m ≡ true
      → check_and_trigger now m ≡ none
  unfolding check_and_trigger
  check_and_trigger_blocks now m g h =
      blocks now (active_orders m) m g (is_due-active_orders now m h)
