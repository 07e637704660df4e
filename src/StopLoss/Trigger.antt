-- ===== src/StopLoss/Trigger.antt =====
-- How often a stop-loss order is triggered, stop_loss/manager.rs.
use Prim.Native.Nat.{ℕ}
use mathlib.Core.Path.{◌≡◌, refl}
use mathlib.Core.Logic.{inl, inr}
use mathlib.Core.Bool.{Bool, true, false}
use mathlib.Core.List.{List, [], ◌∷◌}
use mathlib.Core.Option.{Option, none, some}
use native.Mathlib.Omega.{arith}
use iron_dag.Prelude.Tests.{if◌then◌else◌, Bool-cases}
use iron_dag.Prelude.Eq.{nat_eq}
use iron_dag.Prelude.Map.{get, get-change_entry}
use iron_dag.StopLoss.{
  StopLossOrder, Orders, not_found, is_triggered, has_expired, should_trigger, cancel_order, cancel,
  trigger_order, mark_triggered, price_order, set_initial_price, pause_order, pause, resume_order,
  resume, reprice_order, update_trigger_price,
}

-- What happens to an order at a time: somebody looks at it with a price and marks it if it triggers,
-- or one of the manager's other calls.
pub data Event : Type 0 where
  look : ℕ → Event
  cancel_it pause_it resume_it : Event
  first_price reprice : ℕ → Event

-- There is one time at most, and it is before the expiration.
abbrev pub IsOnce : Option ℕ → List ℕ → Type 0
IsOnce expiration [] = Unit
IsOnce expiration (t ∷ ts) = (has_expired expiration t ≡ false) × (ts ≡ [])

module _ (percent_up percent_down : ℕ → ℕ → ℕ → Bool) where
  unfoldable pub fires : Event → ℕ → ℕ → Orders → Bool
  fires (look price) now id m = elim (get id m) [
    | none ↦ false
    | some o ↦ should_trigger percent_up percent_down price now o
  ]
  fires _ now id m = false

  unfoldable pub react : Event → ℕ → ℕ → Orders → Orders
  react (look price) now id m =
      if fires (look price) now id m then (mark_triggered id price now m).1 else m
  react cancel_it now id m = (cancel id m).1
  react pause_it now id m = (pause id m).1
  react resume_it now id m = (resume id m).1
  react (first_price price) now id m = (set_initial_price id price m).1
  react (reprice price) now id m = (update_trigger_price id price m).1

  -- The times at which the order is triggered.
  unfoldable pub triggers : ℕ → List (ℕ × Event) → Orders → List ℕ
  triggers id [] m = []
  triggers id ((now, e) ∷ es) m =
      let rest = triggers id es (react e now id m) in if fires e now id m then now ∷ rest else rest

  -- The order after an event that does not fire, or fires.
  unfoldable next : Event → ℕ → StopLossOrder → StopLossOrder
  next (look price) now o =
      if should_trigger percent_up percent_down price now o
      then (trigger_order price now o).1
      else o
  next cancel_it now o = (cancel_order o).1
  next pause_it now o = (pause_order o).1
  next resume_it now o = (resume_order o).1
  next (first_price price) now o = (price_order price o).1
  next (reprice price) now o = (reprice_order price o).1

  get-react :
      (e : Event) (now id : ℕ) (m : Orders) (o : StopLossOrder)
      → get id m ≡ some o
      → get id (react e now id m) ≡ some (next e now o)
  unfolding react fires next mark_triggered cancel pause resume set_initial_price
      update_trigger_price
  get-react (look price) now id m o h =
      ground (arith, h, get-change_entry (some not_found) (trigger_order price now) id m o h)
  get-react cancel_it now id m o h = get-change_entry (some not_found) cancel_order id m o h
  get-react pause_it now id m o h = get-change_entry (some not_found) pause_order id m o h
  get-react resume_it now id m o h = get-change_entry (some not_found) resume_order id m o h
  get-react (first_price price) now id m o h =
      get-change_entry (some not_found) (price_order price) id m o h
  get-react (reprice price) now id m o h =
      get-change_entry (some not_found) (reprice_order price) id m o h

  -- Does the event trigger the order, by the order alone?
  unfoldable hits : Event → ℕ → StopLossOrder → Bool
  hits (look price) now o = should_trigger percent_up percent_down price now o
  hits _ now o = false

  fires-hits :
      (e : Event) (now id : ℕ) (m : Orders) (o : StopLossOrder)
      → get id m ≡ some o
      → fires e now id m ≡ hits e now o
  unfolding fires hits
  fires-hits (look price) now id m o h = ground (arith, h)
  fires-hits cancel_it now id m o h = refl
  fires-hits pause_it now id m o h = refl
  fires-hits resume_it now id m o h = refl
  fires-hits (first_price price) now id m o h = refl
  fires-hits (reprice price) now id m o h = refl

  -- A triggered order stays so and is not triggered again.
  stays_triggered :
      (e : Event) (now : ℕ) (o : StopLossOrder)
      → is_triggered o.status ≡ true
      → (is_triggered (next e now o).status ≡ true) × (hits e now o ≡ false)
  unfolding next hits should_trigger trigger_order cancel_order pause_order resume_order price_order
      reprice_order
  stays_triggered (look price) now o h = (ground arith, ground arith)
  stays_triggered cancel_it now o h = (ground arith, refl)
  stays_triggered pause_it now o h = (ground arith, refl)
  stays_triggered resume_it now o h = (ground arith, refl)
  stays_triggered (first_price price) now o h = (ground arith, refl)
  stays_triggered (reprice price) now o h = (ground arith, refl)

  -- An order that triggers has not expired, and keeps its expiration otherwise.
  triggered_in_time :
      (e : Event) (now : ℕ) (o : StopLossOrder)
      → hits e now o ≡ true
      → (has_expired o.expiration_date now ≡ false) × (is_triggered (next e now o).status ≡ true)
  unfolding next hits should_trigger trigger_order
  triggered_in_time (look price) now o h = (ground arith, ground arith)
  triggered_in_time cancel_it now o h = absurd (ground arith)
  triggered_in_time pause_it now o h = absurd (ground arith)
  triggered_in_time resume_it now o h = absurd (ground arith)
  triggered_in_time (first_price price) now o h = absurd (ground arith)
  triggered_in_time (reprice price) now o h = absurd (ground arith)

  same_expiration :
      (e : Event) (now : ℕ) (o : StopLossOrder) → (next e now o).expiration_date ≡ o.expiration_date
  unfolding next trigger_order cancel_order pause_order resume_order price_order reprice_order
  same_expiration (look price) now o = ground arith
  same_expiration cancel_it now o = ground arith
  same_expiration pause_it now o = ground arith
  same_expiration resume_it now o = ground arith
  same_expiration (first_price price) now o = ground arith
  same_expiration (reprice price) now o = ground arith

  -- An event of a run, by the order alone.
  triggers-step :
      (e : Event) (now id : ℕ) (es : List (ℕ × Event)) (m : Orders) (o : StopLossOrder)
      → get id m ≡ some o
      → triggers id ((now, e) ∷ es) m ≡ (
          if hits e now o
          then now ∷ triggers id es (react e now id m)
          else triggers id es (react e now id m))
  unfolding triggers
  triggers-step e now id es m o h = rw (triggers, fires-hits e now id m o h) refl

  triggered_never :
      (id : ℕ) (es : List (ℕ × Event)) (m : Orders) (o : StopLossOrder)
      → get id m ≡ some o
      → is_triggered o.status ≡ true
      → triggers id es m ≡ []
  unfolding triggers
  triggered_never id [] m o h t = refl
  triggered_never id ((now, e) ∷ es) m o h t =
      let (still, idle) = stays_triggered e now o t in
      rw (triggers-step e now id es m o h, idle)
        (triggered_never id es (react e now id m) (next e now o) (get-react e now id m o h) still)

  -- Whatever happens to an order of the manager, and at whatever times, it is triggered once at most,
  -- and then before its expiration, where there is one.
  pub triggers-IsOnce :
      (id : ℕ) (es : List (ℕ × Event)) (m : Orders) (o : StopLossOrder)
      → get id m ≡ some o
      → IsOnce o.expiration_date (triggers id es m)
  unfolding triggers
  triggers-IsOnce id [] m o h = tt
  triggers-IsOnce id ((now, e) ∷ es) m o h =
      let o' = next e now o in
      let h' = get-react e now id m o h in
      elim (Bool-cases (hits e now o)) [
        | inl hit ↦
            let (early, done) = triggered_in_time e now o hit in
            rw (triggers-step e now id es m o h, hit)
              (early, triggered_never id es (react e now id m) o' h' done)
        | inr miss ↦
            let later = triggers-IsOnce id es (react e now id m) o' h' in
            rw (triggers-step e now id es m o h, miss) (rw (same_expiration e now o) at later)
      ]
