-- ===== src/Sponsor/Tests.antt =====
-- Concrete runs of the sponsorship checks.
use Prim.Native.Nat.{◌+◌, ◌≤◌}
use mathlib.Core.Path.{◌≡◌, refl}
use mathlib.Core.Bool.{true}
use mathlib.Core.List.{List, [], ◌∷◌}
use mathlib.Core.Option.{none, some}
use native.Mathlib.Omega.{arith}
use iron_dag.Prelude.Eq.{nat_eq}
use iron_dag.Prelude.HashSet.{contains}
use iron_dag.Sponsor.{SponsorPolicy, check_policy, record_spend, daily_limit, not_allowed}
use iron_dag.Sponsor.Registry.{Policies}
use iron_dag.Sponsor.Window.{Sponsored, paid, paid-le-limit}

-- Sender 7 may spend 100 a day.
abbrev policy : SponsorPolicy
policy = record {
  active = true;
  allowed_senders = some (7 ∷ []);
  max_fee_per_tx = some 60;
  expires_at_block = some 9000;
  daily_spend_limit = some 100;
  window_start_block = 1000;
  spent_in_window = 20;
}

over_the_limit :
    (check_policy policy 7 50 1001 ≡ none)
    × (check_policy (record_spend policy 50 1001) 7 50 1002 ≡ some daily_limit)
    × (check_policy policy 8 50 1001 ≡ some not_allowed)
unfolding check_policy record_spend contains
over_the_limit = (refl, refl, refl)

abbrev three : List Sponsored
three =
    record { sender = 7; fee = 50; block = 1001 }
    ∷ record { sender = 7; fee = 40; block = 1002 }
    ∷ record { sender = 7; fee = 30; block = 1003 }
    ∷ []

paid-le-limit_example : paid policy three + policy.spent_in_window ≤ 100
paid-le-limit_example =
    paid-le-limit policy three 100 refl (omega arith)
      (omega arith, (omega arith, (omega arith, tt))) (omega arith)

abbrev two_sponsors : Policies
two_sponsors = (1, policy) ∷ (2, policy) ∷ []
