-- ===== src/Pool/Tests.antt =====
-- Concrete runs of the privacy pool.
use Prim.Native.Nat.{◌≤◌}
use mathlib.Core.Path.{◌≡◌, refl}
use mathlib.Core.Bool.{false}
use mathlib.Core.List.{List, [], ◌∷◌}
use mathlib.Core.Option.{none}
use iron_dag.Prelude.Tests.{if◌then◌else◌}
use iron_dag.Prelude.Eq.{nat_eq}
use iron_dag.Prelude.HashSet.{contains, add}
use iron_dag.Pool.{PrivacyPool, new, deposit, withdraw, available_balance}
use iron_dag.Pool.Invariant.{Request, put, take_out, run, serve, payouts, payouts_once}

-- Two deposits, one of them twice, and a nullifier that comes twice.
abbrev requests : List Request
requests = put 5 1 ∷ put 5 2 ∷ put 6 2 ∷ take_out 9 none ∷ take_out 9 none ∷ []

one_left : available_balance (run requests (new 10 false)) ≡ 10
unfolding run serve new deposit withdraw available_balance contains add
one_left = refl

payouts_once_example :
    payouts 9 requests (new 10 false)
    ≤ (if contains 9 (PrivacyPool.spent_nullifiers (new 10 false)) then 0 else 1)
payouts_once_example = payouts_once 9 requests (new 10 false)
