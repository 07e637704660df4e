-- ===== src/Sponsor/Registry.antt =====
-- `SponsorRegistry`: the policies by the sponsor's address.
use Prim.Native.Nat.{ℕ}
use mathlib.Core.Path.{◌≡◌}
use mathlib.Core.Logic.{inl, inr}
use mathlib.Core.Bool.{Bool}
use mathlib.Core.Option.{Option, none, some}
use native.Mathlib.Omega.{arith}
use iron_dag.Prelude.Tests.{◌==◌, if◌then◌else◌, Option-cases}
use iron_dag.Prelude.Eq.{nat_eq}
use iron_dag.Prelude.Map.{Map, get, insert, remove, contains_key, get-insert}
use iron_dag.Sponsor.{SponsorPolicy, PolicyError, no_policy, check_policy, record_spend}

abbrev pub Policies : Type 0
Policies = Map ℕ SponsorPolicy

pub register : ℕ → SponsorPolicy → Policies → Policies
register sponsor policy m = insert sponsor policy m

-- With the answer: was there a policy?
pub deregister : ℕ → Policies → Policies × Bool
deregister sponsor m = (remove sponsor m, contains_key sponsor m)

unfoldable pub check : ℕ → ℕ → ℕ → ℕ → Policies → Option PolicyError
check sponsor sender fee current_block m = elim (get sponsor m) [
  | none ↦ some no_policy
  | some policy ↦ check_policy policy sender fee current_block
]

unfoldable pub record_spend_for : ℕ → ℕ → ℕ → Policies → Policies
record_spend_for sponsor fee current_block m = elim (get sponsor m) [
  | none ↦ m
  | some policy ↦ insert sponsor (record_spend policy fee current_block) m
]

-- A recorded spend changes the policy of its sponsor alone, and only where there is one.
record_spend_for-get :
    (sponsor j fee b : ℕ) (m : Policies)
    → get j (record_spend_for sponsor fee b m) ≡ elim (get j m) [
      | none ↦ none
      | some p ↦ if sponsor == j then some (record_spend p fee b) else some p
    ]
unfolding record_spend_for
record_spend_for-get sponsor j fee b m = elim (Option-cases (get sponsor m)) [
  | inl e ↦ ground arith
  | inr (p, e) ↦ ground (arith, get-insert sponsor j (record_spend p fee b) m)
]
