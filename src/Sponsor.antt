-- ===== src/Sponsor.antt =====
-- Programmable gas sponsorship, irondag-blockchain/src/gas_sponsorship.rs: a sponsor's policy, its
-- rolling spend window, and the registry of policies. Addresses are only compared, so they are
-- numbers. The texts of the errors are the constructors of `PolicyError`.
pub mod Registry
pub mod Window
mod Tests
use Prim.Native.Nat.{ℕ, ◌-◌}
use mathlib.Core.Bool.{Bool, true, false}
use mathlib.Core.List.{List}
use mathlib.Core.Option.{Option, none, some}
use iron_dag.Prelude.Tests.{ltb, leb, if◌then◌else◌}
use iron_dag.Prelude.Words.{sat_add_u128}
use iron_dag.Prelude.Eq.{nat_eq}
use iron_dag.Prelude.HashSet.{contains}

abbrev pub blocks_per_day : ℕ
blocks_per_day = 17280

pub record SponsorPolicy : Type 0 where
  pub active : Bool
  pub allowed_senders : Option (List ℕ)
  pub max_fee_per_tx : Option ℕ
  pub expires_at_block : Option ℕ
  pub daily_spend_limit : Option ℕ
  pub window_start_block : ℕ
  pub spent_in_window : ℕ

pub is_expired : SponsorPolicy → ℕ → Bool
is_expired p current_block = elim p.expires_at_block [
  | none ↦ false
  | some exp ↦ ltb exp current_block
]

pub allows_sender : SponsorPolicy → ℕ → Bool
allows_sender p sender = elim p.allowed_senders [ none ↦ true | some list ↦ contains sender list ]

-- `current_block.saturating_sub(window_start_block) < BLOCKS_PER_DAY`
abbrev pub in_window : SponsorPolicy → ℕ → Bool
in_window p current_block = ltb (current_block - p.window_start_block) blocks_per_day

-- What counts as spent at a block.
pub spent_at : SponsorPolicy → ℕ → ℕ
spent_at p current_block = if in_window p current_block then p.spent_in_window else 0

pub within_daily_limit : SponsorPolicy → ℕ → ℕ → Bool
unfolding spent_at
within_daily_limit p fee current_block = elim p.daily_spend_limit [
  | none ↦ true
  | some limit ↦ leb (sat_add_u128 (spent_at p current_block) fee) limit
]

pub record_spend : SponsorPolicy → ℕ → ℕ → SponsorPolicy
record_spend p fee current_block =
    if leb blocks_per_day (current_block - p.window_start_block)
    then record p { window_start_block = current_block; spent_in_window = fee }
    else record p { spent_in_window = sat_add_u128 p.spent_in_window fee }

pub data PolicyError : Type 0 where
  no_policy paused expired not_allowed fee_too_high daily_limit : PolicyError

-- The guards of `SponsorRegistry::check` on the policy that it has found; `none` is `Ok(())`.
pub check_policy : SponsorPolicy → ℕ → ℕ → ℕ → Option PolicyError
unfolding is_expired allows_sender within_daily_limit
check_policy p sender fee current_block =
    if p.active
    then if is_expired p current_block
      then some expired
      else if allows_sender p sender
      then if elim p.max_fee_per_tx [ none ↦ false | some max ↦ ltb max fee ]
        then some fee_too_high
        else if within_daily_limit p fee current_block
        then none
        else some daily_limit
      else some not_allowed
    else some paused
