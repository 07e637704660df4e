-- ===== src/Pow/Retarget.antt =====
-- `adjust_difficulty` and `adjust_difficulty_moving_average` of irondag-blockchain/src/pow.rs.
-- The products are taken in u128, so that those of u64 values never saturate.
pub mod Bounds
use Prim.Native.Nat.{ℕ, ◌+◌, ◌*◌, ◌/◌, min, max}
use mathlib.Core.List.{List, [], ◌∷◌}
use iron_dag.Prelude.Tests.{◌==◌, if◌then◌else◌}
use iron_dag.Prelude.Lists.{length, is_empty}
use iron_dag.Prelude.Words.{sat_mul_u128}

abbrev pub max_difficulty : ℕ
max_difficulty = 21

-- The bounds of the adjustment, in thousandths.
abbrev pub min_adjustment : ℕ
min_adjustment = 667

abbrev pub max_adjustment : ℕ
max_adjustment = 1500

-- The part that the two functions share, from `raw_adjustment` on.
pub retarget : ℕ → ℕ → ℕ → ℕ
retarget current target_time time =
    let raw = target_time * 1000 / time in
    let clamped = min (max raw min_adjustment) max_adjustment in
    max (min (sat_mul_u128 current clamped / 1000) max_difficulty) 1

pub adjust_difficulty : ℕ → ℕ → ℕ → ℕ
adjust_difficulty current target_time actual_time =
    if actual_time == 0 then current else retarget current target_time actual_time

pub sum : List ℕ → ℕ
sum [] = 0
sum (x ∷ xs) = x + sum xs

pub adjust_difficulty_moving_average : ℕ → ℕ → List ℕ → ℕ
adjust_difficulty_moving_average current target_time times =
    if is_empty times
    then current
    else let avg_time = sum times / length times in
      if avg_time == 0 then current else retarget current target_time avg_time
