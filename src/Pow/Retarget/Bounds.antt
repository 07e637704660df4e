-- ===== src/Pow/Retarget/Bounds.antt =====
-- The retargeted difficulty: its range, the damping, and the equation in the steady state.
use Prim.Native.Nat.{ℕ, ◌+◌, ◌*◌, ◌/◌, ◌≤◌, ◌<◌, min, max}
use mathlib.Core.Path.{◌≡◌, refl}
use mathlib.Core.Logic.{◌≢◌}
use mathlib.Core.List.{List, []}
use native.Mathlib.Nat.{mul-div_cancel_left}
use native.Mathlib.Omega.{arith}
use iron_dag.Prelude.Lists.{length}
use iron_dag.Prelude.Words.{u128_max}
use iron_dag.Pow.Retarget.{
  max_difficulty, retarget, adjust_difficulty, sum, adjust_difficulty_moving_average,
}

pub retarget_range : (c t a : ℕ) → (1 ≤ retarget c t a) × (retarget c t a ≤ 21)
unfolding retarget
retarget_range c t a = omega arith

adjusted : ℕ → ℕ → ℕ
adjusted c k = max (min (min (c * k) u128_max / 1000) max_difficulty) 1

adjusted_bounds :
    (c k : ℕ)
    → 1 ≤ c
    → c ≤ max_difficulty
    → 667 ≤ k
    → k ≤ 1500
    → (2 * adjusted c k ≤ 3 * c) × (667 * c ≤ 1000 * adjusted c k + 999)
unfolding adjusted
adjusted_bounds c k l h lo hi =
    let low : 667 * c ≤ c * k = grind arith in
    let high : c * k ≤ 1500 * c = grind arith in omega arith

adjusted_mono : (c j k : ℕ) → j ≤ k → adjusted c j ≤ adjusted c k
unfolding adjusted
adjusted_mono c j k h = let step : c * j ≤ c * k = grind arith in omega arith

retarget-eq-adjusted : (c t a : ℕ) → retarget c t a ≡ adjusted c (min (max (t * 1000 / a) 667) 1500)
unfolding retarget adjusted
retarget-eq-adjusted c t a = refl

retarget_bounds :
    (c t a : ℕ)
    → 1 ≤ c
    → c ≤ max_difficulty
    → (2 * retarget c t a ≤ 3 * c) × (667 * c ≤ 1000 * retarget c t a + 999)
retarget_bounds c t a l h =
    rw retarget-eq-adjusted
      (adjusted_bounds c (min (max (t * 1000 / a) 667) 1500) l h (omega arith) (omega arith))

-- A difficulty of 1 to 21 stays in that range whatever the two times are, and one adjustment
-- raises it by at most half and lowers it to at least 667 thousandths, up to rounding.
pub adjust_difficulty_damped :
    (c t a : ℕ)
    → 1 ≤ c
    → c ≤ max_difficulty
    → (1 ≤ adjust_difficulty c t a)
      × (adjust_difficulty c t a ≤ max_difficulty)
      × (2 * adjust_difficulty c t a ≤ 3 * c)
      × (667 * c ≤ 1000 * adjust_difficulty c t a + 999)
unfolding adjust_difficulty
adjust_difficulty_damped c t a l h = ground (arith, retarget_range c t a, retarget_bounds c t a l h)

div_antitone : (n a b : ℕ) → 0 < a → a ≤ b → n / b ≤ n / a
div_antitone n a b p h = grind arith

retarget-antitone : (c t a b : ℕ) → 0 < a → a ≤ b → retarget c t b ≤ retarget c t a
retarget-antitone c t a b p h =
    rw (retarget-eq-adjusted c t a, retarget-eq-adjusted c t b)
      (adjusted_mono c (min (max (t * 1000 / b) 667) 1500) (min (max (t * 1000 / a) 667) 1500)
        (let d = div_antitone (t * 1000) a b p h in omega arith))

-- Blocks that took longer never lead to a higher difficulty, where both times are positive.
adjust_difficulty-antitone :
    (c t a b : ℕ) → 0 < a → a ≤ b → adjust_difficulty c t b ≤ adjust_difficulty c t a
unfolding adjust_difficulty
adjust_difficulty-antitone c t a b p h = ground (arith, retarget-antitone c t a b p h)

retarget_steady : (c t : ℕ) → 1 ≤ c → c ≤ max_difficulty → 0 < t → retarget c t t ≡ c
unfolding retarget
retarget_steady c t l h p = rw (mul-div_cancel_left 1000 p) (omega arith)

-- Blocks that take exactly the target time leave a difficulty of 1 to 21 as it is.
adjust_difficulty_steady :
    (c t : ℕ) → 1 ≤ c → c ≤ max_difficulty → 0 < t → adjust_difficulty c t t ≡ c
unfolding adjust_difficulty
adjust_difficulty_steady c t l h p = ground (arith, retarget_steady c t l h p)

-- The average is taken over whole seconds, and then the two functions agree.
pub moving_average-eq :
    (c t : ℕ) (times : List ℕ)
    → times ≢ []
    → adjust_difficulty_moving_average c t times ≡ adjust_difficulty c t (sum times / length times)
unfolding adjust_difficulty adjust_difficulty_moving_average
moving_average-eq c t times h = ground arith
