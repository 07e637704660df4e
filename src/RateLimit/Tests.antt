-- ===== src/RateLimit/Tests.antt =====
-- Concrete runs of the rate limiters.
use Prim.Native.Nat.{ℕ, ◌+◌, ◌-◌, ◌*◌, ◌/◌, ◌≤◌}
use mathlib.Core.Path.{◌≡◌, refl}
use mathlib.Core.Bool.{true, false}
use mathlib.Core.List.{List, [], ◌∷◌}
use native.Mathlib.Omega.{arith}
use iron_dag.Prelude.Eq.{nat_eq}
use iron_dag.Prelude.Map.{get, insert}
use iron_dag.RateLimit.{new, refill, take_token, try_acquire, try_acquire_for}
use iron_dag.RateLimit.Rate.{second, granted, granted-le-rate}

-- One token a second.
abbrev one_a_second : ℕ → ℕ
one_a_second elapsed = elapsed / second

-- Address 1 asks four times, address 2 once.
abbrev requests : List (ℕ × ℕ)
requests = (0, 1) ∷ (5, 1) ∷ (6, 2) ∷ (500_000_000, 1) ∷ (2_600_000_000, 1) ∷ []

two_then_one : granted 2 one_a_second 1 requests [] ≡ 3
unfolding granted try_acquire_for try_acquire take_token refill get insert
two_then_one = refl

no_token_left : (try_acquire 0 one_a_second 5 (new 0 one_a_second 5)).0 ≡ false
unfolding try_acquire take_token refill
no_token_left = refl

-- Without tokens the first request of an address passes all the same, and leaves a full word.
full_word :
    try_acquire_for 0 one_a_second 5 1 []
    ≡ (true, (1, record { tokens = 4_294_967_295; last_refill = 5 }) ∷ [])
unfolding try_acquire_for get insert
full_word = refl

granted-le-rate_example :
    second * granted 2 one_a_second 1 requests [] ≤ second * 2 + 1 * (2_600_000_000 - 0)
unfolding get
granted-le-rate_example =
    granted-le-rate 2 one_a_second 1 1 0 requests [] (omega arith) (omega arith) (λ d. omega arith)
      (omega arith, (omega arith, (omega arith, (omega arith, (omega arith, tt))))) refl
