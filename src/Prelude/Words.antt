-- ===== src/Prelude/Words.antt =====
-- Rust's unsigned machine words: their bounds, saturating operations and casts.
use Prim.Native.Nat.{ℕ, ◌+◌, ◌-◌, ◌*◌, ◌%◌, ◌^◌, min}

abbrev pub u8_mod : ℕ
u8_mod = 2 ^ 8

abbrev pub u64_max : ℕ
u64_max = 2 ^ 64 - 1

abbrev pub u128_max : ℕ
u128_max = 2 ^ 128 - 1

-- `u64::saturating_add`
abbrev pub sat_add_u64 : ℕ → ℕ → ℕ
sat_add_u64 a b = min (a + b) u64_max

-- `u128::saturating_add`, `u128::saturating_mul`
abbrev pub sat_add_u128 : ℕ → ℕ → ℕ
sat_add_u128 a b = min (a + b) u128_max

abbrev pub sat_mul_u128 : ℕ → ℕ → ℕ
sat_mul_u128 a b = min (a * b) u128_max

-- `n as u8`
abbrev pub as_u8 : ℕ → ℕ
as_u8 n = n % u8_mod
