-- ===== src/RateLimit.antt =====
-- The token buckets of irondag-blockchain/src/rpc/rate_limit.rs: RateLimiter and PerIpRateLimiter.
-- Time is in nanoseconds. `(elapsed.as_secs_f64() * self.refill_rate) as u32` is a parameter, and a
-- sum past u32 wraps, as in a release build.
pub mod Rate
pub mod Tests
use Prim.Native.Nat.{ℕ, ◌+◌, ◌-◌, ◌%◌, ◌^◌, min}
use mathlib.Core.Bool.{Bool, true, false}
use mathlib.Core.Option.{none, some}
use iron_dag.Prelude.Tests.{ltb, if◌then◌else◌}
use iron_dag.Prelude.Eq.{nat_eq}
use iron_dag.Prelude.Map.{Map, get, insert}

pub record Bucket : Type 0 where
  pub tokens : ℕ
  pub last_refill : ℕ

abbrev pub Buckets : Type 0
Buckets = Map ℕ Bucket

module _ (max_tokens : ℕ) (tokens_to_add : ℕ → ℕ) where
  abbrev pub new : ℕ → Bucket
  new now = record { tokens = max_tokens; last_refill = now }

  unfoldable pub refill : ℕ → Bucket → Bucket
  refill now b =
      let added = tokens_to_add (now - b.last_refill) in
      if ltb 0 added
      then record { tokens = min ((b.tokens + added) % 2 ^ 32) max_tokens; last_refill = now }
      else b

  unfoldable pub take_token : Bucket → Bool × Bucket
  take_token b = if ltb 0 b.tokens then (true, record b { tokens = b.tokens - 1 }) else (false, b)

  unfoldable pub try_acquire : ℕ → Bucket → Bool × Bucket
  try_acquire now b = take_token (refill now b)

  -- With `max_tokens - 1` at zero wrapping.
  unfoldable pub try_acquire_for : ℕ → ℕ → Buckets → Bool × Buckets
  try_acquire_for now ip m = elim (get ip m) [
    | none ↦ (
      true,
      insert ip record { tokens = (max_tokens + 2 ^ 32 - 1) % 2 ^ 32; last_refill = now } m,
    )
    | some b ↦ let (granted, left) = try_acquire now b in (granted, insert ip left m)
  ]
