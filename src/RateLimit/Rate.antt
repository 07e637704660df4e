-- ===== src/RateLimit/Rate.antt =====
-- How many requests of one address the limiter of irondag-blockchain/src/rpc/rate_limit.rs lets
-- through over a time.
use Prim.Native.Nat.{ℕ, suc, ◌+◌, ◌-◌, ◌*◌, ◌^◌, ◌≤◌, ◌<◌, ◌%◌}
use mathlib.Core.Path.{◌≡◌, refl, ◌∙◌}
use mathlib.Core.Logic.{inl, inr}
use mathlib.Core.Bool.{true, false}
use mathlib.Core.List.{List, [], ◌∷◌}
use mathlib.Core.Option.{none, some}
use native.Mathlib.Omega.{arith}
use iron_dag.Prelude.Tests.{◌==◌, if◌then◌else◌, Option-cases, Bool-cases}
use iron_dag.Prelude.Eq.{nat_eq}
use iron_dag.Prelude.Map.{get, get-insert}
use iron_dag.RateLimit.{Bucket, Buckets, refill, take_token, try_acquire, try_acquire_for}

-- The times and addresses of requests, in their order: no time is before the one before it.
abbrev pub AreRising : ℕ → List (ℕ × ℕ) → Type 0
AreRising start [] = Unit
AreRising start ((now, ip) ∷ rs) = (start ≤ now) × AreRising now rs

-- The time of the last request.
abbrev pub end_of : ℕ → List (ℕ × ℕ) → ℕ
end_of start [] = start
end_of start ((now, ip) ∷ rs) = end_of now rs

abbrev pub second : ℕ
second = 1_000_000_000

module _ (max_tokens : ℕ) (tokens_to_add : ℕ → ℕ) where
  -- How many of the requests of an address are let through.
  unfoldable pub granted : ℕ → List (ℕ × ℕ) → Buckets → ℕ
  granted ip [] m = 0
  granted ip ((now, who) ∷ rs) m =
      let (grant, left) = try_acquire_for max_tokens tokens_to_add now who m in
      let rest = granted ip rs left in
      if who == ip then (if grant then suc rest else rest) else rest

  -- The refilling adds at most so many tokens a second.
  abbrev pub HasRate : ℕ → Type 0
  HasRate rate = (d : ℕ) → second * tokens_to_add d ≤ rate * d

  split_time : (rate last now : ℕ) → last ≤ now → rate * now ≡ rate * last + rate * (now - last)
  split_time rate last now h = grind arith

  -- One request is paid for by the tokens and by the time since the last refill.
  paid :
      (rate now : ℕ) (b : Bucket)
      → HasRate rate
      → b.last_refill ≤ now
      → let r = try_acquire max_tokens tokens_to_add now b in
        (r.1.last_refill ≤ now)
        × (second * ((if r.0 then 1 else 0) + r.1.tokens) + rate * b.last_refill
            ≤ second * b.tokens + rate * r.1.last_refill)
  unfolding try_acquire take_token refill
  paid rate now b p h =
      let cost = p (now - b.last_refill) in
      let apart = split_time rate b.last_refill now h in ground arith

  later_costs : (rate last now : ℕ) → last ≤ now → rate * last ≤ rate * now
  later_costs rate last now h = omega (arith, split_time rate last now h)

  start-le-end_of : (start : ℕ) (rs : List (ℕ × ℕ)) → AreRising start rs → start ≤ end_of start rs
  start-le-end_of start [] r = omega arith
  start-le-end_of start ((now, ip) ∷ rs) r = omega (arith, r.0, start-le-end_of now rs r.1)

  -- A request changes the bucket of its own address alone.
  other :
      (who ip now : ℕ) (m : Buckets)
      → (who == ip) ≡ false
      → get ip (try_acquire_for max_tokens tokens_to_add now who m).1 ≡ get ip m
  unfolding try_acquire_for
  other who ip now m h = elim (Option-cases (get who m)) [
    | inl e ↦
        let bucket : Bucket = record {
          tokens = (max_tokens + 2 ^ 32 - 1) % 2 ^ 32;
          last_refill = now;
        } in
        rw (try_acquire_for, e, get-insert who ip bucket m, h) refl
    | inr (b, e) ↦
        rw
          (
            try_acquire_for,
            e,
            get-insert who ip (try_acquire max_tokens tokens_to_add now b).1 m,
            h,
          )
          refl
  ]

  own :
      (who ip now : ℕ) (m : Buckets) (b : Bucket)
      → who ≡ ip
      → get ip m ≡ some b
      → let r = try_acquire max_tokens tokens_to_add now b in
        let s = try_acquire_for max_tokens tokens_to_add now who m in
        (get ip s.1 ≡ some r.1) × (s.0 ≡ r.0)
  unfolding try_acquire_for
  own who ip now m b h f =
      let there : get who m ≡ some b = rw h f in
      let is : (who == ip) ≡ true = ground arith in
      let r = try_acquire max_tokens tokens_to_add now b in
      (
        rw (try_acquire_for, there, get-insert who ip r.1 m, is) refl,
        rw (try_acquire_for, there) refl,
      )

  -- The first request of an address is let through and leaves one token less than the bucket holds.
  fresh :
      (who ip now : ℕ) (m : Buckets)
      → 0 < max_tokens
      → max_tokens < 2 ^ 32
      → (who == ip) ≡ true
      → get ip m ≡ none
      → let s = try_acquire_for max_tokens tokens_to_add now who m in
        (get ip s.1 ≡ some record { tokens = max_tokens - 1; last_refill = now }) × (s.0 ≡ true)
  unfolding try_acquire_for
  fresh who ip now m some_max small is f =
      let same : who ≡ ip = ground arith in
      let there : get who m ≡ none = rw same f in
      let bucket : Bucket = record {
        tokens = (max_tokens + 2 ^ 32 - 1) % 2 ^ 32;
        last_refill = now;
      } in
      let wraps : (max_tokens + 2 ^ 32 - 1) % 2 ^ 32 ≡ max_tokens - 1 = omega arith in
      (
        rw (try_acquire_for, there, get-insert who ip bucket m, is, wraps) refl,
        rw (try_acquire_for, there) refl,
      )

  granted-paid :
      (rate ip start : ℕ) (rs : List (ℕ × ℕ)) (m : Buckets) (b : Bucket)
      → HasRate rate
      → AreRising start rs
      → get ip m ≡ some b
      → b.last_refill ≤ start
      → second * granted ip rs m + rate * b.last_refill ≤ second * b.tokens + rate * end_of start rs
  unfolding granted
  granted-paid rate ip start [] m b p r f h = omega (arith, later_costs rate b.last_refill start h)
  granted-paid rate ip start ((now, who) ∷ rs) m b p r f h = elim (Bool-cases (who == ip)) [
    | inl is ↦
        let same : who ≡ ip = ground arith in
        let step = try_acquire max_tokens tokens_to_add now b in
        let left = (try_acquire_for max_tokens tokens_to_add now who m).1 in
        let (kept, grant) = own who ip now m b same f in
        let now_paid = paid rate now b p (omega (arith, r.0)) in
        let rest = granted-paid rate ip now rs left step.1 p r.1 kept now_paid.0 in
        rw (granted, is, grant) (ground (arith, now_paid.1, rest))
    | inr not ↦
        let left = (try_acquire_for max_tokens tokens_to_add now who m).1 in
        let kept : get ip left ≡ some b = other who ip now m not ∙ f in
        let rest = granted-paid rate ip now rs left b p r.1 kept (omega (arith, r.0)) in
        rw (granted, not) rest
  ]

  first-paid :
      (rate ip start : ℕ) (rs : List (ℕ × ℕ)) (m : Buckets)
      → 0 < max_tokens
      → max_tokens < 2 ^ 32
      → HasRate rate
      → AreRising start rs
      → get ip m ≡ none
      → second * granted ip rs m + rate * start ≤ second * max_tokens + rate * end_of start rs
  unfolding granted
  first-paid rate ip start [] m some_max small p r f = omega arith
  first-paid rate ip start ((now, who) ∷ rs) m some_max small p r f =
      let left = (try_acquire_for max_tokens tokens_to_add now who m).1 in
      let spent = later_costs rate start now r.0 in
      elim (Bool-cases (who == ip)) [
        | inl is ↦
            let full : Bucket = record { tokens = max_tokens - 1; last_refill = now } in
            let kept = fresh who ip now m some_max small is f in
            let rest = granted-paid rate ip now rs left full p r.1 kept.0 (omega arith) in
            rw (granted, is, kept.1) (omega (arith, rest, spent))
        | inr not ↦
            let none_there = other who ip now m not ∙ f in
            let rest = first-paid rate ip now rs left some_max small p r.1 none_there in
            rw (granted, not) (omega (arith, rest, spent))
      ]

  -- Where the buckets hold a token at least, the refilling adds at most a rate of tokens a second, and
  -- the requests come in the order of their times, an address without a bucket is let through at most
  -- as often as a full bucket has tokens, and as the rate allows from the start to the last request,
  -- whatever other addresses do.
  pub granted-le-rate :
      (rate ip start : ℕ) (rs : List (ℕ × ℕ)) (m : Buckets)
      → 0 < max_tokens
      → max_tokens < 2 ^ 32
      → HasRate rate
      → AreRising start rs
      → get ip m ≡ none
      → second * granted ip rs m ≤ second * max_tokens + rate * (end_of start rs - start)
  granted-le-rate rate ip start rs m some_max small p r f =
      let all = first-paid rate ip start rs m some_max small p r f in
      let apart = split_time rate start (end_of start rs) (start-le-end_of start rs r) in
      omega (arith, all, apart)
