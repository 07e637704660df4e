-- ===== src/Sponsor/Window.antt =====
-- The daily spend limit of a policy over any sequence of sponsored transactions.
use Prim.Native.Nat.{ℕ, ◌+◌, ◌-◌, ◌≤◌, ◌<◌}
use mathlib.Core.Path.{◌≡◌, sym, subst}
use mathlib.Core.Logic.{◌↔◌, inl, inr}
use mathlib.Core.Bool.{true, false}
use mathlib.Core.List.{List, [], ◌∷◌}
use mathlib.Core.Option.{none, some}
use native.Mathlib.Omega.{arith}
use iron_dag.Prelude.Tests.{Option-cases}
use iron_dag.Prelude.Words.{u128_max}
use iron_dag.Prelude.HashSet.{contains}
use iron_dag.Prelude.Eq.{nat_eq}
use iron_dag.Sponsor.{
  SponsorPolicy, blocks_per_day, is_expired, allows_sender, spent_at, within_daily_limit,
  record_spend, check_policy,
}

-- What a policy permits, independently of the order of the tests.
pub record Permits (p : SponsorPolicy) (sender fee block : ℕ) : Type 0 where
  pub is_active : p.active ≡ true
  pub unexpired : (exp : ℕ) → p.expires_at_block ≡ some exp → block ≤ exp
  pub allowed : (list : List ℕ) → p.allowed_senders ≡ some list → contains sender list ≡ true
  pub fee_bound : (max : ℕ) → p.max_fee_per_tx ≡ some max → fee ≤ max
  pub daily : (limit : ℕ) → p.daily_spend_limit ≡ some limit → spent_at p block + fee ≤ limit

-- A limit below the largest u128, so that the saturating sum never stands for a larger one.
abbrev pub IsBounded : SponsorPolicy → Type 0
IsBounded p = (limit : ℕ) → p.daily_spend_limit ≡ some limit → limit < u128_max

check_policy_sound :
    (p : SponsorPolicy) (sender fee block : ℕ)
    → IsBounded p
    → check_policy p sender fee block ≡ none
    → Permits p sender fee block
unfolding check_policy spent_at
check_policy_sound p sender fee block bound h = record {
  is_active = ground arith;
  unexpired = λ exp e. ground arith;
  allowed = λ list e. ground arith;
  fee_bound = λ max e. ground arith;
  daily = λ limit e. ground (arith, bound limit e);
}

not_expired :
    (p : SponsorPolicy) (block : ℕ)
    → ((exp : ℕ) → p.expires_at_block ≡ some exp → block ≤ exp)
    → is_expired p block ≡ false
unfolding is_expired
not_expired p block h = elim (Option-cases p.expires_at_block) [
  | inl e ↦ ground arith
  | inr (exp, e) ↦ ground (arith, h exp e)
]

sender_allowed :
    (p : SponsorPolicy) (sender : ℕ)
    → ((list : List ℕ) → p.allowed_senders ≡ some list → contains sender list ≡ true)
    → allows_sender p sender ≡ true
unfolding allows_sender
sender_allowed p sender h = elim (Option-cases p.allowed_senders) [
  | inl e ↦ ground arith
  | inr (list, e) ↦ ground (arith, h list e)
]

under_limit :
    (p : SponsorPolicy) (fee block : ℕ)
    → ((limit : ℕ) → p.daily_spend_limit ≡ some limit → spent_at p block + fee ≤ limit)
    → within_daily_limit p fee block ≡ true
unfolding within_daily_limit
under_limit p fee block h = elim (Option-cases p.daily_spend_limit) [
  | inl e ↦ ground arith
  | inr (limit, e) ↦ ground (arith, h limit e)
]

check_policy_complete :
    (p : SponsorPolicy) (sender fee block : ℕ)
    → Permits p sender fee block
    → check_policy p sender fee block ≡ none
unfolding check_policy
check_policy_complete p sender fee block ok = elim (Option-cases p.max_fee_per_tx) [
  | inl e ↦ ground (
    arith,
    ok.is_active,
    not_expired p block ok.unexpired,
    sender_allowed p sender ok.allowed,
    under_limit p fee block ok.daily,
  )
  | inr (max, e) ↦ ground (
    arith,
    ok.is_active,
    not_expired p block ok.unexpired,
    sender_allowed p sender ok.allowed,
    under_limit p fee block ok.daily,
    ok.fee_bound max e,
  )
]

-- The check of a policy passes exactly if the policy is active, has not expired, lists the sender if
-- it lists any, and has room for the fee under both of its limits, for a daily limit below the
-- largest u128.
check_policy_iff :
    (p : SponsorPolicy) (sender fee block : ℕ)
    → IsBounded p
    → (check_policy p sender fee block ≡ none) ↔ Permits p sender fee block
check_policy_iff p sender fee block bound =
    (check_policy_sound p sender fee block bound, check_policy_complete p sender fee block)

-- A sponsored transaction: its sender, its fee and the block that holds it.
pub record Sponsored : Type 0 where
  pub sender : ℕ
  pub fee : ℕ
  pub block : ℕ

-- The transaction pipeline: the check, then the spend of a transaction that passes it.
pub sponsor_one : SponsorPolicy → Sponsored → SponsorPolicy
sponsor_one p t = elim (check_policy p t.sender t.fee t.block) [
  | none ↦ record_spend p t.fee t.block
  | some _ ↦ p
]

-- The fees that are paid over a sequence of transactions.
pub paid : SponsorPolicy → List Sponsored → ℕ
paid p [] = 0
paid p (t ∷ ts) =
    (elim (check_policy p t.sender t.fee t.block) [ none ↦ t.fee | some _ ↦ 0 ])
    + paid (sponsor_one p t) ts

-- Every block of the sequence lies within a day of `start`.
abbrev pub IsWithinDay : ℕ → List Sponsored → Type 0
IsWithinDay start [] = Unit
IsWithinDay start (t ∷ ts) = (t.block - start < blocks_per_day) × IsWithinDay start ts

spent_near :
    (p : SponsorPolicy) (fee block limit : ℕ)
    → block - p.window_start_block < blocks_per_day
    → spent_at p block + fee ≤ limit
    → p.spent_in_window + fee ≤ limit
unfolding spent_at
spent_near p fee block limit near h = ground arith

sponsor_one_paid :
    (p : SponsorPolicy) (t : Sponsored) (limit : ℕ)
    → p.daily_spend_limit ≡ some limit
    → limit < u128_max
    → t.block - p.window_start_block < blocks_per_day
    → p.spent_in_window ≤ limit
    → ((sponsor_one p t).daily_spend_limit ≡ some limit)
      × ((sponsor_one p t).window_start_block ≡ p.window_start_block)
      × ((sponsor_one p t).spent_in_window
          ≡ (elim (check_policy p t.sender t.fee t.block) [ none ↦ t.fee | some _ ↦ 0 ])
            + p.spent_in_window)
      × ((sponsor_one p t).spent_in_window ≤ limit)
unfolding sponsor_one record_spend
sponsor_one_paid p t limit e bound near room =
    elim (Option-cases (check_policy p t.sender t.fee t.block)) [
      | inl pass ↦
          let ok = check_policy_sound p t.sender t.fee t.block (λ l e'. ground arith) pass in
          let d = spent_near p t.fee t.block limit near (ok.daily limit e) in ground arith
      | inr (err, fail) ↦ ground arith
    ]

-- Within a day of the start of the window the fees that a sponsor pays, together with what was
-- spent before, never exceed the daily limit, whatever transactions ask for sponsorship.
pub paid-le-limit :
    (p : SponsorPolicy) (ts : List Sponsored) (limit : ℕ)
    → p.daily_spend_limit ≡ some limit
    → limit < u128_max
    → IsWithinDay p.window_start_block ts
    → p.spent_in_window ≤ limit
    → paid p ts + p.spent_in_window ≤ limit
unfolding paid
paid-le-limit p [] limit e bound near room = omega arith
paid-le-limit p (t ∷ ts) limit e bound near room =
    let (e', start, grown, room') = sponsor_one_paid p t limit e bound near.0 room in
    let ih =
      paid-le-limit (sponsor_one p t) ts limit e' bound
        (subst (λ w. IsWithinDay w ts) (sym start) near.1) room' in
    omega arith
