-- ===== src/Wallet/Contract/Window.antt =====
-- What the spending limits of a wallet bound, account_abstraction/wallet.rs and blockchain/mod.rs.
use Prim.Native.Nat.{ℕ, ◌+◌, ◌%◌, ◌^◌, ◌≤◌, ◌<◌}
use mathlib.Core.Path.{◌≡◌, refl}
use mathlib.Core.Logic.{◌⊎◌, inl, inr}
use mathlib.Core.Bool.{Bool, true, false}
use mathlib.Core.List.{List, [], ◌∷◌}
use mathlib.Core.Option.{none, some}
use native.Mathlib.Omega.{arith}
use iron_dag.Prelude.Tests.{ltb, Bool-cases}
use iron_dag.Ledger.Types.{u128_mod}
use iron_dag.Wallet.Contract.{
  SpendingLimits, SmartContractWallet, WalletError, daily_exceeded, weekly_exceeded,
  monthly_exceeded, seconds_per_day, reset_daily, check_limit, record_spending,
  check_and_record_spending, has_spending_limits, check_wallet_limits, record_wallet_spending,
}

-- Attempts to spend an amount at a time, one after the other, and the sum of those that succeed.
unfoldable pub spent : List (ℕ × ℕ) → SpendingLimits → ℕ
spent [] l = 0
spent ((amount, now) ∷ rest) l =
    let done = check_and_record_spending amount now l in
    elim done.0 [ none ↦ amount + spent rest done.1 | some _ ↦ spent rest done.1 ]

-- The times lie within a day of a start, and no sum with the daily limit leaves u128.
abbrev pub AreWithin : ℕ → ℕ → List (ℕ × ℕ) → Type 0
AreWithin start limit [] = Unit
AreWithin start limit ((amount, now) ∷ rest) =
    (start ≤ now)
    × (now < start + seconds_per_day)
    × (amount + limit < u128_mod)
    × AreWithin start limit rest

no_reset :
    (now : ℕ) (l : SpendingLimits)
    → l.last_reset ≤ now
    → now < l.last_reset + seconds_per_day
    → reset_daily now l ≡ l
unfolding reset_daily
no_reset now l h k = ground arith

-- The counter is within the three limits.
abbrev pub IsFit : SpendingLimits → ℕ → Type 0
IsFit l total = (total ≤ l.daily_limit) × (total ≤ l.weekly_limit) × (total ≤ l.monthly_limit)

-- One attempt that no reset precedes: it is refused, or the counter grows by its amount and stays fit.
attempt :
    (amount now : ℕ) (l : SpendingLimits)
    → reset_daily now l ≡ l
    → IsFit l l.current_period_spending
    → amount + l.daily_limit < u128_mod
    → ((e : WalletError) × (check_and_record_spending amount now l ≡ (some e, l)))
      ⊎ ((check_and_record_spending amount now l
            ≡ (none, record l { current_period_spending = l.current_period_spending + amount }))
          × IsFit l (l.current_period_spending + amount))
unfolding check_and_record_spending check_limit record_spending
attempt amount now l r fit h =
    let total = (l.current_period_spending + amount) % u128_mod in
    let plain : total ≡ l.current_period_spending + amount = omega arith in
    elim (Bool-cases (ltb l.daily_limit total)) [
      | inl over ↦ inl (daily_exceeded, ground (arith, r))
      | inr d ↦ elim (Bool-cases (ltb l.weekly_limit total)) [
        | inl over ↦ inl (weekly_exceeded, ground (arith, r))
        | inr w ↦ elim (Bool-cases (ltb l.monthly_limit total)) [
          | inl over ↦ inl (monthly_exceeded, ground (arith, r))
          | inr m ↦ inr (ground (arith, r), (ground arith, ground arith, ground arith))
        ]
      ]
    ]

-- Within a day of the last reset, what the attempts spend and what was spent before stay within
-- the daily, the weekly and the monthly limit, where the counter is within the three at the start and
-- no amount leaves u128 together with the daily limit.
pub spent-IsFit :
    (attempts : List (ℕ × ℕ)) (l : SpendingLimits)
    → IsFit l l.current_period_spending
    → AreWithin l.last_reset l.daily_limit attempts
    → IsFit l (l.current_period_spending + spent attempts l)
unfolding spent
spent-IsFit [] l fit h = (omega (arith, fit.0), omega (arith, fit.1), omega (arith, fit.2))
spent-IsFit ((amount, now) ∷ rest) l fit h =
    elim (attempt amount now l (no_reset now l h.0 h.1) fit h.2) [
      | inl (e, refused) ↦
          let same : spent ((amount, now) ∷ rest) l ≡ spent rest l = ground (arith, refused) in
          let later = spent-IsFit rest l fit h.3 in
          (omega (arith, same, later.0), omega (arith, same, later.1), omega (arith, same, later.2))
      | inr (taken, fit') ↦
          let l' = record l { current_period_spending = l.current_period_spending + amount } in
          let later = spent-IsFit rest l' fit' h.3 in
          let more : spent ((amount, now) ∷ rest) l ≡ amount + spent rest l' =
            ground (arith, taken) in
          (omega (arith, more, later.0), omega (arith, more, later.1), omega (arith, more, later.2))
    ]

-- Transactions of a wallet, with their values and times: is each of them let through, where each that
-- is let through is recorded?
unfoldable pub all_pass : List (ℕ × ℕ) → SmartContractWallet → Bool
all_pass [] w = true
all_pass ((value, now) ∷ rest) w = elim (check_wallet_limits w value now) [
  | none ↦ all_pass rest (record_wallet_spending value w)
  | some _ ↦ false
]

-- The times are a day or more behind a start, and each value is within the limits by itself.
abbrev pub AreLater : SpendingLimits → List (ℕ × ℕ) → Type 0
AreLater l [] = Unit
AreLater l ((value, now) ∷ rest) =
    (l.last_reset + seconds_per_day ≤ now)
    × (now < 2 ^ 64)
    × (value < u128_mod)
    × IsFit l value
    × AreLater l rest

-- A value that the limits allow by itself passes where the reset is due.
passes :
    (value now : ℕ) (l : SpendingLimits)
    → l.last_reset + seconds_per_day ≤ now
    → now < 2 ^ 64
    → value < u128_mod
    → IsFit l value
    → (check_limit value now l).0 ≡ none
unfolding check_limit reset_daily
passes value now l late h small fit = ground (arith, fit.0, fit.1, fit.2)

AreLater-record :
    (l : SpendingLimits) (x : ℕ) (vs : List (ℕ × ℕ))
    → AreLater l vs
    → AreLater (record l { current_period_spending = x }) vs
AreLater-record l x [] h = tt
AreLater-record l x ((value, now) ∷ rest) h = (h.0, h.1, h.2, h.3, AreLater-record l x rest h.4)

wallet_passes :
    (value now : ℕ) (w : SmartContractWallet) (l : SpendingLimits)
    → w.config.spending_limits ≡ some l
    → (check_limit value now l).0 ≡ none
    → check_wallet_limits w value now ≡ none
unfolding check_wallet_limits
wallet_passes value now w l e h = ground arith

limits_on :
    (w : SmartContractWallet) (l : SpendingLimits)
    → w.config.spending_limits ≡ some l
    → has_spending_limits w ≡ true
unfolding has_spending_limits
limits_on w l e = ground arith

records :
    (value : ℕ) (w : SmartContractWallet) (l : SpendingLimits)
    → w.config.spending_limits ≡ some l
    → (record_wallet_spending value w).config.spending_limits ≡ some (record_spending value l)
unfolding record_wallet_spending
records value w l e = ground (arith, limits_on w l e)

-- From a day after the start of a wallet's limits on, every transaction whose value is within the
-- limits by itself is let through, however much the others have spent: the check resets a copy, and
-- what is recorded never resets.
pub all_pass_later :
    (vs : List (ℕ × ℕ)) (w : SmartContractWallet) (l : SpendingLimits)
    → w.config.spending_limits ≡ some l
    → AreLater l vs
    → all_pass vs w ≡ true
unfolding all_pass record_spending
all_pass_later [] w l e h = refl
all_pass_later ((value, now) ∷ rest) w l e h =
    let lets : check_wallet_limits w value now ≡ none =
      wallet_passes value now w l e (passes value now l h.0 h.1 h.2 h.3) in
    let l' = record_spending value l in
    let next : (record_wallet_spending value w).config.spending_limits ≡ some l' =
      records value w l e in
    rw (all_pass, lets)
      (all_pass_later rest (record_wallet_spending value w) l' next
        (AreLater-record l ((l.current_period_spending + value) % u128_mod) rest h.4))
