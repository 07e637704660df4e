-- ===== src/Wallet/Contract.antt =====
-- `SmartContractWallet` and `SpendingLimits`, account_abstraction/wallet.rs, and `WalletRegistry`,
-- account_abstraction/registry.rs. The clock gives whole seconds and is read by the caller. The sums
-- of u128 amounts and the difference of u64 times wrap around, as in a release build.
pub mod Window
pub mod Registry
use Prim.Native.Nat.{ℕ, ◌+◌, ◌-◌, ◌/◌, ◌%◌, ◌^◌}
use mathlib.Core.Bool.{Bool, true, false, ◌||◌}
use mathlib.Core.List.{List, [], ◌∷◌}
use mathlib.Core.Option.{Option, none, some}
use iron_dag.Prelude.Tests.{ltb, leb, ◌==◌, if◌then◌else◌}
use iron_dag.Prelude.Lists.{length, is_empty}
use iron_dag.Prelude.Words.{as_u8}
use iron_dag.Ledger.Types.{u128_mod}

pub record SpendingLimits : Type 0 where
  pub daily_limit : ℕ
  pub weekly_limit : ℕ
  pub monthly_limit : ℕ
  pub per_address_limits : List (ℕ × ℕ)
  pub current_period_spending : ℕ
  pub last_reset : ℕ

pub data WalletType : Type 0 where
  basic : WalletType
  multisig social_recovery : List ℕ → ℕ → WalletType
  spending_limit : SpendingLimits → WalletType
  combined : List ℕ → ℕ → List ℕ → ℕ → SpendingLimits → WalletType

-- A custom method carries the bytes of its name.
pub data AuthMethod : Type 0 where
  single_signature : AuthMethod
  multi_signature guardian_recovery : List ℕ → ℕ → AuthMethod
  custom : List ℕ → AuthMethod

-- No code of the repository adds to the pending recoveries of a configuration: they are not modelled.
pub record RecoveryConfig : Type 0 where
  pub guardians : List ℕ
  pub threshold : ℕ
  pub time_delay : ℕ

pub record WalletConfig : Type 0 where
  pub auth_method : AuthMethod
  pub spending_limits : Option SpendingLimits
  pub recovery_config : Option RecoveryConfig

pub record SmartContractWallet : Type 0 where
  pub address : ℕ
  pub owner : ℕ
  pub wallet_type : WalletType
  pub config : WalletConfig
  pub created_at : ℕ
  pub nonce : ℕ

pub data WalletError : Type 0 where
  invalid_threshold empty_list too_many : WalletError
  daily_exceeded weekly_exceeded monthly_exceeded : WalletError
  already_registered not_found : WalletError

pub data Result (A : Type 0) : Type 0 where
  ok : A → Result A
  err : WalletError → Result A

unfoldable pub new_basic : ℕ → ℕ → ℕ → SmartContractWallet
new_basic address owner now = record {
  address = address;
  owner = owner;
  wallet_type = basic;
  config = record {
    auth_method = single_signature;
    spending_limits = none;
    recovery_config = none;
  };
  created_at = now;
  nonce = 0;
}

-- The guards of both lists of members; the length is cast to u8 before the comparison.
unfoldable pub check_members : List ℕ → ℕ → Option WalletError
check_members members threshold =
    if (threshold == 0) || ltb (as_u8 (length members)) threshold
    then some invalid_threshold
    else if is_empty members
    then some empty_list
    else if ltb 20 (length members)
    then some too_many
    else none

unfoldable pub new_multisig : ℕ → ℕ → List ℕ → ℕ → ℕ → Result SmartContractWallet
new_multisig address owner signers threshold now = elim (check_members signers threshold) [
  | some e ↦ err e
  | none ↦ ok (record {
    address = address;
    owner = owner;
    wallet_type = multisig signers threshold;
    config = record {
      auth_method = multi_signature signers threshold;
      spending_limits = none;
      recovery_config = none;
    };
    created_at = now;
    nonce = 0;
  })
]

unfoldable pub new_social_recovery : ℕ → ℕ → List ℕ → ℕ → ℕ → ℕ → Result SmartContractWallet
new_social_recovery address owner guardians threshold delay now =
    elim (check_members guardians threshold) [
      | some e ↦ err e
      | none ↦ ok (record {
        address = address;
        owner = owner;
        wallet_type = social_recovery guardians threshold;
        config = record {
          auth_method = single_signature;
          spending_limits = none;
          recovery_config =
              some (record { guardians = guardians; threshold = threshold; time_delay = delay });
        };
        created_at = now;
        nonce = 0;
      })
    ]

unfoldable pub is_multisig : SmartContractWallet → Bool
is_multisig w = elim w.wallet_type [ multisig _ _ ↦ true | combined _ _ _ _ _ ↦ true | _ ↦ false ]

unfoldable pub has_social_recovery : SmartContractWallet → Bool
has_social_recovery w = elim w.wallet_type [
  | social_recovery _ _ ↦ true
  | combined _ _ _ _ _ ↦ true
  | _ ↦ false
]

abbrev pub is_some_limits : Option SpendingLimits → Bool
is_some_limits none = false
is_some_limits (some _) = true

unfoldable pub has_spending_limits : SmartContractWallet → Bool
has_spending_limits w = elim w.wallet_type [
  | spending_limit _ ↦ true
  | combined _ _ _ _ _ ↦ true
  | _ ↦ is_some_limits w.config.spending_limits
]

unfoldable pub increment_nonce : SmartContractWallet → SmartContractWallet
increment_nonce w = record w { nonce = (w.nonce + 1) % 2 ^ 64 }

unfoldable pub new_limits : ℕ → ℕ → ℕ → ℕ → SpendingLimits
new_limits daily weekly monthly now = record {
  daily_limit = daily;
  weekly_limit = weekly;
  monthly_limit = monthly;
  per_address_limits = [];
  current_period_spending = 0;
  last_reset = now;
}

abbrev pub seconds_per_day : ℕ
seconds_per_day = 86400

-- The counter and its start, reset where a day has passed.
unfoldable pub reset_daily : ℕ → SpendingLimits → SpendingLimits
reset_daily now l =
    let days = (now + 2 ^ 64 - l.last_reset) % 2 ^ 64 / seconds_per_day in
    if leb 1 days then record l { current_period_spending = 0; last_reset = now } else l

-- The answer, `none` without an error, and the limits, which an error leaves reset as well.
unfoldable pub check_limit : ℕ → ℕ → SpendingLimits → Option WalletError × SpendingLimits
check_limit amount now l =
    let r = reset_daily now l in
    let spending = (r.current_period_spending + amount) % u128_mod in
    (
      if ltb r.daily_limit spending
          then some daily_exceeded
          else if ltb r.weekly_limit spending
          then some weekly_exceeded
          else if ltb r.monthly_limit spending
          then some monthly_exceeded
          else none,
      r,
    )

unfoldable pub record_spending : ℕ → SpendingLimits → SpendingLimits
record_spending amount l = record l {
  current_period_spending = (l.current_period_spending + amount) % u128_mod;
}

unfoldable pub check_and_record_spending :
    ℕ → ℕ → SpendingLimits → Option WalletError × SpendingLimits
check_and_record_spending amount now l =
    let checked = check_limit amount now l in
    elim checked.0 [
      | some e ↦ (some e, checked.1)
      | none ↦ (none, record_spending amount checked.1)
    ]

-- The check that a block's transaction gets: the limits that it may reset are a copy.
unfoldable pub check_wallet_limits : SmartContractWallet → ℕ → ℕ → Option WalletError
check_wallet_limits w value now =
    if has_spending_limits w
    then elim w.config.spending_limits [
      | none ↦ none
      | some limits ↦ (check_limit value now limits).0
    ]
    else none

-- What the transaction leaves in the wallet once it has been processed.
unfoldable pub record_wallet_spending : ℕ → SmartContractWallet → SmartContractWallet
record_wallet_spending value w =
    if has_spending_limits w
    then elim w.config.spending_limits [
      | none ↦ w
      | some limits ↦ record w {
        config = record w.config { spending_limits = some (record_spending value limits) };
      }
    ]
    else w
