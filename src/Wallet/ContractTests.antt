-- ===== src/Wallet/ContractTests.antt =====
-- Concrete runs of the contract wallets and of the batches.
use Prim.Native.Nat.{ℕ, zero, suc, ◌+◌}
use mathlib.Core.Path.{◌≡◌, refl}
use mathlib.Core.Bool.{true}
use mathlib.Core.List.{List, [], ◌∷◌}
use mathlib.Core.Option.{none, some}
use native.Mathlib.Omega.{arith}
use iron_dag.Prelude.Eq.{nat_eq}
use iron_dag.Prelude.Map.{get}
use iron_dag.Wallet.Contract.{
  SpendingLimits, SmartContractWallet, basic, single_signature, new_basic,
}
use iron_dag.Wallet.Contract.Window.{spent, IsFit, spent-IsFit, all_pass, all_pass_later}
use iron_dag.Wallet.Contract.Registry.{get_owner_wallets, new_registry}
use iron_dag.Wallet.Contract.Registry.Owners.{
  owned, Call, register, transact, serve, get_owner_wallets-owned,
}
use iron_dag.Prelude.Tests.{if◌then◌else◌}
use iron_dag.Wallet.Batch.{
  BatchOperation, transfer, BatchOperationResult, BatchTransaction, pending, Executed, done, broken,
  is_ready, execute_batch, execute_operations, revert_all,
}
use iron_dag.Wallet.Batch.Reversal.{IsAccounted, execute_batch-IsAccounted}

abbrev limits : SpendingLimits
limits = record {
  daily_limit = 100;
  weekly_limit = 300;
  monthly_limit = 900;
  per_address_limits = [];
  current_period_spending = 0;
  last_reset = 1000;
}

abbrev attempts : List (ℕ × ℕ)
attempts = (60, 1000) ∷ (60, 2000) ∷ (40, 3000) ∷ []

spent-IsFit_example : IsFit limits (0 + spent attempts limits)
spent-IsFit_example =
    spent-IsFit attempts limits (omega arith, omega arith, omega arith)
      (
        omega arith,
        omega arith,
        omega arith,
        (omega arith, omega arith, omega arith, (omega arith, omega arith, omega arith, tt)),
      )

abbrev wallet : ℕ → SmartContractWallet
wallet address = record {
  address = address;
  owner = 5;
  wallet_type = basic;
  config = record {
    auth_method = single_signature;
    spending_limits = some limits;
    recovery_config = none;
  };
  created_at = 1000;
  nonce = 0;
}

-- 300 within three seconds, with a daily limit of 100.
abbrev burst : List (ℕ × ℕ)
burst = (100, 90_000) ∷ (100, 90_001) ∷ (100, 90_002) ∷ []

all_pass_later_example : all_pass burst (wallet 9) ≡ true
all_pass_later_example =
    let fits : IsFit limits 100 = (omega arith, omega arith, omega arith) in
    all_pass_later burst (wallet 9) limits refl (
      omega arith,
      omega arith,
      omega arith,
      fits,
      (
        omega arith,
        omega arith,
        omega arith,
        fits,
        (omega arith, omega arith, omega arith, fits, tt),
      ),
    )

abbrev calls : List Call
calls =
    register (wallet 9) ∷ register (new_basic 8 5 1100) ∷ transact 9 30 ∷ register (wallet 9) ∷ []

get_owner_wallets-owned_example :
    get_owner_wallets 5 (serve calls new_registry) ≡ owned 5 (serve calls new_registry).wallets
get_owner_wallets-owned_example = get_owner_wallets-owned calls 5

-- The state is the list of the values that were transferred, newest first; 0 cannot be transferred.
abbrev execute_fn : BatchOperation → ℕ → List ℕ → Executed × List ℕ
execute_fn (transfer to zero) i s = (broken 1, 0 ∷ s)
execute_fn (transfer to (suc v)) i s = (
  done (record {
    operation_index = i;
    success = true;
    result = none;
    error = none;
    gas_used = 21_000;
  }),
  suc v ∷ s,
)
execute_fn _ i s = (broken 2, 0 ∷ s)

abbrev revert_fn : ℕ → BatchOperationResult → List ℕ → List ℕ
revert_fn i r [] = []
revert_fn i r (v ∷ s) = s

abbrev batch : BatchTransaction
batch = record {
  batch_id = 3;
  wallet_address = 9;
  operations = transfer 1 40 ∷ transfer 2 50 ∷ transfer 3 0 ∷ [];
  nonce = 0;
  gas_limit = 100_000;
  gas_price = 1;
  created_at = 1000;
  status = pending;
  results = [];
  gas_used = 0;
}

-- A reversal of completed operations only.
abbrev revert_completed : ℕ → BatchOperationResult → List ℕ → List ℕ
revert_completed i r [] = []
revert_completed i r (v ∷ s) = if r.success then s else v ∷ s

-- The second transfer exceeds the gas: its result is recorded as a failure, so that it stays, and the
-- reversal of the first one takes the second one away.
first_stays :
    (execute_batch execute_fn revert_completed 3
      ((3, record batch { gas_limit = 30_000 }) ∷ [])
      (7 ∷ [])).2
    ≡ 40 ∷ 7 ∷ []
unfolding execute_batch execute_operations revert_all get is_ready
first_stays = refl

execute_batch-IsAccounted_example :
    IsAccounted execute_fn revert_fn 3 batch
      (7 ∷ [])
      (execute_batch execute_fn revert_fn 3 ((3, batch) ∷ []) (7 ∷ []))
unfolding get is_ready
execute_batch-IsAccounted_example =
    execute_batch-IsAccounted execute_fn revert_fn 3 batch ((3, batch) ∷ []) (7 ∷ []) refl refl
