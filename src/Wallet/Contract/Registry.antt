-- ===== src/Wallet/Contract/Registry.antt =====
-- `WalletRegistry`, account_abstraction/registry.rs, and the calls of it from the processing of a
-- transaction in blockchain/mod.rs.
pub mod Owners
use Prim.Native.Nat.{ℕ}
use mathlib.Core.Bool.{Bool}
use mathlib.Core.List.{List, [], ◌∷◌, ◌++◌}
use mathlib.Core.Option.{Option, none, some}
use iron_dag.Prelude.Tests.{if◌then◌else◌}
use iron_dag.Prelude.Lists.{length}
use iron_dag.Prelude.Eq.{nat_eq}
use iron_dag.Prelude.Map.{Map, get, insert, contains_key}
use iron_dag.Wallet.Contract.{
  SmartContractWallet, WalletError, already_registered, not_found, increment_nonce,
  record_wallet_spending,
}

pub record WalletRegistry : Type 0 where
  pub wallets : Map ℕ SmartContractWallet
  pub owner_wallets : Map ℕ (List ℕ)

unfoldable pub new_registry : WalletRegistry
new_registry = record { wallets = []; owner_wallets = [] }

abbrev pub or_empty : Option (List ℕ) → List ℕ
or_empty none = []
or_empty (some xs) = xs

-- `none` is the answer without an error.
unfoldable pub register_wallet :
    SmartContractWallet → WalletRegistry → Option WalletError × WalletRegistry
register_wallet w r = if contains_key w.address r.wallets then (some already_registered, r) else (
  none,
  record {
    wallets = insert w.address w r.wallets;
    owner_wallets =
        insert w.owner (or_empty (get w.owner r.owner_wallets) ++ (w.address ∷ [])) r.owner_wallets;
  },
)

unfoldable pub get_wallet : ℕ → WalletRegistry → Option SmartContractWallet
get_wallet address r = get address r.wallets

unfoldable pub is_contract_wallet : ℕ → WalletRegistry → Bool
is_contract_wallet address r = contains_key address r.wallets

-- `filter_map`
unfoldable pub look_up : List ℕ → Map ℕ SmartContractWallet → List SmartContractWallet
look_up [] m = []
look_up (a ∷ rest) m = elim (get a m) [ none ↦ look_up rest m | some w ↦ w ∷ look_up rest m ]

unfoldable pub get_owner_wallets : ℕ → WalletRegistry → List SmartContractWallet
get_owner_wallets owner r = look_up (or_empty (get owner r.owner_wallets)) r.wallets

unfoldable pub total_wallets : WalletRegistry → ℕ
total_wallets r = length r.wallets

unfoldable pub update_wallet_nonce : ℕ → WalletRegistry → Option WalletError × WalletRegistry
update_wallet_nonce address r = elim (get address r.wallets) [
  | none ↦ (some not_found, r)
  | some w ↦ (none, record r { wallets = insert address (increment_nonce w) r.wallets })
]

-- What a processed transaction of a contract wallet leaves in the registry.
unfoldable pub update_wallet : ℕ → ℕ → WalletRegistry → WalletRegistry
update_wallet from value r =
    let moved = (update_wallet_nonce from r).1 in
    elim (get from moved.wallets) [
      | none ↦ moved
      | some w ↦ record moved {
        wallets = insert from (record_wallet_spending value w) moved.wallets;
      }
    ]
