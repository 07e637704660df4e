-- ===== src/Ledger/Supply.antt =====
-- The sum of all balances over a transfer and over a block.
use Prim.Native.Nat.{ℕ, ◌+◌, ◌-◌, ◌%◌, ◌≤◌, ◌<◌}
use mathlib.Core.Path.{◌≡◌}
use mathlib.Core.Logic.{inl, inr}
use mathlib.Core.Bool.{Bool}
use mathlib.Core.List.{List, [], ◌∷◌}
use mathlib.Core.Option.{none, some}
use native.Mathlib.Omega.{arith}
use iron_dag.Prelude.Tests.{◌==◌, if◌then◌else◌, Option-cases}
use iron_dag.Prelude.Words.{sat_add_u64}
use iron_dag.Prelude.Eq.{nat_eq}
use iron_dag.Prelude.Map.{Map, get, insert, get-insert}
use iron_dag.Ledger.Types.{
  Outcome, ok, err, Chain, Transaction, AccountState, u128_mod, get_balance, get_nonce,
}
use iron_dag.Ledger.Block.{
  validate_and_process_transactions, prune_spent_outputs, Block, apply_tx, apply_all, commit_tx,
}
use iron_dag.Ledger.Process.{
  zero_address, debit, charge, credit, transfer, register_commitment, process_transaction,
}

abbrev pub Accounts : Type 0
Accounts = Map ℕ AccountState

unfoldable pub total : Accounts → ℕ
total [] = 0
total ((k, a) ∷ m) = a.balance + total m

pub total-insert :
    (k : ℕ) (a : AccountState) (m : Accounts)
    → total (insert k a m) + get_balance k m ≡ total m + a.balance
unfolding total insert get get_balance
total-insert k a [] = omega arith
total-insert k a ((j, w) ∷ m) = ground (arith, total-insert k a m)

pub balance-le-total : (k : ℕ) (m : Accounts) → get_balance k m ≤ total m
unfolding total get get_balance
balance-le-total k [] = omega arith
balance-le-total k ((j, w) ∷ m) = ground (arith, balance-le-total k m)

get_balance-insert :
    (k j : ℕ) (a : AccountState) (m : Accounts)
    → get_balance j (insert k a m) ≡ (if k == j then a.balance else get_balance j m)
unfolding get_balance
get_balance-insert k j a m = ground (arith, get-insert k j a m)

-- What leaves the supply with a transfer: its fee, but not if the sender sponsors itself.
pub fee_taken : Transaction → ℕ
fee_taken tx = elim tx.sponsor [ none ↦ tx.fee | some s ↦ if s == tx.from then 0 else tx.fee ]

-- The value of a transfer to the zero address is destroyed.
pub value_burned : Transaction → ℕ
value_burned tx = if tx.to == zero_address then tx.value else 0

total-credit :
    (to v : ℕ) (m : Accounts)
    → total m + v < u128_mod
    → total (credit to v m) + (if to == zero_address then v else 0) ≡ total m + v
unfolding credit
total-credit to v m h = ground (
  arith,
  balance-le-total to m,
  total-insert to (record { balance = (get_balance to m + v) % u128_mod; nonce = get_nonce to m })
      m,
)

total-debit :
    (from b n : ℕ) (m : Accounts) → total (debit from b n m) + get_balance from m ≡ total m + b
unfolding debit
total-debit from b n m = total-insert from (record { balance = b; nonce = n }) m

total-charge :
    (s fee : ℕ) (m : Accounts) → fee ≤ get_balance s m → total (charge s fee m) + fee ≡ total m
unfolding charge
total-charge s fee m h =
    omega
      (arith, total-insert s (record { balance = get_balance s m - fee; nonce = get_nonce s m }) m)

get_balance-charge :
    (s j fee : ℕ) (m : Accounts)
    → get_balance j (charge s fee m) ≡ (if s == j then get_balance s m - fee else get_balance j m)
unfolding charge
get_balance-charge s j fee m =
    get_balance-insert s j (record { balance = get_balance s m - fee; nonce = get_nonce s m }) m

-- What an operation that ended so has done to the sum of all balances.
abbrev pub Settled : ℕ → Accounts → Outcome × Accounts → Type 0
Settled taken m (ok, m') = total m' + taken ≡ total m
Settled taken m (err _, m') = m' ≡ m

abbrev pub ChainSettled : ℕ → Chain → Outcome × Chain → Type 0
ChainSettled taken c (ok, c') = total c'.accounts + taken ≡ total c.accounts
ChainSettled taken c (err _, c') = c' ≡ c

abbrev pub AllSettled : ℕ → Chain → Outcome × Chain → Type 0
AllSettled taken c (ok, c') = total c'.accounts + taken ≡ total c.accounts
AllSettled taken c (err _, c') = total c'.accounts ≤ total c.accounts

-- A transfer that succeeds takes its fee out of the sum of all balances, and its value if it goes
-- to the zero address, where that sum is a u128 value; one that fails leaves the accounts alone.
-- Where the sender is its own sponsor no fee is taken.
total-transfer :
    (tx : Transaction) (m : Accounts)
    → total m < u128_mod
    → Settled (fee_taken tx + value_burned tx) m (transfer tx m)
unfolding transfer fee_taken value_burned
total-transfer tx m h = elim (Option-cases tx.sponsor) [
  | inl e ↦ ground (
    arith,
    balance-le-total tx.from m,
    total-debit tx.from (get_balance tx.from m - tx.value - tx.fee)
        (sat_add_u64 (get_nonce tx.from m) 1) m,
    total-credit tx.to tx.value (
        debit tx.from (get_balance tx.from m - tx.value - tx.fee)
          (sat_add_u64 (get_nonce tx.from m) 1) m),
  )
  | inr (s, e) ↦ ground (
    arith,
    balance-le-total tx.from m,
    total-charge s tx.fee m,
    get_balance-charge s tx.from tx.fee m,
    total-debit tx.from (get_balance tx.from m - tx.value) (sat_add_u64 (get_nonce tx.from m) 1)
        (charge s tx.fee m),
    total-credit tx.to tx.value (
        debit tx.from (get_balance tx.from m - tx.value) (sat_add_u64 (get_nonce tx.from m) 1)
          (charge s tx.fee m)),
  )
]

process-accounts :
    (tx : Transaction) (c : Chain)
    → total c.accounts < u128_mod
    → ChainSettled (fee_taken tx + value_burned tx) c (process_transaction tx c)
unfolding process_transaction register_commitment
process-accounts tx c h = ground (arith, total-transfer tx c.accounts h)

-- What a list of transactions takes out of the supply.
pub taken_all : List Transaction → ℕ
taken_all [] = 0
taken_all (tx ∷ txs) = fee_taken tx + value_burned tx + taken_all txs

apply_tx-accounts :
    (b : Block) (tx : Transaction) (c : Chain)
    → total c.accounts < u128_mod
    → ChainSettled (fee_taken tx + value_burned tx) c (apply_tx b tx c)
unfolding apply_tx commit_tx
apply_tx-accounts b tx c h = ground (arith, process-accounts tx c h)

-- A list of transactions that is processed to its end takes its `taken_all` out of the sum of all
-- balances, and nothing else; one that stops at an error never adds to it.
pub total-apply_all :
    (b : Block) (txs : List Transaction) (c : Chain)
    → total c.accounts < u128_mod
    → AllSettled (taken_all txs) c (apply_all b txs c)
unfolding apply_all taken_all
total-apply_all b [] c h = omega arith
total-apply_all b (tx ∷ txs) c h =
    ground (arith, apply_tx-accounts b tx c h, total-apply_all b txs (apply_tx b tx c).1)

module _ (signature_ok : Transaction → ℕ → Bool) (calculate_hash : Transaction → ℕ) where
  -- A block that is processed takes out of the sum of all balances the values that its transactions
  -- send to the zero address, and the fees of its transactions but of those whose sponsor is their own
  -- sender, for which no fee is taken; it takes nothing else. One that is rejected never adds to that
  -- sum. The sum is a u128 value before.
  pub total-validate_and_process_transactions :
      (b : Block) (c : Chain)
      → total c.accounts < u128_mod
      → AllSettled
          (taken_all b.transactions)
          c
          (validate_and_process_transactions signature_ok calculate_hash b c)
  unfolding validate_and_process_transactions prune_spent_outputs
  total-validate_and_process_transactions b c h =
      ground (arith, total-apply_all b b.transactions c h)
