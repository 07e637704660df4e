-- ===== src/Ledger/Accounts.antt =====
-- The accounts that a transaction changes, and how their nonces move.
use Prim.Native.Nat.{ℕ, ◌+◌, ◌-◌, ◌%◌}
use mathlib.Core.Path.{◌≡◌}
use mathlib.Core.Logic.{◌≢◌, inl, inr}
use mathlib.Core.Option.{some}
use native.Mathlib.Omega.{arith}
use iron_dag.Prelude.Tests.{◌==◌, if◌then◌else◌, Option-cases}
use iron_dag.Prelude.Words.{sat_add_u64}
use iron_dag.Prelude.Eq.{nat_eq}
use iron_dag.Prelude.Map.{Map, get, get-insert}
use iron_dag.Ledger.Types.{
  Transaction, AccountState, Chain, Outcome, ok, err, u128_mod, get_balance, get_nonce,
}
use iron_dag.Ledger.Block.{Block, apply_tx, commit_tx}
use iron_dag.Ledger.Process.{
  debit, charge, credit, transfer, register_commitment, process_transaction,
}

abbrev pub Accounts : Type 0
Accounts = Map ℕ AccountState

pub get-debit :
    (from j b n : ℕ) (m : Accounts)
    → get j (debit from b n m)
      ≡ (if from == j then some (record { balance = b; nonce = n }) else get j m)
unfolding debit
get-debit from j b n m = get-insert from j (record { balance = b; nonce = n }) m

pub get-credit_ne : (to j v : ℕ) (m : Accounts) → j ≢ to → get j (credit to v m) ≡ get j m
unfolding credit
get-credit_ne to j v m h = ground (
  arith,
  get-insert to j (record { balance = (get_balance to m + v) % u128_mod; nonce = get_nonce to m })
      m,
)

pub get-charge_ne : (s j fee : ℕ) (m : Accounts) → j ≢ s → get j (charge s fee m) ≡ get j m
unfolding charge
get-charge_ne s j fee m h =
    ground
      (arith, get-insert s j (record { balance = get_balance s m - fee; nonce = get_nonce s m }) m)

pub nonce-debit :
    (from j b n : ℕ) (m : Accounts)
    → get_nonce j (debit from b n m) ≡ (if from == j then n else get_nonce j m)
unfolding get_nonce
nonce-debit from j b n m = ground (arith, get-debit from j b n m)

pub nonce-credit : (to j v : ℕ) (m : Accounts) → get_nonce j (credit to v m) ≡ get_nonce j m
unfolding get_nonce credit
nonce-credit to j v m = ground (
  arith,
  get-insert to j (record { balance = (get_balance to m + v) % u128_mod; nonce = get_nonce to m })
      m,
)

pub nonce-charge : (s j fee : ℕ) (m : Accounts) → get_nonce j (charge s fee m) ≡ get_nonce j m
unfolding get_nonce charge
nonce-charge s j fee m =
    ground
      (arith, get-insert s j (record { balance = get_balance s m - fee; nonce = get_nonce s m }) m)

-- The nonce that an account has after a transaction that ended so.
abbrev pub nonce_after : Transaction → ℕ → Accounts → Outcome → ℕ
nonce_after tx j m ok = if tx.from == j then sat_add_u64 (get_nonce j m) 1 else get_nonce j m
nonce_after tx j m (err _) = get_nonce j m

nonce-transfer :
    (tx : Transaction) (j : ℕ) (m : Accounts)
    → get_nonce j (transfer tx m).1 ≡ nonce_after tx j m (transfer tx m).0
unfolding transfer
nonce-transfer tx j m = elim (Option-cases tx.sponsor) [
  | inl e ↦
      let n = sat_add_u64 (get_nonce tx.from m) 1 in
      let b = get_balance tx.from m - tx.value - tx.fee in
      ground
        (arith, nonce-credit tx.to j tx.value (debit tx.from b n m), nonce-debit tx.from j b n m)
  | inr (s, e) ↦
      let n = sat_add_u64 (get_nonce tx.from m) 1 in
      let b = get_balance tx.from m - tx.value in
      ground (
        arith,
        nonce-credit tx.to j tx.value (debit tx.from b n (charge s tx.fee m)),
        nonce-debit tx.from j b n (charge s tx.fee m),
        nonce-charge s j tx.fee m,
      )
]

-- A transaction that is processed moves the nonce of its sender on by one, up to the largest u64,
-- and no other nonce; one that is rejected moves none.
pub nonce-apply_tx :
    (b : Block) (tx : Transaction) (j : ℕ) (c : Chain)
    → get_nonce j (apply_tx b tx c).1.accounts ≡ nonce_after tx j c.accounts (apply_tx b tx c).0
unfolding apply_tx process_transaction register_commitment commit_tx
nonce-apply_tx b tx j c = ground (arith, nonce-transfer tx j c.accounts)

-- A transfer leaves alone every account that is not its sender, its receiver or its sponsor.
transfer_frame :
    (tx : Transaction) (j : ℕ) (m : Accounts)
    → j ≢ tx.from
    → j ≢ tx.to
    → tx.sponsor ≢ some j
    → get j (transfer tx m).1 ≡ get j m
unfolding transfer
transfer_frame tx j m nf nt ns = elim (Option-cases tx.sponsor) [
  | inl e ↦
      let n = sat_add_u64 (get_nonce tx.from m) 1 in
      let b = get_balance tx.from m - tx.value - tx.fee in
      ground
        (arith, get-credit_ne tx.to j tx.value (debit tx.from b n m) nt, get-debit tx.from j b n m)
  | inr (s, e) ↦
      let n = sat_add_u64 (get_nonce tx.from m) 1 in
      let b = get_balance tx.from m - tx.value in
      ground (
        arith,
        get-credit_ne tx.to j tx.value (debit tx.from b n (charge s tx.fee m)) nt,
        get-debit tx.from j b n (charge s tx.fee m),
        get-charge_ne s j tx.fee m,
      )
]
