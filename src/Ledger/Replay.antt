-- ===== src/Ledger/Replay.antt =====
-- The nonce of a transaction that is processed, and what a rejected block leaves.
use Prim.Native.Nat.{ℕ, ◌≤◌}
use mathlib.Core.Path.{◌≡◌, refl}
use mathlib.Core.Logic.{◌⊎◌, inl, inr}
use mathlib.Core.List.{List, [], ◌∷◌, ◌++◌}
use native.Mathlib.Omega.{arith}
use iron_dag.Prelude.Words.{u64_max}
use iron_dag.Ledger.Types.{Outcome, Transaction, Chain, TxError, ok, err, get_nonce}
use iron_dag.Ledger.Checks.{validate_tx_stateful_only}
use iron_dag.Ledger.Block.{Block, apply_tx, apply_all, check_tx}
use iron_dag.Ledger.Process.{process_transaction}
use iron_dag.Ledger.Accounts.{Accounts, nonce-apply_tx}

-- Every nonce is a u64.
abbrev pub HasWordNonces : Accounts → Type 0
HasWordNonces m = (j : ℕ) → get_nonce j m ≤ u64_max

pub HasWordNonces-apply_tx :
    (b : Block) (tx : Transaction) (c : Chain)
    → HasWordNonces c.accounts
    → HasWordNonces (apply_tx b tx c).1.accounts
HasWordNonces-apply_tx b tx c h j = ground (arith, nonce-apply_tx b tx j c, h j)

-- A transaction that passes carries the nonce of its sender.
pub nonce_of_applied :
    (b : Block) (tx : Transaction) (c : Chain)
    → (apply_tx b tx c).0 ≡ ok
    → tx.nonce ≡ get_nonce tx.from c.accounts
unfolding apply_tx check_tx validate_tx_stateful_only
nonce_of_applied b tx c h = ground arith

pub Outcome-cases : (o : Outcome) → (o ≡ ok) ⊎ ((e : TxError) × (o ≡ err e))
Outcome-cases ok = inl refl
Outcome-cases (err e) = inr (e, refl)

pub apply_tx_rejected :
    (b : Block) (tx : Transaction) (c : Chain) {e : TxError}
    → (apply_tx b tx c).0 ≡ err e
    → (apply_tx b tx c).1 ≡ c
unfolding apply_tx process_transaction
apply_tx_rejected b tx c h = ground arith

-- Where a transaction of a list fails, the list is rejected with its error, and the state that is
-- left is the one that the transactions before it have made.
pub apply_all_partial :
    (b : Block) (txs rest : List Transaction) (tx : Transaction) (c : Chain) {e : TxError}
    → (apply_all b txs c).0 ≡ ok
    → (apply_tx b tx (apply_all b txs c).1).0 ≡ err e
    → apply_all b (txs ++ tx ∷ rest) c ≡ (err e, (apply_all b txs c).1)
unfolding apply_all
apply_all_partial b [] rest tx c done fails = ground (arith, apply_tx_rejected b tx c fails)
apply_all_partial b (x ∷ txs) rest tx c {e} done fails = elim (Outcome-cases (apply_tx b x c).0) [
  | inl passed ↦
      rw (passed, apply_all)
        (apply_all_partial b txs rest tx (apply_tx b x c).1 (rw (passed, apply_all) at done)
          (rw (passed, apply_all) at fails))
  | inr (e', failed) ↦ ground arith
]
