-- ===== src/Ledger/Process.antt =====
-- `process_transaction` for a native transfer.
use Prim.Native.Nat.{ℕ, ◌+◌, ◌-◌, ◌%◌, ◌*◌}
use mathlib.Core.Bool.{Bool, ◌&&◌}
use mathlib.Core.List.{List, [], ◌∷◌}
use mathlib.Core.Option.{none, some}
use iron_dag.Prelude.Tests.{ltb, ◌==◌, if◌then◌else◌}
use iron_dag.Prelude.Lists.{length, any}
use iron_dag.Prelude.Words.{sat_add_u64}
use iron_dag.Prelude.Eq.{nat_eq}
use iron_dag.Prelude.HashSet.{contains}
use iron_dag.Prelude.Map.{Map, insert}
use iron_dag.Pool
use iron_dag.Ledger.Types.{
  Transaction, AccountState, Chain, insufficient_balance, insufficient_sponsor_balance,
  insufficient_fee_balance, replayed, Outcome, ok, err, u128_mod, get_balance, get_nonce,
}

abbrev pub privacy_pool_address : ℕ
privacy_pool_address = 2

abbrev pub zero_address : ℕ
zero_address = 0

-- The account of the sender after the debit, with its new nonce.
unfoldable pub debit : ℕ → ℕ → ℕ → Map ℕ AccountState → Map ℕ AccountState
debit from balance nonce m = insert from (record { balance = balance; nonce = nonce }) m

-- The fee of a sponsored transaction: the sponsor keeps its nonce.
unfoldable pub charge : ℕ → ℕ → Map ℕ AccountState → Map ℕ AccountState
charge sponsor fee m =
    insert sponsor (record { balance = get_balance sponsor m - fee; nonce = get_nonce sponsor m }) m

-- The credit of the receiver, which the zero address does not get. u128 addition wraps around.
unfoldable pub credit : ℕ → ℕ → Map ℕ AccountState → Map ℕ AccountState
credit to value m =
    if to == zero_address
    then m
    else insert to
        (record { balance = (get_balance to m + value) % u128_mod; nonce = get_nonce to m }) m

-- The three writes of balances, with the guards between them: `none` where the funds are short.
unfoldable pub transfer : Transaction → Map ℕ AccountState → Outcome × Map ℕ AccountState
transfer tx m =
    let new_nonce = sat_add_u64 (get_nonce tx.from m) 1 in
    let from_balance = get_balance tx.from m in
    if ltb from_balance tx.value
    then (err insufficient_balance, m)
    else let rest = from_balance - tx.value in
      elim tx.sponsor [
        | some s ↦
            if ltb (get_balance s m) tx.fee
            then (err insufficient_sponsor_balance, m)
            else (ok, credit tx.to tx.value (debit tx.from rest new_nonce (charge s tx.fee m)))
        | none ↦
            if ltb rest tx.fee
            then (err insufficient_fee_balance, m)
            else (ok, credit tx.to tx.value (debit tx.from (rest - tx.fee) new_nonce m))
      ]

-- The 32 bytes of a commitment as a number.
abbrev pub from_be_bytes : ℕ → List ℕ → ℕ
from_be_bytes acc [] = acc
from_be_bytes acc (b ∷ bs) = from_be_bytes (acc * 256 + b) bs

-- A deposit that the pool rejects is only logged.
unfoldable pub register_commitment : Transaction → Chain → Chain
register_commitment tx c =
    if (tx.to == privacy_pool_address) && (length tx.bytes == 32)
    then record c {
      privacy_pool =
          (Pool.deposit (from_be_bytes 0 tx.bytes) c.latest_block_number c.privacy_pool).1;
    }
    else c

abbrev pub is_replayed : Transaction → Chain → Bool
is_replayed tx c = any (contains tx.hash) c.recent_tx_hashes

unfoldable pub process_transaction : Transaction → Chain → Outcome × Chain
unfolding transfer register_commitment
process_transaction tx c =
    if is_replayed tx c
    then (err replayed, c)
    else let (r, accounts) = transfer tx c.accounts in
      elim r [
        | ok ↦ (ok, register_commitment tx (record c { accounts = accounts }))
        | err e ↦ (err e, c)
      ]
