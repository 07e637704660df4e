-- ===== src/Sharding/Manager/Refund.antt =====
-- What the timeout of pending transactions pays back, sharding/mod.rs.
use Prim.Native.Nat.{ℕ, ◌+◌, ◌≤◌, ◌<◌}
use mathlib.Core.Path.{◌≡◌, refl, ◌∙◌}
use mathlib.Core.Logic.{inl, inr}
use mathlib.Core.Bool.{true}
use mathlib.Core.List.{List, [], ◌∷◌}
use mathlib.Core.Option.{none, some}
use native.Mathlib.Omega.{arith}
use iron_dag.Prelude.Tests.{ltb, leb, if◌then◌else◌, Bool-cases}
use iron_dag.Prelude.Lists.{
  length, sum_by, sum_by-set_elem, elem-le-sum_by, get_elem?-within, length-set_elem,
}
use iron_dag.Prelude.Words.{u128_max, sat_add_u128}
use iron_dag.Prelude.Eq.{nat_eq}
use iron_dag.Prelude.Map.{Map}
use iron_dag.Ledger.Types.{get_balance}
use iron_dag.Ledger.Supply.{balance-le-total}
use iron_dag.Sharding.Shard.{set_balance}
use iron_dag.Sharding.Manager.{
  ShardManager, CrossShardTransaction, pending, committed, failed, put_shard,
}
use iron_dag.Sharding.Manager.Retry.{Refund, is_timed_out, expire, refund, refund_all, time_out}
use iron_dag.Sharding.Manager.Worth.{balances, total-set_balance}

-- What a transaction that is pending for too long has cost its sender, or would have.
unfoldable pub owed : ℕ → ℕ → CrossShardTransaction → ℕ
owed timeout now ct = elim ct.status [
  | pending ↦ elim ct.pending_since [
    | none ↦ 0
    | some since ↦ if leb (since + timeout) now then sat_add_u128 ct.tx.value ct.tx.fee else 0
  ]
  | committed ↦ 0
  | failed ↦ 0
]

unfoldable pub refundable : ℕ → ℕ → Map ℕ CrossShardTransaction → ℕ
refundable timeout now [] = 0
refundable timeout now ((hash, ct) ∷ txs) = owed timeout now ct + refundable timeout now txs

-- The source shards exist.
abbrev pub AreHoused : ℕ → Map ℕ CrossShardTransaction → Type 0
AreHoused count [] = Unit
AreHoused count ((hash, ct) ∷ txs) = (ct.source_shard < count) × AreHoused count txs

abbrev ArePayable : ℕ → List Refund → Type 0
ArePayable count [] = Unit
ArePayable count (r ∷ rs) = (r.source_shard < count) × ArePayable count rs

abbrev amount_of : Refund → ℕ
amount_of r = r.amount

-- The pass over the table collects what is owed, and nothing is owed after it.
expire-owed :
    (timeout now : ℕ) (txs : Map ℕ CrossShardTransaction)
    → 0 < timeout
    → (sum_by amount_of (expire timeout now txs).1 ≡ refundable timeout now txs)
      × (refundable timeout now (expire timeout now txs).0 ≡ 0)
unfolding expire refundable owed is_timed_out sum_by
expire-owed timeout now [] h = (refl, refl)
expire-owed timeout now ((hash, ct) ∷ txs) h = ground (arith, expire-owed timeout now txs h)

expire-ArePayable :
    (timeout now count : ℕ) (txs : Map ℕ CrossShardTransaction)
    → AreHoused count txs
    → ArePayable count (expire timeout now txs).1
unfolding expire
expire-ArePayable timeout now count [] a = tt
expire-ArePayable timeout now count ((hash, ct) ∷ txs) a =
    elim (Bool-cases (is_timed_out timeout now ct)) [
      | inl late ↦ simp (expire, late) (a.0, expire-ArePayable timeout now count txs a.1)
      | inr early ↦ simp (expire, early) (expire-ArePayable timeout now count txs a.1)
    ]

module _ {C : Type 0} where
  -- A refund that fits pays its amount and changes no more than a balance.
  refund-pays :
      (r : Refund) (m : ShardManager C)
      → r.source_shard < length m.shards
      → sum_by balances m.shards + r.amount ≤ u128_max
      → (sum_by balances (refund r m).shards ≡ sum_by balances m.shards + r.amount)
        × (length (refund r m).shards ≡ length m.shards)
        × ((refund r m).cross_shard_txs ≡ m.cross_shard_txs)
  unfolding refund put_shard balances
  refund-pays r m h fits =
      let (s, e) = get_elem?-within r.source_shard m.shards h in
      let b = sat_add_u128 (get_balance r.from s.accounts) r.amount in
      let s' = record s { accounts = set_balance r.from b s.accounts } in
      let moved = sum_by-set_elem balances r.source_shard s' s m.shards e in
      let changed = total-set_balance r.from b s.accounts in
      let small = balance-le-total r.from s.accounts in
      let part = elem-le-sum_by balances r.source_shard s m.shards e in
      simp (refund, e)
        (
          ground (arith, moved, changed, small, part),
          length-set_elem r.source_shard s' m.shards,
          refl,
        )

  refund_all-pays :
      (rs : List Refund) (m : ShardManager C)
      → ArePayable (length m.shards) rs
      → sum_by balances m.shards + sum_by amount_of rs ≤ u128_max
      → (sum_by balances (refund_all rs m).shards ≡ sum_by balances m.shards + sum_by amount_of rs)
        × ((refund_all rs m).cross_shard_txs ≡ m.cross_shard_txs)
  unfolding refund_all sum_by
  refund_all-pays [] m a fits = (omega arith, refl)
  refund_all-pays (r ∷ rs) m a fits =
      let (paid, kept, same) = refund-pays r m a.0 (omega (arith, fits)) in
      let later = refund_all-pays rs (refund r m) (rw kept a.1) (omega (arith, fits, paid)) in
      (omega (arith, paid, later.0), later.1 ∙ same)

  -- With a timeout above zero, a pass over the registered transactions adds to the balances of all
  -- shards, as often as one of them is pending for the timeout or longer, its value and its fee,
  -- whether or not they were ever debited, and adds nothing for the others, the committed ones among
  -- them; after it nothing more is owed at that time. The source shards exist, and the balances with
  -- the refunds are at most the largest u128 value.
  pub time_out-refunds :
      (now : ℕ) (m : ShardManager C)
      → 0 < m.config.cross_shard_timeout_secs
      → AreHoused (length m.shards) m.cross_shard_txs
      → sum_by balances m.shards
          + refundable m.config.cross_shard_timeout_secs now m.cross_shard_txs
        ≤ u128_max
      → (sum_by balances (time_out now m).shards
          ≡ sum_by balances m.shards
            + refundable m.config.cross_shard_timeout_secs now m.cross_shard_txs)
        × (refundable m.config.cross_shard_timeout_secs now (time_out now m).cross_shard_txs ≡ 0)
  unfolding time_out
  time_out-refunds now m h housed fits =
      let timeout = m.config.cross_shard_timeout_secs in
      let expired = expire timeout now m.cross_shard_txs in
      let marked = record m { cross_shard_txs = expired.0 } in
      let settled = expire-owed timeout now m.cross_shard_txs h in
      let on : ltb 0 timeout ≡ true = ground arith in
      let paid =
        refund_all-pays expired.1 marked
          (expire-ArePayable timeout now (length m.shards) m.cross_shard_txs housed)
          (omega (arith, fits, settled.0)) in
      simp (time_out, on) (omega (arith, paid.0, settled.0), rw paid.1 settled.1)
