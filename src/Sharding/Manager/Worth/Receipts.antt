-- ===== src/Sharding/Manager/Worth/Receipts.antt =====
-- The worth of the shards over what the receivers do.
use Prim.Native.Nat.{ℕ, ◌+◌, ◌≤◌, ◌<◌}
use mathlib.Core.Path.{◌≡◌, refl, ◌∙◌}
use mathlib.Core.Logic.{inl, inr}
use mathlib.Core.List.{List, [], ◌∷◌}
use mathlib.Core.Option.{some}
use native.Mathlib.Omega.{arith}
use iron_dag.Prelude.Tests.{Option-cases, Bool-cases}
use iron_dag.Prelude.Lists.{
  length, get_elem?, sum_by, sum_by-append, length-set_elem, get_elem?-within,
}
use iron_dag.Prelude.Words.{u128_max, sat_add_u128}
use iron_dag.Prelude.Eq.{nat_eq}
use iron_dag.Ledger.Types.{get_balance}
use iron_dag.Ledger.Supply.{balance-le-total}
use iron_dag.Sharding.{ReceiptMessage, Mpsc}
use iron_dag.Sharding.Shard.{Shard, set_balance}
use iron_dag.Sharding.Route.{assign}
use iron_dag.Sharding.Route.Cache.{assign-lt}
use iron_dag.Sharding.Manager.{ShardManager, PendingReceiptEntry, put_shard}
use iron_dag.Sharding.Manager.Receipts.{
  is_confirmed, process_receipt, process_receipt_with_ordering, process_entries,
}
use iron_dag.Sharding.Manager.Worth.{
  balances, waiting, total-set_balance, worth, worth-put_shard, total-le-worth,
}

module _ {C : Type 0} where
  -- There is a shard for each index below the count.
  pub record IsSized (m : ShardManager C) : Type 0 where
    pub some_shard : 0 < m.config.shard_count
    pub all_shards : length m.shards ≡ m.config.shard_count

  pub record SameFrame (m m' : ShardManager C) : Type 0 where
    pub same_txs : m'.cross_shard_txs ≡ m.cross_shard_txs
    pub same_config : m'.config ≡ m.config
    pub same_length : length m'.shards ≡ length m.shards

  pub SameFrame-IsSized : (m m' : ShardManager C) → SameFrame m m' → IsSized m → IsSized m'
  SameFrame-IsSized m m' f v = record {
    some_shard = rw f.same_config v.some_shard;
    all_shards = rw (f.same_config, f.same_length) v.all_shards;
  }

  pub same-SameFrame : (m : ShardManager C) → SameFrame m m
  same-SameFrame m = record { same_txs = refl; same_config = refl; same_length = refl }

  pub SameFrame-trans :
      (m m' m'' : ShardManager C) → SameFrame m m' → SameFrame m' m'' → SameFrame m m''
  SameFrame-trans m m' m'' f g = record {
    same_txs = g.same_txs ∙ f.same_txs;
    same_config = g.same_config ∙ f.same_config;
    same_length = g.same_length ∙ f.same_length;
  }

  pub put_shard-SameFrame : (i : ℕ) (s : Shard) (m : ShardManager C) → SameFrame m (put_shard i s m)
  unfolding put_shard
  put_shard-SameFrame i s m = record {
    same_txs = refl;
    same_config = refl;
    same_length = length-set_elem i s m.shards;
  }

module _ {C : Type 0} (chan : Mpsc C) (blake3 : ℕ → ℕ → ℕ) where
  credit-worth :
      (value to i : ℕ) (s : Shard) (m : ShardManager C)
      → get_elem? m.shards i ≡ some s
      → worth chan m + value ≤ u128_max
      → worth chan (
          put_shard i
            (record s {
              accounts = set_balance to (sat_add_u128 (get_balance to s.accounts) value) s.accounts;
            })
            m)
        ≡ worth chan m + value
  unfolding balances
  credit-worth value to i s m e h =
      let b = sat_add_u128 (get_balance to s.accounts) value in
      let s' = record s { accounts = set_balance to b s.accounts } in
      ground (
        arith,
        worth-put_shard chan i s' s m e,
        total-set_balance to b s.accounts,
        balance-le-total to s.accounts,
        total-le-worth chan i s m e,
      )

  worth-process_receipt :
      (value to : ℕ) (m : ShardManager C)
      → IsSized m
      → worth chan m + value ≤ u128_max
      → worth chan (process_receipt blake3 value to m).1 ≡ worth chan m + value
  unfolding process_receipt
  worth-process_receipt value to m v h =
      let target = assign blake3 m.config to in
      let within : target < length m.shards =
        rw v.all_shards (assign-lt blake3 m.config to v.some_shard) in
      let (s, e) = get_elem?-within target m.shards within in
      rw (process_receipt, e) (credit-worth value to target s m e h)

  pub process_receipt-SameFrame :
      (value to : ℕ) (m : ShardManager C) → SameFrame m (process_receipt blake3 value to m).1
  unfolding process_receipt
  process_receipt-SameFrame value to m =
      elim (Option-cases (get_elem? m.shards (assign blake3 m.config to))) [
        | inl e ↦ rw (process_receipt, e) (same-SameFrame m)
        | inr (s, e) ↦
            rw (process_receipt, e)
              (put_shard-SameFrame (assign blake3 m.config to)
                (record s {
                  accounts =
                      set_balance to (sat_add_u128 (get_balance to s.accounts) value) s.accounts;
                })
                m)
      ]

  pub worth-process_receipt_with_ordering :
      (r : ReceiptMessage) (now : ℕ) (m : ShardManager C)
      → IsSized m
      → worth chan m + r.value ≤ u128_max
      → worth chan (process_receipt_with_ordering blake3 r now m).1 ≡ worth chan m + r.value
  unfolding process_receipt_with_ordering worth sum_by
  worth-process_receipt_with_ordering r now m v h =
      let entry : PendingReceiptEntry = record {
        receipt_id = r.receipt_id;
        source_shard = r.source_shard;
        value = r.value;
        to = r.to;
        source_block_height = r.source_block_height;
        received_at = now;
      } in
      ground (
        arith,
        worth-process_receipt r.value r.to m v h,
        sum_by-append waiting m.pending_receipts (entry ∷ []),
      )

  pub worth-process_entries :
      (es : List PendingReceiptEntry) (m : ShardManager C)
      → IsSized m
      → worth chan m + sum_by waiting es ≤ u128_max
      → worth chan (process_entries blake3 es m).2 + sum_by waiting (process_entries blake3 es m).0
        ≡ worth chan m + sum_by waiting es
  unfolding process_entries sum_by
  worth-process_entries [] m v h = refl
  worth-process_entries (e ∷ es) m v h =
      let m' = (process_receipt blake3 e.value e.to m).1 in
      elim (Bool-cases
        (is_confirmed m.cross_shard_block_heights e.source_shard e.source_block_height)) [
          | inl known ↦
              let credited = worth-process_receipt e.value e.to m v (omega arith) in
              let v' = SameFrame-IsSized m m' (process_receipt-SameFrame e.value e.to m) v in
              rw (process_entries, known)
                (omega (arith, credited, worth-process_entries es m' v' (omega (arith, credited))))
          | inr unknown ↦
              rw (process_entries, unknown)
                (omega (arith, worth-process_entries es m v (omega arith)))
        ]

  pub process_entries-SameFrame :
      (es : List PendingReceiptEntry) (m : ShardManager C)
      → SameFrame m (process_entries blake3 es m).2
  unfolding process_entries
  process_entries-SameFrame [] m = same-SameFrame m
  process_entries-SameFrame (e ∷ es) m =
      let m' = (process_receipt blake3 e.value e.to m).1 in
      elim (Bool-cases
        (is_confirmed m.cross_shard_block_heights e.source_shard e.source_block_height)) [
          | inl known ↦
              rw (process_entries, known)
                (SameFrame-trans m m' (process_entries blake3 es m').2
                  (process_receipt-SameFrame e.value e.to m) (process_entries-SameFrame es m'))
          | inr unknown ↦ rw (process_entries, unknown) (process_entries-SameFrame es m)
        ]
