-- ===== src/Sharding/Manager/Worth/Funded.antt =====
-- What the conservation of the worth of the shards needs of a manager, and that debits and sends keep
-- it, sharding/mod.rs.
use Prim.Native.Nat.{ℕ, ◌-◌, ◌≤◌}
use mathlib.Core.Path.{◌≡◌, refl}
use mathlib.Core.Logic.{inl, inr}
use mathlib.Core.Option.{none, some}
use native.Mathlib.Omega.{arith}
use iron_dag.Prelude.Tests.{◌==◌, Option-cases, Bool-cases}
use iron_dag.Prelude.Lists.{get_elem?}
use iron_dag.Prelude.Words.{u128_max}
use iron_dag.Prelude.Eq.{nat_eq}
use iron_dag.Prelude.Map.{Map, get, insert, get-insert}
use iron_dag.Ledger.Types.{Transaction, get_balance}
use iron_dag.Sharding.{ReceiptMessage, Mpsc, Format}
use iron_dag.Sharding.Wal.{send_receipt}
use iron_dag.Sharding.Shard.{set_balance}
use iron_dag.Sharding.Manager.{
  ShardManager, CrossShardTransaction, pending, committed, put_shard, commit, send_or_queue,
  register_cross_shard_transaction, total_cost, check_source, passed, debit_source, height_of,
  send_credit,
}
use iron_dag.Sharding.Manager.Worth.Receipts.{
  IsSized, SameFrame, SameFrame-IsSized, put_shard-SameFrame,
}

-- The registered values are u128 values.
abbrev pub AreWords : Map ℕ CrossShardTransaction → Type 0
AreWords txs =
    (hash : ℕ) (ct : CrossShardTransaction) → get hash txs ≡ some ct → ct.tx.value ≤ u128_max

AreWords-insert :
    (hash : ℕ) (ct : CrossShardTransaction) (txs : Map ℕ CrossShardTransaction)
    → AreWords txs
    → ct.tx.value ≤ u128_max
    → AreWords (insert hash ct txs)
AreWords-insert hash ct txs w h other x e =
    let found = get-insert hash other ct txs in
    elim (Bool-cases (hash == other)) [
      | inl same ↦
          let it : some ct ≡ some x = cc (rw same at found, e) in
          let it' : ct ≡ x = cc in rw (← it') h
      | inr different ↦ w other x (cc (rw different at found, e))
    ]

module _ {C : Type 0} where
  pub record IsFunded (m : ShardManager C) : Type 0 where
    pub sized : IsSized m
    pub words : AreWords m.cross_shard_txs

  pub register-IsFunded :
      (tx : Transaction) (source target now : ℕ) (m : ShardManager C)
      → tx.value ≤ u128_max
      → IsFunded m
      → IsFunded (register_cross_shard_transaction tx source target now m)
  unfolding register_cross_shard_transaction
  register-IsFunded tx source target now m h v =
      let ct : CrossShardTransaction = record {
        tx = tx;
        source_shard = source;
        target_shard = target;
        status = pending;
        id = tx.hash;
        pending_since = some now;
      } in
      record {
        sized = record { some_shard = v.sized.some_shard; all_shards = v.sized.all_shards };
        words = AreWords-insert tx.hash ct m.cross_shard_txs v.words h;
      }

  commit-IsFunded : (hash : ℕ) (m : ShardManager C) → IsFunded m → IsFunded (commit hash m)
  unfolding commit
  commit-IsFunded hash m v = elim (Option-cases (get hash m.cross_shard_txs)) [
    | inl e ↦ rw (commit, e) v
    | inr (ct, e) ↦
        let done = record ct { status = committed; pending_since = none } in
        simp (commit, e)
          (record {
            sized = record { some_shard = v.sized.some_shard; all_shards = v.sized.all_shards };
            words = AreWords-insert hash done m.cross_shard_txs v.words (v.words hash ct e);
          })
  ]

  pub resized : (m m' : ShardManager C) → SameFrame m m' → IsFunded m → IsFunded m'
  resized m m' f v = record {
    sized = SameFrame-IsSized m m' f v.sized;
    words = rw f.same_txs v.words;
  }

module _ {C : Type 0} (chan : Mpsc C) (format : Format) (hashes : ℕ × ℕ × ℕ → ℕ) where
  send_or_queue-IsFunded :
      (r : ReceiptMessage) (now : ℕ) (m : ShardManager C)
      → IsFunded m
      → IsFunded (send_or_queue chan format r now m)
  unfolding send_or_queue
  send_or_queue-IsFunded r now m v =
      let sent = send_receipt chan format r m.message_processor in
      let m' = record m { message_processor = sent.1 } in
      elim (Option-cases sent.0) [
        | inl e ↦
            simp (send_or_queue, e)
              (commit-IsFunded r.tx_hash m' (
                resized m m' (record { same_txs = refl; same_config = refl; same_length = refl })
                  v))
        | inr (x, e) ↦
            simp (send_or_queue, e)
              (record {
                sized = record { some_shard = v.sized.some_shard; all_shards = v.sized.all_shards };
                words = v.words;
              })
      ]

  pub send_credit-IsFunded :
      (hash now : ℕ) (ct : CrossShardTransaction) (m : ShardManager C)
      → IsFunded m
      → IsFunded (send_credit chan format hashes hash ct now m)
  unfolding send_credit
  send_credit-IsFunded hash now ct m v =
      send_or_queue-IsFunded
        (record {
          tx_hash = hash;
          receipt_id = hashes (hash, ct.source_shard, ct.target_shard);
          source_shard = ct.source_shard;
          target_shard = ct.target_shard;
          value = ct.tx.value;
          to = ct.tx.to;
          source_block_height = height_of ct.source_shard m;
        })
        now m v

module _ {C : Type 0} where
  pub debit_source-IsFunded :
      (ct : CrossShardTransaction) (m : ShardManager C) → IsFunded m → IsFunded (debit_source ct m)
  unfolding debit_source
  debit_source-IsFunded ct m v = elim (Option-cases (get_elem? m.shards ct.source_shard)) [
    | inl e ↦ simp (debit_source, e) v
    | inr (s, e) ↦
        let b = get_balance ct.tx.from s.accounts - total_cost ct in
        let s' = record s { accounts = set_balance ct.tx.from b s.accounts } in
        simp (debit_source, e)
          (resized m (put_shard ct.source_shard s' m) (put_shard-SameFrame ct.source_shard s' m) v)
  ]

  pub check_source-IsWord :
      (hash : ℕ) (ct : CrossShardTransaction) (m : ShardManager C)
      → IsFunded m
      → check_source hash m ≡ passed ct
      → ct.tx.value ≤ u128_max
  unfolding check_source
  check_source-IsWord hash ct m v h = elim (Option-cases (get hash m.cross_shard_txs)) [
    | inl e ↦ absurd (ground (arith, e))
    | inr (x, e) ↦ elim (Option-cases (get_elem? m.shards x.source_shard)) [
      | inl f ↦ absurd (ground (arith, e, f))
      | inr (s, f) ↦ let same : x ≡ ct = ground (arith, e, f) in rw (← same) (v.words hash x e)
    ]
  ]
