-- ===== src/Sharding/Manager/Retry.antt =====
-- One tick of the retry worker, sharding/mod.rs: the receipts that are due are sent again, and a
-- transaction that has been pending for too long is refunded.
use Prim.Native.Nat.{ℕ, ◌+◌, ◌-◌, ◌^◌, min}
use mathlib.Core.Bool.{Bool, true, false, ◌&&◌}
use mathlib.Core.List.{List, [], ◌∷◌, ◌++◌}
use mathlib.Core.Option.{Option, none, some}
use iron_dag.Prelude.Tests.{ltb, leb, if◌then◌else◌}
use iron_dag.Prelude.Lists.{get_elem?}
use iron_dag.Prelude.Words.{sat_add_u128}
use iron_dag.Prelude.Eq.{nat_eq}
use iron_dag.Prelude.Map.{Map, get, insert}
use iron_dag.Ledger.Types.{get_balance}
use iron_dag.Sharding.{Mpsc, Format}
use iron_dag.Sharding.Wal.{send_receipt}
use iron_dag.Sharding.Shard.{set_balance}
use iron_dag.Sharding.Manager.{
  ShardManager, CrossShardTransaction, CrossShardStatus, CrossShardRetryEntry, pending, failed,
  put_shard, commit,
}

abbrev pub cross_shard_max_retries : ℕ
cross_shard_max_retries = 5

-- The front of the queue that is due, and the rest.
unfoldable pub take_due :
    ℕ → List CrossShardRetryEntry → List CrossShardRetryEntry × List CrossShardRetryEntry
take_due now [] = ([], [])
take_due now (e ∷ es) =
    let rest = take_due now es in
    if leb e.next_retry_at now then (e ∷ rest.0, rest.1) else ([], e ∷ es)

-- A transaction that is given up, with its sender, its source shard and what it gets back.
pub record Refund : Type 0 where
  pub from : ℕ
  pub amount : ℕ
  pub source_shard : ℕ

abbrev pub is_pending : CrossShardStatus → Bool
is_pending pending = true
is_pending _ = false

-- Whole seconds since the transaction became pending.
abbrev pub elapsed : ℕ → Option ℕ → ℕ
elapsed now none = 0
elapsed now (some since) = now - since

unfoldable pub is_timed_out : ℕ → ℕ → CrossShardTransaction → Bool
is_timed_out timeout now ct = is_pending ct.status && leb timeout (elapsed now ct.pending_since)

-- The transactions after the pass over them, and the refunds that it collects.
unfoldable pub expire :
    ℕ → ℕ → Map ℕ CrossShardTransaction → Map ℕ CrossShardTransaction × List Refund
expire timeout now [] = ([], [])
expire timeout now ((hash, ct) ∷ txs) =
    let rest = expire timeout now txs in
    if is_timed_out timeout now ct
    then (
      (hash, record ct { status = failed; pending_since = none }) ∷ rest.0,
      record {
        from = ct.tx.from;
        amount = sat_add_u128 ct.tx.value ct.tx.fee;
        source_shard = ct.source_shard;
      }
          ∷ rest.1,
    )
    else ((hash, ct) ∷ rest.0, rest.1)

module _ {C : Type 0} where
  unfoldable pub refund : Refund → ShardManager C → ShardManager C
  refund r m = elim (get_elem? m.shards r.source_shard) [
    | none ↦ m
    | some s ↦
        let current = get_balance r.from s.accounts in
        put_shard r.source_shard
          (record s { accounts = set_balance r.from (sat_add_u128 current r.amount) s.accounts }) m
  ]

  unfoldable pub refund_all : List Refund → ShardManager C → ShardManager C
  refund_all [] m = m
  refund_all (r ∷ rs) m = refund_all rs (refund r m)

  unfoldable pub time_out : ℕ → ShardManager C → ShardManager C
  time_out now m =
      if ltb 0 m.config.cross_shard_timeout_secs
      then (let expired = expire m.config.cross_shard_timeout_secs now m.cross_shard_txs in
          refund_all expired.1 (record m { cross_shard_txs = expired.0 }))
      else m

  -- The last retry has failed: the transaction is marked and its sender is refunded.
  unfoldable pub give_up : CrossShardRetryEntry → ShardManager C → ShardManager C
  give_up e m = elim (get e.message.tx_hash m.cross_shard_txs) [
    | none ↦ m
    | some ct ↦
        let marked = record m {
          cross_shard_txs =
              insert e.message.tx_hash (record ct { status = failed }) m.cross_shard_txs;
        } in
        refund
          (record {
            from = ct.tx.from;
            amount = sat_add_u128 ct.tx.value ct.tx.fee;
            source_shard = e.message.source_shard;
          })
          marked
  ]

  module _ (chan : Mpsc C) (format : Format) where
    unfoldable pub retry : CrossShardRetryEntry → ℕ → ShardManager C → ShardManager C
    retry e now m =
        let sent = send_receipt chan format e.message m.message_processor in
        let m' = record m { message_processor = sent.1 } in
        let next_count = e.retry_count + 1 in
        elim sent.0 [
          | none ↦ commit e.message.tx_hash m'
          | some _ ↦ if leb cross_shard_max_retries next_count then give_up e m' else record m' {
            retry_queue =
                m.retry_queue
                ++ (record e {
                  retry_count = next_count;
                  next_retry_at = now + min (2 ^ next_count) 60;
                }
                    ∷ []);
          }
        ]

    unfoldable pub retry_all : List CrossShardRetryEntry → ℕ → ShardManager C → ShardManager C
    retry_all [] now m = m
    retry_all (e ∷ es) now m = retry_all es now (retry e now m)

    unfoldable pub tick : ℕ → ShardManager C → ShardManager C
    tick now m =
        let split = take_due now m.retry_queue in
        time_out now (retry_all split.0 now (record m { retry_queue = split.1 }))
