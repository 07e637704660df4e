-- ===== src/Sharding/Manager.antt =====
-- `ShardManager`, sharding/mod.rs: its state, the registration of transactions, the debit in the
-- source shard and the credit in the target shard. The look-ups of shards are the assignment that
-- Route.antt shows them to be, without their cache. The clock counts whole seconds. The hash that
-- gives a receipt its id is a parameter.
pub mod Receipts
pub mod Retry
pub mod Worth
pub mod Refund
pub mod Order
use Prim.Native.Nat.{ℕ, ◌+◌, ◌-◌}
use mathlib.Core.Bool.{Bool, not, ◌&&◌}
use mathlib.Core.List.{List, [], ◌∷◌, ◌++◌}
use mathlib.Core.Option.{Option, none, some}
use iron_dag.Prelude.Tests.{ltb, ◌==◌, if◌then◌else◌}
use iron_dag.Prelude.Lists.{get_elem?, set_elem}
use iron_dag.Prelude.Words.{sat_add_u128}
use iron_dag.Prelude.Eq.{nat_eq}
use iron_dag.Prelude.Map.{Map, get, insert}
use iron_dag.Ledger.Types.{Transaction, get_balance}
use iron_dag.Ledger.Process.{zero_address}
use iron_dag.Sharding.{ReceiptMessage, SendError, Mpsc, Format, MessageProcessor}
use iron_dag.Sharding.Wal.{send_receipt}
use iron_dag.Sharding.Shard.{Shard, add_transaction as add_to_pool, set_balance}
use iron_dag.Sharding.Route.{ShardConfig, assign}

pub data CrossShardStatus : Type 0 where
  pending committed failed : CrossShardStatus

pub record CrossShardTransaction : Type 0 where
  pub tx : Transaction
  pub source_shard : ℕ
  pub target_shard : ℕ
  pub status : CrossShardStatus
  pub id : ℕ
  pub pending_since : Option ℕ

pub record CrossShardRetryEntry : Type 0 where
  pub message : ReceiptMessage
  pub retry_count : ℕ
  pub next_retry_at : ℕ

pub record PendingReceiptEntry : Type 0 where
  pub receipt_id : ℕ
  pub source_shard : ℕ
  pub value : ℕ
  pub to : ℕ
  pub source_block_height : ℕ
  pub received_at : ℕ

pub record ShardManager (C : Type 0) : Type 0 where
  pub config : ShardConfig
  pub shards : List Shard
  pub cross_shard_txs : Map ℕ CrossShardTransaction
  pub message_processor : MessageProcessor C
  pub retry_queue : List CrossShardRetryEntry
  pub unified_state : Map ℕ (ℕ × ℕ)
  pub cross_shard_block_heights : Map ℕ ℕ
  pub pending_receipts : List PendingReceiptEntry

-- A balance too small, an index that is no shard, which makes the source panic where it is the
-- source shard and is an error where it is the target shard.
pub data ShardError : Type 0 where
  insufficient_balance invalid_shard : ShardError

-- What the check of a registered transaction finds.
pub data Checked : Type 0 where
  unregistered : Checked
  refused : ShardError → Checked
  passed : CrossShardTransaction → Checked

-- `total_cost`
abbrev pub total_cost : CrossShardTransaction → ℕ
total_cost ct = sat_add_u128 ct.tx.value ct.tx.fee

module _ {C : Type 0} where
  -- `set_elem` where there is a shard
  unfoldable pub put_shard : ℕ → Shard → ShardManager C → ShardManager C
  put_shard i s m = record m { shards = set_elem i s m.shards }

  unfoldable pub register_cross_shard_transaction :
      Transaction → ℕ → ℕ → ℕ → ShardManager C → ShardManager C
  register_cross_shard_transaction tx source target now m = record m {
    cross_shard_txs =
        insert tx.hash
          (record {
            tx = tx;
            source_shard = source;
            target_shard = target;
            status = pending;
            id = tx.hash;
            pending_since = some now;
          })
          m.cross_shard_txs;
  }

  -- `None` where the transaction is not registered.
  unfoldable pub get_cross_shard_status : ℕ → ShardManager C → Option CrossShardStatus
  get_cross_shard_status hash m = elim (get hash m.cross_shard_txs) [
    | none ↦ none
    | some ct ↦ some ct.status
  ]

  -- Once the receipt is in the target's channel.
  unfoldable pub commit : ℕ → ShardManager C → ShardManager C
  commit hash m = elim (get hash m.cross_shard_txs) [
    | none ↦ m
    | some ct ↦ record m {
      cross_shard_txs =
          insert hash (record ct { status = committed; pending_since = none }) m.cross_shard_txs;
    }
  ]

  module _ (blake3 : ℕ → ℕ → ℕ) where
    -- The pools and the lists of the shards that a transaction touches; `none` where a shard index
    -- is out of range, which would be a panic.
    unfoldable pub add_transaction : Transaction → ℕ → ShardManager C → Option (ShardManager C)
    add_transaction tx now m =
        let from_shard = assign blake3 m.config tx.from in
        let to_shard = if tx.to == zero_address then from_shard else assign blake3 m.config tx.to in
        if not (from_shard == to_shard) && m.config.enable_cross_shard
        then (let registered = register_cross_shard_transaction tx from_shard to_shard now m in
            elim (get_elem? m.shards from_shard) [
              | none ↦ none
              | some source ↦
                  let pooled = add_to_pool tx source in
                  let outgoing =
                    put_shard from_shard
                      (record pooled {
                        cross_shard_outgoing = pooled.cross_shard_outgoing ++ (tx.hash ∷ []);
                      })
                      registered in
                  elim (get_elem? outgoing.shards to_shard) [
                    | none ↦ none
                    | some target ↦ some (
                        put_shard to_shard
                          (record target {
                            cross_shard_incoming = target.cross_shard_incoming ++ (tx.hash ∷ []);
                          })
                          outgoing)
                  ]
            ])
        else elim (get_elem? m.shards from_shard) [
          | none ↦ none
          | some source ↦ some (put_shard from_shard (add_to_pool tx source) m)
        ]

  -- Phase 1 of process_cross_shard_transaction under the read lock.
  unfoldable pub check_source : ℕ → ShardManager C → Checked
  check_source hash m = elim (get hash m.cross_shard_txs) [
    | none ↦ unregistered
    | some ct ↦ elim (get_elem? m.shards ct.source_shard) [
      | none ↦ refused invalid_shard
      | some source ↦
          if ltb (get_balance ct.tx.from source.accounts) (total_cost ct)
          then refused insufficient_balance
          else passed ct
    ]
  ]

  -- Phase 1 under the write lock, which is taken once the read lock is dropped: the balance is read
  -- again, and the difference stops at zero.
  unfoldable pub debit_source : CrossShardTransaction → ShardManager C → ShardManager C
  debit_source ct m = elim (get_elem? m.shards ct.source_shard) [
    | none ↦ m
    | some source ↦
        let current_balance = get_balance ct.tx.from source.accounts in
        put_shard ct.source_shard
          (record source {
            accounts = set_balance ct.tx.from (current_balance - total_cost ct) source.accounts;
          })
          m
  ]

  -- `latest_block_number` of a shard
  unfoldable pub height_of : ℕ → ShardManager C → ℕ
  height_of shard m = elim (get_elem? m.shards shard) [ none ↦ 0 | some s ↦ s.latest_block_number ]

  module _ (chan : Mpsc C) (format : Format) where
    -- Phase 2, behind the debit: the receipt is sent, or queued for a retry.
    unfoldable pub send_or_queue : ReceiptMessage → ℕ → ShardManager C → ShardManager C
    send_or_queue message now m =
        let sent = send_receipt chan format message m.message_processor in
        let m' = record m { message_processor = sent.1 } in
        elim sent.0 [
          | none ↦ commit message.tx_hash m'
          | some _ ↦ record m' {
            retry_queue =
                m.retry_queue
                ++ (record { message = message; retry_count = 0; next_retry_at = now + 1 } ∷ []);
          }
        ]

    module _ (receipt_hash : ℕ × ℕ × ℕ → ℕ) where
      unfoldable pub send_credit : ℕ → CrossShardTransaction → ℕ → ShardManager C → ShardManager C
      send_credit hash ct now m =
          send_or_queue
            (record {
              tx_hash = hash;
              receipt_id = receipt_hash (hash, ct.source_shard, ct.target_shard);
              source_shard = ct.source_shard;
              target_shard = ct.target_shard;
              value = ct.tx.value;
              to = ct.tx.to;
              source_block_height = height_of ct.source_shard m;
            })
            now m

      -- The three without another task in between; `none` is the answer without an error.
      unfoldable pub process_cross_shard_transaction :
          ℕ → ℕ → ShardManager C → Option ShardError × ShardManager C
      process_cross_shard_transaction hash now m = elim (check_source hash m) [
        | unregistered ↦ (none, m)
        | refused e ↦ (some e, m)
        | passed ct ↦ (none, send_credit hash ct now (debit_source ct m))
      ]
