-- ===== src/Sharding/ManagerTests.antt =====
-- Concrete runs of the manager of the shards.
use Prim.Native.Nat.{ℕ, ◌+◌, ◌^◌, ◌*◌}
use mathlib.Core.Path.{◌≡◌, refl}
use mathlib.Core.List.{List, [], ◌∷◌}
use mathlib.Core.Option.{none, some}
use native.Mathlib.Omega.{arith}
use iron_dag.Prelude.Lists.{sum_by}
use iron_dag.Prelude.Eq.{nat_eq}
use iron_dag.Prelude.Map.{get, insert}
use iron_dag.Ledger.Types.{Transaction, get_balance}
use iron_dag.Ledger.Supply.{total}
use iron_dag.Sharding.{CrossShardMessage, state_sync}
use iron_dag.Sharding.Wal.{send_receipt, append_wal}
use iron_dag.Sharding.Shard.{Shard, set_balance}
use iron_dag.Sharding.Manager.{
  ShardManager, register_cross_shard_transaction, pending, committed, check_source, debit_source,
  height_of, put_shard, commit, send_credit, send_or_queue,
}
use iron_dag.Sharding.Manager.Receipts.{
  is_confirmed, handle_message, receive, process_receipt_with_ordering,
}
use iron_dag.Sharding.Manager.Retry.{time_out}
use iron_dag.Sharding.Manager.Refund.{owed, refundable, time_out-refunds}
use iron_dag.Sharding.Manager.Order.{IsOrdered, handle_message-IsOrdered}
use iron_dag.Sharding.Manager.Worth.{balances, in_channel, worth, taken}
use iron_dag.Sharding.Manager.Worth.Funded.{IsFunded}
use iron_dag.Sharding.Manager.Worth.Steps.{
  Running, Step, register, check, debit, send, deliver, run, fees, shortfalls, all_worth, fee_of,
  shortfall_of, step,
}
use iron_dag.Sharding.Manager.Worth.Runs.{worth-run}
use iron_dag.Sharding.Tests.{
  list_channel, list_channel-IsFifo, numbers, payment, config, hash_byte, processor,
}

-- The sender of `payment` has 100 in shard 0, which is at height 7.
abbrev source : Shard
source = record {
  id = 0;
  accounts = (2 * 256 ^ 19, record { balance = 100; nonce = 0 }) ∷ [];
  latest_block_number = 7;
  transaction_pool = [];
  cross_shard_outgoing = [];
  cross_shard_incoming = [];
}

abbrev target : Shard
target = record {
  id = 1;
  accounts = [];
  latest_block_number = 0;
  transaction_pool = [];
  cross_shard_outgoing = [];
  cross_shard_incoming = [];
}

abbrev manager : ShardManager (List CrossShardMessage)
manager = record {
  config = config;
  shards = source ∷ target ∷ [];
  cross_shard_txs = [];
  message_processor = processor none;
  retry_queue = [];
  unified_state = [];
  cross_shard_block_heights = [];
  pending_receipts = [];
}

abbrev receipt_id : ℕ × ℕ × ℕ → ℕ
receipt_id (hash, s, t) = hash + s + t

abbrev costly : ℕ → Transaction
costly hash = record (payment hash) { value = 70 }

-- Two payments, which cost 72 each and pass their checks before either is debited.
abbrev steps : List (ℕ × Step)
steps =
    (0, register (costly 9) 0 1)
    ∷ (0, register (costly 10) 0 1)
    ∷ (1, check 9)
    ∷ (1, check 10)
    ∷ (2, debit 0)
    ∷ (2, debit 1)
    ∷ (3, send 0)
    ∷ (3, send 1)
    ∷ (4, deliver 1)
    ∷ (4, deliver 1)
    ∷ []

abbrev start : Running (List CrossShardMessage)
start = record { manager = manager; tasks = [] }

manager-IsFunded : IsFunded manager
unfolding get
manager-IsFunded = record {
  sized = record { some_shard = omega arith; all_shards = refl };
  words = λ hash ct e. ground arith;
}

-- The second debit falls short by 44.
two_debits :
    (shortfalls list_channel numbers receipt_id hash_byte steps start ≡ 44)
    × (fees list_channel numbers receipt_id hash_byte steps start ≡ 4)
    × (all_worth list_channel start ≡ 100)
    × (all_worth list_channel (run list_channel numbers receipt_id hash_byte steps start) ≡ 140)
unfolding run step fees fee_of shortfalls shortfall_of all_worth worth sum_by balances in_channel
    taken register_cross_shard_transaction check_source debit_source height_of put_shard commit
    send_credit send_or_queue send_receipt append_wal get insert get_balance set_balance total
    receive handle_message process_receipt_with_ordering is_confirmed
two_debits = (refl, refl, refl, refl)

worth-run_example :
    all_worth list_channel (run list_channel numbers receipt_id hash_byte steps start)
      + fees list_channel numbers receipt_id hash_byte steps start
    ≡ all_worth list_channel start
      + shortfalls list_channel numbers receipt_id hash_byte steps start
worth-run_example =
    worth-run list_channel numbers receipt_id hash_byte list_channel-IsFifo steps start
      (record { funded = manager-IsFunded; word_tasks = tt })
      (omega arith, (omega arith, (tt, (tt, (tt, (tt, (tt, (tt, (tt, (tt, tt))))))))))
      (omega (arith, two_debits.0, two_debits.2))

-- The receipt waits for the height 7 of shard 0, which the second message tells.
abbrev waiting : ShardManager (List CrossShardMessage)
waiting = record manager {
  pending_receipts =
      record {
        receipt_id = 1;
        source_shard = 0;
        value = 30;
        to = 256 ^ 19;
        source_block_height = 7;
        received_at = 1;
      }
      ∷ [];
}

handle_message-IsOrdered_example : IsOrdered (handle_message hash_byte (state_sync 0 7) 3 waiting)
unfolding get is_confirmed
handle_message-IsOrdered_example =
    handle_message-IsOrdered hash_byte (state_sync 0 7) 3 waiting (refl, tt)

-- Transaction 9 waits since second 0; transaction 10 was sent.
abbrev overdue : ShardManager (List CrossShardMessage)
overdue = record manager {
  cross_shard_txs =
      (
        9,
        record {
          tx = payment 9;
          source_shard = 0;
          target_shard = 1;
          status = pending;
          id = 9;
          pending_since = some 0;
        },
      )
      ∷ (
        10,
        record {
          tx = payment 10;
          source_shard = 0;
          target_shard = 1;
          status = committed;
          id = 10;
          pending_since = none;
        },
      )
      ∷ [];
}

time_out-refunds_example :
    (sum_by balances (time_out 300 overdue).shards
      ≡ sum_by balances (source ∷ target ∷ []) + refundable 300 300 overdue.cross_shard_txs)
    × (refundable 300 300 (time_out 300 overdue).cross_shard_txs ≡ 0)
unfolding sum_by balances total refundable owed
time_out-refunds_example =
    time_out-refunds 300 overdue (omega arith) (omega arith, (omega arith, tt)) (omega arith)
