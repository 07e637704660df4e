-- ===== src/Sharding/Tests.antt =====
-- Concrete runs of the messages between shards, with a list as the channel and with a format that
-- writes each field of a message as one number.
use Prim.Native.Nat.{ℕ, ◌+◌, ◌≤◌, ◌<◌, ◌^◌, ◌*◌}
use mathlib.Core.Path.{◌≡◌, refl}
use mathlib.Core.Bool.{true, false}
use mathlib.Core.List.{List, [], ◌∷◌, ◌++◌, map}
use mathlib.Core.Option.{Option, none, some}
use native.Mathlib.Omega.{arith}
use iron_dag.Prelude.Tests.{leb, ◌==◌, if◌then◌else◌}
use iron_dag.Prelude.Lists.{length, take, drop}
use iron_dag.Prelude.Eq.{nat_eq}
use iron_dag.Ledger.Types.{Transaction}
use iron_dag.Sharding.{
  CrossShardMessage, receipt, receipt_ack, state_sync, ReceiptMessage, full, Mpsc, IsFifo, Format,
  IsFormat, MessageProcessor,
}
use iron_dag.Sharding.Wal.{
  to_le_bytes, from_le_bytes, frame, append_wal, send_receipt, send_all, replay_loop, replay_wal,
}
use iron_dag.Sharding.Wal.RoundTrip.{log_of, replay_wal-send_all, wal-replay_wal}
use iron_dag.Sharding.Shard.{new_shard, remove_transactions}
use iron_dag.Sharding.Shard.Eviction.{add_all, newest, remove_transactions-add_all}
use iron_dag.Sharding.Route.{ShardConfig, address_based, assign, shard_cache_size}
use iron_dag.Sharding.Route.Cache.{look_ups, look_ups-assign}
use iron_dag.Sharding.Store.{process_batch}
use iron_dag.Sharding.Store.Batch.{IsSettled, process_batch-IsSettled}

abbrev pub list_channel : Mpsc (List CrossShardMessage)
list_channel = record {
  try_send = λ m c. if leb 10_000 (length c) then (some full, c) else (none, c ++ (m ∷ []));
  recv = λ c. elim c [ [] ↦ none | m ∷ ms ↦ some (m, ms) ];
  queued = λ c. c;
}

pub list_channel-IsFifo : IsFifo list_channel
list_channel-IsFifo = record {
  taken = λ m c e. ground arith;
  refused = λ m c x e. ground arith;
  received = λ m c c' e. ground arith;
}

abbrev fields : CrossShardMessage → List ℕ
fields (receipt r) =
    0 ∷ r.tx_hash ∷ r.receipt_id ∷ r.source_shard ∷ r.target_shard ∷ r.value ∷ r.to
    ∷ r.source_block_height ∷ []
fields (receipt_ack id false) = 1 ∷ id ∷ 0 ∷ []
fields (receipt_ack id true) = 1 ∷ id ∷ 1 ∷ []
fields (state_sync shard n) = 2 ∷ shard ∷ n ∷ []

abbrev message : List ℕ → Option CrossShardMessage
message (k ∷ a ∷ b ∷ []) = if k == 2 then some (state_sync a b) else some (receipt_ack a (b == 1))
message (k ∷ tx ∷ id ∷ source ∷ target ∷ value ∷ to ∷ height ∷ []) = some (
    receipt (record {
      tx_hash = tx;
      receipt_id = id;
      source_shard = source;
      target_shard = target;
      value = value;
      to = to;
      source_block_height = height;
    }))
message _ = none

abbrev pub numbers : Format
numbers = record { serialize = λ m. some (fields m); deserialize = message }

numbers-IsFormat : IsFormat numbers
numbers-IsFormat = record { reads_back = reads }
  where
    reads :
        (m : CrossShardMessage)
        → (bytes : List ℕ) × (numbers.serialize m ≡ some bytes)
          × (length bytes < 2 ^ 32)
          × (numbers.deserialize bytes ≡ some m)
    reads (receipt r) = (fields (receipt r), refl, omega arith, refl)
    reads (receipt_ack id false) = (fields (receipt_ack id false), refl, omega arith, refl)
    reads (receipt_ack id true) = (fields (receipt_ack id true), refl, omega arith, refl)
    reads (state_sync s n) = (fields (state_sync s n), refl, omega arith, refl)

abbrev pub transfer_to : ℕ → ℕ → ReceiptMessage
transfer_to id value = record {
  tx_hash = 500 + id;
  receipt_id = id;
  source_shard = 0;
  target_shard = 1;
  value = value;
  to = 256 ^ 19;
  source_block_height = 7;
}

abbrev two : List ReceiptMessage
two = transfer_to 1 30 ∷ transfer_to 2 40 ∷ []

abbrev pub processor : Option (List ℕ) → MessageProcessor (List CrossShardMessage)
processor wal = record { receipt_store = []; message_channels = [] ∷ [] ∷ []; wal = wal }

-- Five bytes of a third frame have been written.
abbrev torn : List ℕ
torn = take 5 (frame (fields (receipt (transfer_to 3 50))))

replay_wal-send_all_example :
    replay_wal list_channel numbers (processor (some (log_of numbers two ++ torn)))
    ≡ some (send_all list_channel numbers two (processor (some (log_of numbers two ++ torn))), 2)
unfolding send_all send_receipt append_wal log_of frame to_le_bytes
replay_wal-send_all_example =
    replay_wal-send_all list_channel numbers numbers-IsFormat two
      (fields (receipt (transfer_to 3 50))) (log_of numbers two) 5 (processor (some []))
      (processor (some (log_of numbers two ++ torn))) refl (omega arith, (omega arith, tt)) refl
      (omega arith) (omega arith) refl

wal-replay_wal_example :
    (send_all list_channel numbers two
      (processor (some (log_of numbers two ++ take 0 (frame []))))).wal
    ≡ some ((log_of numbers two ++ take 0 (frame [])) ++ log_of numbers two)
unfolding replay_wal replay_loop log_of frame to_le_bytes from_le_bytes send_all send_receipt
wal-replay_wal_example =
    wal-replay_wal list_channel numbers numbers-IsFormat two [] 0 2
      (processor (some (log_of numbers two ++ take 0 (frame []))))
      (send_all list_channel numbers two
        (processor (some (log_of numbers two ++ take 0 (frame [])))))
      (omega arith, (omega arith, tt)) (omega arith) (omega arith) refl refl

abbrev pub payment : ℕ → Transaction
payment hash = record {
  hash = hash;
  from = 2 * 256 ^ 19;
  to = 256 ^ 19;
  value = 30;
  fee = 2;
  nonce = 0;
  bytes = [];
  gas_limit = 21_000;
  chain_id = none;
  execute_at_block = none;
  execute_at_timestamp = none;
  sponsor = none;
}

remove_transactions-add_all_example :
    ((remove_transactions 1 (add_all (payment 7 ∷ payment 8 ∷ []) (new_shard 0))).0
      ≡ take 1 (newest (payment 7 ∷ payment 8 ∷ [])))
    × ((remove_transactions 1
          (add_all (payment 7 ∷ payment 8 ∷ []) (new_shard 0))).1.transaction_pool
        ≡ drop 1 (newest (payment 7 ∷ payment 8 ∷ [])))
unfolding new_shard
remove_transactions-add_all_example =
    remove_transactions-add_all (payment 7 ∷ payment 8 ∷ []) (new_shard 0) 1 (omega arith)

abbrev pub config : ShardConfig
config = record {
  shard_count = 2;
  enable_cross_shard = true;
  assignment_strategy = address_based;
  cross_shard_timeout_secs = 300;
}

abbrev pub hash_byte : ℕ → ℕ → ℕ
hash_byte a i = a + i

abbrev addresses : List ℕ
addresses = 256 ^ 19 ∷ 2 * 256 ^ 19 ∷ 256 ^ 19 ∷ []

look_ups-assign_example :
    ((look_ups hash_byte config addresses []).0 ≡ map (assign hash_byte config) addresses)
    × (length (look_ups hash_byte config addresses []).1 ≤ shard_cache_size)
look_ups-assign_example = look_ups-assign hash_byte config addresses

process_batch-IsSettled_example : IsSettled 1 (
    process_batch
      (λ r. leb r.message.value 30)
      99
      (state_sync 0 7 ∷ receipt (transfer_to 1 30) ∷ receipt_ack 2 true ∷ [])
      [])
process_batch-IsSettled_example =
    process_batch-IsSettled (λ r. leb r.message.value 30) 99 1
      (state_sync 0 7 ∷ receipt (transfer_to 1 30) ∷ receipt_ack 2 true ∷ []) [] refl
