-- ===== src/Sharding.antt =====
-- Messages between shards, sharding/async_messaging.rs: their types, and what a channel of tokio and
-- the binary format of bincode are used for. Both are parameters of what follows.
pub mod Wal
pub mod Shard
pub mod Route
pub mod Store
pub mod Manager
mod Tests
mod ManagerTests
use Prim.Native.Nat.{ℕ, ◌<◌, ◌^◌}
use mathlib.Core.Path.{◌≡◌}
use mathlib.Core.Bool.{Bool}
use mathlib.Core.List.{List, [], ◌∷◌, ◌++◌}
use mathlib.Core.Option.{Option, none, some}
use iron_dag.Prelude.Lists.{length}
use iron_dag.Prelude.Map.{Map}

-- The fields of `CrossShardMessage::Receipt`.
pub record ReceiptMessage : Type 0 where
  pub tx_hash : ℕ
  pub receipt_id : ℕ
  pub source_shard : ℕ
  pub target_shard : ℕ
  pub value : ℕ
  pub to : ℕ
  pub source_block_height : ℕ

pub data CrossShardMessage : Type 0 where
  receipt : ReceiptMessage → CrossShardMessage
  receipt_ack : ℕ → Bool → CrossShardMessage
  state_sync : ℕ → ℕ → CrossShardMessage

pub data ReceiptStatus : Type 0 where
  pending processed failed : ReceiptStatus

pub record Receipt : Type 0 where
  pub message : ReceiptMessage
  pub status : ReceiptStatus
  pub created_at : ℕ

-- `mpsc::error::TrySendError`, and an index without a channel.
pub data SendError : Type 0 where
  full closed invalid_shard : SendError

-- A bounded channel: sending, receiving, and what waits in it.
pub record Mpsc (C : Type 0) : Type 0 where
  pub try_send : CrossShardMessage → C → Option SendError × C
  pub recv : C → Option (CrossShardMessage × C)
  pub queued : C → List CrossShardMessage

-- A message that is taken goes to the end of the queue, one that is refused leaves it alone, and
-- the receiver gets the first of the queue.
pub record IsFifo {C : Type 0} (chan : Mpsc C) : Type 0 where
  pub taken :
      (m : CrossShardMessage) (c : C)
      → (chan.try_send m c).0 ≡ none
      → chan.queued (chan.try_send m c).1 ≡ chan.queued c ++ (m ∷ [])
  pub refused :
      (m : CrossShardMessage) (c : C) (e : SendError)
      → (chan.try_send m c).0 ≡ some e
      → chan.queued (chan.try_send m c).1 ≡ chan.queued c
  pub received :
      (m : CrossShardMessage) (c c' : C)
      → chan.recv c ≡ some (m, c')
      → chan.queued c ≡ m ∷ chan.queued c'

-- `bincode::serialize` and `bincode::deserialize`, an error being `none`.
pub record Format : Type 0 where
  pub serialize : CrossShardMessage → Option (List ℕ)
  pub deserialize : List ℕ → Option CrossShardMessage

-- Every message is written in fewer than 2 ^ 32 bytes, and read back from them.
pub record IsFormat (format : Format) : Type 0 where
  pub reads_back :
      (m : CrossShardMessage)
      → (bytes : List ℕ) × (format.serialize m ≡ some bytes)
        × (length bytes < 2 ^ 32)
        × (format.deserialize bytes ≡ some m)

-- `wal` is the content of the file, where there is one.
pub record MessageProcessor (C : Type 0) : Type 0 where
  pub receipt_store : Map ℕ Receipt
  pub message_channels : List C
  pub wal : Option (List ℕ)
