-- ===== src/Sharding/Wal.antt =====
-- Sending a receipt with its record in the write-ahead log, and the replay of that log,
-- sharding/async_messaging.rs. The positions of the source's `offset` are the rest of the data
-- here. Writing to the file and reading it are taken to succeed.
pub mod RoundTrip
use Prim.Native.Nat.{ℕ, zero, suc, ◌+◌, ◌*◌, ◌/◌, ◌%◌, ◌^◌}
use mathlib.Core.Bool.{Bool, true, false}
use mathlib.Core.List.{List, [], ◌∷◌, ◌++◌}
use mathlib.Core.Option.{Option, none, some}
use iron_dag.Prelude.Tests.{ltb}
use iron_dag.Prelude.Lists.{length, take, drop, get_elem?, set_elem}
use iron_dag.Sharding.{
  CrossShardMessage, receipt, ReceiptMessage, SendError, invalid_shard, Mpsc, Format,
  MessageProcessor,
}

-- `u32::to_le_bytes` of a length that is cast to u32, and `u32::from_le_bytes`
unfoldable pub to_le_bytes : ℕ → List ℕ
to_le_bytes n =
    let w = n % 2 ^ 32 in (w % 256) ∷ (w / 256 % 256) ∷ (w / 65536 % 256) ∷ (w / 16777216) ∷ []

unfoldable pub from_le_bytes : ℕ → ℕ → ℕ → ℕ → ℕ
from_le_bytes a b c d = a + 256 * b + 65536 * c + 16777216 * d

-- What is appended for the bytes of one message.
unfoldable pub frame : List ℕ → List ℕ
frame bytes = to_le_bytes (length bytes) ++ bytes

module _ {C : Type 0} (chan : Mpsc C) (format : Format) where
  unfoldable pub append_wal : CrossShardMessage → MessageProcessor C → MessageProcessor C
  append_wal message p = elim p.wal [
    | none ↦ p
    | some bytes_read ↦ elim (format.serialize message) [
      | none ↦ p
      | some bytes ↦ record p { wal = some (bytes_read ++ frame bytes) }
    ]
  ]

  -- `none` is the answer without an error.
  unfoldable pub send_receipt :
      ReceiptMessage → MessageProcessor C → Option SendError × MessageProcessor C
  send_receipt r p = elim (get_elem? p.message_channels r.target_shard) [
    | none ↦ (some invalid_shard, p)
    | some sender ↦
        let sent = chan.try_send (receipt r) sender in
        let logged = append_wal (receipt r) p in
        (
          sent.0,
          record logged { message_channels = set_elem r.target_shard sent.1 p.message_channels },
        )
  ]

  -- With the number of messages that were replayed; `none` where the fuel runs out.
  unfoldable pub replay_loop : ℕ → List ℕ → ℕ → MessageProcessor C → Option (MessageProcessor C × ℕ)
  replay_loop zero bytes_read replayed p = none
  replay_loop (suc fuel) (a ∷ b ∷ c ∷ d ∷ rest) replayed p =
      let len = from_le_bytes a b c d in
      elim (ltb (length rest) len) [
        | true ↦ some (p, replayed)
        | false ↦ elim (format.deserialize (take len rest)) [
          | some (receipt r) ↦ replay_loop fuel (drop len rest) (replayed + 1) (send_receipt r p).1
          | _ ↦ replay_loop fuel (drop len rest) replayed p
        ]
      ]
  replay_loop (suc fuel) _ replayed p = some (p, replayed)

  unfoldable pub replay_wal : MessageProcessor C → Option (MessageProcessor C × ℕ)
  replay_wal p = elim p.wal [
    | none ↦ some (p, 0)
    | some bytes_read ↦ replay_loop (suc (length bytes_read)) bytes_read 0 p
  ]

  -- Receipts that are sent one after the other.
  unfoldable pub send_all : List ReceiptMessage → MessageProcessor C → MessageProcessor C
  send_all [] p = p
  send_all (r ∷ rs) p = send_all rs (send_receipt r p).1
