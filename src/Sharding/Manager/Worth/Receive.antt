-- ===== src/Sharding/Manager/Worth/Receive.antt =====
-- The worth of the shards over what a receiver does with the message that it takes.
use Prim.Native.Nat.{ℕ, ◌+◌, ◌≤◌}
use mathlib.Core.Path.{◌≡◌, refl, ap}
use mathlib.Core.Logic.{inl, inr}
use mathlib.Core.List.{[]}
use mathlib.Core.Option.{some}
use native.Mathlib.Omega.{arith}
use iron_dag.Prelude.Tests.{leb, Option-cases, Bool-cases}
use iron_dag.Prelude.Lists.{get_elem?, set_elem, sum_by, sum_by-append, sum_by-set_elem}
use iron_dag.Prelude.Words.{u128_max}
use iron_dag.Prelude.Eq.{nat_eq}
use iron_dag.Prelude.Map.{Map, get, insert}
use iron_dag.Sharding.{
  CrossShardMessage, receipt, receipt_ack, state_sync, ReceiptMessage, Mpsc, IsFifo,
}
use iron_dag.Sharding.Manager.{ShardManager}
use iron_dag.Sharding.Manager.Receipts.{
  is_confirmed, process_receipt_with_ordering, process_entries, process_pending_receipts_async,
  record_shard_block_height, handle_message, receive,
}
use iron_dag.Sharding.Manager.Worth.{carried, waiting, in_channel, worth}
use iron_dag.Sharding.Manager.Worth.Receipts.{
  IsSized, SameFrame, SameFrame-IsSized, same-SameFrame, SameFrame-trans, process_receipt-SameFrame,
  worth-process_receipt_with_ordering, worth-process_entries, process_entries-SameFrame,
}

module _ {C : Type 0} (chan : Mpsc C) (blake3 : ℕ → ℕ → ℕ) where
  -- A step of a receiver: the frame is kept, and the worth grows by what the step brings in.
  pub record Brings (v : ℕ) (m m' : ShardManager C) : Type 0 where
    pub frame : SameFrame m m'
    pub grows : worth chan m' ≡ worth chan m + v

  process_pending-Brings :
      (m : ShardManager C)
      → IsSized m
      → worth chan m ≤ u128_max
      → Brings 0 m (process_pending_receipts_async blake3 m).1
  unfolding process_pending_receipts_async worth sum_by
  process_pending-Brings m v h =
      let m0 = record m { pending_receipts = [] } in
      let f = process_entries-SameFrame chan blake3 m.pending_receipts m0 in
      let done = process_entries blake3 m.pending_receipts m0 in
      record {
        frame = record {
          same_txs = f.same_txs;
          same_config = f.same_config;
          same_length = f.same_length;
        };
        grows = omega (
          arith,
          worth-process_entries chan blake3 m.pending_receipts m0
              (record { some_shard = v.some_shard; all_shards = v.all_shards }) (omega arith),
          sum_by-append waiting done.2.pending_receipts done.0,
        );
      }

  heights-Brings :
      (heights : Map ℕ ℕ) (m m' : ShardManager C)
      → Brings 0 (record m { cross_shard_block_heights = heights }) m'
      → Brings 0 m m'
  unfolding worth
  heights-Brings heights m m' b = record {
    frame = record {
      same_txs = b.frame.same_txs;
      same_config = b.frame.same_config;
      same_length = b.frame.same_length;
    };
    grows = b.grows;
  }

  record_shard_block_height-Brings :
      (shard n : ℕ) (m : ShardManager C)
      → IsSized m
      → worth chan m ≤ u128_max
      → Brings 0 m (record_shard_block_height blake3 shard n m)
  unfolding record_shard_block_height worth
  record_shard_block_height-Brings shard n m v h =
      let heights = insert shard n m.cross_shard_block_heights in
      let recorded = record m { cross_shard_block_heights = heights } in
      let brings = heights-Brings heights m (process_pending_receipts_async blake3 recorded).1 (
        process_pending-Brings recorded
          (record { some_shard = v.some_shard; all_shards = v.all_shards }) h) in
      let stays : Brings 0 m m = record { frame = same-SameFrame m; grows = omega arith } in
      elim (Option-cases (get shard m.cross_shard_block_heights)) [
        | inl e ↦ rw (record_shard_block_height, e) brings
        | inr (prev, e) ↦ elim (Bool-cases (leb n prev)) [
          | inl old ↦ rw (record_shard_block_height, e, old) stays
          | inr rises ↦ rw (record_shard_block_height, e, rises) brings
        ]
      ]

  with_ordering-SameFrame :
      (r : ReceiptMessage) (now : ℕ) (m : ShardManager C)
      → SameFrame m (process_receipt_with_ordering blake3 r now m).1
  unfolding process_receipt_with_ordering
  with_ordering-SameFrame r now m =
      elim (Bool-cases
        (is_confirmed m.cross_shard_block_heights r.source_shard r.source_block_height)) [
          | inl known ↦
              rw (process_receipt_with_ordering, known)
                (process_receipt-SameFrame chan blake3 r.value r.to m)
          | inr unknown ↦
              rw (process_receipt_with_ordering, unknown)
                (record { same_txs = refl; same_config = refl; same_length = refl })
        ]

  handle_message-Brings :
      (message : CrossShardMessage) (now : ℕ) (m : ShardManager C)
      → IsSized m
      → worth chan m + carried message ≤ u128_max
      → Brings (carried message) m (handle_message blake3 message now m)
  unfolding handle_message worth
  handle_message-Brings (receipt r) now m v h = record {
    frame = with_ordering-SameFrame r now m;
    grows = worth-process_receipt_with_ordering chan blake3 r now m v h;
  }
  handle_message-Brings (receipt_ack id success) now m v h = record {
    frame = record { same_txs = refl; same_config = refl; same_length = refl };
    grows = omega arith;
  }
  handle_message-Brings (state_sync shard n) now m v h =
      record_shard_block_height-Brings shard n m v (omega arith)

  abbrev taken_out : ℕ → C → ShardManager C → ShardManager C
  taken_out shard c m =
      let p = m.message_processor in
      record m {
        message_processor = record p { message_channels = set_elem shard c p.message_channels };
      }

  taken_out-worth :
      (law : IsFifo chan) (shard : ℕ) (c c' : C) (message : CrossShardMessage) (m : ShardManager C)
      → get_elem? m.message_processor.message_channels shard ≡ some c
      → chan.recv c ≡ some (message, c')
      → worth chan (taken_out shard c' m) + carried message ≡ worth chan m
  unfolding worth in_channel sum_by
  taken_out-worth law shard c c' message m e f =
      let q : in_channel chan c ≡ carried message + in_channel chan c' =
        ap (sum_by carried) (law.received message c c' f) in
      omega (
        arith,
        q,
        sum_by-set_elem (in_channel chan) shard c' c m.message_processor.message_channels e,
      )

  handles :
      (message : CrossShardMessage) (now : ℕ) (m m1 : ShardManager C)
      → IsSized m
      → SameFrame m m1
      → worth chan m ≤ u128_max
      → worth chan m1 + carried message ≡ worth chan m
      → Brings 0 m (handle_message blake3 message now m1)
  handles message now m m1 v f h w =
      let done = handle_message-Brings message now m1 (SameFrame-IsSized m m1 f v) (rw w h) in
      record {
        frame = SameFrame-trans m m1 (handle_message blake3 message now m1) f done.frame;
        grows = omega (arith, done.grows, w);
      }

  -- A receiver that takes a message moves its value, and loses none of it.
  pub receive-Brings :
      (law : IsFifo chan) (shard now : ℕ) (m : ShardManager C)
      → IsSized m
      → worth chan m ≤ u128_max
      → Brings 0 m (receive blake3 chan shard now m)
  unfolding receive
  receive-Brings law shard now m v h =
      let stays : Brings 0 m m = record { frame = same-SameFrame m; grows = omega arith } in
      elim (Option-cases (get_elem? m.message_processor.message_channels shard)) [
        | inl e ↦ rw (receive, e) stays
        | inr (c, e) ↦ elim (Option-cases (chan.recv c)) [
          | inl f ↦ rw (receive, e, f) stays
          | inr ((message, c'), f) ↦
              rw (receive, e, f)
                (handles message now m (taken_out shard c' m) v
                  (record { same_txs = refl; same_config = refl; same_length = refl }) h
                  (taken_out-worth law shard c c' message m e f))
        ]
      ]
