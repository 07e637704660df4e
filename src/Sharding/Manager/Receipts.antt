-- ===== src/Sharding/Manager/Receipts.antt =====
-- The target's side of `ShardManager`, sharding/mod.rs: the credit of a receipt, which waits until
-- the height of the source shard is known to have reached it, and the loop that takes messages out of
-- a shard's channel. A message is handled as one step.
use Prim.Native.Nat.{ℕ, ◌+◌}
use mathlib.Core.Bool.{Bool, true, false}
use mathlib.Core.List.{List, [], ◌∷◌, ◌++◌}
use mathlib.Core.Option.{Option, none, some}
use iron_dag.Prelude.Tests.{leb, if◌then◌else◌}
use iron_dag.Prelude.Lists.{get_elem?, set_elem}
use iron_dag.Prelude.Words.{sat_add_u128}
use iron_dag.Prelude.Eq.{nat_eq}
use iron_dag.Prelude.Map.{Map, get, insert}
use iron_dag.Ledger.Types.{get_balance}
use iron_dag.Sharding.{CrossShardMessage, receipt, receipt_ack, state_sync, ReceiptMessage, Mpsc}
use iron_dag.Sharding.Store.{mark_processed, mark_failed}
use iron_dag.Sharding.Shard.{set_balance}
use iron_dag.Sharding.Route.{assign}
use iron_dag.Sharding.Manager.{
  ShardManager, PendingReceiptEntry, ShardError, invalid_shard, put_shard,
}

-- Is the source known to have reached the height of the debit?
unfoldable pub is_confirmed : Map ℕ ℕ → ℕ → ℕ → Bool
is_confirmed heights source height = elim (get source heights) [
  | none ↦ false
  | some h ↦ leb height h
]

module _ {C : Type 0} (blake3 : ℕ → ℕ → ℕ) where
  unfoldable pub process_receipt : ℕ → ℕ → ShardManager C → Option ShardError × ShardManager C
  process_receipt value to m =
      let target = assign blake3 m.config to in
      elim (get_elem? m.shards target) [
        | none ↦ (some invalid_shard, m)
        | some s ↦
            let balance = get_balance to s.accounts in
            (
              none,
              put_shard target
                  (record s { accounts = set_balance to (sat_add_u128 balance value) s.accounts })
                  m,
            )
      ]

  unfoldable pub process_receipt_with_ordering :
      ReceiptMessage → ℕ → ShardManager C → Option ShardError × ShardManager C
  process_receipt_with_ordering r now m =
      if is_confirmed m.cross_shard_block_heights r.source_shard r.source_block_height
      then process_receipt r.value r.to m
      else (
        none,
        record m {
          pending_receipts =
              m.pending_receipts
              ++ (record {
                receipt_id = r.receipt_id;
                source_shard = r.source_shard;
                value = r.value;
                to = r.to;
                source_block_height = r.source_block_height;
                received_at = now;
              }
                  ∷ []);
        },
      )

  -- The entries one after the other, with those that still wait, and the number of credits.
  unfoldable pub process_entries :
      List PendingReceiptEntry → ShardManager C → List PendingReceiptEntry × ℕ × ShardManager C
  process_entries [] m = ([], 0, m)
  process_entries (e ∷ es) m =
      elim (is_confirmed m.cross_shard_block_heights e.source_shard e.source_block_height) [
        | true ↦
            let credited = process_receipt e.value e.to m in
            let rest = process_entries es credited.1 in
            (rest.0, elim credited.0 [ none ↦ rest.1 + 1 | some _ ↦ rest.1 ], rest.2)
        | false ↦ let rest = process_entries es m in (e ∷ rest.0, rest.1, rest.2)
      ]

  unfoldable pub process_pending_receipts_async : ShardManager C → ℕ × ShardManager C
  process_pending_receipts_async m =
      let done = process_entries m.pending_receipts (record m { pending_receipts = [] }) in
      (done.1, record done.2 { pending_receipts = done.2.pending_receipts ++ done.0 })

  -- A height that does not rise is not recorded.
  unfoldable pub record_shard_block_height : ℕ → ℕ → ShardManager C → ShardManager C
  record_shard_block_height shard n m =
      let recorded = record m {
        cross_shard_block_heights = insert shard n m.cross_shard_block_heights;
      } in
      elim (get shard m.cross_shard_block_heights) [
        | none ↦ (process_pending_receipts_async recorded).1
        | some prev ↦ if leb n prev then m else (process_pending_receipts_async recorded).1
      ]

  -- What the loop of `start_receipt_processing` does with one message.
  unfoldable pub handle_message : CrossShardMessage → ℕ → ShardManager C → ShardManager C
  handle_message (receipt r) now m = (process_receipt_with_ordering r now m).1
  handle_message (receipt_ack id success) now m = record m {
    message_processor = record m.message_processor {
      receipt_store =
          if success
          then mark_processed id m.message_processor.receipt_store
          else mark_failed id m.message_processor.receipt_store;
    };
  }
  handle_message (state_sync shard n) now m = record_shard_block_height shard n m

  module _ (chan : Mpsc C) where
    -- One round of that loop for a shard; nothing where its channel is empty.
    unfoldable pub receive : ℕ → ℕ → ShardManager C → ShardManager C
    receive shard now m =
        let p = m.message_processor in
        elim (get_elem? p.message_channels shard) [
          | none ↦ m
          | some c ↦ elim (chan.recv c) [
            | none ↦ m
            | some (message, c') ↦ handle_message message now (record m {
              message_processor = record p {
                message_channels = set_elem shard c' p.message_channels;
              };
            })
          ]
        ]
