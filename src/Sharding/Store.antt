-- ===== src/Sharding/Store.antt =====
-- `ReceiptStore`, and the batches of `MessageProcessor`, sharding/async_messaging.rs. A batch is a
-- list of messages; the processing of a receipt is a parameter that answers whether it went well.
pub mod Batch
use Prim.Native.Nat.{ℕ}
use mathlib.Core.Bool.{Bool, true, false}
use mathlib.Core.List.{List, [], ◌∷◌}
use mathlib.Core.Option.{Option, none, some}
use iron_dag.Prelude.Tests.{if◌then◌else◌}
use iron_dag.Prelude.Eq.{nat_eq}
use iron_dag.Prelude.Map.{Map, get, insert}
use iron_dag.Sharding.{
  CrossShardMessage, receipt, receipt_ack, state_sync, ReceiptMessage, Receipt, ReceiptStatus,
  pending, processed, failed,
}

abbrev pub Store : Type 0
Store = Map ℕ Receipt

unfoldable pub store_receipt : Receipt → Store → Store
store_receipt r s = insert r.message.receipt_id r s

unfoldable pub get_receipt : ℕ → Store → Option Receipt
get_receipt id s = get id s

unfoldable pub set_status : ReceiptStatus → ℕ → Store → Store
set_status status id s = elim (get id s) [
  | none ↦ s
  | some r ↦ insert id (record r { status = status }) s
]

unfoldable pub mark_processed : ℕ → Store → Store
mark_processed id s = set_status processed id s

unfoldable pub mark_failed : ℕ → Store → Store
mark_failed id s = set_status failed id s

unfoldable pub store_receipts_batch : List Receipt → Store → Store
store_receipts_batch [] s = s
store_receipts_batch (r ∷ rs) s = store_receipts_batch rs (insert r.message.receipt_id r s)

unfoldable pub update_statuses_batch : List (ℕ × ReceiptStatus) → Store → Store
update_statuses_batch [] s = s
update_statuses_batch ((id, status) ∷ us) s = update_statuses_batch us (set_status status id s)

-- What phase 1 collects: the receipts of the batch, pending, in their order.
unfoldable pub collect_receipts : ℕ → List CrossShardMessage → List Receipt
collect_receipts now [] = []
collect_receipts now (receipt m ∷ ms) =
    record { message = m; status = pending; created_at = now } ∷ collect_receipts now ms
collect_receipts now (_ ∷ ms) = collect_receipts now ms

-- The acknowledgements of the batch, which are handled in the same pass.
unfoldable pub handle_acks : List CrossShardMessage → Store → Store
handle_acks [] s = s
handle_acks (receipt_ack id success ∷ ms) s =
    handle_acks ms (if success then mark_processed id s else mark_failed id s)
handle_acks (_ ∷ ms) s = handle_acks ms s

module _ (process_receipt : Receipt → Bool) where
  -- The outcomes of the receipts, each with its id.
  unfoldable pub status_updates : List Receipt → List (ℕ × ReceiptStatus)
  status_updates [] = []
  status_updates (r ∷ rs) =
      (r.message.receipt_id, if process_receipt r then processed else failed) ∷ status_updates rs

  -- With no receipt in the batch both lists are empty and change nothing.
  unfoldable pub process_batch : ℕ → List CrossShardMessage → Store → Store
  process_batch now messages s =
      let rs = collect_receipts now messages in
      let stored = store_receipts_batch rs (handle_acks messages s) in
      update_statuses_batch (status_updates rs) stored
