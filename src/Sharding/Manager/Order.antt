-- ===== src/Sharding/Manager/Order.antt =====
-- The order of debits and credits, sharding/mod.rs: which receipts wait.
use Prim.Native.Nat.{ℕ}
use mathlib.Core.Path.{◌≡◌, refl, subst, ◌∙◌}
use mathlib.Core.Logic.{inl, inr}
use mathlib.Core.Bool.{false}
use mathlib.Core.List.{List, [], ◌∷◌, ◌++◌}
use iron_dag.Prelude.Tests.{leb, Option-cases, Bool-cases}
use iron_dag.Prelude.Lists.{get_elem?}
use iron_dag.Prelude.Eq.{nat_eq}
use iron_dag.Prelude.Map.{Map, get, insert}
use iron_dag.Sharding.{CrossShardMessage, receipt, receipt_ack, state_sync, ReceiptMessage}
use iron_dag.Sharding.Route.{assign}
use iron_dag.Sharding.Manager.{ShardManager, PendingReceiptEntry, put_shard}
use iron_dag.Sharding.Manager.Receipts.{
  is_confirmed, process_receipt, process_receipt_with_ordering, process_entries,
  process_pending_receipts_async, record_shard_block_height, handle_message,
}

-- Each of the entries waits for a height of its source shard that is not known to be reached.
abbrev pub AllWaiting : Map ℕ ℕ → List PendingReceiptEntry → Type 0
AllWaiting heights [] = Unit
AllWaiting heights (e ∷ es) =
    (is_confirmed heights e.source_shard e.source_block_height ≡ false) × AllWaiting heights es

AllWaiting-append :
    (heights : Map ℕ ℕ) (es fs : List PendingReceiptEntry)
    → AllWaiting heights es
    → AllWaiting heights fs
    → AllWaiting heights (es ++ fs)
AllWaiting-append heights [] fs v w = w
AllWaiting-append heights (e ∷ es) fs v w = (v.0, AllWaiting-append heights es fs v.1 w)

module _ {C : Type 0} where
  -- The invariant of a manager.
  abbrev pub IsOrdered : ShardManager C → Type 0
  IsOrdered m = AllWaiting m.cross_shard_block_heights m.pending_receipts

module _ {C : Type 0} (blake3 : ℕ → ℕ → ℕ) where
  -- What a credit leaves alone.
  pub record SameOrder (m m' : ShardManager C) : Type 0 where
    pub same_heights : m'.cross_shard_block_heights ≡ m.cross_shard_block_heights
    pub same_pending : m'.pending_receipts ≡ m.pending_receipts

  process_receipt-SameOrder :
      (value to : ℕ) (m : ShardManager C) → SameOrder m (process_receipt blake3 value to m).1
  unfolding process_receipt put_shard
  process_receipt-SameOrder value to m =
      elim (Option-cases (get_elem? m.shards (assign blake3 m.config to))) [
        | inl e ↦ simp (process_receipt, e) (record { same_heights = refl; same_pending = refl })
        | inr (s, e) ↦
            simp (process_receipt, e) (record { same_heights = refl; same_pending = refl })
      ]

  process_entries-AllWaiting :
      (es : List PendingReceiptEntry) (m : ShardManager C)
      → AllWaiting m.cross_shard_block_heights (process_entries blake3 es m).0
        × SameOrder m (process_entries blake3 es m).2
  unfolding process_entries
  process_entries-AllWaiting [] m = (tt, record { same_heights = refl; same_pending = refl })
  process_entries-AllWaiting (e ∷ es) m =
      let m' = (process_receipt blake3 e.value e.to m).1 in
      let f = process_receipt-SameOrder e.value e.to m in
      elim (Bool-cases
        (is_confirmed m.cross_shard_block_heights e.source_shard e.source_block_height)) [
          | inl known ↦
              let (waits, g) = process_entries-AllWaiting es m' in
              simp (process_entries, known)
                (
                  subst (λ (h : Map ℕ ℕ). AllWaiting h (process_entries blake3 es m').0)
                      f.same_heights waits,
                  record {
                    same_heights = g.same_heights ∙ f.same_heights;
                    same_pending = g.same_pending ∙ f.same_pending;
                  },
                )
          | inr unknown ↦
              let (waits, g) = process_entries-AllWaiting es m in
              simp (process_entries, unknown) ((refl, waits), g)
        ]

  process_pending-IsOrdered :
      (m : ShardManager C) → IsOrdered (process_pending_receipts_async blake3 m).1
  unfolding process_pending_receipts_async
  process_pending-IsOrdered m =
      let m0 = record m { pending_receipts = [] } in
      let (waits, f) = process_entries-AllWaiting m.pending_receipts m0 in
      rw (f.same_heights, f.same_pending) waits

  record_shard_block_height-IsOrdered :
      (shard n : ℕ) (m : ShardManager C)
      → IsOrdered m
      → IsOrdered (record_shard_block_height blake3 shard n m)
  unfolding record_shard_block_height
  record_shard_block_height-IsOrdered shard n m v =
      let heights = insert shard n m.cross_shard_block_heights in
      let after = process_pending-IsOrdered (record m { cross_shard_block_heights = heights }) in
      elim (Option-cases (get shard m.cross_shard_block_heights)) [
        | inl e ↦ simp (record_shard_block_height, e) after
        | inr (prev, e) ↦ elim (Bool-cases (leb n prev)) [
          | inl old ↦ simp (record_shard_block_height, e, old) v
          | inr rises ↦ simp (record_shard_block_height, e, rises) after
        ]
      ]

  with_ordering-IsOrdered :
      (r : ReceiptMessage) (now : ℕ) (m : ShardManager C)
      → IsOrdered m
      → IsOrdered (process_receipt_with_ordering blake3 r now m).1
  unfolding process_receipt_with_ordering
  with_ordering-IsOrdered r now m v =
      let f = process_receipt-SameOrder r.value r.to m in
      let entry : PendingReceiptEntry = record {
        receipt_id = r.receipt_id;
        source_shard = r.source_shard;
        value = r.value;
        to = r.to;
        source_block_height = r.source_block_height;
        received_at = now;
      } in
      elim (Bool-cases
        (is_confirmed m.cross_shard_block_heights r.source_shard r.source_block_height)) [
          | inl known ↦ rw (process_receipt_with_ordering, known, f.same_heights, f.same_pending) v
          | inr unknown ↦
              let waits : AllWaiting m.cross_shard_block_heights (entry ∷ []) = (unknown, tt) in
              let both =
                AllWaiting-append m.cross_shard_block_heights m.pending_receipts (entry ∷ []) v
                  waits in
              rw (process_receipt_with_ordering, unknown) both
        ]

  -- If each waiting receipt waits for a height of its source shard that is not known to be reached,
  -- so it is after the next message, whatever that is.
  pub handle_message-IsOrdered :
      (message : CrossShardMessage) (now : ℕ) (m : ShardManager C)
      → IsOrdered m
      → IsOrdered (handle_message blake3 message now m)
  unfolding handle_message
  handle_message-IsOrdered (receipt r) now m v = with_ordering-IsOrdered r now m v
  handle_message-IsOrdered (receipt_ack id success) now m v = v
  handle_message-IsOrdered (state_sync shard n) now m v =
      record_shard_block_height-IsOrdered shard n m v
