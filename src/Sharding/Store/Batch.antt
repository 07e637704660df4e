-- ===== src/Sharding/Store/Batch.antt =====
-- What a batch leaves in the store, sharding/async_messaging.rs.
use Prim.Native.Nat.{ℕ}
use mathlib.Core.Path.{◌≡◌, refl, sym, subst, ◌∙◌}
use mathlib.Core.Logic.{◌≢◌, inl, inr}
use mathlib.Core.Bool.{Bool, true, false}
use mathlib.Core.List.{List, [], ◌∷◌}
use mathlib.Core.Option.{some}
use native.Mathlib.Omega.{arith}
use iron_dag.Prelude.Tests.{◌==◌, if◌then◌else◌, Option-cases, Bool-cases}
use iron_dag.Prelude.Lists.{any}
use iron_dag.Prelude.Eq.{nat_eq}
use iron_dag.Prelude.Map.{get, insert, get-insert}
use iron_dag.Sharding.{
  CrossShardMessage, receipt, receipt_ack, state_sync, Receipt, ReceiptStatus, pending, processed,
  failed,
}
use iron_dag.Sharding.Store.{
  Store, set_status, store_receipts_batch, update_statuses_batch, collect_receipts, handle_acks,
  status_updates, process_batch,
}

-- The store has a receipt under the id, and it no longer waits.
abbrev pub IsSettled : ℕ → Store → Type 0
IsSettled id s = (r : Receipt) × (get id s ≡ some r) × (r.status ≢ pending)

abbrev pub IsStored : ℕ → Store → Type 0
IsStored id s = (r : Receipt) × (get id s ≡ some r)

-- A receipt with this id is among those.
abbrev pub has_id : ℕ → List Receipt → Bool
has_id id rs = any (λ (r : Receipt). r.message.receipt_id == id) rs

set_status-IsStored :
    (status : ReceiptStatus) (id j : ℕ) (s : Store)
    → IsStored j s
    → IsStored j (set_status status id s)
unfolding set_status
set_status-IsStored status id j s (r, e) = elim (Option-cases (get id s)) [
  | inl f ↦ rw (set_status, f) (r, e)
  | inr (x, f) ↦ elim (Bool-cases (id == j)) [
    | inl same ↦
        rw (set_status, f)
          (
            record x { status = status },
            ground (arith, get-insert id j (record x { status = status }) s),
          )
    | inr other ↦
        rw (set_status, f) (r, ground (arith, get-insert id j (record x { status = status }) s))
  ]
]

insert-IsStored : (x : Receipt) (id j : ℕ) (s : Store) → IsStored j s → IsStored j (insert id x s)
insert-IsStored x id j s (r, e) = elim (Bool-cases (id == j)) [
  | inl same ↦ (x, ground (arith, get-insert id j x s))
  | inr other ↦ (r, ground (arith, get-insert id j x s))
]

batch-IsStored :
    (rs : List Receipt) (j : ℕ) (s : Store) → IsStored j s → IsStored j (store_receipts_batch rs s)
unfolding store_receipts_batch
batch-IsStored [] j s v = v
batch-IsStored (r ∷ rs) j s v =
    let id = r.message.receipt_id in
    batch-IsStored rs j (insert id r s) (insert-IsStored r id j s v)

stores_batch :
    (rs : List Receipt) (j : ℕ) (s : Store)
    → has_id j rs ≡ true
    → IsStored j (store_receipts_batch rs s)
unfolding store_receipts_batch
stores_batch [] j s h = absurd (ground arith)
stores_batch (r ∷ rs) j s h =
    let id = r.message.receipt_id in
    elim (Bool-cases (id == j)) [
      | inl same ↦ batch-IsStored rs j (insert id r s) (r, ground (arith, get-insert id j r s))
      | inr other ↦ stores_batch rs j (insert id r s) (ground arith)
    ]

set_status-IsSettled :
    (status : ReceiptStatus) (id j : ℕ) (s : Store)
    → status ≢ pending
    → IsSettled j s
    → IsSettled j (set_status status id s)
unfolding set_status
set_status-IsSettled status id j s h (r, e, n) = elim (Option-cases (get id s)) [
  | inl f ↦ rw (set_status, f) (r, e, n)
  | inr (x, f) ↦
      let x' = record x { status = status } in
      elim (Bool-cases (id == j)) [
        | inl same ↦ rw (set_status, f) (x', ground (arith, get-insert id j x' s), h)
        | inr other ↦ rw (set_status, f) (r, ground (arith, get-insert id j x' s), n)
      ]
]

settles :
    (status : ReceiptStatus) (id : ℕ) (s : Store)
    → status ≢ pending
    → IsStored id s
    → IsSettled id (set_status status id s)
unfolding set_status
settles status id s h (r, e) =
    let r' = record r { status = status } in
    rw (set_status, e) (r', ground (arith, get-insert id id r' s), h)

-- The receipts that a batch carries.
abbrev pub carries : ℕ → CrossShardMessage → Bool
carries id (receipt m) = m.receipt_id == id
carries id _ = false

has_id-collect_receipts :
    (now id : ℕ) (ms : List CrossShardMessage)
    → has_id id (collect_receipts now ms) ≡ any (carries id) ms
unfolding collect_receipts
has_id-collect_receipts now id [] = refl
has_id-collect_receipts now id (receipt m ∷ ms) = ground (arith, has_id-collect_receipts now id ms)
has_id-collect_receipts now id (receipt_ack i b ∷ ms) = has_id-collect_receipts now id ms
has_id-collect_receipts now id (state_sync i b ∷ ms) = has_id-collect_receipts now id ms

module _ (process_receipt : Receipt → Bool) where
  abbrev outcome : Receipt → ReceiptStatus
  outcome r = if process_receipt r then processed else failed

  outcome-pending : (r : Receipt) → outcome r ≢ pending
  outcome-pending r e = ground arith

  updates-IsSettled :
      (rs : List Receipt) (j : ℕ) (s : Store)
      → IsSettled j s
      → IsSettled j (update_statuses_batch (status_updates process_receipt rs) s)
  unfolding update_statuses_batch status_updates
  updates-IsSettled [] j s v = v
  updates-IsSettled (r ∷ rs) j s v =
      let id = r.message.receipt_id in
      updates-IsSettled rs j (set_status (outcome r) id s)
        (set_status-IsSettled (outcome r) id j s (outcome-pending r) v)

  updates_settle :
      (rs : List Receipt) (j : ℕ) (s : Store)
      → IsStored j s
      → has_id j rs ≡ true
      → IsSettled j (update_statuses_batch (status_updates process_receipt rs) s)
  unfolding update_statuses_batch status_updates
  updates_settle [] j s v h = absurd (ground arith)
  updates_settle (r ∷ rs) j s v h =
      let id = r.message.receipt_id in
      elim (Bool-cases (id == j)) [
        | inl same ↦
            let it : id ≡ j = ground arith in
            updates-IsSettled rs j (set_status (outcome r) id s) (
              subst (λ (k : ℕ). IsSettled j (set_status (outcome r) k s)) (sym it)
                (settles (outcome r) j s (outcome-pending r) v))
        | inr other ↦
            updates_settle rs j (set_status (outcome r) id s)
              (set_status-IsStored (outcome r) id j s v) (ground arith)
      ]

  -- After a batch has been processed, each receipt that it carried is in the store and is processed
  -- or failed, whatever the store held before and whatever acknowledgements the batch has.
  pub process_batch-IsSettled :
      (now id : ℕ) (messages : List CrossShardMessage) (s : Store)
      → any (carries id) messages ≡ true
      → IsSettled id (process_batch process_receipt now messages s)
  unfolding process_batch
  process_batch-IsSettled now id messages s h =
      let rs = collect_receipts now messages in
      let has : has_id id rs ≡ true = has_id-collect_receipts now id messages ∙ h in
      updates_settle rs id (store_receipts_batch rs (handle_acks messages s))
        (stores_batch rs id (handle_acks messages s) has) has
