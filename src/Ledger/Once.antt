-- ===== src/Ledger/Once.antt =====
-- How often blocks process a transaction of one sender with one nonce, over any run of
-- `validate_and_process_transactions`, `prune_spent_outputs` and `rollback_spent_outputs` of
-- irondag-blockchain/src/blockchain/mod.rs.
use Prim.Native.Nat.{ℕ, suc, ◌+◌, ◌≤◌, ◌<◌}
use mathlib.Core.Bool.{Bool, ◌&&◌}
use mathlib.Core.Logic.{inl, inr}
use mathlib.Core.Path.{◌≡◌}
use mathlib.Core.List.{List, [], ◌∷◌}
use native.Mathlib.Omega.{arith}
use iron_dag.Prelude.Tests.{leb, ◌==◌, if◌then◌else◌}
use iron_dag.Prelude.Words.{u64_max}
use iron_dag.Ledger.Types.{Transaction, Chain, ok, err, get_nonce}
use iron_dag.Ledger.Block.{
  Block, apply_tx, apply_all, prune_spent_outputs, rollback_spent_outputs, verify_all,
  validate_and_process_transactions,
}
use iron_dag.Ledger.Accounts.{nonce-apply_tx}
use iron_dag.Ledger.Replay.{
  HasWordNonces, HasWordNonces-apply_tx, nonce_of_applied, Outcome-cases, apply_tx_rejected,
}

-- What changes the chain: a block, processed or rejected, a pruning and a rollback of the spent
-- outputs.
pub data Event : Type 0 where
  processed : Block → Event
  pruned rolled_back : ℕ → Event

-- Whether a transaction has the sender and the nonce.
abbrev pub carries : ℕ → ℕ → Transaction → Bool
carries a n tx = (tx.from == a) && (tx.nonce == n)

-- How many transactions with the sender and the nonce the loop processes before it ends or stops.
unfoldable pub count_all : ℕ → ℕ → Block → List Transaction → Chain → ℕ
count_all a n b [] c = 0
count_all a n b (tx ∷ txs) c =
    let (r, c') = apply_tx b tx c in
    let rest = count_all a n b txs c' in
    elim r [ err _ ↦ 0 | ok ↦ if carries a n tx then suc rest else rest ]

-- One more where the nonce may still be used.
abbrev left : ℕ → ℕ → Chain → ℕ
left a n c = if leb (get_nonce a c.accounts) n then 1 else 0

count_one :
    (a n : ℕ) (b : Block) (tx : Transaction) (c : Chain)
    → HasWordNonces c.accounts
    → n < u64_max
    → (apply_tx b tx c).0 ≡ ok
    → (if carries a n tx then 1 else 0) + left a n (apply_tx b tx c).1 ≤ left a n c
count_one a n b tx c h lt done =
    ground (arith, nonce_of_applied b tx c done, nonce-apply_tx b tx a c, h a)

count_all-left :
    (a n : ℕ) (b : Block) (txs : List Transaction) (c : Chain)
    → HasWordNonces c.accounts
    → n < u64_max
    → (count_all a n b txs c + left a n (apply_all b txs c).1 ≤ left a n c)
      × HasWordNonces (apply_all b txs c).1.accounts
unfolding count_all apply_all
count_all-left a n b [] c h lt = (omega arith, h)
count_all-left a n b (tx ∷ txs) c h lt = elim (Outcome-cases (apply_tx b tx c).0) [
  | inl done ↦
      let later =
        count_all-left a n b txs (apply_tx b tx c).1 (HasWordNonces-apply_tx b tx c h) lt in
      let one = count_one a n b tx c h lt done in
      simp (count_all, apply_all, done) (ground (arith, later.0, one), later.1)
  | inr (e, failed) ↦
      simp (count_all, apply_all, failed, apply_tx_rejected b tx c failed) (omega arith, h)
]

module _ (signature_ok : Transaction → ℕ → Bool) (calculate_hash : Transaction → ℕ) where
  -- The same for an event; a block counts with those before the one at which it is rejected.
  unfoldable pub count : ℕ → ℕ → Event → Chain → ℕ
  count a n (processed b) c = elim (verify_all signature_ok calculate_hash b b.transactions c) [
    | err _ ↦ 0
    | ok ↦ count_all a n b b.transactions c
  ]
  count a n _ c = 0

  unfoldable pub happen : Event → Chain → Chain
  happen (processed b) c = (validate_and_process_transactions signature_ok calculate_hash b c).1
  happen (pruned height) c = prune_spent_outputs height c
  happen (rolled_back block_hash) c = rollback_spent_outputs block_hash c

  unfoldable pub count_events : ℕ → ℕ → List Event → Chain → ℕ
  count_events a n [] c = 0
  count_events a n (e ∷ es) c = count a n e c + count_events a n es (happen e c)

  prune-accounts : (height : ℕ) (c : Chain) → (prune_spent_outputs height c).accounts ≡ c.accounts
  unfolding prune_spent_outputs
  prune-accounts height c = ground arith

  count-left :
      (a n : ℕ) (e : Event) (c : Chain)
      → HasWordNonces c.accounts
      → n < u64_max
      → (count a n e c + left a n (happen e c) ≤ left a n c) × HasWordNonces (happen e c).accounts
  unfolding count happen validate_and_process_transactions rollback_spent_outputs
  count-left a n (pruned height) c h lt = rw (prune-accounts height c) (omega arith, h)
  count-left a n (rolled_back block_hash) c h lt = (omega arith, h)
  count-left a n (processed b) c h lt =
      let v = verify_all signature_ok calculate_hash b b.transactions c in
      let all = count_all-left a n b b.transactions c h lt in
      let c' = (apply_all b b.transactions c).1 in
      elim (Outcome-cases v) [
        | inr (e, failed) ↦
            simp (count, happen, validate_and_process_transactions, failed) (omega arith, h)
        | inl passed ↦ elim (Outcome-cases (apply_all b b.transactions c).0) [
          | inl done ↦
              simp
                (
                  count,
                  happen,
                  validate_and_process_transactions,
                  passed,
                  done,
                  prune-accounts b.block_number c',
                )
                all
          | inr (e, failed) ↦
              simp (count, happen, validate_and_process_transactions, passed, failed) all
        ]
      ]

  count_events-left :
      (a n : ℕ) (es : List Event) (c : Chain)
      → HasWordNonces c.accounts
      → n < u64_max
      → count_events a n es c ≤ left a n c
  unfolding count_events
  count_events-left a n [] c h lt = omega arith
  count_events-left a n (e ∷ es) c h lt =
      let once = count-left a n e c h lt in
      omega (arith, once.0, count_events-left a n es (happen e c) once.1 lt)

  -- Whatever blocks are processed or rejected, and however spent outputs are pruned and rolled back in
  -- between, at most one transaction with a given sender and nonce is ever processed, where the nonce
  -- is below the largest u64 and all nonces of the accounts are u64 values at the start.
  pub processed_once :
      (a n : ℕ) (es : List Event) (c : Chain)
      → HasWordNonces c.accounts
      → n < u64_max
      → count_events a n es c ≤ 1
  processed_once a n es c h lt = ground (arith, count_events-left a n es c h lt)
