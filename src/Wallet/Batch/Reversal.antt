-- ===== src/Wallet/Batch/Reversal.antt =====
-- What the execution of a batch does to the state, account_abstraction/batch.rs: which operations it
-- executes, and which it reverts.
use Prim.Native.Nat.{ℕ, suc, ◌+◌, ◌%◌, ◌^◌, ◌≤◌, ◌<◌}
use mathlib.Core.Path.{◌≡◌, refl}
use mathlib.Core.Logic.{◌⊎◌, inl, inr}
use mathlib.Core.Bool.{true}
use mathlib.Core.List.{List, [], ◌∷◌, ◌++◌}
use mathlib.Core.Option.{none, some}
use native.Mathlib.Omega.{arith}
use iron_dag.Prelude.Tests.{ltb, lt→ltb, Option-cases, Bool-cases}
use iron_dag.Prelude.Lists.{length, take, length-append}
use iron_dag.Prelude.Eq.{nat_eq}
use iron_dag.Prelude.Map.{get, get-insert}
use iron_dag.Wallet.Batch.{
  BatchOperation, BatchOperationResult, BatchTransaction, BatchError, operation_failed,
  gas_exceeded, Result, ok, err, Batches, is_ready, mark_executing, mark_completed, mark_failed,
  failure, gas_message, Executed, done, broken, Ended, revert_all, execute_operations,
  execute_batch,
}

Executed-cases :
    (x : Executed)
    → ((r : BatchOperationResult) × (x ≡ done r)) ⊎ ((message : ℕ) × (x ≡ broken message))
Executed-cases (done r) = inl (r, refl)
Executed-cases (broken message) = inr (message, refl)

module _ {S : Type 0} (execute_fn : BatchOperation → ℕ → S → Executed × S)
    (revert_fn : ℕ → BatchOperationResult → S → S) where
  -- The operations from an index on, executed one after the other.
  unfoldable pub executed_all : List BatchOperation → ℕ → S → S
  executed_all [] i s = s
  executed_all (op ∷ ops) i s = executed_all ops (i + 1) (execute_fn op i s).1

  -- The results from an index on, reverted one after the other, the last one first.
  unfoldable pub reverted_all : List BatchOperationResult → ℕ → S → S
  reverted_all [] i s = s
  reverted_all (r ∷ rs) i s = revert_fn i r (reverted_all rs (i + 1) s)

  revert_all-reverted_all :
      (count i : ℕ) (rs : List BatchOperationResult) (s : S)
      → i + length rs ≤ count
      → revert_all revert_fn count i rs s ≡ reverted_all rs i s
  unfolding revert_all reverted_all
  revert_all-reverted_all count i [] s h = refl
  revert_all-reverted_all count i (r ∷ rs) s h =
      let within : ltb i count ≡ true = lt→ltb i count (omega arith) in
      rw (within, revert_all-reverted_all count (i + 1) rs s (omega arith)) refl

  -- A run from an index on that has not failed has executed all its operations, within the limit; one
  -- that has failed has executed some first ones and has then reverted all results.
  pub record Accounted (limit i : ℕ) (ops : List BatchOperation) (s : S) (e : Ended S)
      : Type 0 where
    pub whole :
        e.outcome ≡ none
        → (e.state ≡ executed_all ops i s)
          × (length e.results ≡ i + length ops)
          × (e.total_gas ≤ limit)
    pub undone :
        (x : BatchError)
        → e.outcome ≡ some x
        → (n : ℕ) × (0 < n)
          × (n ≤ length ops)
          × (length e.results ≡ i + n)
          × (e.state ≡ reverted_all e.results 0 (executed_all (take n ops) i s))

  -- A run that ends at its first operation.
  stopped :
      (count limit i : ℕ) (op : BatchOperation) (ops : List BatchOperation)
      (rs : List BatchOperationResult) (r : BatchOperationResult) (gas : ℕ) (x : BatchError) (s : S)
      → length rs ≡ i
      → i + suc (length ops) ≡ count
      → Accounted limit i (op ∷ ops) s (record {
        outcome = some x;
        results = rs ++ (r ∷ []);
        total_gas = gas;
        state = revert_all revert_fn count 0 (rs ++ (r ∷ [])) (execute_fn op i s).1;
      })
  unfolding executed_all
  stopped count limit i op ops rs r gas x s len h =
      let all = length-append rs (r ∷ []) in
      record {
        whole = λ f. cc;
        undone = λ y f. (
          1,
          omega arith,
          omega arith,
          omega (arith, all, len),
          revert_all-reverted_all count 0 (rs ++ (r ∷ [])) (execute_fn op i s).1
              (omega (arith, all, len)),
        );
      }

  loop-Accounted :
      (count limit i : ℕ) (ops : List BatchOperation) (rs : List BatchOperationResult) (gas : ℕ)
      (s : S)
      → length rs ≡ i
      → i + length ops ≡ count
      → gas ≤ limit
      → Accounted limit i ops s (execute_operations execute_fn revert_fn count limit ops i rs gas s)
  unfolding execute_operations executed_all
  loop-Accounted count limit i [] rs gas s len h g = record {
    whole = λ f. (refl, omega (arith, len), g);
    undone = λ x f. cc;
  }
  loop-Accounted count limit i (op ∷ ops) rs gas s len h g =
      elim (Executed-cases (execute_fn op i s).0) [
        | inr (message, e) ↦
            simp (execute_operations, e)
              (stopped count limit i op ops rs (failure i message 0) gas (operation_failed i) s len
                h)
        | inl (r, e) ↦
            let total = (gas + r.gas_used) % 2 ^ 64 in
            elim (Bool-cases (ltb limit total)) [
              | inl over ↦
                  simp (execute_operations, e, over)
                    (stopped count limit i op ops rs (failure i gas_message r.gas_used) total
                      gas_exceeded s len h)
              | inr fits ↦ elim (Bool-cases r.success) [
                | inr bad ↦
                    simp (execute_operations, e, fits, bad)
                      (stopped count limit i op ops rs r total (operation_failed i) s len h)
                | inl good ↦
                    let later =
                      loop-Accounted count limit (i + 1) ops (rs ++ (r ∷ [])) total
                        (execute_fn op i s).1 (omega (arith, len, length-append rs (r ∷ [])))
                        (omega arith) (ground arith) in
                    simp (execute_operations, e, fits, good)
                      (record {
                        whole = λ f. let w = later.whole f in (w.0, omega (arith, w.1), w.2);
                        undone = λ x f.
                            let u = later.undone x f in
                            (suc u.0, omega arith, omega (arith, u.2), omega (arith, u.3), u.4);
                      })
              ]
            ]
      ]

  -- What holds of a batch after its execution, by the answer.
  abbrev pub IsAccounted :
      ℕ → BatchTransaction → S → Result (List BatchOperationResult × ℕ) × Batches × S → Type 0
  IsAccounted id b s (ok (rs, gas), m, s') =
      (s' ≡ executed_all b.operations 0 s)
      × (length rs ≡ length b.operations)
      × (gas ≤ b.gas_limit)
      × (get id m ≡ some (mark_completed rs gas (mark_executing b)))
  IsAccounted id b s (err _, m, s') =
      (n : ℕ) × (rs : List BatchOperationResult) × (gas : ℕ) × (0 < n)
      × (n ≤ length b.operations)
      × (length rs ≡ n)
      × (s' ≡ reverted_all rs 0 (executed_all (take n b.operations) 0 s))
      × (get id m ≡ some (mark_failed rs gas (mark_executing b)))

  -- A batch that is ready and ends with a result has executed all its operations in their order and
  -- reverted none, has a result for each and gas within its limit, and is completed; one that ends
  -- with an error has executed its first operations up to one, has then called the reversal for every
  -- one of them, the last one included and first, each with its recorded result, and has failed.
  pub execute_batch-IsAccounted :
      (id : ℕ) (b : BatchTransaction) (m : Batches) (s : S)
      → get id m ≡ some b
      → is_ready b ≡ true
      → IsAccounted id b s (execute_batch execute_fn revert_fn id m s)
  unfolding execute_batch
  execute_batch-IsAccounted id b m s e ready =
      let count = length b.operations in
      let run = execute_operations execute_fn revert_fn count b.gas_limit b.operations 0 [] 0 s in
      let v =
        loop-Accounted count b.gas_limit 0 b.operations [] 0 s refl (omega arith) (omega arith) in
      elim (Option-cases run.outcome) [
        | inl f ↦
            let b' = mark_completed run.results run.total_gas (mark_executing b) in
            let w = v.whole f in
            simp (execute_batch, e, ready, f)
              (w.0, omega (arith, w.1), w.2, ground (arith, get-insert id id b' m))
        | inr (x, f) ↦
            let b' = mark_failed run.results run.total_gas (mark_executing b) in
            let u = v.undone x f in
            simp (execute_batch, e, ready, f)
              (
                u.0,
                run.results,
                run.total_gas,
                u.1,
                u.2,
                omega (arith, u.3),
                u.4,
                ground (arith, get-insert id id b' m),
              )
      ]
