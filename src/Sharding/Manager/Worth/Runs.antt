-- ===== src/Sharding/Manager/Worth/Runs.antt =====
-- The worth of the shards over any run of registrations, checks, debits, sends and deliveries.
use Prim.Native.Nat.{ℕ, zero, suc, ◌+◌, ◌≤◌}
use mathlib.Core.Path.{◌≡◌, refl}
use mathlib.Core.Logic.{◌⊎◌, inl, inr}
use mathlib.Core.List.{List, [], ◌∷◌, ◌++◌}
use mathlib.Core.Option.{some}
use native.Mathlib.Omega.{arith}
use iron_dag.Prelude.Tests.{Option-cases}
use iron_dag.Prelude.Lists.{get_elem?, set_elem, sum_by, sum_by-append, sum_by-set_elem}
use iron_dag.Prelude.Words.{u128_max}
use iron_dag.Prelude.Eq.{nat_eq}
use iron_dag.Sharding.{Mpsc, IsFifo, Format}
use iron_dag.Sharding.Manager.{
  CrossShardTransaction, ShardError, Checked, unregistered, refused, passed, check_source,
  register_cross_shard_transaction,
}
use iron_dag.Sharding.Manager.Receipts.{receive}
use iron_dag.Sharding.Manager.Worth.{worth, taken-le, debit_source-worth, send_credit-worth}
use iron_dag.Sharding.Manager.Worth.Funded.{
  register-IsFunded, resized, send_credit-IsFunded, debit_source-IsFunded, check_source-IsWord,
}
use iron_dag.Sharding.Manager.Worth.Receive.{receive-Brings}
use iron_dag.Sharding.Manager.Worth.Steps.{
  Phase, checked, debited, sent, Task, Running, Step, register, check, debit, send, deliver,
  IsWordStep, held, AreWordTasks, step, all_worth, fee_of, shortfall_of, run, fees, shortfalls,
  AreWordSteps, IsSound,
}

Checked-cases :
    (c : Checked)
    → (c ≡ unregistered)
      ⊎ ((e : ShardError) × (c ≡ refused e))
      ⊎ ((ct : CrossShardTransaction) × (c ≡ passed ct))
Checked-cases unregistered = inl refl
Checked-cases (refused e) = inr (inl (e, refl))
Checked-cases (passed ct) = inr (inr (ct, refl))

Phase-cases : (p : Phase) → (p ≡ checked) ⊎ (p ≡ debited) ⊎ (p ≡ sent)
Phase-cases checked = inl refl
Phase-cases debited = inr (inl refl)
Phase-cases sent = inr (inr refl)

append-AreWordTasks :
    (ts : List Task) (t : Task)
    → AreWordTasks ts
    → t.cross_tx.tx.value ≤ u128_max
    → AreWordTasks (ts ++ (t ∷ []))
append-AreWordTasks [] t v h = (h, tt)
append-AreWordTasks (x ∷ ts) t v h = (v.0, append-AreWordTasks ts t v.1 h)

word_of :
    (ts : List Task) (k : ℕ) (t : Task)
    → AreWordTasks ts
    → get_elem? ts k ≡ some t
    → t.cross_tx.tx.value ≤ u128_max
word_of [] k t v e = absurd (ground arith)
word_of (x ∷ ts) zero t v e = let same : x ≡ t = ground arith in rw (← same) v.0
word_of (x ∷ ts) (suc k) t v e = word_of ts k t v.1 e

set_elem-AreWordTasks :
    (k : ℕ) (ts : List Task) (t : Task)
    → AreWordTasks ts
    → t.cross_tx.tx.value ≤ u128_max
    → AreWordTasks (set_elem k t ts)
set_elem-AreWordTasks k [] t v h = tt
set_elem-AreWordTasks zero (x ∷ ts) t v h = (h, v.1)
set_elem-AreWordTasks (suc k) (x ∷ ts) t v h = (v.0, set_elem-AreWordTasks k ts t v.1 h)

module _ {C : Type 0} (chan : Mpsc C) (format : Format) (hashes : ℕ × ℕ × ℕ → ℕ)
    (blake3 : ℕ → ℕ → ℕ) where
  abbrev next : Step → ℕ → Running C → Running C
  next = step chan format hashes blake3

  -- What a step does to the worth, and that it leaves the state sound.
  abbrev Kept : Step → ℕ → Running C → Type 0
  Kept s now r =
      (all_worth chan (next s now r) + fee_of chan s r ≡ all_worth chan r + shortfall_of chan s r)
      × IsSound (next s now r)

  keeps_check : (hash now : ℕ) (r : Running C) → IsSound r → Kept (check hash) now r
  unfolding step fee_of shortfall_of all_worth sum_by
  keeps_check hash now r v = elim (Checked-cases (check_source hash r.manager)) [
    | inl e ↦ simp (step, e) (refl, v)
    | inr (inl (x, e)) ↦ simp (step, e) (refl, v)
    | inr (inr (ct, e)) ↦
        let t : Task = record { hash = hash; cross_tx = ct; phase = checked } in
        simp (step, e)
          (
            omega (arith, sum_by-append held r.tasks (t ∷ [])),
            record {
              funded = v.funded;
              word_tasks =
                  append-AreWordTasks r.tasks t v.word_tasks
                    (check_source-IsWord hash ct r.manager v.funded e);
            },
          )
  ]

  keeps_debit : (k now : ℕ) (r : Running C) → IsSound r → Kept (debit k) now r
  unfolding step fee_of shortfall_of all_worth
  keeps_debit k now r v = elim (Option-cases (get_elem? r.tasks k)) [
    | inl e ↦ simp (step, fee_of, shortfall_of, e) (refl, v)
    | inr (t, e) ↦ elim (Phase-cases t.phase) [
      | inl p ↦
          let ct = t.cross_tx in
          let t' = record t { phase = debited } in
          let word = word_of r.tasks k t v.word_tasks e in
          let moved = sum_by-set_elem held k t' t r.tasks e in
          simp (step, fee_of, shortfall_of, e, p)
            (
              ground (
                arith,
                debit_source-worth chan ct r.manager,
                moved,
                p,
                word,
                taken-le chan ct r.manager,
              ),
              record {
                funded = debit_source-IsFunded ct r.manager v.funded;
                word_tasks = set_elem-AreWordTasks k r.tasks t' v.word_tasks word;
              },
            )
      | inr (inl p) ↦ simp (step, fee_of, shortfall_of, e, p) (refl, v)
      | inr (inr p) ↦ simp (step, fee_of, shortfall_of, e, p) (refl, v)
    ]
  ]

  keeps_send : (law : IsFifo chan) (k now : ℕ) (r : Running C) → IsSound r → Kept (send k) now r
  unfolding step fee_of shortfall_of all_worth
  keeps_send law k now r v = elim (Option-cases (get_elem? r.tasks k)) [
    | inl e ↦ simp (step, e) (refl, v)
    | inr (t, e) ↦ elim (Phase-cases t.phase) [
      | inl p ↦ simp (step, e, p) (refl, v)
      | inr (inl p) ↦
          let ct = t.cross_tx in
          let t' = record t { phase = sent } in
          let word = word_of r.tasks k t v.word_tasks e in
          let moved = sum_by-set_elem held k t' t r.tasks e in
          simp (step, e, p)
            (
              ground (
                arith,
                send_credit-worth chan format hashes law t.hash now ct r.manager,
                moved,
                p,
              ),
              record {
                funded = send_credit-IsFunded chan format hashes t.hash now ct r.manager v.funded;
                word_tasks = set_elem-AreWordTasks k r.tasks t' v.word_tasks word;
              },
            )
      | inr (inr p) ↦ simp (step, e, p) (refl, v)
    ]
  ]

  step-worth :
      (law : IsFifo chan) (s : Step) (now : ℕ) (r : Running C)
      → IsSound r
      → IsWordStep s
      → all_worth chan r ≤ u128_max
      → Kept s now r
  unfolding step fee_of shortfall_of all_worth register_cross_shard_transaction worth
  step-worth law (register tx source target) now r v h w = (
    omega arith,
    record {
      funded = register-IsFunded tx source target now r.manager h v.funded;
      word_tasks = v.word_tasks;
    },
  )
  step-worth law (check hash) now r v h w = keeps_check hash now r v
  step-worth law (debit k) now r v h w = keeps_debit k now r v
  step-worth law (send k) now r v h w = keeps_send law k now r v
  step-worth law (deliver shard) now r v h w =
      let m = r.manager in
      let b = receive-Brings chan blake3 law shard now m v.funded.sized (omega (arith, w)) in
      (
        omega (arith, b.grows),
        record {
          funded = resized m (receive blake3 chan shard now m) b.frame v.funded;
          word_tasks = v.word_tasks;
        },
      )

  -- Over any run of registrations, deliveries in target shards, and checks, debits and sends of tasks
  -- that take turns in any order, the balances of all shards, the values on their way between them and
  -- the values that tasks hold lose the fees of the debits together, and gain what the debits fall
  -- short of their costs, where another task has spent the balance after the check, and nothing else.
  -- At the start their sum with these shortfalls is at most the largest u128 value; registered values
  -- and those of the tasks are u128 values, and every index below the count has its shard. The channels
  -- are first in, first out.
  pub worth-run :
      (law : IsFifo chan) (ss : List (ℕ × Step)) (r : Running C)
      → IsSound r
      → AreWordSteps ss
      → all_worth chan r + shortfalls chan format hashes blake3 ss r ≤ u128_max
      → all_worth chan (run chan format hashes blake3 ss r) + fees chan format hashes blake3 ss r
        ≡ all_worth chan r + shortfalls chan format hashes blake3 ss r
  unfolding run fees shortfalls
  worth-run law [] r v h w = omega arith
  worth-run law ((now, s) ∷ ss) r v h w =
      let (once, v') = step-worth law s now r v h.0 (omega (arith, w)) in
      omega (arith, once, worth-run law ss (next s now r) v' h.1 (omega (arith, once, w)))
