-- ===== src/Sharding/Manager/Worth/Steps.antt =====
-- The tasks of `process_cross_shard_transaction`, sharding/mod.rs, which take turns between their
-- locks, and the runs of all that they and the receivers do.
use Prim.Native.Nat.{ℕ, ◌+◌, ◌-◌, ◌≤◌}
use mathlib.Core.List.{List, [], ◌∷◌, ◌++◌}
use mathlib.Core.Option.{none, some}
use iron_dag.Prelude.Lists.{get_elem?, set_elem, sum_by}
use iron_dag.Prelude.Words.{u128_max}
use iron_dag.Prelude.Eq.{nat_eq}
use iron_dag.Ledger.Types.{Transaction}
use iron_dag.Sharding.{Mpsc, Format}
use iron_dag.Sharding.Manager.{
  ShardManager, CrossShardTransaction, unregistered, refused, passed, total_cost, check_source,
  debit_source, send_credit, register_cross_shard_transaction,
}
use iron_dag.Sharding.Manager.Receipts.{receive}
use iron_dag.Sharding.Manager.Worth.{worth, taken}
use iron_dag.Sharding.Manager.Worth.Funded.{IsFunded}

-- Where a task of process_cross_shard_transaction stands.
pub data Phase : Type 0 where
  checked debited sent : Phase

pub record Task : Type 0 where
  pub hash : ℕ
  pub cross_tx : CrossShardTransaction
  pub phase : Phase

-- The manager and the tasks that have passed the check.
pub record Running (C : Type 0) : Type 0 where
  pub manager : ShardManager C
  pub tasks : List Task

-- What the mining loop and the receivers call; a debit and a send name the task by its number.
pub data Step : Type 0 where
  register : Transaction → ℕ → ℕ → Step
  check debit send deliver : ℕ → Step

abbrev pub IsWordStep : Step → Type 0
IsWordStep (register tx _ _) = tx.value ≤ u128_max
IsWordStep _ = Unit

-- The value that a task has taken from the sender and not yet sent.
abbrev pub held : Task → ℕ
held t = elim t.phase [ checked ↦ 0 | debited ↦ t.cross_tx.tx.value | sent ↦ 0 ]

abbrev pub AreWordTasks : List Task → Type 0
AreWordTasks [] = Unit
AreWordTasks (t ∷ ts) = (t.cross_tx.tx.value ≤ u128_max) × AreWordTasks ts

abbrev pub AreWordSteps : List (ℕ × Step) → Type 0
AreWordSteps [] = Unit
AreWordSteps ((_, s) ∷ ss) = IsWordStep s × AreWordSteps ss

module _ {C : Type 0} where
  pub record IsSound (r : Running C) : Type 0 where
    pub funded : IsFunded r.manager
    pub word_tasks : AreWordTasks r.tasks

module _ {C : Type 0} (chan : Mpsc C) where
  unfoldable pub all_worth : Running C → ℕ
  all_worth r = worth chan r.manager + sum_by held r.tasks

  -- The fee of a debit, and what the balance falls short of its cost.
  unfoldable pub fee_of : Step → Running C → ℕ
  fee_of (debit k) r = elim (get_elem? r.tasks k) [
    | none ↦ 0
    | some t ↦ elim t.phase [
      | checked ↦ total_cost t.cross_tx - t.cross_tx.tx.value
      | debited ↦ 0
      | sent ↦ 0
    ]
  ]
  fee_of _ r = 0

  unfoldable pub shortfall_of : Step → Running C → ℕ
  shortfall_of (debit k) r = elim (get_elem? r.tasks k) [
    | none ↦ 0
    | some t ↦ elim t.phase [
      | checked ↦ total_cost t.cross_tx - taken chan t.cross_tx r.manager
      | debited ↦ 0
      | sent ↦ 0
    ]
  ]
  shortfall_of _ r = 0

module _ {C : Type 0} (chan : Mpsc C) (format : Format) (hashes : ℕ × ℕ × ℕ → ℕ)
    (blake3 : ℕ → ℕ → ℕ) where
  unfoldable pub step : Step → ℕ → Running C → Running C
  step (register tx source target) now r = record r {
    manager = register_cross_shard_transaction tx source target now r.manager;
  }
  step (check hash) now r = elim (check_source hash r.manager) [
    | unregistered ↦ r
    | refused _ ↦ r
    | passed ct ↦ record r {
      tasks = r.tasks ++ (record { hash = hash; cross_tx = ct; phase = checked } ∷ []);
    }
  ]
  step (debit k) now r = elim (get_elem? r.tasks k) [
    | none ↦ r
    | some t ↦ elim t.phase [
      | checked ↦ record {
        manager = debit_source t.cross_tx r.manager;
        tasks = set_elem k (record t { phase = debited }) r.tasks;
      }
      | debited ↦ r
      | sent ↦ r
    ]
  ]
  step (send k) now r = elim (get_elem? r.tasks k) [
    | none ↦ r
    | some t ↦ elim t.phase [
      | checked ↦ r
      | debited ↦ record {
        manager = send_credit chan format hashes t.hash t.cross_tx now r.manager;
        tasks = set_elem k (record t { phase = sent }) r.tasks;
      }
      | sent ↦ r
    ]
  ]
  step (deliver shard) now r = record r { manager = receive blake3 chan shard now r.manager }

  -- Steps at their times, with the fees and the shortfalls of all of them.
  unfoldable pub run : List (ℕ × Step) → Running C → Running C
  run [] r = r
  run ((now, s) ∷ ss) r = run ss (step s now r)

  unfoldable pub fees : List (ℕ × Step) → Running C → ℕ
  fees [] r = 0
  fees ((now, s) ∷ ss) r = fee_of chan s r + fees ss (step s now r)

  unfoldable pub shortfalls : List (ℕ × Step) → Running C → ℕ
  shortfalls [] r = 0
  shortfalls ((now, s) ∷ ss) r = shortfall_of chan s r + shortfalls ss (step s now r)
