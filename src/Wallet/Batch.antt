-- ===== src/Wallet/Batch.antt =====
-- `BatchTransaction` and `BatchManager`, account_abstraction/batch.rs. The state that operations
-- change, their execution and their reversal are parameters, as the source's closures are; so is the
-- hash that gives a batch its id. Messages of errors are numbers. The sums of gas wrap around at u64,
-- as in a release build; the signatures of a batch are not modelled.
pub mod Reversal
pub mod Gas
use Prim.Native.Nat.{ℕ, ◌+◌, ◌%◌, ◌^◌}
use mathlib.Core.Bool.{Bool, true, false, not}
use mathlib.Core.List.{List, [], ◌∷◌, ◌++◌}
use mathlib.Core.Option.{Option, none, some}
use iron_dag.Prelude.Tests.{ltb, ◌==◌, if◌then◌else◌}
use iron_dag.Prelude.Lists.{length, is_empty}
use iron_dag.Prelude.Eq.{nat_eq}
use iron_dag.Prelude.Map.{Map, get, insert}

pub data BatchStatus : Type 0 where
  pending executing completed failed cancelled : BatchStatus

pub data BatchOperation : Type 0 where
  transfer approval : ℕ → ℕ → BatchOperation
  contract_call : ℕ → List ℕ → ℕ → BatchOperation
  custom : List ℕ → List ℕ → BatchOperation

pub record BatchOperationResult : Type 0 where
  pub operation_index : ℕ
  pub success : Bool
  pub result : Option (List ℕ)
  pub error : Option ℕ
  pub gas_used : ℕ

pub record BatchTransaction : Type 0 where
  pub batch_id : ℕ
  pub wallet_address : ℕ
  pub operations : List BatchOperation
  pub nonce : ℕ
  pub gas_limit : ℕ
  pub gas_price : ℕ
  pub created_at : ℕ
  pub status : BatchStatus
  pub results : List BatchOperationResult
  pub gas_used : ℕ

pub data BatchError : Type 0 where
  no_operations too_many_operations zero_gas_limit zero_gas_price : BatchError
  not_found not_ready gas_exceeded : BatchError
  operation_failed : ℕ → BatchError

pub data Result (A : Type 0) : Type 0 where
  ok : A → Result A
  err : BatchError → Result A

abbrev pub is_pending : BatchStatus → Bool
is_pending pending = true
is_pending _ = false

abbrev pub is_active : BatchStatus → Bool
is_active pending = true
is_active executing = true
is_active _ = false

unfoldable pub is_ready : BatchTransaction → Bool
is_ready b = is_pending b.status

unfoldable pub validate : BatchTransaction → Option BatchError
validate b =
    if is_empty b.operations
    then some no_operations
    else if ltb 100 (length b.operations)
    then some too_many_operations
    else if b.gas_limit == 0
    then some zero_gas_limit
    else if b.gas_price == 0
    then some zero_gas_price
    else none

unfoldable pub mark_executing : BatchTransaction → BatchTransaction
mark_executing b = record b { status = executing }

unfoldable pub mark_completed : List BatchOperationResult → ℕ → BatchTransaction → BatchTransaction
mark_completed results gas b = record b { status = completed; results = results; gas_used = gas }

unfoldable pub mark_failed : List BatchOperationResult → ℕ → BatchTransaction → BatchTransaction
mark_failed results gas b = record b { status = failed; results = results; gas_used = gas }

unfoldable pub cancel : BatchTransaction → BatchTransaction
cancel b = record b { status = cancelled }

abbrev pub Batches : Type 0
Batches = Map ℕ BatchTransaction

abbrev pub max_operations : ℕ
max_operations = 100

unfoldable pub create_batch :
    (ℕ → List BatchOperation → ℕ → ℕ)
    → ℕ
    → List BatchOperation
    → ℕ
    → ℕ
    → ℕ
    → ℕ
    → Batches
    → Result BatchTransaction × Batches
create_batch batch_hash wallet operations nonce gas_limit gas_price now m =
    if is_empty operations
    then (err no_operations, m)
    else if ltb max_operations (length operations)
    then (err too_many_operations, m)
    else let b : BatchTransaction = record {
      batch_id = batch_hash wallet operations nonce;
      wallet_address = wallet;
      operations = operations;
      nonce = nonce;
      gas_limit = gas_limit;
      gas_price = gas_price;
      created_at = now;
      status = pending;
      results = [];
      gas_used = 0;
    } in
      elim (validate b) [ some e ↦ (err e, m) | none ↦ (ok b, insert b.batch_id b m) ]

unfoldable pub get_wallet_batches : ℕ → Batches → List BatchTransaction
get_wallet_batches wallet [] = []
get_wallet_batches wallet ((id, b) ∷ m) =
    let rest = get_wallet_batches wallet m in if b.wallet_address == wallet then b ∷ rest else rest

unfoldable pub cleanup : Batches → Batches
cleanup [] = []
cleanup ((id, b) ∷ m) = let rest = cleanup m in if is_active b.status then (id, b) ∷ rest else rest

-- The result that is recorded for an operation that has not gone well.
abbrev pub failure : ℕ → ℕ → ℕ → BatchOperationResult
failure index message gas = record {
  operation_index = index;
  success = false;
  result = none;
  error = some message;
  gas_used = gas;
}

-- What the closure answers: a result, or the message of an error.
pub data Executed : Type 0 where
  done : BatchOperationResult → Executed
  broken : ℕ → Executed

-- The message of an exceeded gas limit.
abbrev pub gas_message : ℕ
gas_message = 0

-- How the loop ends: with its results, its gas and the state.
pub record Ended (S : Type 0) : Type 0 where
  pub outcome : Option BatchError
  pub results : List BatchOperationResult
  pub total_gas : ℕ
  pub state : S

module _ {S : Type 0} (revert_fn : ℕ → BatchOperationResult → S → S) where
  -- The results from an index on, the last one first; `count` is the number of operations.
  unfoldable pub revert_all : ℕ → ℕ → List BatchOperationResult → S → S
  revert_all count i [] s = s
  revert_all count i (r ∷ rs) s =
      let later = revert_all count (i + 1) rs s in
      if ltb i count then revert_fn i r later else later

module _ {S : Type 0} (execute_fn : BatchOperation → ℕ → S → Executed × S)
    (revert_fn : ℕ → BatchOperationResult → S → S) where
  unfoldable pub execute_operations :
      ℕ → ℕ → List BatchOperation → ℕ → List BatchOperationResult → ℕ → S → Ended S
  execute_operations count gas_limit [] index results gas s = record {
    outcome = none;
    results = results;
    total_gas = gas;
    state = s;
  }
  execute_operations count gas_limit (op ∷ ops) index results gas s =
      let executed = execute_fn op index s in
      elim executed.0 [
        | broken message ↦
            let all = results ++ (failure index message 0 ∷ []) in
            record {
              outcome = some (operation_failed index);
              results = all;
              total_gas = gas;
              state = revert_all revert_fn count 0 all executed.1;
            }
        | done r ↦
            let total = (gas + r.gas_used) % 2 ^ 64 in
            let rest =
              execute_operations count gas_limit ops (index + 1) (results ++ (r ∷ [])) total
                executed.1 in
            let exceeded = results ++ (failure index gas_message r.gas_used ∷ []) in
            let all = results ++ (r ∷ []) in
            if ltb gas_limit total
            then record {
              outcome = some gas_exceeded;
              results = exceeded;
              total_gas = total;
              state = revert_all revert_fn count 0 exceeded executed.1;
            }
            else if not r.success
            then record {
              outcome = some (operation_failed index);
              results = all;
              total_gas = total;
              state = revert_all revert_fn count 0 all executed.1;
            }
            else rest
      ]

  -- The answer, the batches and the state.
  unfoldable pub execute_batch :
      ℕ → Batches → S → Result (List BatchOperationResult × ℕ) × Batches × S
  execute_batch id m s = elim (get id m) [
    | none ↦ (err not_found, m, s)
    | some b ↦
        if not (is_ready b)
        then (err not_ready, m, s)
        else (let b' = mark_executing b in
            let e = execute_operations (length b.operations) b.gas_limit b.operations 0 [] 0 s in
            elim e.outcome [
              | none ↦ (
                ok (e.results, e.total_gas),
                insert id (mark_completed e.results e.total_gas b') m,
                e.state,
              )
              | some x ↦ (err x, insert id (mark_failed e.results e.total_gas b') m, e.state)
            ])
  ]
