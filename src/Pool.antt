-- ===== src/Pool.antt =====
-- The privacy pool, irondag-blockchain/src/privacy_pool.rs. Hashes are only compared, so they are
-- numbers; a proof is the list of its bytes. The root over the commitments is not modelled.
pub mod Invariant
mod Tests
use Prim.Native.Nat.{ℕ, ◌+◌, ◌-◌, ◌*◌, min}
use mathlib.Core.Bool.{Bool}
use mathlib.Core.List.{List, [], ◌∷◌, ◌++◌}
use mathlib.Core.Option.{Option, none, some}
use iron_dag.Prelude.Tests.{if◌then◌else◌}
use iron_dag.Prelude.Lists.{length, is_empty}
use iron_dag.Prelude.Eq.{nat_eq}
use iron_dag.Prelude.HashSet.{contains, add}

pub record PoolDeposit : Type 0 where
  pub commitment : ℕ
  pub block_number : ℕ
  pub leaf_index : ℕ

pub record PrivacyPool : Type 0 where
  pub deposits : List PoolDeposit
  pub commitment_set : List ℕ
  pub spent_nullifiers : List ℕ
  pub denomination : ℕ
  pub require_proof : Bool

pub data PoolError : Type 0 where
  duplicate_commitment nullifier_already_spent proof_required proof_verification_failed : PoolError
  insufficient_balance : PoolError

pub data PoolResult : Type 0 where
  ok : ℕ → PoolResult
  err : PoolError → PoolResult

pub new : ℕ → Bool → PrivacyPool
new denomination require_proof = record {
  deposits = [];
  commitment_set = [];
  spent_nullifiers = [];
  denomination = denomination;
  require_proof = require_proof;
}

pub available_balance : PrivacyPool → ℕ
available_balance p =
    (length p.deposits - min (length p.spent_nullifiers) (length p.deposits)) * p.denomination

pub deposit : ℕ → ℕ → PrivacyPool → PoolResult × PrivacyPool
deposit c block_number p =
    if contains c p.commitment_set
    then (err duplicate_commitment, p)
    else let index = length p.deposits in
      (
        ok index,
        record p {
          commitment_set = add c p.commitment_set;
          deposits =
              p.deposits
              ++ record { commitment = c; block_number = block_number; leaf_index = index } ∷ [];
        },
      )

-- `_proof.unwrap_or(&[])`
abbrev pub proof_bytes : Option (List ℕ) → List ℕ
proof_bytes none = []
proof_bytes (some bytes) = bytes

pub withdraw : ℕ → Option (List ℕ) → PrivacyPool → PoolResult × PrivacyPool
withdraw nullifier proof p =
    if contains nullifier p.spent_nullifiers
    then (err nullifier_already_spent, p)
    else if p.require_proof
    then if is_empty (proof_bytes proof)
      then (err proof_required, p)
      else (err proof_verification_failed, p)
    else (ok p.denomination, record p { spent_nullifiers = add nullifier p.spent_nullifiers })
