-- ===== src/Wallet/Tests.antt =====
-- Concrete runs of the multi-signature wallets and of social recovery.
use Prim.Native.Nat.{ℕ, zero, suc, ◌+◌, ◌≤◌}
use mathlib.Core.Path.{◌≡◌, refl}
use mathlib.Core.Logic.{◌↔◌}
use mathlib.Core.Bool.{Bool, false}
use mathlib.Core.List.{List, [], ◌∷◌}
use mathlib.Core.Option.{Option, none, some}
use native.Mathlib.Omega.{arith}
use iron_dag.Prelude.Tests.{◌==◌}
use iron_dag.Prelude.Lists.{length}
use iron_dag.Prelude.Eq.{nat_eq}
use iron_dag.Prelude.Map.{get, insert}
use iron_dag.Prelude.HashSet.{contains}
use iron_dag.Wallet.MultiSig.{MultiSigSignature, MultiSigTransaction, valid, validate}
use iron_dag.Wallet.MultiSig.Valid.{
  AreFresh, AreExpected, AreVerified, forge, validate_iff, forge-valid,
}
use iron_dag.Wallet.Recovery.{
  RecoveryRequest, ok, add_approval, update_status, initiate_recovery, approve_recovery,
  complete_recovery,
}
use iron_dag.Wallet.Recovery.Manager.{
  Call, initiate, approval, serve, run, Rests, complete_recovery_safe,
}

-- A stand-in for the verification: the first byte of the signature is the sum of the hash and of the
-- first byte of the key.
abbrev verify : ℕ → List ℕ → List ℕ → Bool
verify hash (s ∷ _) (k ∷ _) = s == hash + k
verify hash _ _ = false

abbrev sign : ℕ → ℕ → MultiSigSignature
sign signer key = record { signer = signer; signature = (40 + key) ∷ []; public_key = key ∷ [] }

abbrev two_of_three : List MultiSigSignature → MultiSigTransaction
two_of_three signatures = record {
  wallet_address = 100;
  tx_hash = 40;
  signatures = signatures;
  threshold = 2;
  expected_signers = 1 ∷ 2 ∷ 3 ∷ [];
}

validate_iff_example : (validate verify (two_of_three (sign 1 7 ∷ sign 2 8 ∷ [])) ≡ valid) ↔ (
    (2 ≤ length (sign 1 7 ∷ sign 2 8 ∷ []))
    × AreFresh [] (sign 1 7 ∷ sign 2 8 ∷ [])
    × AreExpected (1 ∷ 2 ∷ 3 ∷ []) (sign 1 7 ∷ sign 2 8 ∷ [])
    × AreVerified verify 40 (sign 1 7 ∷ sign 2 8 ∷ []))
validate_iff_example = validate_iff verify (two_of_three (sign 1 7 ∷ sign 2 8 ∷ []))

-- The holder of key 9 signs as 1 and as 3.
forge-valid_example :
    validate verify (two_of_three (forge verify (49 ∷ []) (9 ∷ []) (1 ∷ 3 ∷ []))) ≡ valid
unfolding contains
forge-valid_example =
    forge-valid verify (two_of_three []) (49 ∷ []) (9 ∷ []) (1 ∷ 3 ∷ []) (ground arith) refl
      (refl, refl, (refl, refl, tt)) (omega arith)

-- A stand-in for the recovery of a signer: the first byte of a signature.
abbrev recover : ℕ × ℕ × ℕ → List ℕ → Option ℕ
recover message (s ∷ _) = some s
recover message [] = none

abbrev bytes : ℕ → ℕ → List ℕ
bytes zero s = []
bytes (suc n) s = s ∷ bytes n s

-- Guardians 1 and 2 approve the recovery of wallet 50 for owner 60, whose delay is 100.
abbrev calls : List (ℕ × Call)
calls =
    (1000, initiate 50 60 (1 ∷ 2 ∷ 3 ∷ []) 2 (some 100))
    ∷ (1010, approval 50 1 (bytes 65 1))
    ∷ (1020, approval 50 2 (bytes 65 2))
    ∷ []

recovered : (complete_recovery 50 1100 (run recover calls [])).0 ≡ ok 60
unfolding run serve complete_recovery get approve_recovery initiate_recovery insert add_approval
    contains update_status
recovered = refl

complete_recovery_safe_example :
    (r : RecoveryRequest) × (get 50 (run recover calls []) ≡ some r) × Rests recover r 1100 60
complete_recovery_safe_example =
    complete_recovery_safe recover calls 1000 1100 50 60
      (omega arith, (omega arith, (omega arith, omega arith))) recovered
