-- ===== src/Wallet/Recovery/Safety.antt =====
-- No recovery completes without the approvals of enough different guardians and the time delay.
use Prim.Native.Nat.{ℕ, ◌-◌, ◌≤◌}
use mathlib.Core.Path.{◌≡◌, refl}
use mathlib.Core.Logic.{◌≢◌}
use mathlib.Core.Bool.{true}
use mathlib.Core.List.{List, [], ◌∷◌}
use mathlib.Core.Option.{Option, none}
use native.Mathlib.Omega.{arith}
use iron_dag.Prelude.Lists.{length}
use iron_dag.Prelude.Eq.{nat_eq}
use iron_dag.Prelude.Map.{Map, get, insert}
use iron_dag.Prelude.HashSet.{contains}
use iron_dag.Wallet.Recovery.{
  RecoveryStatus, pending, approved, ready, completed, cancelled, RecoveryRequest, Result, ok, err,
  new_request, approve, add_approval, update_status, cancel,
}

-- The approvals are of guardians, each of them once.
abbrev pub AreGuardians : List ℕ → Map ℕ ℕ → Type 0
AreGuardians guardians [] = Unit
AreGuardians guardians ((g, t) ∷ m) =
    (contains g guardians ≡ true) × (get g m ≡ none) × AreGuardians guardians m

-- What a status says of the number of approvals, and of the time since the initiation.
abbrev pub HasApprovals : RecoveryStatus → ℕ → ℕ → Type 0
HasApprovals pending threshold count = Unit
HasApprovals cancelled threshold count = Unit
HasApprovals _ threshold count = threshold ≤ count

abbrev pub HasWaited : RecoveryStatus → ℕ → ℕ → Type 0
HasWaited ready delay elapsed = delay ≤ elapsed
HasWaited completed delay elapsed = delay ≤ elapsed
HasWaited _ delay elapsed = Unit

pub record IsSound (now : ℕ) (r : RecoveryRequest) : Type 0 where
  pub by_guardians : AreGuardians r.guardians r.approvals
  pub enough : HasApprovals r.status r.recovery_threshold (length r.approvals)
  pub waited : HasWaited r.status r.time_delay (now - r.initiated_at)

get-insert_ne : (k j v : ℕ) (m : Map ℕ ℕ) → j ≢ k → get j (insert k v m) ≡ get j m
unfolding get insert
get-insert_ne k j v [] h = ground arith
get-insert_ne k j v ((i, w) ∷ m) h = ground (arith, get-insert_ne k j v m h)

AreGuardians-insert :
    (guardians : List ℕ) (g t : ℕ) (m : Map ℕ ℕ)
    → contains g guardians ≡ true
    → AreGuardians guardians m
    → AreGuardians guardians (insert g t m)
unfolding insert get
AreGuardians-insert guardians g t [] c h = (c, refl, tt)
AreGuardians-insert guardians g t ((i, w) ∷ m) c h =
    ground (arith, AreGuardians-insert guardians g t m c h.2, get-insert_ne g i t m)

pub new_request-IsSound :
    (wallet owner : ℕ) (guardians : List ℕ) (threshold delay now : ℕ)
    → IsSound now (new_request wallet owner guardians threshold delay now)
unfolding new_request
new_request-IsSound wallet owner guardians threshold delay now = record {
  by_guardians = tt;
  enough = tt;
  waited = tt;
}

-- Time only adds to what has passed.
pub later-IsSound : (r : RecoveryRequest) {s t : ℕ} → s ≤ t → IsSound s r → IsSound t r
later-IsSound r {s} {t} h v = record {
  by_guardians = v.by_guardians;
  enough = v.enough;
  waited =
      waits r.status r.time_delay (s - r.initiated_at) (t - r.initiated_at) (omega arith) v.waited;
}
  where
    waits : (st : RecoveryStatus) (d a b : ℕ) → a ≤ b → HasWaited st d a → HasWaited st d b
    waits pending d a b h w = tt
    waits approved d a b h w = tt
    waits ready d a b h w = omega arith
    waits completed d a b h w = omega arith
    waits cancelled d a b h w = tt

pub update_status-IsSound :
    (now : ℕ) (r : RecoveryRequest) → IsSound now r → IsSound now (update_status now r)
unfolding update_status
update_status-IsSound now r v = ground arith

pub cancel-IsSound : (now : ℕ) (r : RecoveryRequest) → IsSound now r → IsSound now (cancel r)
unfolding cancel
cancel-IsSound now r v = record { by_guardians = v.by_guardians; enough = tt; waited = tt }

module _ (recover : ℕ × ℕ × ℕ → List ℕ → Option ℕ) where
  approve-IsSound :
      (g t now : ℕ) (r : RecoveryRequest)
      → contains g r.guardians ≡ true
      → r.status ≡ pending
      → IsSound now r
      → IsSound now (approve recover g t r)
  unfolding approve
  approve-IsSound g t now r c p v =
      ground (arith, AreGuardians-insert r.guardians g t r.approvals c v.by_guardians)

  abbrev pub SoundResult : ℕ → Result RecoveryRequest → Type 0
  SoundResult now (ok r) = IsSound now r
  SoundResult now (err e) = Unit

  pub add_approval-IsSound :
      (g : ℕ) (signature : List ℕ) (t now : ℕ) (r : RecoveryRequest)
      → IsSound now r
      → SoundResult now (add_approval recover g signature t r)
  unfolding add_approval
  add_approval-IsSound g signature t now r v = ground (arith, approve-IsSound g t now r)
