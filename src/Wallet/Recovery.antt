-- ===== src/Wallet/Recovery.antt =====
-- Social recovery, account_abstraction/social_recovery.rs. The recovery of a signer's address from
-- a signature over a message is a parameter; the guardians' addresses are only compared. The message
-- is the triple that is hashed: the wallet, the new owner and the time.
pub mod Safety
pub mod Manager
use Prim.Native.Nat.{ℕ, ◌*◌, ◌-◌}
use mathlib.Core.Bool.{Bool, true, false, not, ◌||◌}
use mathlib.Core.List.{List, [], ◌∷◌}
use mathlib.Core.Option.{Option, none, some}
use iron_dag.Prelude.Tests.{ltb, leb, ◌==◌, if◌then◌else◌}
use iron_dag.Prelude.Lists.{length, is_empty}
use iron_dag.Prelude.Words.{as_u8}
use iron_dag.Prelude.Eq.{nat_eq}
use iron_dag.Prelude.Map.{Map, get, insert, contains_key}
use iron_dag.Prelude.HashSet.{contains}

pub data RecoveryStatus : Type 0 where
  pending approved ready completed cancelled : RecoveryStatus

pub record RecoveryRequest : Type 0 where
  pub wallet_address : ℕ
  pub new_owner : ℕ
  pub guardians : List ℕ
  pub recovery_threshold : ℕ
  pub approvals : Map ℕ ℕ
  pub initiated_at : ℕ
  pub time_delay : ℕ
  pub status : RecoveryStatus

pub data RecoveryError : Type 0 where
  not_guardian already_approved not_pending bad_length unrecoverable wrong_signer : RecoveryError
  already_exists bad_threshold no_guardians not_found not_ready : RecoveryError

pub data Result (A : Type 0) : Type 0 where
  ok : A → Result A
  err : RecoveryError → Result A

abbrev pub is_pending : RecoveryStatus → Bool
is_pending pending = true
is_pending _ = false

unfoldable pub new_request : ℕ → ℕ → List ℕ → ℕ → ℕ → ℕ → RecoveryRequest
new_request wallet owner guardians threshold delay now = record {
  wallet_address = wallet;
  new_owner = owner;
  guardians = guardians;
  recovery_threshold = threshold;
  approvals = [];
  initiated_at = now;
  time_delay = delay;
  status = pending;
}

-- The signer of a 65-byte signature over (wallet, new owner, time), if one can be recovered.
module _ (recover : ℕ × ℕ × ℕ → List ℕ → Option ℕ) where
  -- The approval itself, and the threshold that it may meet.
  unfoldable pub approve : ℕ → ℕ → RecoveryRequest → RecoveryRequest
  approve guardian timestamp r =
      let approvals' = insert guardian timestamp r.approvals in
      record r {
        approvals = approvals';
        status = if leb r.recovery_threshold (length approvals') then approved else r.status;
      }

  unfoldable pub add_approval : ℕ → List ℕ → ℕ → RecoveryRequest → Result RecoveryRequest
  unfolding approve
  add_approval guardian signature timestamp r =
      if not (contains guardian r.guardians)
      then err not_guardian
      else if contains_key guardian r.approvals
      then err already_approved
      else if not (is_pending r.status)
      then err not_pending
      else if not (length signature == 65)
      then err bad_length
      else elim (recover (r.wallet_address, r.new_owner, timestamp) signature) [
        | none ↦ err unrecoverable
        | some signer ↦
            if signer == guardian then ok (approve guardian timestamp r) else err wrong_signer
      ]

unfoldable pub is_ready : RecoveryRequest → ℕ → Bool
is_ready r now = elim r.status [
  | approved ↦ leb r.time_delay (now - r.initiated_at)
  | ready ↦ true
  | _ ↦ false
]

unfoldable pub update_status : ℕ → RecoveryRequest → RecoveryRequest
unfolding is_ready
update_status now r = elim r.status [
  | approved ↦ if is_ready r now then record r { status = ready } else r
  | _ ↦ r
]

unfoldable pub cancel : RecoveryRequest → RecoveryRequest
cancel r = record r { status = cancelled }

abbrev pub default_time_delay : ℕ
default_time_delay = 7 * 24 * 60 * 60

abbrev pub Requests : Type 0
Requests = Map ℕ RecoveryRequest

abbrev pub or_default : Option ℕ → ℕ
or_default none = default_time_delay
or_default (some d) = d

unfoldable pub initiate_recovery :
    ℕ → ℕ → List ℕ → ℕ → Option ℕ → ℕ → Requests → Result (RecoveryRequest × Requests)
unfolding new_request
initiate_recovery wallet owner guardians threshold delay now m =
    if contains_key wallet m
    then err already_exists
    else if (threshold == 0) || ltb (as_u8 (length guardians)) threshold
    then err bad_threshold
    else if is_empty guardians
    then err no_guardians
    else let r = new_request wallet owner guardians threshold (or_default delay) now in
      ok (r, insert wallet r m)

module _ (recover : ℕ × ℕ × ℕ → List ℕ → Option ℕ) where
  unfoldable pub approve_recovery : ℕ → ℕ → List ℕ → ℕ → Requests → Result Requests
  approve_recovery wallet guardian signature now m = elim (get wallet m) [
    | none ↦ err not_found
    | some r ↦ elim (add_approval recover guardian signature now r) [
      | err e ↦ err e
      | ok r' ↦ ok (insert wallet (update_status now r') m)
    ]
  ]

-- With the map: the update of the status is kept where the completion fails.
unfoldable pub complete_recovery : ℕ → ℕ → Requests → Result ℕ × Requests
complete_recovery wallet now m = elim (get wallet m) [
  | none ↦ (err not_found, m)
  | some r ↦
      let r' = update_status now r in
      elim r'.status [
        | ready ↦ (ok r'.new_owner, insert wallet (record r' { status = completed }) m)
        | _ ↦ (err not_ready, insert wallet r' m)
      ]
]

unfoldable pub cancel_recovery : ℕ → Requests → Result Requests
unfolding cancel
cancel_recovery wallet m = elim (get wallet m) [
  | none ↦ err not_found
  | some r ↦ ok (insert wallet (cancel r) m)
]

abbrev pub is_open : RecoveryStatus → Bool
is_open completed = false
is_open cancelled = false
is_open _ = true

unfoldable pub cleanup : Requests → Requests
cleanup [] = []
cleanup ((w, r) ∷ m) = if is_open r.status then (w, r) ∷ cleanup m else cleanup m

unfoldable pub update_all_statuses : ℕ → Requests → Requests
unfolding update_status
update_all_statuses now [] = []
update_all_statuses now ((w, r) ∷ m) = (w, update_status now r) ∷ update_all_statuses now m
