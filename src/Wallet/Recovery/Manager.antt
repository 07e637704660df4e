-- ===== src/Wallet/Recovery/Manager.antt =====
-- The manager of recoveries over any sequence of calls.
use Prim.Native.Nat.{ℕ, ◌-◌, ◌≤◌}
use mathlib.Core.Path.{◌≡◌, refl, subst}
use mathlib.Core.Logic.{◌≢◌, ◌⊎◌, inl, inr}
use mathlib.Core.List.{List, [], ◌∷◌}
use mathlib.Core.Option.{Option, none, some}
use native.Mathlib.Omega.{arith}
use iron_dag.Prelude.Tests.{◌==◌, Option-cases, Bool-cases}
use iron_dag.Prelude.Lists.{length}
use iron_dag.Prelude.Eq.{nat_eq}
use iron_dag.Prelude.Map.{get, insert}
use iron_dag.Wallet.Recovery.Safety.{
  AreGuardians, IsSound, new_request-IsSound, later-IsSound, update_status-IsSound, cancel-IsSound,
  add_approval-IsSound,
}
use iron_dag.Wallet.Recovery.{
  or_default, completed, RecoveryRequest, RecoveryError, Result, ok, err, Requests, is_open,
  new_request, add_approval, is_ready, update_status, cancel, initiate_recovery, approve_recovery,
  complete_recovery, cancel_recovery, cleanup, update_all_statuses,
}

-- Every request of the manager.
abbrev pub AllSound : ℕ → Requests → Type 0
AllSound now [] = Unit
AllSound now ((w, r) ∷ m) = IsSound now r × AllSound now m

AllSound-insert :
    (now w : ℕ) (r : RecoveryRequest) (m : Requests)
    → IsSound now r
    → AllSound now m
    → AllSound now (insert w r m)
unfolding insert
AllSound-insert now w r [] v h = (v, tt)
AllSound-insert now w r ((j, x) ∷ m) v h = elim (Bool-cases (j == w)) [
  | inl same ↦ rw same (v, h.1)
  | inr other ↦ rw other (h.0, AllSound-insert now w r m v h.1)
]

AllSound-get :
    (now w : ℕ) (r : RecoveryRequest) (m : Requests)
    → AllSound now m
    → get w m ≡ some r
    → IsSound now r
unfolding get
AllSound-get now w r [] h e = cc
AllSound-get now w r ((j, x) ∷ m) h e = elim (Bool-cases (j == w)) [
  | inl same ↦
      let e' : some x ≡ some r = rw same at e in let e'' : x ≡ r = cc in subst (IsSound now) e'' h.0
  | inr other ↦ AllSound-get now w r m h.1 (rw other at e)
]

AllSound-later : {s t : ℕ} (m : Requests) → s ≤ t → AllSound s m → AllSound t m
AllSound-later [] h v = tt
AllSound-later ((w, r) ∷ m) h v = (later-IsSound r h v.0, AllSound-later m h v.1)

AllSound-update_all :
    (now : ℕ) (m : Requests) → AllSound now m → AllSound now (update_all_statuses now m)
unfolding update_all_statuses
AllSound-update_all now [] h = tt
AllSound-update_all now ((w, r) ∷ m) h =
    (update_status-IsSound now r h.0, AllSound-update_all now m h.1)

AllSound-cleanup : (now : ℕ) (m : Requests) → AllSound now m → AllSound now (cleanup m)
unfolding cleanup
AllSound-cleanup now [] h = tt
AllSound-cleanup now ((w, r) ∷ m) h = elim (Bool-cases (is_open r.status)) [
  | inl keep ↦ rw keep (h.0, AllSound-cleanup now m h.1)
  | inr gone ↦ rw gone (AllSound-cleanup now m h.1)
]

-- A call of the manager, with its time where it takes one.
pub data Call : Type 0 where
  initiate : ℕ → ℕ → List ℕ → ℕ → Option ℕ → Call
  approval : ℕ → ℕ → List ℕ → Call
  complete cancel_call : ℕ → Call
  clean update_all : Call

abbrev pub or_same : Requests → Result Requests → Requests
or_same m (ok m') = m'
or_same m (err _) = m

abbrev pub or_same_pair : Requests → Result (RecoveryRequest × Requests) → Requests
or_same_pair m (ok (_, m')) = m'
or_same_pair m (err _) = m

Result-cases :
    (x : Result RecoveryRequest)
    → ((r : RecoveryRequest) × (x ≡ ok r)) ⊎ ((e : RecoveryError) × (x ≡ err e))
Result-cases (ok r) = inl (r, refl)
Result-cases (err e) = inr (e, refl)

module _ (recover : ℕ × ℕ × ℕ → List ℕ → Option ℕ) where
  unfoldable pub serve : Call → ℕ → Requests → Requests
  serve (initiate w owner guardians threshold delay) now m =
      or_same_pair m (initiate_recovery w owner guardians threshold delay now m)
  serve (approval w g signature) now m = or_same m (approve_recovery recover w g signature now m)
  serve (complete w) now m = (complete_recovery w now m).1
  serve (cancel_call w) now m = or_same m (cancel_recovery w m)
  serve clean now m = cleanup m
  serve update_all now m = update_all_statuses now m

  serve-AllSound :
      (c : Call) (now : ℕ) (m : Requests) → AllSound now m → AllSound now (serve c now m)
  unfolding serve initiate_recovery approve_recovery complete_recovery cancel_recovery
  serve-AllSound (initiate w owner guardians threshold delay) now m h = ground (
    arith,
    AllSound-insert now w (new_request w owner guardians threshold (or_default delay) now) m
        (new_request-IsSound w owner guardians threshold (or_default delay) now) h,
  )
  serve-AllSound (approval w g signature) now m h = elim (Option-cases (get w m)) [
    | inl e ↦ ground arith
    | inr (r, e) ↦
        let ok_if =
          add_approval-IsSound recover g signature now now r (AllSound-get now w r m h e) in
        elim (Result-cases (add_approval recover g signature now r)) [
          | inr (x, f) ↦ ground arith
          | inl (r', f) ↦
              ground (
                arith,
                update_status-IsSound now r',
                AllSound-insert now w (update_status now r') m,
              )
        ]
  ]
  serve-AllSound (complete w) now m h = elim (Option-cases (get w m)) [
    | inl e ↦ ground arith
    | inr (r, e) ↦
        let v = update_status-IsSound now r (AllSound-get now w r m h e) in
        ground (
          arith,
          AllSound-insert now w (update_status now r) m,
          AllSound-insert now w (record (update_status now r) { status = completed }) m,
        )
  ]
  serve-AllSound (cancel_call w) now m h = elim (Option-cases (get w m)) [
    | inl e ↦ ground arith
    | inr (r, e) ↦ ground (
      arith,
      AllSound-insert now w (cancel r) m (cancel-IsSound now r (AllSound-get now w r m h e)) h,
    )
  ]
  serve-AllSound clean now m h = AllSound-cleanup now m h
  serve-AllSound update_all now m h = AllSound-update_all now m h

  -- Calls at their times.
  unfoldable pub run : List (ℕ × Call) → Requests → Requests
  run [] m = m
  run ((now, c) ∷ cs) m = run cs (serve c now m)

  -- The times do not fall, from `start` to `end`.
  abbrev pub IsTimely : ℕ → List (ℕ × Call) → ℕ → Type 0
  IsTimely start [] end = start ≤ end
  IsTimely start ((now, c) ∷ cs) end = (start ≤ now) × IsTimely now cs end

  run-AllSound :
      (cs : List (ℕ × Call)) (m : Requests) (start end : ℕ)
      → AllSound start m
      → IsTimely start cs end
      → AllSound end (run cs m)
  unfolding run
  run-AllSound [] m start end h t = AllSound-later m t h
  run-AllSound ((now, c) ∷ cs) m start end h t =
      run-AllSound cs (serve c now m) now end (serve-AllSound c now m (AllSound-later m t.0 h)) t.1

  -- What a completed recovery rests on.
  abbrev pub Rests : RecoveryRequest → ℕ → ℕ → Type 0
  Rests r now owner =
      (r.new_owner ≡ owner)
      × AreGuardians r.guardians r.approvals
      × (r.recovery_threshold ≤ length r.approvals)
      × (r.time_delay ≤ now - r.initiated_at)

  completes :
      (w now owner : ℕ) (r : RecoveryRequest) (m : Requests)
      → get w m ≡ some r
      → IsSound now r
      → (complete_recovery w now m).0 ≡ ok owner
      → Rests r now owner
  unfolding complete_recovery update_status is_ready
  completes w now owner r m e v h = (ground arith, v.by_guardians, ground arith, ground arith)

  none_completes :
      (w now owner : ℕ) (m : Requests) → get w m ≡ none → (complete_recovery w now m).0 ≢ ok owner
  unfolding complete_recovery
  none_completes w now owner m e h = ground arith

  -- Whatever calls a new manager has served, at times that do not fall: where a recovery then
  -- completes, the manager holds a request for that wallet and that new owner which guardians, each
  -- counted once, have approved in the number of its threshold, and whose delay has passed.
  pub complete_recovery_safe :
      (cs : List (ℕ × Call)) (start now w owner : ℕ)
      → IsTimely start cs now
      → (complete_recovery w now (run cs [])).0 ≡ ok owner
      → (r : RecoveryRequest) × (get w (run cs []) ≡ some r) × Rests r now owner
  complete_recovery_safe cs start now w owner t h = elim (Option-cases (get w (run cs []))) [
    | inl e ↦ absurd (none_completes w now owner (run cs []) e h)
    | inr (r, e) ↦ (
      r,
      e,
      completes w now owner r (run cs []) e
          (AllSound-get now w r (run cs []) (run-AllSound cs [] start now tt t) e) h,
    )
  ]
