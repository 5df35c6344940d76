-- ===== src/Runtime/Flight/Supervision.antt =====
-- The supervisor puts no call into flight.
use rack_ai.Common.{
  ℕ, Bool, not, ◌&&◌, ◌||◌, ◌≡◌, refl, arith, ◌==◌, ok, >>=-eq-ok, ok-injective, subst, branch,
}
use rack_ai.Common.Map.{update_all}
use rack_ai.Runtime.Types.{Document, Demand, Map, Result}
use rack_ai.Runtime.Types.Enums.{DemandState, demand_state_eq, invocation_state_eq}
use rack_ai.Runtime.Types.Messages.{Failure}
use rack_ai.Runtime.Service.{is_workspace, is_running_or_uncertain}
use rack_ai.Runtime.Reservation.{current}
use rack_ai.Runtime.Scopes.{cancel_closed}
use rack_ai.Runtime.Idle.{reap}
use rack_ai.Runtime.Retention.{refresh}
use rack_ai.Runtime.Supervisor.{
  quarantine, end_preemption, abandoned_preemptors, check_receipts, settled_demand, expire_waiting,
  settle, reconsider, is_fence_changed, record_failure,
}
use rack_ai.Runtime.Flight.{in_flight, Calm, Calmer, Calmer-trans, update_all-Calmer}
use rack_ai.Runtime.Flight.Steps.{cancel_closed-Calmer}
use rack_ai.Runtime.Flight.Starts.{refresh-calls}

expire_waiting-Calm : (at : ℕ) (demands : Map Demand) → Calm (expire_waiting at demands)
unfolding expire_waiting in_flight is_workspace is_running_or_uncertain
expire_waiting-Calm at demands = record {
  same_reservation = λ i. ground arith;
  lands = λ i h. ground arith;
}

settle-Calmer :
    (at : ℕ) (receipts : Demand → Result Bool) (s : Document) {t : Document}
    → settle at receipts s ≡ ok t
    → Calmer s.invocations t.invocations
unfolding settle
settle-Calmer at receipts s h =
    let ended = update_all (end_preemption at (abandoned_preemptors s)) s.demands in
    let (u, hu, h1) = >>=-eq-ok (check_receipts receipts ended) _ h in
    subst (λ (t : Document). Calmer s.invocations t.invocations) (ok-injective h1)
      (update_all-Calmer (expire_waiting at (update_all (settled_demand at receipts) ended))
        s.invocations (expire_waiting-Calm at (update_all (settled_demand at receipts) ended)))

pub reconsider-Calmer :
    (at ms idle : ℕ) (receipts : Demand → Result Bool) (s : Document) {t : Document}
    → reconsider at ms idle receipts s ≡ ok t
    → Calmer s.invocations t.invocations
unfolding reconsider quarantine reap
reconsider-Calmer at ms idle receipts s {t} h =
    let c = cancel_closed at ms s in
    let (u, hu, h1) = >>=-eq-ok (refresh (quarantine c) idle at) _ h in
    let same : u.invocations ≡ c.invocations = refresh-calls (quarantine c) idle at hu in
    Calmer-trans s.invocations c.invocations t.invocations (cancel_closed-Calmer at ms s)
      (subst (λ m. Calmer m t.invocations) same (settle-Calmer at receipts (reap u idle at) h1))

pub record_failure-calls :
    (at : ℕ) (error : Failure) (s : Document) (seen : Demand) {t : Document}
    → record_failure at error s seen ≡ ok t
    → t.invocations ≡ s.invocations
unfolding record_failure
record_failure-calls at error s seen h =
    let (saved, hs, h1) = >>=-eq-ok (current s seen) _ h in
    branch
      ((seen.state == DemandState.ready && not (saved.state == DemandState.ready))
        || (is_fence_changed error && not (saved.state == DemandState.preparing)))
      _ _ h1 (λ b e. subst (λ (t : Document). t.invocations ≡ s.invocations) (ok-injective e) refl)
      (λ b e. subst (λ (t : Document). t.invocations ≡ s.invocations) (ok-injective e) refl)
