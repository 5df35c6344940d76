-- ===== src/Runtime/Ownership/Supervision.antt =====
-- The supervisor keeps the invariant.
use rack_ai.Common.{
  ℕ, Bool, not, ◌&&◌, ◌||◌, List, ◌∷◌, [], ◌≡◌, refl, arith, ◌==◌, ok, >>=-eq-ok, ok-injective,
  subst, branch, map, keep,
}
use rack_ai.Common.Map.{modify, update_all, values}
use rack_ai.Runtime.Types.{Document, Demand, Result}
use rack_ai.Runtime.Types.Enums.{DemandState, demand_state_eq}
use rack_ai.Runtime.Types.Messages.{Failure}
use rack_ai.Runtime.Planner.{occupies_host}
use rack_ai.Runtime.Reservation.{current}
use rack_ai.Runtime.Scopes.{cancel_closed}
use rack_ai.Runtime.Idle.{reap}
use rack_ai.Runtime.Retention.{refresh}
use rack_ai.Runtime.Supervisor.{
  uncertain_owner, quarantined, quarantine_ids, quarantine, end_preemption, abandoned_preemptors,
  check_receipts, settled_demand, settle, reconsider, is_fence_changed, failed_transition,
  record_failure,
}
use rack_ai.Runtime.Ownership.{Owned, Keeps, modify-Owned, update_all-Owned, same-Owned}
use rack_ai.Runtime.Ownership.Steps.{reap-Owned, refresh-Owned, cancel_closed-Owned}

quarantined-Keeps : Keeps quarantined
unfolding quarantined occupies_host
quarantined-Keeps = record { same_id = λ d. refl; same_profile = λ d. refl; stays = λ d h. refl }

quarantine_ids-Owned :
    (ids : List ℕ) (s : Document)
    → Owned s
    → Owned (record s { demands = quarantine_ids ids s.demands })
unfolding quarantine_ids
quarantine_ids-Owned [] s o = o
quarantine_ids-Owned (id ∷ ids) s o =
    quarantine_ids-Owned ids (record s { demands = modify id quarantined s.demands })
      (modify-Owned id quarantined quarantined-Keeps o)

quarantine-Owned : (s : Document) → Owned s → Owned (quarantine s)
unfolding quarantine
quarantine-Owned s o =
    quarantine_ids-Owned (map (λ d. d.id) (keep (uncertain_owner s) (values s.demands))) s o

end_preemption-Keeps : (at : ℕ) (abandoned : List ℕ) → Keeps (end_preemption at abandoned)
unfolding end_preemption occupies_host
end_preemption-Keeps at abandoned = record {
  same_id = λ d. ground arith;
  same_profile = λ d. ground arith;
  stays = λ d h. ground arith;
}

settled_demand-Keeps :
    (at : ℕ) (receipts : Demand → Result Bool) → Keeps (settled_demand at receipts)
unfolding settled_demand occupies_host
settled_demand-Keeps at receipts = record {
  same_id = λ d. ground arith;
  same_profile = λ d. ground arith;
  stays = λ d h. ground arith;
}

settle-Owned :
    (at : ℕ) (receipts : Demand → Result Bool) (s : Document) {t : Document}
    → settle at receipts s ≡ ok t
    → Owned s
    → Owned t
unfolding settle
settle-Owned at receipts s h o =
    let f = end_preemption at (abandoned_preemptors s) in
    let ended : Document = record s { demands = update_all f s.demands } in
    let (u, hu, h1) = >>=-eq-ok (check_receipts receipts (update_all f s.demands)) _ h in
    subst Owned (ok-injective h1) (
      same-Owned
        {s = record ended { demands = update_all (settled_demand at receipts) ended.demands }} refl
        refl
        (update_all-Owned (settled_demand at receipts) (settled_demand-Keeps at receipts)
          (update_all-Owned f (end_preemption-Keeps at (abandoned_preemptors s)) o)))

pub reconsider-Owned :
    (at ms idle : ℕ) (receipts : Demand → Result Bool) (s : Document) {t : Document}
    → reconsider at ms idle receipts s ≡ ok t
    → Owned s
    → Owned t
unfolding reconsider
reconsider-Owned at ms idle receipts s h o =
    let q = quarantine (cancel_closed at ms s) in
    let (u, hu, h1) = >>=-eq-ok (refresh q idle at) _ h in
    settle-Owned at receipts (reap u idle at) h1 (
      reap-Owned u idle at (
        refresh-Owned q idle at hu
          (quarantine-Owned (cancel_closed at ms s) (cancel_closed-Owned at ms s o))))

failed_transition-Keeps : (at : ℕ) (error : Failure) → Keeps (failed_transition at error)
unfolding failed_transition occupies_host
failed_transition-Keeps at error = record {
  same_id = λ d. refl;
  same_profile = λ d. refl;
  stays = λ d h. refl;
}

pub record_failure-Owned :
    (at : ℕ) (error : Failure) (s : Document) (seen : Demand) {t : Document}
    → record_failure at error s seen ≡ ok t
    → Owned s
    → Owned t
unfolding record_failure
record_failure-Owned at error s seen h o =
    let (saved, hs, h1) = >>=-eq-ok (current s seen) _ h in
    branch
      ((seen.state == DemandState.ready && not (saved.state == DemandState.ready))
        || (is_fence_changed error && not (saved.state == DemandState.preparing)))
      _ _ h1 (λ b e. subst Owned (ok-injective e) o)
      (λ b e.
        subst Owned (ok-injective e)
          (modify-Owned seen.id (failed_transition at error) (failed_transition-Keeps at error) o))
