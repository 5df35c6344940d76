-- ===== src/Runtime/Supervisor.antt =====
-- What the supervisor reconsiders at each tick, and what it records of a transition that failed:
-- crates/rack_ai_runtime/src/supervisor.rs, with `quarantine` of recovery.rs. Receipts of managed
-- releases are files: what they say of a demand is an argument.
use rack_ai.Common.{
  ℕ, Bool, true, false, not, ◌&&◌, ◌||◌, some, List, ◌∷◌, [], map, leb, if◌then◌else◌, ◌==◌, nat_eq,
  any, keep, member, is_some_and, ok, err, ◌>>=◌, ◌>>◌, add64,
}
use rack_ai.Common.Map.{lookup, modify, update_all, values}
use rack_ai.Runtime.Types.{Document, Demand, Invocation, Map, Result}
use rack_ai.Runtime.Types.Enums.{DemandState, InvocationState, demand_state_eq, invocation_state_eq}
use rack_ai.Runtime.Types.Messages.{Failure, Message}
use rack_ai.Runtime.Service.{active, owns}
use rack_ai.Runtime.Reservation.{current}
use rack_ai.Runtime.Scopes.{cancel_closed}
use rack_ai.Runtime.Idle.{reap}
use rack_ai.Runtime.Retention.{refresh}

unfoldable pub may_elapse : DemandState → Bool
may_elapse DemandState.ready = true
may_elapse DemandState.preparing = true
may_elapse DemandState.preempting = true
may_elapse _ = false

-- A demand that owns its resources while the outcome of one of its calls is not known.
unfoldable pub uncertain_owner : Document → Demand → Bool
unfolding may_elapse
uncertain_owner s d =
    may_elapse d.state
    && (owns s d
        && any (λ i. i.request.reservation_id == d.id && i.state == InvocationState.uncertain)
            (values s.invocations))

unfoldable pub quarantined : Demand → Demand
quarantined d = record d {
  state = DemandState.recovery_required;
  reason = some Message.invocation_outcome_unknown;
}

unfoldable pub quarantine_ids : List ℕ → Map Demand → Map Demand
unfolding quarantined
quarantine_ids [] m = m
quarantine_ids (id ∷ ids) m = quarantine_ids ids (modify id quarantined m)

unfoldable pub quarantine : Document → Document
unfolding uncertain_owner quarantine_ids
quarantine s = record s {
  demands =
      quarantine_ids (map (λ d. d.id) (keep (uncertain_owner s) (values s.demands))) s.demands;
}

unfoldable pub has_victims : Demand → Bool
has_victims d = elim d.victims [ [] ↦ false | v ∷ vs ↦ true ]

-- The demands that no longer prepare although they had victims.
unfoldable pub abandoned_preemptors : Document → List ℕ
unfolding has_victims
abandoned_preemptors s =
    map (λ d. d.id)
      (keep (λ d. has_victims d && not (d.state == DemandState.preparing)) (values s.demands))

-- The incumbent of an abandoned preemption retires; it is not restored.
unfoldable pub end_preemption : ℕ → List ℕ → Demand → Demand
end_preemption at abandoned d =
    if d.state == DemandState.preempting && is_some_and d.preempted_by (λ id. member id abandoned)
    then record d {
      released = true;
      state = DemandState.releasing;
      reason = some Message.preempted_by_higher_priority;
      transition_deadline = add64 at d.profile.drain_seconds;
    }
    else d

-- A receipt of another owner or generation is an error; `true` releases the demand.
unfoldable pub check_receipts : (Demand → Result Bool) → Map Demand → Result (Unit {0})
check_receipts receipts [] = ok tt
check_receipts receipts ((id, d) ∷ m) = do _ ← receipts d; check_receipts receipts m

unfoldable pub is_receipt : Result Bool → Bool
is_receipt (ok b) = b
is_receipt (err e) = false

unfoldable pub elapsed : ℕ → Demand → Demand
unfolding may_elapse
elapsed at d =
    if not (active at d) && may_elapse d.state
    then record d {
      state = DemandState.releasing;
      transition_deadline = add64 at d.profile.drain_seconds;
    }
    else d

unfoldable pub settled_demand : ℕ → (Demand → Result Bool) → Demand → Demand
unfolding is_receipt elapsed
settled_demand at receipts d =
    elapsed at (if is_receipt (receipts d) then record d { released = true } else d)

unfoldable pub expire_waiting : ℕ → Map Demand → Invocation → Invocation
expire_waiting at demands i =
    if i.state == InvocationState.queued
      && (leb i.waiting_deadline at
          || not (is_some_and (lookup i.request.reservation_id demands) (active at)))
    then record i { state = InvocationState.expired }
    else i

-- The second half of `reconsider`, after the refresh.
unfoldable pub settle : ℕ → (Demand → Result Bool) → Document → Result Document
unfolding abandoned_preemptors end_preemption check_receipts settled_demand expire_waiting
settle at receipts s = do
  let ended = update_all (end_preemption at (abandoned_preemptors s)) s.demands
  check_receipts receipts ended
  let demands = update_all (settled_demand at receipts) ended
  ok (record s {
    demands = demands;
    invocations = update_all (expire_waiting at demands) s.invocations;
  })

unfoldable pub reconsider : ℕ → ℕ → ℕ → (Demand → Result Bool) → Document → Result Document
unfolding quarantine settle
reconsider at ms idle receipts s = do
  refreshed ← refresh (quarantine (cancel_closed at ms s)) idle at
  settle at receipts (reap refreshed idle at)

unfoldable pub is_fence_changed : Failure → Bool
is_fence_changed Failure.transition_fence_changed = true
is_fence_changed _ = false

abbrev pub retry_seconds : ℕ
retry_seconds = 2

unfoldable pub failed_transition : ℕ → Failure → Demand → Demand
failed_transition at error d = record d {
  state = DemandState.recovery_required;
  reason =
      if d.state == DemandState.recovery_required then d.reason else some (Message.failure error);
  recovery_error = some (Message.failure error);
  transition_deadline = add64 at retry_seconds;
}

-- A late failure must not erase a release, nor a commit that another callback has made.
unfoldable pub record_failure : ℕ → Failure → Document → Demand → Result Document
unfolding is_fence_changed failed_transition
record_failure at error s seen = do
  saved ← current s seen
  if (seen.state == DemandState.ready && not (saved.state == DemandState.ready))
        || (is_fence_changed error && not (saved.state == DemandState.preparing))
      then ok s
      else ok (record s { demands = modify seen.id (failed_transition at error) s.demands })
