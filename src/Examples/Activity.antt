-- ===== src/Examples/Activity.antt =====
-- Activity, bounds and recovery, on the documents of the run.
use rack_ai.Common.{
  ◌≢◌, ℕ, ◌<◌, ◌≤◌, Bool, true, false, Option, some, none, List, ◌∷◌, [], ◌≡◌, refl, ◌⊎◌, inl, inr,
  arith, ok, err, member, length, All, if◌then◌else◌, ◌==◌, nat_eq, saturating_add, ◌+◌,
}
use rack_ai.Common.Map.{lookup, Unique, Entries}
use rack_ai.Runtime.Types.{Document, Demand, Invocation}
use rack_ai.Runtime.Types.Enums.{InvocationState}
use rack_ai.Runtime.Types.Messages.{Message}
use rack_ai.Runtime.Config.{validate}
use rack_ai.Runtime.Service.{recover}
use rack_ai.Runtime.Service.Recovery.{Settled, recover-Settled, recover-twice}
use rack_ai.Runtime.Reservation.{members}
use rack_ai.Runtime.Idle.{eligible, expire, reap}
use rack_ai.Runtime.Idle.Reaping.{Filed, reap-Unused}
use rack_ai.Runtime.Idle.Eligibility.{Unused}
use rack_ai.Runtime.Retention.{refresh}
use rack_ai.Runtime.Retention.Extension.{Extended, refresh-Extended}
use rack_ai.Runtime.Capacity.{check_capacity, request_bytes, is_pending}
use rack_ai.Runtime.Capacity.Sufficiency.{Fits, pending_calls, check_capacity-total}
use rack_ai.Runtime.Ownership.{Keyed}
use rack_ai.Runtime.Scopes.{cancel_closed}
use rack_ai.Runtime.Dispatch.Order.{Startable, start-Startable}
use rack_ai.Runtime.Submission.Earlier.{Earlier}
use rack_ai.Examples.{environment, small_limits}
use rack_ai.Examples.Documents.{
  with_demand, ready_demand, busy_demand, ready, submitted, running, queued_call, running_call,
  dispatcher, reservation,
}
use rack_ai.Examples.Runs.{start_succeeds}

filed : Filed ready.demands
unfolding lookup
filed = ((refl, tt), (refl, tt))

ready_stored : lookup 1 ready.demands ≡ some ready_demand
unfolding lookup
ready_stored = refl

reap-Unused_example :
    ((lookup 1 (reap ready 900 2000).demands ≡ some (expire 2000 ready_demand))
      × Unused ready 900 2000 ready_demand)
    ⊎ ((lookup 1 (reap ready 900 2000).demands ≡ some ready_demand)
        × ¬ Unused ready 900 2000 ready_demand)
reap-Unused_example = reap-Unused ready 900 2000 1 ready_demand filed ready_stored

abbrev retained : Demand
retained = record ready_demand { reserve_request = some reservation; last_activity_at = some 600 }

abbrev active_document : Document
active_document = with_demand retained [] 0

abbrev refreshed : Document
refreshed = with_demand (record retained { deadline = 1550 }) [] 0

refresh_succeeds : refresh active_document 900 650 ≡ ok refreshed
unfolding refresh rack_ai.Common.Map.values members rack_ai.Runtime.Service.owned lookup
    rack_ai.Runtime.Service.owns rack_ai.Runtime.Service.inflight
    rack_ai.Runtime.Idle.runs_workspace rack_ai.Common.Map.modify
refresh_succeeds = refl

keyed : Keyed active_document.demands
unfolding lookup
keyed id d e = ground arith

retained_stored : lookup 1 active_document.demands ≡ some retained
unfolding lookup
retained_stored = refl

refresh-Extended_example :
    (d' : Demand) × (lookup 1 refreshed.demands ≡ some d')
    × ((d' ≡ retained) ⊎ Extended active_document 650 (saturating_add 650 900) retained d')
refresh-Extended_example =
    refresh-Extended active_document 900 650 1 retained keyed refresh_succeeds retained_stored

limits_valid : validate small_limits ≡ ok tt
unfolding validate
limits_valid = refl

fits : Fits environment small_limits queued_call
unfolding request_bytes
fits = record {
  request_fits = ground arith;
  response_fits = ground arith;
  no_result = refl;
  no_late_result = refl;
}

one_pending : length (pending_calls submitted) ≤ 8
unfolding is_pending rack_ai.Common.Map.values
one_pending = ground arith

every_call-Fits : All (Fits environment small_limits) (pending_calls submitted)
unfolding is_pending rack_ai.Common.Map.values
every_call-Fits = (fits, tt)

check_capacity-total_example : check_capacity environment small_limits submitted ≡ ok tt
check_capacity-total_example =
    check_capacity-total environment small_limits submitted 10 limits_valid one_pending
      every_call-Fits refl (ground arith)

abbrev uncertain_call : Invocation
uncertain_call = record running_call {
  state = InvocationState.uncertain;
  error = some Message.receiver_restart;
}

abbrev recovered : Document
recovered = record (with_demand (busy_demand 104) ((9, uncertain_call) ∷ []) 1) {
  placement_hash = some 4;
  gateway_port = some 80;
}

recover_succeeds : recover 4 80 running ≡ ok recovered
unfolding recover rack_ai.Common.Map.update_all
recover_succeeds = refl

recover-Settled_example : Settled recovered
recover-Settled_example = recover-Settled 4 80 running recover_succeeds

recover-twice_example : recover 4 80 recovered ≡ ok recovered
recover-twice_example = recover-twice 4 80 running recover_succeeds

start-Startable_example :
    Startable dispatcher 1 (cancel_closed dispatcher.at dispatcher.ms submitted) 9
start-Startable_example =
    start-Startable dispatcher 1 submitted 9 running (running_call, busy_demand 103) start_succeeds
