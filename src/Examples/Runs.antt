-- ===== src/Examples/Runs.antt =====
-- A run from the empty document to a running call: the acquisition, the start of the backend, its
-- readiness, the submission, and the start of the call.
use rack_ai.Common.{◌≢◌, err, ℕ, true, some, none, [], ◌≡◌, refl, ok}
use rack_ai.Common.Map.{lookup, insert, modify, update_all, values, retain}
use rack_ai.Runtime.Types.Enums.{DemandState, Priority}
use rack_ai.Runtime.Admission.{acquire}
use rack_ai.Runtime.Admission.Again.{acquire-again}
use rack_ai.Runtime.Transition.{announce_start, record_process, commit_readiness}
use rack_ai.Runtime.Submission.{Submitter, submit, new_call}
use rack_ai.Runtime.Submission.Replay.{Archive}
use rack_ai.Runtime.Dispatch.{start}
use rack_ai.Runtime.Ownership.Reach.{
  empty_document, Reach, acquires, announces, starts_process, commits, submits, dispatches, here,
  next, Reach-claims,
}
use rack_ai.Runtime.Ownership.{Holding}
use rack_ai.Runtime.Flight.{SingleFlight}
use rack_ai.Runtime.Flight.Reach.{Reach-SingleFlight}
use rack_ai.Examples.{environment, config, source, identities, acquire_chat, process}
use rack_ai.Examples.Documents.{
  demand, busy_demand, acquired, announced, started, ready, submitter, request, queued_call,
  running_call, submitted, running, dispatcher,
}

acquire_succeeds :
    acquire 100 environment config source
      (identities 1)
      (ok [])
      empty_document
      (acquire_chat 1 Priority.low)
    ≡ ok (acquired, demand)
unfolding acquire lookup insert modify update_all values empty_document retain
    rack_ai.Runtime.Planner.refusal rack_ai.Runtime.Residency.retained_host_mib
    rack_ai.Runtime.Planner.fence rack_ai.Runtime.Planner.fence_victims
    rack_ai.Runtime.Planner.claim_all rack_ai.Runtime.Residency.backend_activation_for
    rack_ai.Runtime.Capacity.retention rack_ai.Runtime.Capacity.Compaction.compact_terminal_requests
    rack_ai.Runtime.Planner.supersede rack_ai.Runtime.Capacity.Compaction.compact_terminal_payloads
    rack_ai.Runtime.Planner.drain_allowance
acquire_succeeds = refl

announce_succeeds : announce_start 101 acquired demand ≡ ok (announced, true)
unfolding announce_start lookup modify rack_ai.Runtime.Service.active rack_ai.Runtime.Service.owns
    rack_ai.Runtime.Reservation.current
announce_succeeds = refl

record_succeeds : record_process announced demand process ≡ ok started
unfolding record_process lookup modify rack_ai.Runtime.Reservation.current
record_succeeds = refl

commit_succeeds : commit_readiness 102 started demand none ≡ ok ready
unfolding commit_readiness lookup modify rack_ai.Runtime.Reservation.current
    rack_ai.Runtime.Service.active rack_ai.Runtime.Reservation.commit_ready
    rack_ai.Runtime.Reservation.root rack_ai.Runtime.Reservation.members
commit_succeeds = refl

pub submit_succeeds : submit submitter ready 5 request ≡ ok (submitted, queued_call)
unfolding submit lookup modify rack_ai.Runtime.Submission.Replay.replayed values
    rack_ai.Runtime.Service.owned rack_ai.Runtime.Service.active rack_ai.Runtime.Scopes.permits
    rack_ai.Runtime.Reservation.is_ready rack_ai.Runtime.Service.owns
    rack_ai.Runtime.Admission.valid_id rack_ai.Runtime.Service.is_workspace_payload
    rack_ai.Runtime.Capacity.pending rack_ai.Runtime.Capacity.Compaction.compact_terminal_payloads
    rack_ai.Runtime.Idle.touch rack_ai.Runtime.Capacity.Compaction.compact_request
    rack_ai.Runtime.Retention.refresh rack_ai.Runtime.Capacity.retention
    rack_ai.Runtime.Capacity.Compaction.compact_terminal_requests insert
submit_succeeds = refl

pub start_succeeds :
    start dispatcher 1 submitted 9 ≡ ok (running, some (running_call, busy_demand 103))
unfolding start lookup modify rack_ai.Runtime.Scopes.cancel_closed values
    rack_ai.Runtime.Invocations.is_open rack_ai.Runtime.Service.active
    rack_ai.Runtime.Service.is_workspace rack_ai.Runtime.Service.owns
    rack_ai.Runtime.Reservation.is_ready rack_ai.Runtime.Service.inflight rack_ai.Runtime.Idle.touch
    rack_ai.Runtime.Retention.refresh
start_succeeds = refl

no_demand : (id : ℕ) → lookup id empty_document.demands ≡ none
unfolding lookup empty_document
no_demand id = refl

run : Reach empty_document running
run =
    next
      (next
        (next
          (next
            (next
              (next here (
                acquires 100 environment config source (identities 1) (ok [])
                  (acquire_chat 1 Priority.low) (λ id _. no_demand id) acquire_succeeds))
              (announces 101 demand announce_succeeds))
            (starts_process demand process record_succeeds))
          (commits 102 demand none commit_succeeds))
        (submits submitter 5 request submit_succeeds))
      (dispatches dispatcher 1 9 start_succeeds)

claimed : lookup 0 running.claims ≡ some 1
unfolding lookup
claimed = refl

Reach-claims_example : Holding running.demands 0 1
Reach-claims_example = Reach-claims 0 1 run claimed

Reach-SingleFlight_example : SingleFlight running.invocations
Reach-SingleFlight_example = Reach-SingleFlight run

granted : demand.state ≢ DemandState.unavailable
granted e = cc

acquire-again_example :
    acquire 400 environment config source
      (identities 2)
      (err 3)
      (record acquired { claims = [] })
      (acquire_chat 1 Priority.low)
    ≡ ok (record acquired { claims = [] }, demand)
acquire-again_example =
    acquire-again 100 400 environment config source (identities 1) (identities 2) (ok []) (err 3)
      empty_document (record acquired { claims = [] }) (acquire_chat 1 Priority.low)
      acquire_succeeds granted refl
