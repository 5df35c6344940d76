-- ===== src/Runtime/Dispatch.antt =====
-- Calls that start and end: crates/rack_ai_runtime/src/workers.rs (`eligible`) and dispatch.rs. The
-- backend runs between the two updates; its outcome is an argument.
pub mod Completion
pub mod Order
use rack_ai.Common.{
  ℕ, ◌-◌, Bool, true, false, not, ◌&&◌, ◌||◌, Option, some, none, List, ◌∷◌, [], ltb, leb,
  if◌then◌else◌, ◌==◌, nat_eq, any, count_if, is_some_and, ok, err, ok_or, ◌>>=◌, ◌>>◌, add64,
}
use rack_ai.Common.Map.{lookup, modify, values}
use rack_ai.Runtime.Types.{Document, Demand, Invocation, Result}
use rack_ai.Runtime.Types.Enums.{DemandState, InvocationState, demand_state_eq, invocation_state_eq}
use rack_ai.Runtime.Types.Messages.{Failure}
use rack_ai.Runtime.Service.{is_workspace, active, owns, inflight, is_running_or_uncertain}
use rack_ai.Runtime.Reservation.{is_ready}
use rack_ai.Runtime.Scopes.{permits, cancel_closed}
use rack_ai.Runtime.Idle.{touch}
use rack_ai.Runtime.Retention.{refresh}

-- A call that waits before `i` in the same reservation.
unfoldable pub is_ahead : Invocation → Invocation → Bool
is_ahead i other =
    other.request.reservation_id == i.request.reservation_id
    && (other.state == InvocationState.queued
        && (ltb other.queue_order i.queue_order
            || (other.queue_order == i.queue_order && ltb other.id i.id)))

unfoldable pub is_open_workspace : ℕ → Invocation → Bool
is_open_workspace reservation other =
    other.request.reservation_id == reservation
    && (is_workspace other && is_running_or_uncertain other.state)

unfoldable pub dispatchable : ℕ → Document → Demand → Bool
dispatchable at s d =
    d.state == DemandState.ready
    && (active at d && (owns s d && (is_ready at s d && not (inflight s d.id))))

unfoldable pub eligible : ℕ → ℕ → Document → Invocation → Bool
unfolding is_ahead is_open_workspace dispatchable
eligible at ms s i =
    (not (is_workspace i)
      || not (any (is_open_workspace i.request.reservation_id) (values s.invocations)))
    && (i.state == InvocationState.queued
        && (not (any (is_ahead i) (values s.invocations))
            && (ltb at i.waiting_deadline
                && (permits at ms s i.request
                    && is_some_and (lookup i.request.reservation_id s.demands)
                        (dispatchable at s)))))

-- A workspace leaves one slot free for its nested call.
unfoldable pub workspace_slot : ℕ → Document → Invocation → Bool
workspace_slot max_dispatch_workers s i =
    not (is_workspace i)
    || ltb
        (count_if (λ other. is_workspace other && other.state == InvocationState.running)
          (values s.invocations))
        (max_dispatch_workers - 1)

-- What the dispatcher knows: the seconds, the milliseconds, its configuration, and the digest that
-- authorises the calls of a workspace.
pub record Dispatcher : Type 0 where
  pub at : ℕ
  pub ms : ℕ
  pub max_dispatch_workers : ℕ
  pub idle_timeout_seconds : ℕ
  pub access_digest : ℕ → ℕ

unfoldable pub expired_call : ℕ → Invocation → Invocation
expired_call at i = record i { state = InvocationState.expired; completed = some at }

unfoldable pub started_call : Dispatcher → Demand → Invocation → Invocation
started_call k d i = record i {
  scope_access_hash =
      if is_workspace i then some (k.access_digest d.access_key) else i.scope_access_hash;
  state = InvocationState.running;
  started = some k.at;
  execution_deadline = some (add64 k.at i.request.timeout_seconds);
  activation = some d.generation;
}

unfoldable pub may_start : Dispatcher → ℕ → Document → Invocation → Demand → Bool
unfolding eligible workspace_slot
may_start k generation s i d =
    eligible k.at k.ms s i
    && (workspace_slot k.max_dispatch_workers s i
        && (d.state == DemandState.ready
            && (owns s d && (not (inflight s d.id) && d.generation == generation))))

unfoldable pub mark_started :
    Dispatcher
    → Document
    → ℕ
    → Invocation
    → Demand
    → Result (Document × Option (Invocation × Demand))
unfolding started_call
mark_started k s id i d = do
  touched ← touch s d.id k.at
  refreshed ← refresh touched k.idle_timeout_seconds k.at
  i' ← ok_or (lookup id refreshed.invocations) Failure.missing_invocation
  ok (
    record refreshed { invocations = modify id (started_call k d) refreshed.invocations },
    some (started_call k d i', d),
  )

-- The update that starts a call: it runs, it has expired, or it goes on waiting.
unfoldable pub start_open :
    Dispatcher → ℕ → Document → ℕ → Result (Document × Option (Invocation × Demand))
unfolding expired_call may_start mark_started
start_open k generation s id = do
  i ← ok_or (lookup id s.invocations) Failure.missing_invocation
  d ← ok_or (lookup i.request.reservation_id s.demands) Failure.missing_reservation
  if not (i.state == InvocationState.queued)
      then ok (s, none)
      else if leb i.waiting_deadline k.at || not (active k.at d)
      then ok (record s { invocations = modify id (expired_call k.at) s.invocations }, none)
      else if not (may_start k generation s i d)
      then ok (s, none)
      else mark_started k s id i d

unfoldable pub start :
    Dispatcher → ℕ → Document → ℕ → Result (Document × Option (Invocation × Demand))
unfolding start_open
start k generation s id = start_open k generation (cancel_closed k.at k.ms s) id
