-- ===== src/Runtime/Idle.antt =====
-- Retirement of what nobody uses: crates/rack_ai_runtime/src/idle.rs.
pub mod Eligibility
pub mod Reaping
use rack_ai.Common.{
  ℕ, ◌-◌, Bool, true, false, not, ◌&&◌, ◌||◌, some, none, List, ◌∷◌, [], map, ltb, leb, max, ◌==◌,
  nat_eq, is_some_and, unwrap_or, any, keep, ok, err, add64,
}
use rack_ai.Common.Map.{lookup, modify, values}
use rack_ai.Runtime.Types.{Document, Demand, Map, Result}
use rack_ai.Runtime.Types.Enums.{
  DemandState, InvocationState, Backend, Driver, demand_state_eq, invocation_state_eq, backend_eq,
  driver_eq,
}
use rack_ai.Runtime.Types.Messages.{Failure, Message}
use rack_ai.Runtime.Service.{owned, inflight, is_workspace}
use rack_ai.Runtime.Reservation.{members}

unfoldable pub last_activity : Demand → ℕ
last_activity d = unwrap_or d.last_activity_at d.created

unfoldable pub touched : ℕ → Demand → Demand
unfolding last_activity
touched at d = record d { last_activity_at = some (max (last_activity d) at) }

unfoldable pub touch : Document → ℕ → ℕ → Result Document
unfolding touched
touch s id at = elim (lookup id s.demands) [
  | none ↦ err Failure.missing_reservation
  | some d ↦ ok (record s { demands = modify id (touched at) s.demands })
]

unfoldable pub ready_or_preparing : DemandState → Bool
ready_or_preparing DemandState.ready = true
ready_or_preparing DemandState.preparing = true
ready_or_preparing _ = false

-- `saturating_sub` is the subtraction of natural numbers.
unfoldable pub due : Demand → ℕ → ℕ → Bool
unfolding ready_or_preparing last_activity
due d seconds at =
    not d.released && (ready_or_preparing d.state && leb seconds (at - last_activity d))

-- A workspace of the demand that runs.
unfoldable pub runs_workspace : Document → ℕ → Bool
runs_workspace s id =
    any
      (λ i.
        i.request.reservation_id == id && (is_workspace i && i.state == InvocationState.running))
      (values s.invocations)

unfoldable pub member_active : Document → ℕ → ℕ → ℕ → ℕ → Bool
unfolding runs_workspace last_activity
member_active s owner seconds at id = elim (owned s owner id) [
  | err e ↦ true
  | ok peer ↦
      not peer.released
      && (ltb (at - last_activity peer) seconds || (inflight s id || runs_workspace s id))
]

-- One active member keeps the whole reservation; so does a membership that cannot be read.
unfoldable pub group_active : Document → Demand → ℕ → ℕ → Bool
unfolding member_active
group_active s d seconds at = elim (members s d) [
  | err e ↦ true
  | ok ids ↦ any (member_active s d.owner seconds at) ids
]

unfoldable pub native_peer : Demand → Bool
unfolding ready_or_preparing
native_peer peer =
    not peer.released
    && (peer.profile.backend == Backend.comfyui
        && (not (peer.profile.driver == Driver.fixture) && ready_or_preparing peer.state))

unfoldable pub native_barrier_pending : Document → Demand → Bool
unfolding native_peer
native_barrier_pending s d = elim (members s d) [
  | err e ↦ true
  | ok ids ↦ any (λ id. is_some_and (lookup id s.demands) native_peer) ids
]

unfoldable pub eligible : Document → ℕ → ℕ → Demand → Bool
unfolding due group_active native_barrier_pending
eligible s seconds at d =
    due d seconds at
    && (not (group_active s d seconds at)
        && (not (native_barrier_pending s d)
            && (not (d.profile.backend == Backend.comfyui) || d.profile.driver == Driver.fixture)))

unfoldable pub pending : Document → ℕ → ℕ → Bool
unfolding eligible
pending s seconds at = any (eligible s seconds at) (values s.demands)

unfoldable pub expire : ℕ → Demand → Demand
expire at d = record d {
  released = true;
  state = DemandState.releasing;
  reason = some Message.idle_timeout;
  transition_deadline = add64 at d.profile.drain_seconds;
}

unfoldable pub expire_ids : ℕ → List ℕ → Map Demand → Map Demand
unfolding expire
expire_ids at [] m = m
expire_ids at (id ∷ ids) m = expire_ids at ids (modify id (expire at) m)

unfoldable pub eligible_ids : Document → ℕ → ℕ → List ℕ
unfolding eligible
eligible_ids s seconds at = map (λ d. d.id) (keep (eligible s seconds at) (values s.demands))

unfoldable pub reap : Document → ℕ → ℕ → Document
unfolding eligible_ids expire_ids
reap s seconds at = record s { demands = expire_ids at (eligible_ids s seconds at) s.demands }
