-- ===== src/Runtime/Control.antt =====
-- Renewal, release and cancellation: crates/rack_ai_runtime/src/control.rs.
pub mod Closing
use rack_ai.Common.{
  ℕ, Bool, true, false, not, ◌&&◌, ◌||◌, Option, some, none, List, ◌∷◌, [], ltb, leb, if◌then◌else◌,
  ◌==◌, nat_eq, is_none, ok, err, ◌>>=◌, add64,
}
use rack_ai.Common.Map.{lookup, modify, update_all}
use rack_ai.Runtime.Types.{Document, Demand, Invocation, Map, Result}
use rack_ai.Runtime.Types.Enums.{DemandState, InvocationState, demand_state_eq, invocation_state_eq}
use rack_ai.Runtime.Types.Messages.{Failure, Message}
use rack_ai.Runtime.Service.{owned}
use rack_ai.Runtime.Reservation.{root, members}
use rack_ai.Runtime.Invocations.{cancel}
use rack_ai.Runtime.Scopes.{cancel_closed}

pub data Action : Type 0 where
  renew : ℕ → Action
  release cancel_all : Action

unfoldable pub is_renew : Action → Bool
is_renew (Action.renew t) = true
is_renew _ = false

unfoldable pub is_cancel : Action → Bool
is_cancel Action.cancel_all = true
is_cancel _ = false

unfoldable pub renewal_barred : DemandState → Bool
renewal_barred DemandState.unavailable = true
renewal_barred DemandState.preempted = true
renewal_barred DemandState.recovery_required = true
renewal_barred _ = false

unfoldable pub renewed : ℕ → ℕ → ℕ → Demand → Result Demand
unfolding renewal_barred
renewed at max_ttl ttl d =
    if d.released || (leb d.deadline at || renewal_barred d.state)
    then err Failure.reservation_terminal
    else if ttl == 0 || ltb max_ttl ttl
    then err Failure.invalid_ttl
    else ok (record d { deadline = add64 at ttl })

unfoldable pub closing_state : Bool → DemandState
closing_state true = DemandState.cancelled
closing_state false = DemandState.released

unfoldable pub closing_reason : Bool → Message
closing_reason true = Message.cancelled_by_owner
closing_reason false = Message.released_by_owner

-- The reason of a close; an idle retirement keeps its own.
unfoldable pub reason_after_close : Bool → Option Message → Option Message
unfolding closing_reason
reason_after_close c none = some (closing_reason c)
reason_after_close c (some m) = elim m [
  | Message.idle_timeout ↦ some Message.idle_timeout
  | _ ↦ some (closing_reason c)
]

unfoldable pub closed_in_recovery : ℕ → Bool → Demand → Demand
unfolding closing_state
closed_in_recovery at c d = record d {
  released = true;
  reservation_closed = some (closing_state c);
  recovery_error = none;
  transition_deadline = add64 at (if is_none d.recovery_error then d.profile.drain_seconds else 0);
}

unfoldable pub closed_normally : ℕ → Bool → Demand → Demand
unfolding closing_state reason_after_close
closed_normally at c d = record d {
  released = true;
  reservation_closed = some (closing_state c);
  transition_deadline = add64 at d.profile.drain_seconds;
  state =
      if d.state == DemandState.unavailable then DemandState.unavailable else DemandState.releasing;
  reason = reason_after_close c d.reason;
}

unfoldable pub closed : ℕ → Bool → Demand → Demand
unfolding closed_in_recovery closed_normally
closed at c d =
    if d.state == DemandState.recovery_required
    then closed_in_recovery at c d
    else closed_normally at c d

-- The calls that a close ends: the queued ones, and all of them if it is a cancellation.
unfoldable pub close_calls : ℕ → Bool → ℕ → Map Invocation → Map Invocation
close_calls at c id = update_all λ i.
    if i.request.reservation_id == id && (i.state == InvocationState.queued || c)
    then cancel at i
    else i

-- The effect on the demand `d` that is stored under `id`.
unfoldable pub perform : ℕ → ℕ → Document → ℕ → Demand → Action → Result (Document × Demand)
unfolding renewed closed close_calls
perform at max_ttl s id d (Action.renew ttl) = do
  d' ← renewed at max_ttl ttl d
  ok (record s { demands = modify id (λ c. record c { deadline = d'.deadline }) s.demands }, d')
perform at max_ttl s id d Action.release = ok (
  record s {
    demands = modify id (closed at false) s.demands;
    invocations = close_calls at false id s.invocations;
  },
  closed at false d,
)
perform at max_ttl s id d Action.cancel_all = ok (
  record s {
    demands = modify id (closed at true) s.demands;
    invocations = close_calls at true id s.invocations;
  },
  closed at true d,
)

-- `ReservationControl::apply`.
unfoldable pub apply : ℕ → ℕ → Document → ℕ → ℕ → ℕ → Action → Result (Document × Demand)
unfolding perform is_renew
apply at max_ttl s owner id generation action = do
  d ← owned s owner id
  if d.state == DemandState.unavailable
      then ok (s, d)
      else if not (d.generation == generation)
      then err Failure.stale_generation
      else if not (is_none d.recovery_reconciliation) && not (is_renew action)
      then ok (s, d)
      else perform at max_ttl s id d action

unfoldable pub apply_members : ℕ → ℕ → Document → ℕ → Action → List ℕ → Result Document
unfolding apply
apply_members at max_ttl s owner action [] = ok s
apply_members at max_ttl s owner action (id ∷ ids) = do
  d ← owned s owner id
  r ← apply at max_ttl s owner id d.generation action
  apply_members at max_ttl r.0 owner action ids

unfoldable pub mark_closed : Action → ℕ → Document → Document
mark_closed action id s = if is_renew action then s else record s {
  demands =
      modify id (λ d. record d { reservation_closed = some (closing_state (is_cancel action)) })
        s.demands;
}

-- `reservation_control`, for a reservation that is not archived.
unfoldable pub reservation_control : ℕ → ℕ → ℕ → Document → ℕ → ℕ → Action → Result Document
unfolding apply_members mark_closed
reservation_control at ms max_ttl s owner id action = do
  d ← owned s owner id
  r ← root s d
  ids ← members s d
  s' ← apply_members at max_ttl (mark_closed action r.id s) owner action ids
  ok (cancel_closed at ms s')

-- `cancel_invocation`, for a call that is not archived.
unfoldable pub cancel_invocation : ℕ → ℕ → Document → ℕ → ℕ → Result (Document × Invocation)
cancel_invocation at ms s owner id = elim (lookup id s.invocations) [
  | none ↦ err Failure.not_found
  | some i ↦
      if i.owner == owner
      then ok (
        cancel_closed at ms (record s { invocations = modify id (cancel at) s.invocations }),
        cancel at i,
      )
      else err Failure.not_found
]
