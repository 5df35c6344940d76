-- ===== src/Runtime/Retirement.antt =====
-- The end of a demand that is released: crates/rack_ai_runtime/src/retirement.rs, and the same
-- terminal state in residency.rs.
use rack_ai.Common.{
  ℕ, Bool, true, false, not, ◌&&◌, some, none, ltb, leb, if◌then◌else◌, ◌==◌, nat_eq, any, is_none,
  ok, err, ◌>>=◌,
}
use rack_ai.Common.Map.{modify, retain, values}
use rack_ai.Runtime.Types.{Document, Demand, Result}
use rack_ai.Runtime.Types.Enums.{DemandState, InvocationState, invocation_state_eq}
use rack_ai.Runtime.Types.Messages.{Failure, Message}
use rack_ai.Runtime.Service.{inflight}
use rack_ai.Runtime.Reservation.{current}

unfoldable pub terminal_by_deadline : ℕ → Demand → DemandState
terminal_by_deadline at d = if leb d.deadline at then DemandState.expired else DemandState.released

unfoldable pub terminal_state : ℕ → Demand → DemandState
unfolding terminal_by_deadline
terminal_state at d = elim d.reason [
  | none ↦ terminal_by_deadline at d
  | some m ↦ elim m [
    | Message.cancelled_by_owner ↦ DemandState.cancelled
    | Message.preempted_by_higher_priority ↦ DemandState.preempted
    | Message.idle_timeout ↦ DemandState.expired
    | _ ↦ terminal_by_deadline at d
  ]
]

unfoldable pub retired : ℕ → Demand → Demand
unfolding terminal_state
retired at d = record d {
  process = none;
  effect_started = false;
  released = true;
  state = terminal_state at d;
}

unfoldable pub commit_retirement : ℕ → Document → Demand → Result Document
unfolding retired
commit_retirement at s d = do
  saved ← current s d
  ok (record s {
    demands = modify d.id (retired at) s.demands;
    claims = retain (λ owner. not (owner == d.id)) s.claims;
  })

unfoldable pub has_running : Document → ℕ → Bool
has_running s id =
    any (λ i. i.request.reservation_id == id && i.state == InvocationState.running)
      (values s.invocations)

-- `cached` is the outcome of `cache_after_release`, with the document that it left; `stop` that of
-- stopping the backend.
unfoldable pub retire :
    ℕ → Result (Document × Bool) → Result (Unit {0}) → Document → Demand → Result Document
unfolding commit_retirement has_running
retire at cached stop s d =
    if inflight s d.id && ltb at d.transition_deadline
    then ok s
    else if has_running s d.id
    then stop >>= (λ u. ok s)
    else if d.effect_started && is_none d.process
    then err Failure.start_outcome_unknown
    else elim cached [
      | ok r ↦ if r.1 then ok r.0 else (stop >>= (λ u. commit_retirement at r.0 d))
      | err e ↦ stop >>= (λ u. commit_retirement at s d)
    ]
