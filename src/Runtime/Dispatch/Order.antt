-- ===== src/Runtime/Dispatch/Order.antt =====
-- Which call a dispatcher starts.
use rack_ai.Common.{
  ℕ, ◌<◌, true, false, not, ◌||◌, some, ◌≡◌, arith, ◌==◌, nat_eq, leb, any, ok, ok_or, ok_or-eq-ok,
  >>=-eq-ok, ok-injective, branch,
}
use rack_ai.Common.Map.{lookup, values}
use rack_ai.Runtime.Types.{Document, Demand, Invocation}
use rack_ai.Runtime.Types.Enums.{DemandState, InvocationState, demand_state_eq, invocation_state_eq}
use rack_ai.Runtime.Types.Messages.{Failure}
use rack_ai.Runtime.Service.{active, owns, inflight}
use rack_ai.Runtime.Scopes.{cancel_closed, permits}
use rack_ai.Runtime.Dispatch.{
  Dispatcher, is_ahead, dispatchable, eligible, may_start, start_open, start,
}

-- The call waits first in its reservation, in time and within its scope, under a demand that is
-- ready, active, owns its resources, has the expected generation and no other call in flight.
pub record Startable (k : Dispatcher) (generation : ℕ) (s : Document) (id : ℕ) : Type 0 where
  pub call : Invocation
  pub demand : Demand
  pub stored : lookup id s.invocations ≡ some call
  pub reserved : lookup call.request.reservation_id s.demands ≡ some demand
  pub is_queued : call.state ≡ InvocationState.queued
  pub first : any (is_ahead call) (values s.invocations) ≡ false
  pub in_time : k.at < call.waiting_deadline
  pub in_scope : permits k.at k.ms s call.request ≡ true
  pub is_ready : demand.state ≡ DemandState.ready
  pub is_active : active k.at demand ≡ true
  pub owning : owns s demand ≡ true
  pub alone : inflight s demand.id ≡ false
  pub same_generation : demand.generation ≡ generation

start_open-Startable :
    (k : Dispatcher) (generation : ℕ) (s : Document) (id : ℕ) (t : Document)
    (p : Invocation × Demand)
    → start_open k generation s id ≡ ok (t, some p)
    → Startable k generation s id
unfolding start_open may_start eligible dispatchable
start_open-Startable k generation s id t p h =
    let (i, hi, h1) = >>=-eq-ok (ok_or (lookup id s.invocations) Failure.missing_invocation) _ h in
    let (d, hd, h2) =
      >>=-eq-ok (ok_or (lookup i.request.reservation_id s.demands) Failure.missing_reservation) _
        h1 in
    branch (not (i.state == InvocationState.queued)) _ _ h2
      (λ b e. absurd (let q = ok-injective e in ground arith))
      (λ b e.
        branch (leb i.waiting_deadline k.at || not (active k.at d)) _ _ e
          (λ b' e'. absurd (let q = ok-injective e' in ground arith))
          (λ b' e'.
            branch (not (may_start k generation s i d)) _ _ e'
              (λ b2 e2. absurd (let q = ok-injective e2 in ground arith))
              (λ b2 e2. record {
                call = i;
                demand = d;
                stored = ok_or-eq-ok (lookup id s.invocations) Failure.missing_invocation hi;
                reserved =
                    ok_or-eq-ok (lookup i.request.reservation_id s.demands)
                      Failure.missing_reservation hd;
                is_queued = ground arith;
                first = ground arith;
                in_time = ground arith;
                in_scope = ground arith;
                is_ready = ground arith;
                is_active = ground arith;
                owning = ground arith;
                alone = ground arith;
                same_generation = ground arith;
              })))

-- A dispatcher starts a call only if, once the calls of closed scopes are cancelled, it waits
-- first in its reservation, in time and within its scope, and its demand is ready, active, of the
-- expected generation, owns its resources and has no other call in flight.
pub start-Startable :
    (k : Dispatcher) (generation : ℕ) (s : Document) (id : ℕ) (t : Document)
    (p : Invocation × Demand)
    → start k generation s id ≡ ok (t, some p)
    → Startable k generation (cancel_closed k.at k.ms s) id
unfolding start
start-Startable k generation s id t p h =
    start_open-Startable k generation (cancel_closed k.at k.ms s) id t p h
