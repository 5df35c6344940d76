-- ===== src/Runtime/Ownership/Dispatch.antt =====
-- The start and the end of a call keep the invariant.
use rack_ai.Common.{
  ℕ, Bool, true, false, not, ◌||◌, Option, ◌≡◌, refl, arith, ◌==◌, nat_eq, option_eq, leb, ok,
  ok_or, ◌>>=◌, >>=-eq-ok, ok-injective, subst, Outcome, branch,
}
use rack_ai.Common.Map.{lookup, modify}
use rack_ai.Runtime.Types.{Document, Demand, Invocation}
use rack_ai.Runtime.Types.Enums.{InvocationState, invocation_state_eq}
use rack_ai.Runtime.Types.Messages.{Failure}
use rack_ai.Runtime.Config.{Environment, Limits}
use rack_ai.Runtime.Service.{active}
use rack_ai.Runtime.Capacity.{retention}
use rack_ai.Runtime.Scopes.{cancel_closed}
use rack_ai.Runtime.Idle.{touch}
use rack_ai.Runtime.Retention.{refresh}
use rack_ai.Runtime.Dispatch.{Dispatcher, may_start, mark_started, start_open, start}
use rack_ai.Runtime.Dispatch.Completion.{
  CompletionContext, BackendError, BackendResult, save, save_call, finalize, child_call,
  outcome_call, unknown_child,
}
use rack_ai.Runtime.Ownership.{Owned, same-Owned}
use rack_ai.Runtime.Ownership.Steps.{touch-Owned, refresh-Owned, cancel_closed-Owned}
use rack_ai.Runtime.Ownership.Calls.{retention-Owned}

mark_started-Owned :
    (k : Dispatcher) (s : Document) (id : ℕ) (i : Invocation) (d : Demand)
    {r : Document × Option (Invocation × Demand)}
    → mark_started k s id i d ≡ ok r
    → Owned s
    → Owned r.0
unfolding mark_started
mark_started-Owned k s id i d {r} h o =
    let (t, ht, h1) = >>=-eq-ok (touch s d.id k.at) _ h in
    let (u, hu, h2) = >>=-eq-ok (refresh t k.idle_timeout_seconds k.at) _ h1 in
    let (j, hj, h3) = >>=-eq-ok (ok_or (lookup id u.invocations) Failure.missing_invocation) _ h2 in
    subst (λ (t : Document × Option (Invocation × Demand)). Owned t.0) (ok-injective h3)
      (same-Owned refl refl
        (refresh-Owned t k.idle_timeout_seconds k.at hu (touch-Owned s d.id k.at ht o)))

pub start-Owned :
    (k : Dispatcher) (generation : ℕ) (s : Document) (id : ℕ)
    {r : Document × Option (Invocation × Demand)}
    → start k generation s id ≡ ok r
    → Owned s
    → Owned r.0
unfolding start start_open
start-Owned k generation s id {r} h o =
    let c = cancel_closed k.at k.ms s in
    let oc = cancel_closed-Owned k.at k.ms s o in
    let (i, hi, h1) = >>=-eq-ok (ok_or (lookup id c.invocations) Failure.missing_invocation) _ h in
    let (d, hd, h2) =
      >>=-eq-ok (ok_or (lookup i.request.reservation_id c.demands) Failure.missing_reservation) _
        h1 in
    branch (not (i.state == InvocationState.queued)) _ _ h2
      (λ b e.
        subst (λ (t : Document × Option (Invocation × Demand)). Owned t.0) (ok-injective e) oc)
      (λ b e.
        branch (leb i.waiting_deadline k.at || not (active k.at d)) _ _ e
          (λ b' e'.
            subst (λ (t : Document × Option (Invocation × Demand)). Owned t.0) (ok-injective e')
              (same-Owned refl refl oc))
          (λ b' e'.
            branch (not (may_start k generation c i d)) _ _ e'
              (λ b2 e2.
                subst (λ (t : Document × Option (Invocation × Demand)). Owned t.0) (ok-injective e2)
                  oc)
              (λ b2 e2. mark_started-Owned k c id i d e2 oc)))

finalize-Owned :
    (at idle : ℕ) (env : Environment) (l : Limits) (s : Document) (demand : ℕ) (u : Bool)
    {s' : Document}
    → finalize at idle env l s demand u ≡ ok s'
    → Owned s
    → Owned s'
unfolding finalize
finalize-Owned at idle env l s demand true h o = retention-Owned env l s h o
finalize-Owned at idle env l s demand false h o =
    let (w, hw, h1) =
      >>=-eq-ok (touch s demand at >>= λ touched. refresh touched idle at) (retention env l) h in
    let (t, ht, h2) = >>=-eq-ok (touch s demand at) (λ touched. refresh touched idle at) hw in
    retention-Owned env l w h1 (refresh-Owned t idle at h2 (touch-Owned s demand at ht o))

pub save-Owned :
    (k : CompletionContext) (s : Document) (seen : Invocation) (d : Demand)
    (result : Outcome BackendError BackendResult) {s' : Document}
    → save k s seen d result ≡ ok s'
    → Owned s
    → Owned s'
unfolding save save_call
save-Owned k s seen d result {s'} h o =
    let c = cancel_closed k.at k.ms s in
    let oc = cancel_closed-Owned k.at k.ms s o in
    let (i, hi, h1) =
      >>=-eq-ok (ok_or (lookup seen.id c.invocations) Failure.missing_invocation) _ h in
    branch (not (i.state == InvocationState.running) || not (i.activation == seen.activation)) _ _
      h1 (λ b e. absurd (ground arith))
      (λ b e.
        branch (unknown_child c seen.id seen) _ _ e
          (λ b' e'.
            let (j, hj, e1) = >>=-eq-ok (child_call k.at k.store result i) _ e' in
            subst Owned (ok-injective e1) (same-Owned refl refl oc))
          (λ b' e'.
            let (j, hj, e1) = >>=-eq-ok (outcome_call k.at k.store k.text seen d result i) _ e' in
            finalize-Owned k.at k.idle_timeout_seconds k.environment k.limits
              (record c { invocations = modify seen.id (λ _. j) c.invocations }) d.id
              (j.state == InvocationState.uncertain) e1 (same-Owned refl refl oc)))
