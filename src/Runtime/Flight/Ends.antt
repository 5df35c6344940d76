-- ===== src/Runtime/Flight/Ends.antt =====
-- The end of a call keeps one call in flight: `Completion::save` of
-- crates/rack_ai_runtime/src/dispatch.rs.
use rack_ai.Common.{
  ℕ, Bool, true, false, not, ◌||◌, ◌≡◌, arith, if◌then◌else◌, ◌==◌, nat_eq, option_eq, ok, err,
  ok_or, ok_or-eq-ok, ◌>>=◌, >>=-eq-ok, ok-injective, subst, Outcome, branch, ◌∙◌, is_none,
}
use rack_ai.Common.Map.{lookup, modify}
use rack_ai.Runtime.Types.{Document, Demand, Invocation}
use rack_ai.Runtime.Types.Enums.{InvocationState, invocation_state_eq}
use rack_ai.Runtime.Types.Messages.{Failure, Message}
use rack_ai.Runtime.Config.{Environment, Limits}
use rack_ai.Runtime.Service.{is_workspace, is_running_or_uncertain}
use rack_ai.Runtime.Capacity.{retention}
use rack_ai.Runtime.Scopes.{cancel_closed}
use rack_ai.Runtime.Idle.{touch}
use rack_ai.Runtime.Retention.{refresh}
use rack_ai.Runtime.Dispatch.Completion.{
  CompletionContext, BackendError, BackendResult, PayloadStore, save, save_call, finalize,
  child_call, outcome_call, unknown_child, with_result, with_late_result, child_uncertain,
  completed_call, failed_call,
}
use rack_ai.Runtime.Flight.{in_flight, Calmer, Calmer-trans}
use rack_ai.Runtime.Flight.Steps.{cancel_closed-Calmer, put-Calmer}
use rack_ai.Runtime.Flight.Bounds.{retention-Calmer, Lands}
use rack_ai.Runtime.Flight.Starts.{touch-calls, refresh-calls}

-- A stored value changes neither the request nor the state.
with_late_result-same :
    (store : PayloadStore) (v : ℕ) (i : Invocation) {j : Invocation}
    → with_late_result store v i ≡ ok j
    → j.request ≡ i.request
unfolding with_late_result
with_late_result-same store v i h =
    let (r, hr, h1) = >>=-eq-ok (store.store_late_result v) _ h in
    let e = ok-injective h1 in ground arith

with_result-same :
    (store : PayloadStore) (v : ℕ) (i : Invocation) {j : Invocation}
    → with_result store v i ≡ ok j
    → j.request ≡ i.request
unfolding with_result
with_result-same store v i h =
    let (r, hr, h1) = >>=-eq-ok (store.store_result v) _ h in
    let e = ok-injective h1 in ground arith

-- A running call may turn into any other of the same request.
running-Lands :
    (i j : Invocation) → i.state ≡ InvocationState.running → j.request ≡ i.request → Lands i j
unfolding in_flight is_workspace is_running_or_uncertain
running-Lands i j running same = (ground arith, λ f. ground arith)

child_call-same :
    (at : ℕ) (store : PayloadStore) (result : Outcome BackendError BackendResult) (i : Invocation)
    {j : Invocation}
    → child_call at store result i ≡ ok j
    → j.request ≡ i.request
unfolding child_call child_uncertain
child_call-same at store (err e) i h = let q = ok-injective h in ground arith
child_call-same at store (ok r) i h = with_late_result-same store r.value (child_uncertain at i) h

outcome_call-same :
    (at : ℕ) (store : PayloadStore) (text : BackendError → Message) (seen : Invocation) (d : Demand)
    (result : Outcome BackendError BackendResult) (i : Invocation) {j : Invocation}
    → outcome_call at store text seen d result i ≡ ok j
    → j.request ≡ i.request
unfolding outcome_call completed_call failed_call
outcome_call-same at store text seen d (err e) i h = let q = ok-injective h in ground arith
outcome_call-same at store text seen d (ok r) i h =
    let (j, hj, h1) =
      >>=-eq-ok
        (if is_none i.cancellation
          then with_result store r.value i
          else with_late_result store r.value i)
        _ h in
    let q = ok-injective h1 in
    let same : j.request ≡ i.request =
      branch (is_none i.cancellation) _ _ hj (λ b e. with_result-same store r.value i e)
        (λ b e. with_late_result-same store r.value i e) in
    ground arith

finalize-Calmer :
    (at idle : ℕ) (env : Environment) (l : Limits) (s : Document) (demand : ℕ) (u : Bool)
    {s' : Document}
    → finalize at idle env l s demand u ≡ ok s'
    → Calmer s.invocations s'.invocations
unfolding finalize
finalize-Calmer at idle env l s demand true h = retention-Calmer env l s h
finalize-Calmer at idle env l s demand false {s'} h =
    let (w, hw, h1) =
      >>=-eq-ok (touch s demand at >>= λ touched. refresh touched idle at) (retention env l) h in
    let (t, ht, h2) = >>=-eq-ok (touch s demand at) (λ touched. refresh touched idle at) hw in
    subst (λ m. Calmer m s'.invocations) (refresh-calls t idle at h2 ∙ touch-calls s demand at ht)
      (retention-Calmer env l w h1)

-- Only a running call ends, and nothing else takes off.
pub save-Calmer :
    (k : CompletionContext) (s : Document) (seen : Invocation) (d : Demand)
    (result : Outcome BackendError BackendResult) {s' : Document}
    → save k s seen d result ≡ ok s'
    → Calmer s.invocations s'.invocations
unfolding save save_call
save-Calmer k s seen d result {s'} h =
    let c = cancel_closed k.at k.ms s in
    let before = cancel_closed-Calmer k.at k.ms s in
    let (i, hi, h1) =
      >>=-eq-ok (ok_or (lookup seen.id c.invocations) Failure.missing_invocation) _ h in
    let stored = ok_or-eq-ok (lookup seen.id c.invocations) Failure.missing_invocation hi in
    let put : (j : Invocation)
        → i.state ≡ InvocationState.running
        → j.request ≡ i.request
        → Calmer s.invocations (modify seen.id (λ _. j) c.invocations) =
      λ j running same.
        let l = running-Lands i j running same in
        Calmer-trans s.invocations c.invocations _ before
          (put-Calmer seen.id i j c.invocations stored l.0 l.1) in
    branch (not (i.state == InvocationState.running) || not (i.activation == seen.activation)) _ _
      h1 (λ b e. absurd (ground arith))
      (λ b e.
        let running : i.state ≡ InvocationState.running = ground arith in
        branch (unknown_child c seen.id seen) _ _ e
          (λ b' e'.
            let (j, hj, e1) = >>=-eq-ok (child_call k.at k.store result i) _ e' in
            subst (λ (t : Document). Calmer s.invocations t.invocations) (ok-injective e1)
              (put j running (child_call-same k.at k.store result i hj)))
          (λ b' e'.
            let (j, hj, e1) = >>=-eq-ok (outcome_call k.at k.store k.text seen d result i) _ e' in
            Calmer-trans s.invocations (modify seen.id (λ _. j) c.invocations) s'.invocations
              (put j running (outcome_call-same k.at k.store k.text seen d result i hj))
              (finalize-Calmer k.at k.idle_timeout_seconds k.environment k.limits
                (record c { invocations = modify seen.id (λ _. j) c.invocations }) d.id
                (j.state == InvocationState.uncertain) e1)))
