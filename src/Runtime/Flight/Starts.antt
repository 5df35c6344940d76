-- ===== src/Runtime/Flight/Starts.antt =====
-- The start of a call keeps one call in flight: crates/rack_ai_runtime/src/dispatch.rs.
use rack_ai.Common.{
  ℕ, true, false, not, ◌||◌, Option, some, ◌≡◌, refl, arith, inl, inr, ◌==◌, nat_eq, option_eq, leb,
  ok, ok_or, ok_or-eq-ok, >>=-eq-ok, ok-injective, subst, Option-cases, branch, sym, ◌∙◌,
}
use rack_ai.Common.Map.{lookup, modify}
use rack_ai.Runtime.Types.{Document, Demand, Invocation}
use rack_ai.Runtime.Types.Enums.{InvocationState, invocation_state_eq}
use rack_ai.Runtime.Types.Messages.{Failure}
use rack_ai.Runtime.Service.{is_workspace, is_running_or_uncertain, inflight, active}
use rack_ai.Runtime.Scopes.{cancel_closed}
use rack_ai.Runtime.Idle.{touch}
use rack_ai.Runtime.Retention.{refresh, extensions, apply_extensions}
use rack_ai.Runtime.Dispatch.{
  Dispatcher, expired_call, started_call, may_start, mark_started, start_open, start,
}
use rack_ai.Runtime.Ownership.{Keyed}
use rack_ai.Runtime.Flight.{
  in_flight, Calm, Calmer-SingleFlight, modify-Calmer, modify-SingleFlight, SingleFlight,
}
use rack_ai.Runtime.Flight.Steps.{cancel_closed-Calmer}

pub touch-calls :
    (s : Document) (id at : ℕ) {s' : Document}
    → touch s id at ≡ ok s'
    → s'.invocations ≡ s.invocations
unfolding touch
touch-calls s id at {s'} h = elim (Option-cases (lookup id s.demands)) [
  | inl e ↦ absurd (ground arith)
  | inr (d, e) ↦ ground arith
]

pub refresh-calls :
    (s : Document) (seconds at : ℕ) {s' : Document}
    → refresh s seconds at ≡ ok s'
    → s'.invocations ≡ s.invocations
unfolding refresh
refresh-calls s seconds at {s'} h =
    let (us, hu, h1) = >>=-eq-ok (extensions s seconds at) _ h in
    let (m, hm, h2) = >>=-eq-ok (apply_extensions us s.demands) _ h1 in
    let e = ok-injective h2 in ground arith

expired-Calm : (at : ℕ) → Calm (expired_call at)
unfolding expired_call in_flight is_workspace is_running_or_uncertain
expired-Calm at = record { same_reservation = λ i. refl; lands = λ i h. ground arith }

started_call-same :
    (k : Dispatcher) (d : Demand) (i : Invocation)
    → (started_call k d i).request.reservation_id ≡ i.request.reservation_id
unfolding started_call
started_call-same k d i = refl

mark_started-SingleFlight :
    (k : Dispatcher) (s : Document) (id : ℕ) (i : Invocation) (d : Demand)
    {r : Document × Option (Invocation × Demand)}
    → mark_started k s id i d ≡ ok r
    → lookup id s.invocations ≡ some i
    → inflight s i.request.reservation_id ≡ false
    → SingleFlight s.invocations
    → SingleFlight (r.0).invocations
unfolding mark_started
mark_started-SingleFlight k s id i d {r} h stored clear single =
    let (t, ht, h1) = >>=-eq-ok (touch s d.id k.at) _ h in
    let (u, hu, h2) = >>=-eq-ok (refresh t k.idle_timeout_seconds k.at) _ h1 in
    let (j, hj, h3) = >>=-eq-ok (ok_or (lookup id u.invocations) Failure.missing_invocation) _ h2 in
    let same = refresh-calls t k.idle_timeout_seconds k.at hu ∙ touch-calls s d.id k.at ht in
    subst (λ (t : Document × Option (Invocation × Demand)). SingleFlight (t.0).invocations)
      (ok-injective h3)
      (subst (λ m. SingleFlight (modify id (started_call k d) m)) (sym same)
        (modify-SingleFlight id (started_call k d) s i.request.reservation_id i
          (λ a. started_call-same k d a) stored refl clear single))

may_start-clear :
    (k : Dispatcher) (generation : ℕ) (s : Document) (i : Invocation) (d : Demand)
    → may_start k generation s i d ≡ true
    → inflight s d.id ≡ false
unfolding may_start
may_start-clear k generation s i d h = ground arith

cancel_closed-Keyed :
    (at ms : ℕ) (s : Document) → Keyed s.demands → Keyed (cancel_closed at ms s).demands
unfolding cancel_closed
cancel_closed-Keyed at ms s keyed = keyed

-- The start of a call whose reservation has another call in flight does nothing.
start_open-SingleFlight :
    (k : Dispatcher) (generation : ℕ) (s : Document) (id : ℕ)
    {r : Document × Option (Invocation × Demand)}
    → start_open k generation s id ≡ ok r
    → Keyed s.demands
    → SingleFlight s.invocations
    → SingleFlight (r.0).invocations
unfolding start_open
start_open-SingleFlight k generation s id {r} h keyed single =
    let (i, hi, h1) = >>=-eq-ok (ok_or (lookup id s.invocations) Failure.missing_invocation) _ h in
    let (d, hd, h2) =
      >>=-eq-ok (ok_or (lookup i.request.reservation_id s.demands) Failure.missing_reservation) _
        h1 in
    let stored = ok_or-eq-ok (lookup id s.invocations) Failure.missing_invocation hi in
    let named =
      keyed i.request.reservation_id d
        (ok_or-eq-ok (lookup i.request.reservation_id s.demands) Failure.missing_reservation hd) in
    let P = λ (t : Document × Option (Invocation × Demand)). SingleFlight (t.0).invocations in
    branch (not (i.state == InvocationState.queued)) _ _ h2 (λ b e. subst P (ok-injective e) single)
      (λ b e.
        branch (leb i.waiting_deadline k.at || not (active k.at d)) _ _ e
          (λ b' e'. subst P (ok-injective e') (
            Calmer-SingleFlight s.invocations (modify id (expired_call k.at) s.invocations)
              (modify-Calmer id (expired_call k.at) s.invocations (expired-Calm k.at)) single))
          (λ b' e'.
            branch (not (may_start k generation s i d)) _ _ e'
              (λ b2 e2. subst P (ok-injective e2) single)
              (λ b2 e2.
                mark_started-SingleFlight k s id i d e2 stored
                  (subst (λ n. inflight s n ≡ false) named
                    (may_start-clear k generation s i d (ground arith)))
                  single)))

pub start-SingleFlight :
    (k : Dispatcher) (generation : ℕ) (s : Document) (id : ℕ)
    {r : Document × Option (Invocation × Demand)}
    → start k generation s id ≡ ok r
    → Keyed s.demands
    → SingleFlight s.invocations
    → SingleFlight (r.0).invocations
unfolding start
start-SingleFlight k generation s id h keyed single =
    start_open-SingleFlight k generation (cancel_closed k.at k.ms s) id h
      (cancel_closed-Keyed k.at k.ms s keyed)
      (Calmer-SingleFlight s.invocations (cancel_closed k.at k.ms s).invocations
        (cancel_closed-Calmer k.at k.ms s) single)
