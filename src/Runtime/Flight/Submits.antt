-- ===== src/Runtime/Flight/Submits.antt =====
-- The acceptance of a call keeps one call in flight: a new one is queued.
use rack_ai.Common.{
  ℕ, false, Option, some, none, ◌≡◌, refl, inl, inr, ok, >>=-eq-ok, ok-injective, subst, arith,
  Option-cases, Bool-cases, ◌==◌, nat_eq, sym, ◌∙◌,
}
use rack_ai.Common.Map.{insert, lookup-insert}
use rack_ai.Runtime.Types.{Document, Invocation, Inference, Work, Map}
use rack_ai.Runtime.Types.Enums.{InvocationState}
use rack_ai.Runtime.Config.{Environment}
use rack_ai.Runtime.Service.{is_running_or_uncertain}
use rack_ai.Runtime.Idle.{touch}
use rack_ai.Runtime.Retention.{refresh}
use rack_ai.Runtime.Submission.{
  Submitter, admissible, new_call, measured_work, store_request, count_call, enqueue, accept,
  submit,
}
use rack_ai.Runtime.Submission.Replay.{replayed}
use rack_ai.Runtime.Flight.{in_flight, SingleFlight, Calmer-SingleFlight}
use rack_ai.Runtime.Flight.Bounds.{retention-Calmer}
use rack_ai.Runtime.Flight.Starts.{touch-calls, refresh-calls}

insert-SingleFlight :
    (k : ℕ) (v : Invocation) (m : Map Invocation)
    → in_flight v ≡ false
    → SingleFlight m
    → SingleFlight (insert k v m)
insert-SingleFlight k v m grounded single x y a b ea eb fa fb r = elim (Bool-cases (x == k)) [
  | inl hit ↦
      let q : v ≡ a = ground (arith, lookup-insert x k v m) in
      let p : in_flight a ≡ false = subst (λ w. in_flight w ≡ false) q grounded in
      absurd (ground arith)
  | inr miss ↦ elim (Bool-cases (y == k)) [
    | inl hit ↦
        let q : v ≡ b = ground (arith, lookup-insert y k v m) in
        let p : in_flight b ≡ false = subst (λ w. in_flight w ≡ false) q grounded in
        absurd (ground arith)
    | inr other ↦
        single x y a b (ground (arith, lookup-insert x k v m))
          (ground (arith, lookup-insert y k v m)) fa fb r
  ]
]

measured_work-state :
    (env : Environment) (w : Option Work) (i : Invocation) {j : Invocation}
    → measured_work env w i ≡ ok j
    → j.state ≡ i.state
unfolding measured_work
measured_work-state env none i h = let e = ok-injective h in ground arith
measured_work-state env (some w) i h =
    let (b, hb, h1) = >>=-eq-ok (env.work_length w) _ h in let e = ok-injective h1 in ground arith

pub store_request-state :
    (k : Submitter) (i : Invocation) {j : Invocation} → store_request k i ≡ ok j → j.state ≡ i.state
unfolding store_request
store_request-state k i h =
    let (r, hr, h1) = >>=-eq-ok (k.store i.owner i.id i.request) _ h in
    let (m, hm, h2) = >>=-eq-ok (measured_work k.environment i.request.work _) _ h1 in
    let q = measured_work-state k.environment i.request.work _ hm in
    let e = ok-injective h2 in ground arith

pub new_call-queued :
    (k : Submitter) (owner id order : ℕ) (request : Inference)
    → (new_call k owner id order request).state ≡ InvocationState.queued
unfolding new_call
new_call-queued k owner id order request = refl

queued-grounded : (i : Invocation) → i.state ≡ InvocationState.queued → in_flight i ≡ false
unfolding in_flight is_running_or_uncertain
queued-grounded i h = ground arith

enqueue-SingleFlight :
    (k : Submitter) (s : Document) (i : Invocation) {t : Document}
    → enqueue k s i ≡ ok t
    → i.state ≡ InvocationState.queued
    → SingleFlight s.invocations
    → SingleFlight t.invocations
unfolding enqueue
enqueue-SingleFlight k s i {t} h queued single =
    let (u, hu, h1) = >>=-eq-ok (touch s i.request.reservation_id k.at) _ h in
    let (v, hv, h2) = >>=-eq-ok (refresh u k.idle_timeout_seconds k.at) _ h1 in
    let same =
      refresh-calls u k.idle_timeout_seconds k.at hv
      ∙ touch-calls s i.request.reservation_id k.at hu in
    Calmer-SingleFlight (insert i.id i v.invocations) t.invocations
      (retention-Calmer k.environment k.limits
        (record v { invocations = insert i.id i v.invocations }) h2)
      (insert-SingleFlight i.id i v.invocations (queued-grounded i queued)
        (subst SingleFlight (sym same) single))

count_call-same : (s : Document) (id : ℕ) → (count_call s id).invocations ≡ s.invocations
unfolding count_call
count_call-same s id = refl

accept-SingleFlight :
    (k : Submitter) (s : Document) (owner : ℕ) (request : Inference) {r : Document × Invocation}
    → accept k s owner request ≡ ok r
    → SingleFlight s.invocations
    → SingleFlight (r.0).invocations
unfolding accept
accept-SingleFlight k s owner request h single =
    let (d, hd, h1) = >>=-eq-ok (admissible k s owner request) _ h in
    let (id, hi, h2) = >>=-eq-ok k.fresh _ h1 in
    let call = new_call k owner id s.next_invocation_order request in
    let (i, hs, h3) = >>=-eq-ok (store_request k call) _ h2 in
    let (t, ht, h4) = >>=-eq-ok (enqueue k (count_call s request.reservation_id) i) _ h3 in
    subst (λ (p : Document × Invocation). SingleFlight (p.0).invocations) (ok-injective h4)
      (enqueue-SingleFlight k (count_call s request.reservation_id) i ht
        (store_request-state k call hs ∙ new_call-queued k owner id s.next_invocation_order request)
        (subst SingleFlight (sym (count_call-same s request.reservation_id)) single))

pub submit-SingleFlight :
    (k : Submitter) (s : Document) (owner : ℕ) (request : Inference) {r : Document × Invocation}
    → submit k s owner request ≡ ok r
    → SingleFlight s.invocations
    → SingleFlight (r.0).invocations
unfolding submit
submit-SingleFlight k s owner request {r} h single =
    let (found, hf, h1) = >>=-eq-ok (replayed k.at k.environment k.archive s owner request) _ h in
    elim (Option-cases found) [
      | inr (i, e) ↦
          subst (λ (p : Document × Invocation). SingleFlight (p.0).invocations) {x = (s, i)} {y = r}
            (ground arith) single
      | inl e ↦ accept-SingleFlight k s owner request {r = r} (ground arith) single
    ]
