-- ===== src/Runtime/Ownership/Submits.antt =====
-- The acceptance of a call keeps the invariant.
use rack_ai.Common.{
  ℕ, ◌≡◌, refl, inl, inr, ok, >>=-eq-ok, ok-injective, subst, arith, Option-cases, saturating_add,
}
use rack_ai.Common.Map.{modify, insert}
use rack_ai.Runtime.Types.{Document, Invocation, Inference}
use rack_ai.Runtime.Idle.{touch}
use rack_ai.Runtime.Retention.{refresh}
use rack_ai.Runtime.Submission.{
  Submitter, admissible, new_call, store_request, count_call, enqueue, accept, submit,
}
use rack_ai.Runtime.Submission.Replay.{replayed}
use rack_ai.Runtime.Ownership.{Owned, Keeps, modify-Owned, same-Owned}
use rack_ai.Runtime.Ownership.Steps.{touch-Owned, refresh-Owned}
use rack_ai.Runtime.Ownership.Calls.{retention-Owned}

counted-Keeps : Keeps (λ d. record d { accepted_calls = saturating_add d.accepted_calls 1 })
counted-Keeps = record { same_id = λ d. refl; same_profile = λ d. refl; stays = λ d h. h }

count_call-Owned : (s : Document) (id : ℕ) → Owned s → Owned (count_call s id)
unfolding count_call
count_call-Owned s id o =
    same-Owned
      {s = record s {
        demands =
            modify id (λ d. record d { accepted_calls = saturating_add d.accepted_calls 1 })
              s.demands;
      }}
      refl refl (modify-Owned id _ counted-Keeps o)

enqueue-Owned :
    (k : Submitter) (s : Document) (i : Invocation) {t : Document}
    → enqueue k s i ≡ ok t
    → Owned s
    → Owned t
unfolding enqueue
enqueue-Owned k s i h o =
    let (u, hu, h1) = >>=-eq-ok (touch s i.request.reservation_id k.at) _ h in
    let (v, hv, h2) = >>=-eq-ok (refresh u k.idle_timeout_seconds k.at) _ h1 in
    retention-Owned k.environment k.limits (record v { invocations = insert i.id i v.invocations })
      h2
      (same-Owned {s = v} refl refl (
        refresh-Owned u k.idle_timeout_seconds k.at hv
          (touch-Owned s i.request.reservation_id k.at hu o)))

accept-Owned :
    (k : Submitter) (s : Document) (owner : ℕ) (request : Inference) {r : Document × Invocation}
    → accept k s owner request ≡ ok r
    → Owned s
    → Owned r.0
unfolding accept
accept-Owned k s owner request h o =
    let (d, hd, h1) = >>=-eq-ok (admissible k s owner request) _ h in
    let (id, hi, h2) = >>=-eq-ok k.fresh _ h1 in
    let (i, hs, h3) =
      >>=-eq-ok (store_request k (new_call k owner id s.next_invocation_order request)) _ h2 in
    let (t, ht, h4) = >>=-eq-ok (enqueue k (count_call s request.reservation_id) i) _ h3 in
    subst (λ (p : Document × Invocation). Owned p.0) (ok-injective h4)
      (enqueue-Owned k (count_call s request.reservation_id) i ht
        (count_call-Owned s request.reservation_id o))

pub submit-Owned :
    (k : Submitter) (s : Document) (owner : ℕ) (request : Inference) {r : Document × Invocation}
    → submit k s owner request ≡ ok r
    → Owned s
    → Owned r.0
unfolding submit
submit-Owned k s owner request {r} h o =
    let (found, hf, h1) = >>=-eq-ok (replayed k.at k.environment k.archive s owner request) _ h in
    elim (Option-cases found) [
      | inr (i, e) ↦
          subst (λ (p : Document × Invocation). Owned p.0) {x = (s, i)} {y = r} (ground arith) o
      | inl e ↦ accept-Owned k s owner request {r = r} (ground arith) o
    ]
