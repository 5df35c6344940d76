-- ===== src/Runtime/Submission/Matching.antt =====
-- What the comparisons of crates/rack_ai_runtime/src/inference.rs say of a call and a request.
use rack_ai.Common.{
  true, Option, some, none, ◌≡◌, refl, ◌⊎◌, inl, inr, arith, ◌==◌, list_beq_iff, nat_eq, option_eq,
  list_eq, Option-cases,
}
use rack_ai.Runtime.Types.{Invocation, Inference, Work, WorkPayload}
use rack_ai.Runtime.Config.{Environment}
use rack_ai.Runtime.Submission.Replay.{
  payload_beq, work_beq, optional_work_beq, inference_beq, request_matches, work_matches,
}

payload_beq_lem : (v w : WorkPayload) → payload_beq v w ≡ true → v ≡ w
unfolding payload_beq
payload_beq_lem (WorkPayload.inference_payload p m t) (WorkPayload.inference_payload q n u) h =
    let text : (p == q) ≡ true = ground arith in
    let same : p ≡ q = (list_beq_iff p q).0 text in ground arith
payload_beq_lem (WorkPayload.inference_payload p m t) (WorkPayload.workspace_payload w) h = cc
payload_beq_lem (WorkPayload.workspace_payload v) (WorkPayload.inference_payload q n u) h = cc
payload_beq_lem (WorkPayload.workspace_payload v) (WorkPayload.workspace_payload w) h =
    let text : (v.objective == w.objective) ≡ true = ground arith in
    let objective : v.objective ≡ w.objective = (list_beq_iff v.objective w.objective).0 text in
    let same : v ≡ w = ground arith in cc

work_beq_lem : (v w : Work) → work_beq v w ≡ true → v ≡ w
unfolding work_beq
work_beq_lem v w h = ground (arith, payload_beq_lem v.payload w.payload)

optional_work_beq_lem : (v w : Option Work) → optional_work_beq v w ≡ true → v ≡ w
unfolding optional_work_beq
optional_work_beq_lem none none h = refl
optional_work_beq_lem none (some w) h = cc
optional_work_beq_lem (some v) none h = cc
optional_work_beq_lem (some v) (some w) h = let same = work_beq_lem v w h in cc

inference_beq_lem : (a b : Inference) → inference_beq a b ≡ true → a ≡ b
unfolding inference_beq
inference_beq_lem a b h =
    let text : (a.prompt == b.prompt) ≡ true = ground arith in
    let prompt : a.prompt ≡ b.prompt = (list_beq_iff a.prompt b.prompt).0 text in
    let work = optional_work_beq_lem a.work b.work (ground arith) in ground arith

-- The call was made for this request: it keeps the digest of the request, or the request itself.
abbrev pub SameRequest : Environment → Invocation → Inference → Type 0
SameRequest env i request =
    (i.request_digest ≡ some (env.request_digest request))
    ⊎ ((i.request_digest ≡ none) × (i.request ≡ request))

abbrev pub SameWork : Environment → Invocation → Work → Type 0
SameWork env i work =
    (i.work_digest ≡ some (env.work_digest work))
    ⊎ ((i.work_digest ≡ none) × (i.request.work ≡ some work))

pub request_matches-SameRequest :
    (env : Environment) (i : Invocation) (request : Inference)
    → request_matches env i request ≡ true
    → SameRequest env i request
unfolding request_matches
request_matches-SameRequest env i request h = elim (Option-cases i.request_digest) [
  | inl e ↦ inr (e, inference_beq_lem i.request request (ground arith))
  | inr (g, e) ↦ inl (ground arith)
]

pub work_matches-SameWork :
    (env : Environment) (i : Invocation) (work : Work)
    → work_matches env i work ≡ true
    → SameWork env i work
unfolding work_matches
work_matches-SameWork env i work h = elim (Option-cases i.work_digest) [
  | inl e ↦ inr (e, optional_work_beq_lem i.request.work (some work) (ground arith))
  | inr (g, e) ↦ inl (ground arith)
]
