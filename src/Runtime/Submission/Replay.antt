-- ===== src/Runtime/Submission/Replay.antt =====
-- A submission that comes again: `request_matches` and `work_matches` of
-- crates/rack_ai_runtime/src/inference.rs, `find` of work.rs, and the first half of
-- `Submission::submit`. The history archive is read outside of the document: what it finds is an
-- argument.
use rack_ai.Common.{
  ℕ, Bool, true, false, not, ◌&&◌, ◌||◌, Option, some, none, ltb, if◌then◌else◌, ◌==◌, nat_eq,
  option_eq, list_eq, find, is_some_and, ok, err, ◌>>=◌,
}
use rack_ai.Common.Map.{values}
use rack_ai.Runtime.Types.{Document, Invocation, Inference, Work, WorkPayload, Result}
use rack_ai.Runtime.Types.Messages.{Failure}
use rack_ai.Runtime.Config.{Environment}
use rack_ai.Runtime.Service.{owned, active}
use rack_ai.Runtime.Reservation.{select}

unfoldable pub payload_beq : WorkPayload → WorkPayload → Bool
payload_beq (WorkPayload.inference_payload p m t) (WorkPayload.inference_payload q n u) =
    p == q && (m == n && t == u)
payload_beq (WorkPayload.workspace_payload v) (WorkPayload.workspace_payload w) =
    v.objective == w.objective && (v.timeout_seconds == w.timeout_seconds && v.details == w.details)
payload_beq _ _ = false

unfoldable pub work_beq : Work → Work → Bool
unfolding payload_beq
work_beq v w =
    v.reservation_id == w.reservation_id
    && (v.service == w.service
        && (v.work_id == w.work_id
            && (payload_beq v.payload w.payload && v.wait_seconds == w.wait_seconds)))

unfoldable pub optional_work_beq : Option Work → Option Work → Bool
unfolding work_beq
optional_work_beq none none = true
optional_work_beq (some v) (some w) = work_beq v w
optional_work_beq _ _ = false

unfoldable pub inference_beq : Inference → Inference → Bool
unfolding optional_work_beq
inference_beq a b =
    optional_work_beq a.work b.work
    && (a.schema == b.schema
        && (a.submission_id == b.submission_id
            && (a.reservation_id == b.reservation_id
                && (a.generation == b.generation
                    && (a.profile_hash == b.profile_hash
                        && (a.prompt == b.prompt
                            && (a.payload == b.payload
                                && (a.max_tokens == b.max_tokens
                                    && (a.timeout_seconds == b.timeout_seconds
                                        && (a.wait_seconds == b.wait_seconds
                                            && a.workspace_scope == b.workspace_scope))))))))))

-- A compacted call is compared by its digest.
unfoldable pub request_matches : Environment → Invocation → Inference → Bool
unfolding inference_beq
request_matches env i request = elim i.request_digest [
  | some digest ↦ env.request_digest request == digest
  | none ↦ inference_beq i.request request
]

unfoldable pub work_matches : Environment → Invocation → Work → Bool
unfolding optional_work_beq
work_matches env i work = elim i.work_digest [
  | some digest ↦ env.work_digest work == digest
  | none ↦ optional_work_beq i.request.work (some work)
]

unfoldable pub find_work : Document → ℕ → ℕ → Option Invocation
find_work s owner id =
    find (λ i. i.owner == owner && is_some_and i.request.work (λ w. w.work_id == id))
      (values s.invocations)

unfoldable pub find_submission : Document → ℕ → Inference → Option Invocation
find_submission s owner request =
    find
      (λ i.
        i.owner == owner
        && (i.request.reservation_id == request.reservation_id
            && i.request.submission_id == request.submission_id))
      (values s.invocations)

-- What the archive of ended reservations knows of an owner's work or submission.
pub record Archive : Type 0 where
  pub lookup_work : ℕ → ℕ → Result (Option Invocation)
  pub lookup_submission : ℕ → ℕ → ℕ → Result (Option Invocation)

unfoldable pub archived_identity_lookup_needed : ℕ → Document → ℕ → Inference → Bool
archived_identity_lookup_needed at s owner request = elim (owned s owner request.reservation_id) [
  | err e ↦ true
  | ok d ↦ if active at d then ltb 0 d.accepted_calls else true
]

-- The call that was found answers the submission, if it is the same.
unfoldable pub answer : Bool → Invocation → Result (Option Invocation)
answer true i = ok (some i)
answer false i = err Failure.identity_conflict

unfoldable pub selected_service : Document → ℕ → Inference → Work → Result (Option Invocation)
selected_service s owner request w = do
  selected ← select s owner w.reservation_id w.service
  if not (selected.id == request.reservation_id) then err Failure.service_not_reserved else ok none

unfoldable pub archived_work : Environment → Archive → Bool → ℕ → Work → Result (Option Invocation)
unfolding answer
archived_work env archive needed owner w =
    (if needed then archive.lookup_work owner w.work_id else ok none) >>= λ found. elim found [
      | some i ↦ answer (work_matches env i w) i
      | none ↦ ok none
    ]

-- `none` lets the submission go on.
unfoldable pub replayed_work :
    Environment
    → Archive
    → Bool
    → Document
    → ℕ
    → Inference
    → Option Work
    → Result (Option Invocation)
unfolding answer archived_work selected_service find_work
replayed_work env archive needed s owner request none = ok none
replayed_work env archive needed s owner request (some w) = elim (find_work s owner w.work_id) [
  | some i ↦ answer (work_matches env i w) i
  | none ↦ archived_work env archive needed owner w >>= λ found. elim found [
    | some i ↦ ok (some i)
    | none ↦ selected_service s owner request w
  ]
]

-- A retry may come under the current generation of the reservation.
unfoldable pub retry_of : ℕ → Document → ℕ → Invocation → Inference → Result Inference
retry_of at s owner i request =
    if not (request.generation == i.request.generation)
    then (do
      current ← owned s owner request.reservation_id
      if not (active at current) || not (current.generation == request.generation)
          then err Failure.stale_generation_or_profile
          else ok (record request { generation = i.request.generation }))
    else ok request

unfoldable pub replayed_submission :
    ℕ → Environment → Archive → Bool → Document → ℕ → Inference → Result (Option Invocation)
unfolding find_submission retry_of answer
replayed_submission at env archive needed s owner request = elim (find_submission s owner request) [
  | some i ↦ retry_of at s owner i request >>= λ retry. answer (request_matches env i retry) i
  | none ↦
      (if needed
        then archive.lookup_submission owner request.reservation_id request.submission_id
        else ok none)
      >>= λ found. elim found [ some i ↦ answer (request_matches env i request) i | none ↦ ok none ]
]

unfoldable pub replayed :
    ℕ → Environment → Archive → Document → ℕ → Inference → Result (Option Invocation)
unfolding replayed_work replayed_submission archived_identity_lookup_needed
replayed at env archive s owner request =
    let needed = archived_identity_lookup_needed at s owner request in
    replayed_work env archive needed s owner request request.work >>= λ found. elim found [
      | some i ↦ ok (some i)
      | none ↦ replayed_submission at env archive needed s owner request
    ]
