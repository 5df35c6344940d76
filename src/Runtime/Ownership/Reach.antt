-- ===== src/Runtime/Ownership/Reach.antt =====
-- The updates of the document as a step relation, and what holds in every reachable document.
use rack_ai.Common.{ℕ, Bool, Option, some, none, List, [], ◌≡◌, refl, arith, ok, Outcome}
use rack_ai.Common.Map.{lookup, Entries-lookup}
use rack_ai.Runtime.Types.{
  Result, Document, Demand, Invocation, Acquire, Inference, Process, Reserve, WarmResidency,
}
use rack_ai.Runtime.Config.{Environment, Config, Source}
use rack_ai.Runtime.Service.{recover}
use rack_ai.Runtime.Admission.{Identities, acquire}
use rack_ai.Runtime.Transition.{
  finish_preflight, mark_preempted, claim_drained, announce_start, record_process, commit_readiness,
  fail_readiness, restart_preparation, refresh_process,
}
use rack_ai.Runtime.Retirement.{commit_retirement}
use rack_ai.Runtime.Control.{Action, apply, reservation_control, cancel_invocation}
use rack_ai.Runtime.Idle.{reap}
use rack_ai.Runtime.Retention.{refresh}
use rack_ai.Runtime.Scopes.{cancel_closed}
use rack_ai.Runtime.Supervisor.{reconsider, record_failure}
use rack_ai.Runtime.Types.Messages.{Failure}
use rack_ai.Runtime.Submission.{Submitter, submit}
use rack_ai.Runtime.Dispatch.{Dispatcher, start}
use rack_ai.Runtime.Dispatch.Completion.{CompletionContext, BackendError, BackendResult, save}
use rack_ai.Runtime.Reserving.{GroupContext, reserve}
use rack_ai.Runtime.Reserving.Views.{ReservationView}
use rack_ai.Runtime.Reserving.Refreshing.{refresh_reservation}
use rack_ai.Runtime.Scopes.Controller.{ScopeContext, ScopeAccess, ScopeControl, control_scope}
use rack_ai.Runtime.Residency.Cache.{
  cache_after_release, adopt, evict_incompatible, mark_evicting, remove_if_unchanged, prove_ready,
}
use rack_ai.Runtime.Ownership.{Owned, Holding, same-Owned}
use rack_ai.Runtime.Ownership.Reserving.{DrawsNew, reserve-Owned}
use rack_ai.Runtime.Ownership.Refreshing.{refresh_reservation-Owned}
use rack_ai.Runtime.Ownership.Warm.{
  cache_after_release-Owned, adopt-Owned, evict_incompatible-Owned, remove_if_unchanged-Owned,
  control_scope-Owned,
}
use rack_ai.Runtime.Ownership.Steps.{
  finish_preflight-Owned, mark_preempted-Owned, claim_drained-Owned, announce_start-Owned,
  record_process-Owned, commit_readiness-Owned, commit_retirement-Owned, reap-Owned, refresh-Owned,
  cancel_closed-Owned, fail_readiness-Owned, restart_preparation-Owned, refresh_process-Owned,
}
use rack_ai.Runtime.Ownership.Calls.{
  apply-Owned, reservation_control-Owned, cancel_invocation-Owned, recover-Owned,
}
use rack_ai.Runtime.Ownership.Acquire.{acquire-Owned}
use rack_ai.Runtime.Ownership.Supervision.{reconsider-Owned, record_failure-Owned}
use rack_ai.Runtime.Ownership.Submits.{submit-Owned}
use rack_ai.Runtime.Ownership.Dispatch.{start-Owned, save-Owned}

-- The document of a new authority.
unfoldable pub empty_document : Document
empty_document = record {
  claims = [];
  placement_hash = none;
  gateway_port = none;
  demands = [];
  invocations = [];
  next_invocation_order = 0;
  acquisition_decisions = [];
  workspace_scopes = [];
  warm_residencies = [];
}

-- One of the modelled updates that the authority stores. Any caller may come with any stale view
-- of a demand or a call; an acquisition draws an identifier that is not in use.
pub data Step : Document → Document → Type 0 where
  acquires :
      {s : Document} {r : Document × Demand} (at : ℕ) (env : Environment) (config : Config)
      (source : Source) (ids : Identities) (legacy : Outcome ℕ (List ℕ)) (request : Acquire)
      → ((id : ℕ) → ids.id ≡ ok id → lookup id s.demands ≡ none)
      → acquire at env config source ids legacy s request ≡ ok r
      → Step s r.0
  preflights : {s t : Document} (at : ℕ) (d : Demand) → finish_preflight at s d ≡ ok t → Step s t
  preempts :
      {s t : Document} (id : ℕ) (victim : Demand) → mark_preempted s id victim ≡ ok t → Step s t
  transfers : {s t : Document} (d : Demand) → claim_drained s d ≡ ok t → Step s t
  announces :
      {s : Document} {r : Document × Bool} (at : ℕ) (d : Demand)
      → announce_start at s d ≡ ok r
      → Step s r.0
  starts_process :
      {s t : Document} (d : Demand) (p : Process) → record_process s d p ≡ ok t → Step s t
  commits :
      {s t : Document} (at : ℕ) (d : Demand) (p : Option Process)
      → commit_readiness at s d p ≡ ok t
      → Step s t
  retires : {s t : Document} (at : ℕ) (d : Demand) → commit_retirement at s d ≡ ok t → Step s t
  controls :
      {s t : Document} (at ms max_ttl owner id : ℕ) (action : Action)
      → reservation_control at ms max_ttl s owner id action ≡ ok t
      → Step s t
  applies :
      {s : Document} {r : Document × Demand} (at max_ttl owner id generation : ℕ) (action : Action)
      → apply at max_ttl s owner id generation action ≡ ok r
      → Step s r.0
  cancels_call :
      {s : Document} {r : Document × Invocation} (at ms owner id : ℕ)
      → cancel_invocation at ms s owner id ≡ ok r
      → Step s r.0
  fails_readiness :
      {s t : Document} (d : Demand) (error : Failure) → fail_readiness s d error ≡ ok t → Step s t
  prepares_again :
      {s t : Document} (at : ℕ) (d : Demand) → restart_preparation at s d ≡ ok t → Step s t
  observes_process :
      {s t : Document} (d : Demand) (p : Process) → refresh_process s d p ≡ ok t → Step s t
  reaps : {s : Document} (seconds at : ℕ) → Step s (reap s seconds at)
  refreshes : {s t : Document} (seconds at : ℕ) → refresh s seconds at ≡ ok t → Step s t
  closes : {s : Document} (at ms : ℕ) → Step s (cancel_closed at ms s)
  reconsiders :
      {s t : Document} (at ms idle : ℕ) (receipts : Demand → Result Bool)
      → reconsider at ms idle receipts s ≡ ok t
      → Step s t
  fails :
      {s t : Document} (at : ℕ) (error : Failure) (seen : Demand)
      → record_failure at error s seen ≡ ok t
      → Step s t
  recovers : {s t : Document} (placement port : ℕ) → recover placement port s ≡ ok t → Step s t
  submits :
      {s : Document} {r : Document × Invocation} (k : Submitter) (owner : ℕ) (request : Inference)
      → submit k s owner request ≡ ok r
      → Step s r.0
  dispatches :
      {s : Document} {r : Document × Option (Invocation × Demand)} (k : Dispatcher)
      (generation id : ℕ)
      → start k generation s id ≡ ok r
      → Step s r.0
  completes :
      {s t : Document} (k : CompletionContext) (seen : Invocation) (d : Demand)
      (result : Outcome BackendError BackendResult)
      → save k s seen d result ≡ ok t
      → Step s t
  reserves :
      {s : Document} {r : Document × ReservationView} (k : GroupContext) (request : Reserve)
      → DrawsNew k request s
      → reserve k request s ≡ ok r
      → Step s r.0
  retries_services :
      {s : Document} {r : Document × ReservationView} (k : GroupContext) (owner id : ℕ)
      → refresh_reservation k owner id s ≡ ok r
      → Step s r.0
  scopes :
      {s t : Document} (k : ScopeContext) (access : ScopeAccess) (operation : ScopeControl)
      → control_scope k s access operation ≡ ok t
      → Step s t
  caches :
      {s : Document} {r : Document × Bool} (at : ℕ) (d : Demand) (w : WarmResidency)
      → cache_after_release at s d w ≡ ok r
      → Step s r.0
  takes_over :
      {s : Document} {r : Document × Bool} (d : Demand) (seen : WarmResidency)
      → adopt s d seen ≡ ok r
      → Step s r.0
  evicts : {s t : Document} (d : Demand) → evict_incompatible s d ≡ ok t → Step s t
  marks_evicting : {s : Document} (seen : WarmResidency) → Step s (mark_evicting s seen)
  removes_record : {s : Document} (seen : WarmResidency) → Step s (remove_if_unchanged s seen)
  proves_ready : {s : Document} (at : ℕ) (seen : WarmResidency) → Step s (prove_ready at s seen)

pub data Reach (s : Document) : Document → Type 0 where
  here : Reach s s
  next : {t u : Document} → Reach s t → Step t u → Reach s u

pub Step-Owned : {s t : Document} → Step s t → Owned s → Owned t
unfolding mark_evicting prove_ready
Step-Owned {s} (acquires at env config source ids legacy request new h) o =
    acquire-Owned at env config source ids legacy s request h new o
Step-Owned {s} (preflights at d h) o = finish_preflight-Owned at s d h o
Step-Owned {s} (preempts id victim h) o = mark_preempted-Owned s id victim h o
Step-Owned {s} (transfers d h) o = claim_drained-Owned s d h o
Step-Owned {s} (announces at d h) o = announce_start-Owned at s d h o
Step-Owned {s} (starts_process d p h) o = record_process-Owned s d p h o
Step-Owned {s} (commits at d p h) o = commit_readiness-Owned at s d p h o
Step-Owned {s} (retires at d h) o = commit_retirement-Owned at s d h o
Step-Owned {s} (controls at ms max_ttl owner id action h) o =
    reservation_control-Owned at ms max_ttl s owner id action h o
Step-Owned {s} (applies at max_ttl owner id generation action h) o =
    apply-Owned at max_ttl s owner id generation action h o
Step-Owned {s} (cancels_call at ms owner id h) o = cancel_invocation-Owned at ms s owner id h o
Step-Owned {s} (fails_readiness d error h) o = fail_readiness-Owned s d error h o
Step-Owned {s} (prepares_again at d h) o = restart_preparation-Owned at s d h o
Step-Owned {s} (observes_process d p h) o = refresh_process-Owned s d p h o
Step-Owned {s} (reaps seconds at) o = reap-Owned s seconds at o
Step-Owned {s} (refreshes seconds at h) o = refresh-Owned s seconds at h o
Step-Owned {s} (closes at ms) o = cancel_closed-Owned at ms s o
Step-Owned {s} (reconsiders at ms idle receipts h) o = reconsider-Owned at ms idle receipts s h o
Step-Owned {s} (fails at error seen h) o = record_failure-Owned at error s seen h o
Step-Owned {s} (recovers placement port h) o = recover-Owned placement port s h o
Step-Owned {s} (submits k owner request h) o = submit-Owned k s owner request h o
Step-Owned {s} (dispatches k generation id h) o = start-Owned k generation s id h o
Step-Owned {s} (completes k seen d result h) o = save-Owned k s seen d result h o
Step-Owned {s} (reserves k request draws h) o = reserve-Owned k request s h draws o
Step-Owned {s} (retries_services k owner id h) o = refresh_reservation-Owned k owner id s h o
Step-Owned {s} (scopes k access operation h) o = control_scope-Owned k s access operation h o
Step-Owned {s} (caches at d w h) o = cache_after_release-Owned at s d w h o
Step-Owned {s} (takes_over d seen h) o = adopt-Owned s d seen h o
Step-Owned {s} (evicts d h) o = evict_incompatible-Owned s d h o
Step-Owned {s} (marks_evicting seen) o = same-Owned refl refl o
Step-Owned {s} (removes_record seen) o = remove_if_unchanged-Owned s seen o
Step-Owned {s} (proves_ready at seen) o = same-Owned refl refl o

empty_document-Owned : Owned empty_document
unfolding empty_document lookup
empty_document-Owned = record { held = tt; keyed = λ id d e. absurd (ground arith) }

pub Reach-Owned : {s : Document} → Reach empty_document s → Owned s
Reach-Owned here = empty_document-Owned
Reach-Owned (next r st) = Step-Owned st (Reach-Owned r)

-- In every document that the modelled updates reach from the empty one, a claimed resource is
-- held by a stored demand that needs it and is preparing, ready, preempting, releasing or in
-- recovery: no demand that has ended keeps a claim, and no claim is without its owner.
pub Reach-claims :
    {s : Document} (r id : ℕ)
    → Reach empty_document s
    → lookup r s.claims ≡ some id
    → Holding s.demands r id
Reach-claims {s} r id reach e =
    Entries-lookup (Holding s.demands) r s.claims (Reach-Owned reach).held e
