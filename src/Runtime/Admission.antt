-- ===== src/Runtime/Admission.antt =====
-- The acquisition of one service: crates/rack_ai_runtime/src/admission.rs.
pub mod Decisions
pub mod Demands
pub mod Again
use rack_ai.Common.{
  ℕ, ◌+◌, Bool, true, false, not, ◌&&◌, ◌||◌, Option, some, none, List, ◌∷◌, [], map, ltb, leb,
  if◌then◌else◌, ◌==◌, nat_eq, option_eq, list_eq, all, any, member, find, length, is_some_and,
  unwrap_or, ok, err, ok_or, ◌>>=◌, ◌>>◌, Outcome, bool_eq, add64,
}
use rack_ai.Common.Map.{lookup, insert, values}
use rack_ai.Runtime.Types.{Document, Demand, Acquire, Profile, AcquisitionDecision, Text, Result}
use rack_ai.Runtime.Types.Enums.{
  DemandState, Priority, Capability, capability_eq, priority_eq, demand_state_eq,
}
use rack_ai.Runtime.Types.Messages.{Failure, Message}
use rack_ai.Runtime.Config.{Config, Environment, Source}
use rack_ai.Runtime.Planner.{Fresh, refusal, fence}
use rack_ai.Runtime.Capacity.{retention}
use Decisions.{decision_material, owner_materials, purge_decisions, decision_cache_seconds}
unfoldable pub use Demands.{
  is_id_character, valid_id, has_duplicate, is_empty, validate_request, eligibility, new_demand,
  prepare,
}
pub use Demands.{Identities}

-- An answer that is not stored: the demand is unavailable, and has elapsed.
unfoldable pub make_unavailable : ℕ → Environment → Source → Demand → Message → Option ℕ → Demand
make_unavailable at env source d reason retry_after =
    let digest = env.unavailable_digest source.source d.request.acquisition_id d.request.tag in
    record d {
      id = env.unavailable_id digest;
      generation = digest;
      access_key = digest;
      state = DemandState.unavailable;
      reason = some reason;
      retry_after = retry_after;
      deadline = at;
      transition_deadline = 0;
    }

unfoldable pub acquire_beq : Acquire → Acquire → Bool
acquire_beq a b =
    a.schema == b.schema
    && (a.source_system == b.source_system
        && (a.work_id == b.work_id
            && (a.acquisition_id == b.acquisition_id
                && (a.tag == b.tag
                    && (a.priority == b.priority
                        && (a.capabilities == b.capabilities
                            && (a.context_tokens == b.context_tokens
                                && (a.ttl_seconds == b.ttl_seconds
                                    && a.qualification == b.qualification))))))))

-- The demand of the same source for the same acquisition.
unfoldable pub previous : Source → Acquire → Document → Option Demand
previous source request s =
    find (λ d. d.owner == source.source && d.request.acquisition_id == request.acquisition_id)
      (values s.demands)

-- A remembered refusal that still holds.
unfoldable pub remembered : ℕ → Source → ℕ → ℕ → Document → Option AcquisitionDecision
remembered at source key environment s = elim (lookup key s.acquisition_decisions) [
  | none ↦ none
  | some decision ↦
      if decision.owner == source.source
        && (decision.environment == environment && ltb at decision.expires_at)
      then some decision
      else none
]

unfoldable pub remember : ℕ → Source → ℕ → ℕ → Failure → Document → Document
unfolding purge_decisions
remember at source key environment reason s = purge_decisions at (record s {
  acquisition_decisions =
      insert key
        (record {
          owner = source.source;
          environment = environment;
          reason = Message.failure reason;
          retry_after = decision_cache_seconds;
          expires_at = add64 at decision_cache_seconds;
        })
        s.acquisition_decisions;
})

-- The acquisition proper: the fence, and the demand in the document.
unfoldable pub admit :
    ℕ → Environment → Config → Fresh → Document → Demand → Result (Document × Demand)
admit at env config fresh s d = do
  r ← fence at fresh s d
  let d' = r.1
  s' ← retention env config.limits (record (r.0) { demands = insert d'.id d' (r.0).demands })
  ok (s', d')

unfoldable pub decide :
    ℕ
    → Environment
    → Config
    → Source
    → Fresh
    → Outcome ℕ (List ℕ)
    → Document
    → Demand
    → Result (Document × Demand)
unfolding remembered remember make_unavailable admit
decide at env config source fresh legacy s d = do
  key ← env.decision_digest (decision_material source.source d)
  environment ← env.owners_digest (owner_materials s d.profile.resources)
  let purged = purge_decisions at s
  elim (remembered at source key environment purged) [
    | some decision ↦
        ok (purged, make_unavailable at env source d decision.reason (some decision.retry_after))
    | none ↦ elim (refusal config.host_capacity_mib legacy purged d) [
      | some reason ↦ ok (
        remember at source key environment reason purged,
        make_unavailable at env source d (Message.failure reason) (some decision_cache_seconds),
      )
      | none ↦ admit at env config fresh purged d
    ]
  ]

unfoldable pub acquire_in :
    ℕ
    → Environment
    → Config
    → Source
    → Identities
    → Outcome ℕ (List ℕ)
    → Document
    → Acquire
    → Result (Document × Demand)
unfolding previous prepare eligibility decide make_unavailable acquire_beq
acquire_in at env config source ids legacy s request = elim (previous source request s) [
  | some d ↦ if acquire_beq d.request request then ok (s, d) else err Failure.identity_conflict
  | none ↦ do
    d ← prepare at env config source ids request (length s.demands)
    elim (eligibility d) [
      | some reason ↦ ok (s, make_unavailable at env source d (Message.failure reason) none)
      | none ↦ decide at env config source ids.fence legacy s d
    ]
]

unfoldable pub acquire :
    ℕ
    → Environment
    → Config
    → Source
    → Identities
    → Outcome ℕ (List ℕ)
    → Document
    → Acquire
    → Result (Document × Demand)
unfolding acquire_in
acquire at env config source ids legacy s request =
    if not (request.source_system == source.source)
    then err Failure.source_spoofing
    else acquire_in at env config source ids legacy s request
