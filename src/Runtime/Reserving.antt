-- ===== src/Runtime/Reserving.antt =====
-- A reservation of several services: crates/rack_ai_runtime/src/reservation_admission.rs. The texts of
-- identities and digests are arguments, and so are the archive of ended reservations and the public
-- form of a demand. The stored copy of the answer (`reserve_result`), which no modelled operation
-- reads, is left out.
pub mod Views
pub mod Refreshing
pub mod Members
pub mod Stored
pub mod Together
pub mod Uniform
use rack_ai.Common.{
  ℕ, ◌+◌, Bool, true, false, not, ◌&&◌, ◌||◌, Option, some, none, List, ◌∷◌, [], map, ltb, leb,
  if◌then◌else◌, ◌==◌, nat_eq, option_eq, list_eq, bool_eq, member, find, length, is_some_and,
  sort_by, ok, err, ok_or, ◌>>=◌, ◌>>◌, refuse_if, add64, Outcome,
}
use rack_ai.Common.Map.{lookup, insert, modify, values}
use rack_ai.Runtime.Types.{Document, Demand, Reserve, Acquire, Profile, Map, Result}
use rack_ai.Runtime.Types.Enums.{DemandState, Priority, priority_eq, demand_state_eq}
use rack_ai.Runtime.Types.Messages.{Failure, Message}
use rack_ai.Runtime.Config.{Config, Environment, Source}
use rack_ai.Runtime.Planner.{Fresh, refusal, fence}
use rack_ai.Runtime.Planner.Group.{fence_group}
use rack_ai.Runtime.Capacity.{retention}
use rack_ai.Runtime.Admission.{Identities, prepare, eligibility, valid_id, is_empty}
use rack_ai.Runtime.Admission.Decisions.{purge_decisions, decision_cache_seconds}
use Views.{ReservationView, ServiceView, Aggregate, view, view_services, Public}

-- What the digest of a group's decision is made of.
pub record GroupMaterial : Type 0 where
  pub owner : ℕ
  pub services : List ℕ
  pub priority : Priority
  pub ttl_seconds : ℕ
  pub profiles : List ℕ

pub record ClaimMaterial : Type 0 where
  pub resource : ℕ
  pub owner : ℕ
  pub state : Option DemandState
  pub priority : Option Priority
  pub generation : Option ℕ

-- What a reservation takes from outside: the clock, the bounds, the digests, the archive of ended
-- reservations, and the identities of each member, by its place in the request.
pub record GroupContext : Type 0 where
  pub at : ℕ
  pub env : Environment
  pub config : Config
  pub source : Source
  pub legacy : Outcome ℕ (List ℕ)
  pub member_acquisition : ℕ → ℕ → ℕ → ℕ
  pub group_digest : GroupMaterial → Result ℕ
  pub claims_digest : List ClaimMaterial → Result ℕ
  pub unavailable_root : ℕ → ℕ → ℕ
  pub archived : ℕ → ℕ → Result (Option (Reserve × ReservationView))
  pub identities : ℕ → Identities
  pub fence_identities : ℕ → Fresh
  pub public : Public

unfoldable pub reserve_beq : Reserve → Reserve → Bool
reserve_beq a b =
    a.acquisition_id == b.acquisition_id
    && (a.work_id == b.work_id
        && (a.services == b.services
            && (a.priority == b.priority
                && (a.ttl_seconds == b.ttl_seconds
                    && a.retained_model_interactions == b.retained_model_interactions))))

-- The reservation of the same source for the same acquisition.
unfoldable pub previous_reservation : Source → Reserve → Document → Option Demand
previous_reservation source request s =
    find
      (λ d.
        d.owner == source.source
        && is_some_and d.reserve_request (λ r. r.acquisition_id == request.acquisition_id))
      (values s.demands)

unfoldable pub has_repeats : List ℕ → Bool
has_repeats [] = false
has_repeats (x ∷ xs) = member x xs || has_repeats xs

unfoldable pub validate_reserve : GroupContext → Reserve → Result (Unit {0})
unfolding has_repeats
validate_reserve k request =
    refuse_if
      (not (valid_id (k.env.text request.acquisition_id))
        || (not (valid_id (k.env.text request.work_id))
            || (is_empty request.services
                || (ltb (length k.config.profiles) (length request.services)
                    || has_repeats request.services))))
      Failure.invalid_request

-- `physical.insert` for each resource of a profile.
unfoldable pub add_resources : List ℕ → List ℕ → Result (List ℕ)
add_resources [] physical = ok physical
add_resources (r ∷ rs) physical =
    let rest = add_resources rs (r ∷ physical) in
    if member r physical then err Failure.atomic_resource_overlap else rest

unfoldable pub member_request : GroupContext → Reserve → Profile → ℕ → Acquire
member_request k request profile tag = record {
  schema = k.env.version;
  source_system = k.source.source;
  work_id = request.work_id;
  acquisition_id = k.member_acquisition k.source.source request.acquisition_id tag;
  tag = tag;
  priority = some request.priority;
  capabilities = profile.capabilities;
  context_tokens = profile.context_tokens;
  ttl_seconds = request.ttl_seconds;
  qualification = false;
}

-- The loop over the services, at the place `n` of the request.
unfoldable pub prepare_services :
    GroupContext → Document → Reserve → ℕ → List ℕ → List ℕ → Result (List Demand)
unfolding add_resources member_request
prepare_services k s request n [] physical = ok []
prepare_services k s request n (tag ∷ tags) physical = do
  profile ← ok_or (find (λ p. p.tag == tag) k.config.profiles) Failure.unknown_tag
  physical' ← add_resources profile.resources physical
  d ←
      prepare k.at k.env k.config k.source (k.identities n) (member_request k request profile tag)
        (add64 (length s.demands) n)
  ds ← prepare_services k s request (n + 1) tags physical'
  ok (d ∷ ds)

abbrev pub with_reservation : ℕ → Demand → Demand
with_reservation root d = record d { reservation_id = some root }

-- The map from a tag to the identifier of its demand.
unfoldable pub service_map : List Demand → Map ℕ → Map ℕ
service_map [] m = m
service_map (d ∷ ds) m = service_map ds (insert d.profile.tag d.id m)

unfoldable pub group_material : GroupContext → Reserve → List Demand → GroupMaterial
group_material k request ds = record {
  owner = k.source.source;
  services = sort_by (λ x. (x, 0)) request.services;
  priority = request.priority;
  ttl_seconds = request.ttl_seconds;
  profiles = map (λ d. d.profile_hash) ds;
}

unfoldable pub claim_materials : Document → Map ℕ → List ClaimMaterial
claim_materials s [] = []
claim_materials s ((resource, id) ∷ claims) =
    let d = lookup id s.demands in
    record {
      resource = resource;
      owner = id;
      state = elim d [ none ↦ none | some x ↦ some x.state ];
      priority = elim d [ none ↦ none | some x ↦ some x.priority ];
      generation = elim d [ none ↦ none | some x ↦ some x.generation ];
    }
    ∷ claim_materials s claims

abbrev pub group_environment : GroupContext → Document → Result ℕ
group_environment k s = k.claims_digest (claim_materials s s.claims)

-- The reason of a decision that is remembered, or else the first refusal of a member.
unfoldable pub remembered_reason : GroupContext → ℕ → ℕ → Document → Option Message
remembered_reason k key environment s = elim (lookup key s.acquisition_decisions) [
  | none ↦ none
  | some decision ↦
      if decision.owner == k.source.source
        && (decision.environment == environment && ltb k.at decision.expires_at)
      then some decision.reason
      else none
]

unfoldable pub member_refusal : GroupContext → Document → Demand → Option Failure
member_refusal k s d = elim (eligibility d) [
  | some reason ↦ some reason
  | none ↦ refusal k.config.host_capacity_mib k.legacy s d
]

unfoldable pub first_refusal : GroupContext → Document → List Demand → Option Message
unfolding member_refusal
first_refusal k s [] = none
first_refusal k s (d ∷ ds) = elim (member_refusal k s d) [
  | some reason ↦ some (Message.failure reason)
  | none ↦ first_refusal k s ds
]

unfoldable pub group_refusal : GroupContext → ℕ → ℕ → Document → List Demand → Option Message
unfolding remembered_reason first_refusal
group_refusal k key environment s ds = elim (remembered_reason k key environment s) [
  | some reason ↦ some reason
  | none ↦ first_refusal k s ds
]

unfoldable pub remember_group : GroupContext → ℕ → ℕ → Message → Document → Document
remember_group k key environment reason s = purge_decisions k.at (record s {
  acquisition_decisions =
      insert key
        (record {
          owner = k.source.source;
          environment = environment;
          reason = reason;
          retry_after = decision_cache_seconds;
          expires_at = add64 k.at decision_cache_seconds;
        })
        s.acquisition_decisions;
})

-- A member of a refusal, which is not stored.
unfoldable pub unavailable_member : GroupContext → Reserve → Message → Demand → Demand
unavailable_member k request reason d =
    let seed = k.env.unavailable_digest k.source.source request.acquisition_id d.profile.tag in
    record d {
      id = k.env.unavailable_id seed;
      generation = seed;
      access_key = seed;
      reservation_id = some (k.unavailable_root k.source.source request.acquisition_id);
      state = DemandState.unavailable;
      reason = some reason;
      retry_after = some decision_cache_seconds;
      deadline = k.at;
    }

unfoldable pub unavailable_group :
    GroupContext → Reserve → Message → List Demand → Result ReservationView
unfolding unavailable_member
unavailable_group k request reason ds = do
  services ← view_services k.public (map (unavailable_member k request reason) ds)
  ok (record {
    id = k.unavailable_root k.source.source request.acquisition_id;
    priority = request.priority;
    state = Aggregate.uniform DemandState.unavailable;
    acquisition_id = some request.acquisition_id;
    requested_services = some request.services;
    services = services;
  })

unfoldable pub insert_demands : List Demand → Map Demand → Map Demand
insert_demands [] m = m
insert_demands (d ∷ ds) m = insert_demands ds (insert d.id d m)

abbrev pub with_services : Map ℕ → Reserve → Demand → Demand
with_services services request d = record d { services = services; reserve_request = some request }

-- The fence of the group, and its demands in the document.
unfoldable pub admit_group :
    GroupContext → Reserve → ℕ → Document → List Demand → Result (Document × ReservationView)
unfolding insert_demands
admit_group k request root s ds = do
  fenced ← fence_group k.at k.fence_identities s root ds
  let stored : Document = record (fenced.0) {
    demands =
        modify root (with_services (service_map ds []) request)
          (insert_demands fenced.1 (fenced.0).demands);
  }
  shown ← view k.public stored k.source.source root
  kept ← retention k.env k.config.limits stored
  ok (kept, shown)

unfoldable pub decide_group :
    GroupContext → Reserve → ℕ → Document → List Demand → Result (Document × ReservationView)
unfolding group_refusal remember_group
decide_group k request root s ds = do
  key ← k.group_digest (group_material k request ds)
  environment ← group_environment k s
  let purged = purge_decisions k.at s
  elim (group_refusal k key environment purged ds) [
    | some reason ↦
        (unavailable_group k request reason ds >>= λ shown.
        ok (remember_group k key environment reason purged, shown))
    | none ↦ admit_group k request root purged ds
  ]

-- The members, named after the first of them.
unfoldable pub admit_services :
    GroupContext → Reserve → Document → List Demand → Result (Document × ReservationView)
admit_services k request s [] = err Failure.invalid_request
admit_services k request s (d ∷ ds) =
    decide_group k request d.id s (map (with_reservation d.id) (d ∷ ds))

unfoldable pub reserve_new : GroupContext → Reserve → Document → Result (Document × ReservationView)
reserve_new k request s = do
  validate_reserve k request
  ds ← prepare_services k s request 0 request.services []
  admit_services k request s ds

unfoldable pub reserve_archived :
    GroupContext → Reserve → Document → Result (Document × ReservationView)
reserve_archived k request s = do
  archived ← k.archived k.source.source request.acquisition_id
  elim archived [
    | some a ↦ if reserve_beq a.0 request then ok (s, a.1) else err Failure.identity_conflict
    | none ↦ reserve_new k request s
  ]

unfoldable pub reserve : GroupContext → Reserve → Document → Result (Document × ReservationView)
unfolding previous_reservation reserve_beq
reserve k request s = elim (previous_reservation k.source request s) [
  | some d ↦
      if not (is_some_and d.reserve_request (λ r. reserve_beq r request))
      then err Failure.identity_conflict
      else (view k.public s k.source.source d.id >>= λ shown. ok (s, shown))
  | none ↦ reserve_archived k request s
]

-- `attempt`, for the refresh of one member: the document, and the demand as it is to be stored.
unfoldable pub attempt : GroupContext → Fresh → Document → Demand → Result (Document × Demand)
attempt k fresh s d = elim (member_refusal k s d) [
  | some reason ↦ ok (
    s,
    record d {
      state = DemandState.unavailable;
      reason = some (Message.failure reason);
      retry_after = some decision_cache_seconds;
    },
  )
  | none ↦ fence k.at fresh s d
]
