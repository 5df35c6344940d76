-- ===== src/Runtime/Planner.antt =====
-- The acquisition decision and the fence: crates/rack_ai_runtime/src/planner.rs. A change of the
-- document that fails leaves no trace, since the authority stores it on success only.
pub mod Group
pub mod Fence
pub mod Reserved
pub mod Transfer
pub mod Acquisition
pub mod Claims
use rack_ai.Common.{
  ℕ, ◌+◌, Bool, true, false, not, ◌&&◌, ◌||◌, Option, some, none, List, ◌∷◌, [], map, ltb, leb,
  if◌then◌else◌, ◌==◌, nat_eq, option_eq, keep, any, member, set_insert, sum64, add64,
  saturating_add, ok, err, ◌>>=◌, ◌>>◌, max, u64_mod, ◌%◌, is_some_and, ok_or, refuse_if, Outcome,
}
use rack_ai.Common.Map.{lookup, insert, modify, update_all, values}
use rack_ai.Runtime.Types.{Document, Demand, Invocation, Map, Result}
use rack_ai.Runtime.Types.Enums.{DemandState, Priority, demand_state_eq, priority_rank}
use rack_ai.Runtime.Types.Messages.{Failure, Message}
use rack_ai.Runtime.Service.{inflight}
use rack_ai.Runtime.Invocations.{cancel_queued_as_superseded}
use rack_ai.Runtime.Residency.{backend_activation_for, retained_host_mib}

-- The other owners of the resources, as an ordered set.
unfoldable pub conflicts_of : Map ℕ → ℕ → List ℕ → List ℕ
conflicts_of claims id [] = []
conflicts_of claims id (r ∷ rs) =
    let others = conflicts_of claims id rs in
    elim (lookup r claims) [
      | none ↦ others
      | some owner ↦ if owner == id then others else set_insert owner others
    ]

unfoldable pub conflicts : Document → Demand → List ℕ
unfolding conflicts_of
conflicts s d = conflicts_of s.claims d.id d.profile.resources

-- Why a conflicting incumbent cannot give way, if it cannot.
unfoldable pub incumbent_refusal : Demand → ℕ → Demand → Option Failure
incumbent_refusal d id incumbent =
    if member id d.victims
      && (incumbent.state == DemandState.preempting && incumbent.preempted_by == some d.id)
    then none
    else if leb (priority_rank d.priority) (priority_rank incumbent.priority)
    then some (Failure.incumbent_priority id)
    else if not (incumbent.state == DemandState.ready)
    then some (Failure.transition_or_recovery_blocked_by id)
    else none

unfoldable pub conflicts_refusal : Map Demand → Demand → List ℕ → Option Failure
conflicts_refusal demands d [] = none
conflicts_refusal demands d (id ∷ ids) =
    let rest = conflicts_refusal demands d ids in
    elim (lookup id demands) [
      | none ↦ some Failure.ownership_uncertain
      | some incumbent ↦ elim (incumbent_refusal d id incumbent) [ some e ↦ some e | none ↦ rest ]
    ]

unfoldable pub occupies_host : DemandState → Bool
occupies_host DemandState.ready = true
occupies_host DemandState.releasing = true
occupies_host DemandState.preparing = true
occupies_host DemandState.preempting = true
occupies_host DemandState.recovery_required = true
occupies_host _ = false

unfoldable pub occupied_host : Document → Demand → ℕ
unfolding conflicts occupies_host
occupied_host s d =
    saturating_add
      (sum64 (
        map (λ x. x.profile.host_mib)
          (keep (λ x. occupies_host x.state && not (member x.id (conflicts s d)))
            (values s.demands))))
      (retained_host_mib s d)

-- `legacy` is what the directory of legacy leases says of the demand's resources.
unfoldable pub refusal : ℕ → Outcome ℕ (List ℕ) → Document → Demand → Option Failure
unfolding conflicts_refusal conflicts occupied_host
refusal host_capacity (err e) s d = some (Failure.ownership_unreadable e)
refusal host_capacity (ok (i ∷ is)) s d = some Failure.legacy_ownership_requires_migration
refusal host_capacity (ok []) s d = elim (conflicts_refusal s.demands d (conflicts s d)) [
  | some e ↦ some e
  | none ↦
      if ltb host_capacity (saturating_add (occupied_host s d) d.profile.host_mib)
      then some Failure.insufficient_host_memory
      else none
]

-- An incumbent that a demand of a higher priority displaces.
unfoldable pub displace : ℕ → ℕ → Demand → Demand
displace at by victim = record victim {
  state = DemandState.preempting;
  reason = some Message.preempted_by_higher_priority;
  preempted_by = some by;
  transition_deadline = add64 at victim.profile.drain_seconds;
}

unfoldable pub may_displace : Priority → Demand → Bool
may_displace p victim =
    ltb (priority_rank victim.priority) (priority_rank p) && victim.state == DemandState.ready

unfoldable pub fence_victims : ℕ → ℕ → Priority → List ℕ → Map Demand → Result (Map Demand)
unfolding may_displace
fence_victims at by p [] demands = ok demands
fence_victims at by p (id ∷ ids) demands =
    let rest = fence_victims at by p ids (modify id (displace at by) demands) in
    elim (lookup id demands) [
      | none ↦ err Failure.ownership_uncertain
      | some victim ↦
          if may_displace p victim then rest else err Failure.transition_or_recovery_blocked
    ]

-- The queued calls of the victims end; running ones go on.
unfoldable pub supersede : ℕ → List ℕ → Map Invocation → Map Invocation
unfolding cancel_queued_as_superseded
supersede at victims =
    update_all
      λ i. if member i.request.reservation_id victims then cancel_queued_as_superseded at i else i

-- Claim the resources one after the other, unless another owner holds one.
unfoldable pub claim_all : ℕ → List ℕ → Map ℕ → Result (Map ℕ)
claim_all id [] claims = ok claims
claim_all id (r ∷ rs) claims =
    let rest = claim_all id rs (insert r id claims) in
    if is_some_and (lookup r claims) (λ owner. not (owner == id))
    then err Failure.transition_fence_changed
    else rest

-- The identities that one fence draws.
pub record Fresh : Type 0 where
  pub generation : Result ℕ
  pub access_key : Result ℕ
  pub activation : Result ℕ

-- The time that the victims may take to drain and stop.
unfoldable pub drain_allowance : Map Demand → List ℕ → ℕ
drain_allowance demands [] = 0
drain_allowance demands (id ∷ ids) =
    let rest = drain_allowance demands ids in
    elim (lookup id demands) [
      | none ↦ rest
      | some v ↦ add64 (add64 v.profile.drain_seconds v.profile.stop_seconds) rest
    ]

unfoldable pub begin_preparation : ℕ → Fresh → Document → Demand → Result Demand
begin_preparation at fresh s d = do
  generation ← fresh.generation
  access_key ← fresh.access_key
  let named = record d { generation = generation; access_key = access_key }
  activation ← backend_activation_for fresh.activation s named
  ok (record named {
    backend_activation = some activation;
    transition_deadline =
        add64 (add64 at d.profile.startup_seconds) (drain_allowance s.demands d.victims);
    state = DemandState.preparing;
    reason = none;
    retry_after = none;
    effect_started = false;
    preflight_done = false;
  })

-- The claims after the fence of an acquisition: with victims they wait for the transfer.
unfoldable pub fence_claims : List ℕ → ℕ → List ℕ → Map ℕ → Result (Map ℕ)
fence_claims [] id resources claims = claim_all id resources claims
fence_claims (v ∷ vs) id resources claims = ok claims

unfoldable pub fence : ℕ → Fresh → Document → Demand → Result (Document × Demand)
unfolding conflicts begin_preparation fence_claims
fence at fresh s d = do
  let victims = conflicts s d
  demands ← fence_victims at d.id d.priority victims s.demands
  claims ← fence_claims victims d.id d.profile.resources s.claims
  let s' = record s {
    demands = demands;
    claims = claims;
    invocations = supersede at victims s.invocations;
  }
  d' ← begin_preparation at fresh s' (record d { victims = victims })
  ok (s', d')

unfoldable pub check_victims : Document → List ℕ → Result (Unit {0})
check_victims s [] = ok tt
check_victims s (id ∷ ids) =
    let rest = check_victims s ids in
    elim (lookup id s.demands) [
      | none ↦ err Failure.missing_victim
      | some victim ↦
          if not (victim.state == DemandState.preempted) || inflight s id
          then err Failure.victim_not_safely_preempted
          else rest
    ]

unfoldable pub check_claims : ℕ → List ℕ → Map ℕ → Result (Unit {0})
check_claims id [] claims = ok tt
check_claims id (r ∷ rs) claims =
    let rest = check_claims id rs claims in
    if is_some_and (lookup r claims) (λ owner. not (owner == id))
    then err Failure.transition_fence_changed
    else rest

unfoldable pub take_all : ℕ → List ℕ → Map ℕ → Map ℕ
take_all id [] claims = claims
take_all id (r ∷ rs) claims = take_all id rs (insert r id claims)

unfoldable pub transfer : Document → Demand → Result Document
unfolding check_victims check_claims take_all
transfer s d = do
  check_victims s d.victims
  check_claims d.id d.profile.resources s.claims
  ok (record s { claims = take_all d.id d.profile.resources s.claims })
