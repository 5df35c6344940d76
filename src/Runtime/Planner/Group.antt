-- ===== src/Runtime/Planner/Group.antt =====
-- The fence of a reservation of several services: `fence_group` of
-- crates/rack_ai_runtime/src/planner.rs.
use rack_ai.Common.{
  ℕ, false, not, Option, some, none, List, ◌∷◌, [], leb, if◌then◌else◌, ◌==◌, nat_eq, set_insert,
  ok, err, ◌>>=◌,
}
use rack_ai.Common.Map.{lookup, modify}
use rack_ai.Runtime.Types.{Document, Demand, Map, Result}
use rack_ai.Runtime.Types.Enums.{DemandState, Priority, demand_state_eq, priority_rank}
use rack_ai.Runtime.Types.Messages.{Failure}
use rack_ai.Runtime.Planner.{conflicts, displace, supersede, claim_all, Fresh, begin_preparation}

unfoldable pub union : List ℕ → List ℕ → List ℕ
union [] ys = ys
union (x ∷ xs) ys = union xs (set_insert x ys)

unfoldable pub group_conflicts_onto : List ℕ → Document → List Demand → List ℕ
unfolding union
group_conflicts_onto acc s [] = acc
group_conflicts_onto acc s (d ∷ ds) = group_conflicts_onto (union (conflicts s d) acc) s ds

unfoldable pub group_conflicts : Document → List Demand → List ℕ
unfolding group_conflicts_onto
group_conflicts s ds = group_conflicts_onto [] s ds

unfoldable pub max_priority : Priority → List Demand → Priority
max_priority p [] = p
max_priority p (d ∷ ds) =
    max_priority (if leb (priority_rank p) (priority_rank d.priority) then d.priority else p) ds

unfoldable pub group_priority : List Demand → Option Priority
unfolding max_priority
group_priority [] = none
group_priority (d ∷ ds) = some (max_priority d.priority ds)

unfoldable pub fence_group_victims :
    ℕ → ℕ → Option Priority → List ℕ → Map Demand → Result (Map Demand)
fence_group_victims at root p [] demands = ok demands
fence_group_victims at root p (id ∷ ids) demands =
    let rest = fence_group_victims at root p ids (modify id (displace at root) demands) in
    elim (lookup id demands) [
      | none ↦ err Failure.ownership_uncertain
      | some victim ↦
          if not (victim.state == DemandState.ready)
          then err Failure.transition_or_recovery_blocked
          else elim p [
            | none ↦ err Failure.invalid_request
            | some q ↦
                if leb (priority_rank q) (priority_rank victim.priority)
                then err (Failure.incumbent_priority id)
                else rest
          ]
    ]

unfoldable pub claim_members : List Demand → Map ℕ → Result (Map ℕ)
claim_members [] claims = ok claims
claim_members (d ∷ ds) claims = do
  claims' ← claim_all d.id d.profile.resources claims
  claim_members ds claims'

unfoldable pub group_claims : List ℕ → List Demand → Map ℕ → Result (Map ℕ)
unfolding claim_members
group_claims [] ds claims = claim_members ds claims
group_claims (v ∷ vs) ds claims = ok claims

-- `fresh` gives the identities that are drawn for each member.
unfoldable pub prepare_members :
    ℕ → (ℕ → Fresh) → Document → List ℕ → List Demand → Result (List Demand)
prepare_members at fresh s victims [] = ok []
prepare_members at fresh s victims (d ∷ ds) = do
  d' ← begin_preparation at (fresh d.id) s (record d { victims = victims })
  ds' ← prepare_members at fresh s victims ds
  ok (record d' { preempted_by = none; ready_checked = false } ∷ ds')

unfoldable pub fence_group :
    ℕ → (ℕ → Fresh) → Document → ℕ → List Demand → Result (Document × List Demand)
unfolding group_conflicts group_priority group_claims prepare_members
fence_group at fresh s root ds = do
  let victims = group_conflicts s ds
  demands ← fence_group_victims at root (group_priority ds) victims s.demands
  claims ← group_claims victims ds s.claims
  let s' = record s {
    demands = demands;
    claims = claims;
    invocations = supersede at victims s.invocations;
  }
  ds' ← prepare_members at fresh s' victims ds
  ok (s', ds')
