-- ===== src/Examples/Planning.antt =====
-- The planner on one device: an incumbent of low priority, and a challenger.
use rack_ai.Common.{
  ℕ, true, List, ◌∷◌, [], ◌≡◌, refl, ok, member, any, arith, inl, subst, sym, nat_eq,
}
use rack_ai.Common.Map.{lookup, insert, modify, update_all, values}
use rack_ai.Runtime.Types.{Document, Demand}
use rack_ai.Runtime.Types.Enums.{DemandState, Priority}
use rack_ai.Runtime.Service.{inflight}
use rack_ai.Runtime.Planner.{fence, fence_victims, conflicts, transfer, conflicts_of, take_all}
use rack_ai.Runtime.Residency.{backend_activation_for}
use rack_ai.Runtime.Planner.Acquisition.{Fenced, fence-Fenced}
use rack_ai.Runtime.Planner.Claims.{held_by_other, member-conflicts_of, FreeFor}
use rack_ai.Runtime.Planner.Transfer.{Transferred, Drained, transfer-Transferred, transfer-total}
use rack_ai.Runtime.Planner.Group.{fence_group}
use rack_ai.Runtime.Planner.Reserved.{GroupFenced, fence_group-GroupFenced}
use rack_ai.Runtime.Ownership.Reach.{empty_document}
use rack_ai.Examples.{candidate, fresh, from_ok, from_ok-eq}

abbrev incumbent : Demand
incumbent = record (candidate 1 Priority.low) { state = DemandState.ready }

abbrev challenger : Demand
challenger = candidate 2 Priority.high

abbrev held : Document
held = record empty_document { claims = (0, 1) ∷ []; demands = (1, incumbent) ∷ [] }

abbrev fenced : Document × Demand
fenced = from_ok (held, challenger) (fence 100 (fresh 2) held challenger)

fence_succeeds : fence 100 (fresh 2) held challenger ≡ ok fenced
unfolding fence lookup insert modify update_all values fence_victims candidate
    backend_activation_for
fence_succeeds = from_ok-eq (held, challenger) (fence 100 (fresh 2) held challenger) refl

fence-Fenced_example : Fenced 100 held challenger fenced.0 fenced.1
fence-Fenced_example = fence-Fenced 100 (fresh 2) held challenger fence_succeeds

abbrev free : Document
free = record empty_document { claims = []; demands = [] }

abbrev admitted : Document × Demand
admitted = from_ok (free, challenger) (fence 100 (fresh 2) free challenger)

admit_succeeds : fence 100 (fresh 2) free challenger ≡ ok admitted
unfolding fence fence_victims candidate lookup rack_ai.Runtime.Planner.claim_all
    backend_activation_for
admit_succeeds = refl

no_conflicts : conflicts free challenger ≡ []
unfolding conflicts candidate lookup
no_conflicts = refl

-- The incumbent has been preempted, and nothing runs.
abbrev drained : Document
drained = record empty_document {
  claims = (5, 8) ∷ [];
  demands = (1, record incumbent { state = DemandState.preempted }) ∷ [];
}

abbrev waiting : Demand
waiting = record challenger { victims = 1 ∷ [] }

abbrev transferred : Document
transferred = record drained { claims = (0, 2) ∷ (5, 8) ∷ [] }

transfer_succeeds : transfer drained waiting ≡ ok transferred
unfolding transfer lookup inflight values empty_document candidate insert
transfer_succeeds = refl

transfer-Transferred_example : Transferred drained waiting transferred
transfer-Transferred_example = transfer-Transferred drained waiting transfer_succeeds

only_victim : (j : ℕ) → member j waiting.victims ≡ true → j ≡ 1
only_victim j m = ground arith

victim_drained : Drained drained 1
unfolding lookup inflight values empty_document
victim_drained = (record incumbent { state = DemandState.preempted }, refl, refl, refl)

is_drained : (j : ℕ) → member j waiting.victims ≡ true → Drained drained j
is_drained j m = subst (Drained drained) (sym (only_victim j m)) victim_drained

is_free : (r : ℕ) → member r waiting.profile.resources ≡ true → FreeFor drained.claims 2 r
unfolding lookup candidate
is_free r m = let e : r ≡ 0 = ground arith in inl (ground arith)

transfer-total_example :
    transfer drained waiting
    ≡ ok (record drained { claims = take_all 2 waiting.profile.resources drained.claims })
unfolding candidate
transfer-total_example = transfer-total drained waiting is_drained is_free

member-conflicts_of_example :
    member 1 (conflicts_of held.claims 2 (0 ∷ 4 ∷ []))
    ≡ any (held_by_other held.claims 2 1) (0 ∷ 4 ∷ [])
member-conflicts_of_example = member-conflicts_of held.claims 2 (0 ∷ 4 ∷ []) 1

abbrev group : List Demand
group = challenger ∷ []

abbrev group_fenced : Document × List Demand
group_fenced = from_ok (held, group) (fence_group 100 fresh held 2 group)

group_succeeds : fence_group 100 fresh held 2 group ≡ ok group_fenced
unfolding fence_group rack_ai.Runtime.Planner.Group.fence_group_victims conflicts candidate lookup
    rack_ai.Runtime.Planner.begin_preparation backend_activation_for
group_succeeds = refl

fence_group-GroupFenced_example : GroupFenced 100 2 held group group_fenced.0 group_fenced.1
fence_group-GroupFenced_example = fence_group-GroupFenced 100 fresh held 2 group group_succeeds
