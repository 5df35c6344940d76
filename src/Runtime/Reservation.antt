-- ===== src/Runtime/Reservation.antt =====
-- A public reservation joins the demands of its services:
-- crates/rack_ai_runtime/src/reservation.rs, with `current` of transition.rs.
pub mod Publication
use rack_ai.Common.{
  ℕ, Bool, not, ◌&&◌, some, none, List, ◌∷◌, [], ltb, if◌then◌else◌, ◌==◌, nat_eq, all, is_none,
  is_some_and, length, ok, err, ok_or, ◌>>=◌,
}
use rack_ai.Common.Map.{lookup, modify, values}
use rack_ai.Runtime.Types.{Document, Demand, Map, Result}
use rack_ai.Runtime.Types.Enums.{DemandState, demand_state_eq}
use rack_ai.Runtime.Types.Messages.{Failure}
use rack_ai.Runtime.Service.{owned, active, owns}

-- The demand as it is stored, if it is still of the generation that the caller saw.
unfoldable pub current : Document → Demand → Result Demand
current s d = elim (lookup d.id s.demands) [
  | none ↦ err Failure.missing_transition
  | some saved ↦
      if saved.generation == d.generation then ok saved else err Failure.stale_transition_callback
]

unfoldable pub root : Document → Demand → Result Demand
root s d = elim d.reservation_id [ some id ↦ owned s d.owner id | none ↦ ok d ]

unfoldable pub members_of : Demand → List ℕ
members_of parent = elim parent.services [ [] ↦ parent.id ∷ [] | e ∷ es ↦ values (e ∷ es) ]

unfoldable pub members : Document → Demand → Result (List ℕ)
unfolding root members_of
members s d = do parent ← root s d; ok (members_of parent)

unfoldable pub is_ready : ℕ → Document → Demand → Bool
is_ready at s d = d.state == DemandState.ready && (active at d && owns s d)

unfoldable pub select_service : Document → ℕ → ℕ → Demand → Result Demand
select_service s owner tag parent = elim parent.services [
  | [] ↦ if parent.profile.tag == tag then ok parent else err Failure.service_not_reserved
  | e ∷ es ↦ do id ← ok_or (lookup tag (e ∷ es)) Failure.service_not_reserved; owned s owner id
]

unfoldable pub select : Document → ℕ → ℕ → ℕ → Result Demand
unfolding select_service
select s owner id tag = do
  parent ← owned s owner id
  if is_some_and parent.reservation_id (λ root. not (root == id))
      then err Failure.reservation_id_required
      else select_service s owner tag parent

-- A member that may become ready with its peers.
unfoldable pub may_commit : ℕ → Document → Demand → Bool
may_commit at s m =
    m.state == DemandState.preparing
    && (m.ready_checked && (not (is_none m.process) && (active at m && owns s m)))

unfoldable pub may_commit_all : ℕ → Document → List ℕ → Bool
unfolding may_commit
may_commit_all at s = all λ id. is_some_and (lookup id s.demands) (may_commit at s)

unfoldable pub publish : Demand → Demand
publish m =
    if m.state == DemandState.preparing && m.ready_checked
    then record m { state = DemandState.ready }
    else m

unfoldable pub publish_all : List ℕ → Map Demand → Result (Map Demand)
unfolding publish
publish_all [] demands = ok demands
publish_all (id ∷ ids) demands =
    let rest = publish_all ids (modify id publish demands) in
    elim (lookup id demands) [ none ↦ err Failure.missing_reservation_member | some m ↦ rest ]

-- Whether the reservation was asked for more than one service.
unfoldable pub is_atomic : Demand → Bool
is_atomic r = is_some_and r.reserve_request (λ request. ltb 1 (length request.services))

unfoldable pub publish_members : Document → List ℕ → Result Document
unfolding publish_all
publish_members s ids = do demands ← publish_all ids s.demands; ok (record s { demands = demands })

unfoldable pub commit_members : ℕ → Document → Demand → List ℕ → Result Document
unfolding is_atomic may_commit_all publish_members
commit_members at s r ids =
    if is_atomic r && not (may_commit_all at s ids) then ok s else publish_members s ids

unfoldable pub commit_ready : ℕ → Document → Demand → Result Document
unfolding commit_members
commit_ready at s d = do r ← root s d; ids ← members s r; commit_members at s r ids
