-- ===== src/Runtime/Reserving/Views.antt =====
-- What a reservation's owner is shown: crates/rack_ai_runtime/src/reservation_view.rs. The public form
-- of a demand is a number.
use rack_ai.Common.{
  ℕ, Bool, true, false, not, Option, some, none, List, ◌∷◌, [], map, all, if◌then◌else◌, ◌==◌,
  nat_eq, option_eq, ok, ◌>>=◌,
}
use rack_ai.Common.Map.{insert}
use rack_ai.Runtime.Types.{Document, Demand, Map, Result}
use rack_ai.Runtime.Types.Enums.{DemandState, Priority, demand_state_eq}
use rack_ai.Runtime.Service.{owned}
use rack_ai.Runtime.Reservation.{root, members}

-- `api::public`.
abbrev pub Public : Type 0
Public = Demand → Result ℕ

-- A state that all members share, or the text "partial".
pub data Aggregate : Type 0 where
  uniform : DemandState → Aggregate
  partial : Aggregate

-- The public form of a member; that of an unavailable one has no path to a gateway.
pub record ServiceView : Type 0 where
  pub public : ℕ
  pub gateway : Bool

pub record ReservationView : Type 0 where
  pub id : ℕ
  pub priority : Priority
  pub state : Aggregate
  pub acquisition_id : Option ℕ
  pub requested_services : Option (List ℕ)
  pub services : Map ServiceView

abbrev pub has_ended : DemandState → Bool
has_ended DemandState.released = true
has_ended DemandState.cancelled = true
has_ended DemandState.expired = true
has_ended DemandState.unavailable = true
has_ended _ = false

abbrev pub open_state : DemandState → List DemandState → Aggregate
open_state first states =
    if all (λ s. s == DemandState.unavailable) states
    then Aggregate.uniform DemandState.unavailable
    else if all (λ s. s == first) states
    then Aggregate.uniform first
    else Aggregate.partial

unfoldable pub aggregate_state : Demand → List DemandState → Aggregate
aggregate_state root [] = Aggregate.uniform root.state
aggregate_state root (s ∷ states) = elim root.reservation_closed [
  | some closed ↦
      if all has_ended (s ∷ states)
      then Aggregate.uniform closed
      else Aggregate.uniform DemandState.releasing
  | none ↦ open_state s (s ∷ states)
]

unfoldable pub show_services : Public → List Demand → Map ServiceView → Result (Map ServiceView)
show_services public [] m = ok m
show_services public (d ∷ ds) m = do
  shown ← public d
  let service : ServiceView = record {
    public = shown;
    gateway = not (d.state == DemandState.unavailable);
  }
  show_services public ds (insert d.profile.tag service m)

abbrev pub view_services : Public → List Demand → Result (Map ServiceView)
view_services public ds = show_services public ds []

unfoldable pub project : Public → Demand → List Demand → Result ReservationView
unfolding show_services aggregate_state
project public r ds = do
  services ← view_services public ds
  ok (record {
    id = r.id;
    priority = r.priority;
    state = aggregate_state r (map (λ d. d.state) ds);
    acquisition_id = elim r.reserve_request [ none ↦ none | some q ↦ some q.acquisition_id ];
    requested_services = elim r.reserve_request [ none ↦ none | some q ↦ some q.services ];
    services = services;
  })

unfoldable pub owned_members : Document → ℕ → List ℕ → Result (List Demand)
owned_members s owner [] = ok []
owned_members s owner (id ∷ ids) = do
  d ← owned s owner id
  ds ← owned_members s owner ids
  ok (d ∷ ds)

unfoldable pub view : Public → Document → ℕ → ℕ → Result ReservationView
unfolding owned_members
view public s owner id = do
  d ← owned s owner id
  r ← root s d
  ids ← members s r
  ds ← owned_members s owner ids
  project public r ds
