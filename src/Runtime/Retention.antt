-- ===== src/Runtime/Retention.antt =====
-- Activity keeps a lease ahead of its deadline: crates/rack_ai_runtime/src/activity_retention.rs.
pub mod Extension
use rack_ai.Common.{
  ℕ, ◌-◌, Bool, true, false, not, ◌&&◌, ◌||◌, Option, some, none, List, ◌∷◌, [], ◌++◌, ltb, leb,
  max, if◌then◌else◌, ◌==◌, nat_eq, is_none, is_some_and, keep, ok, err, ◌>>=◌, saturating_add,
}
use rack_ai.Common.Map.{lookup, modify, values}
use rack_ai.Runtime.Types.{Document, Demand, Map, Result}
use rack_ai.Runtime.Types.Enums.{DemandState, demand_state_eq}
use rack_ai.Runtime.Types.Messages.{Failure}
use rack_ai.Runtime.Service.{owned, owns, inflight}
use rack_ai.Runtime.Reservation.{members}
use rack_ai.Runtime.Idle.{runs_workspace}

unfoldable pub peers : Document → ℕ → List ℕ → Result (List Demand)
peers s owner [] = ok []
peers s owner (id ∷ ids) = do d ← owned s owner id; ds ← peers s owner ids; ok (d ∷ ds)

-- Only a ready member that owns its resources and has not elapsed is retained.
unfoldable pub retainable : Document → ℕ → Demand → Bool
retainable s at d =
    not d.released && (d.state == DemandState.ready && (ltb at d.deadline && owns s d))

unfoldable pub activity_of : Document → ℕ → Demand → Option ℕ
activity_of s at d =
    if inflight s d.id || runs_workspace s d.id then some at else elim d.last_activity_at [
      | none ↦ none
      | some value ↦ if leb d.created value && leb value at then some value else none
    ]

unfoldable pub later : Option ℕ → Option ℕ → Option ℕ
later none b = b
later (some a) none = some a
later (some a) (some b) = some (max a b)

unfoldable pub latest_activity : Document → ℕ → List Demand → Option ℕ
unfolding activity_of later
latest_activity s at [] = none
latest_activity s at (d ∷ ds) = later (activity_of s at d) (latest_activity s at ds)

unfoldable pub extend_to : ℕ → List Demand → List (ℕ × ℕ)
extend_to deadline [] = []
extend_to deadline (d ∷ ds) =
    let rest = extend_to deadline ds in
    if ltb d.deadline deadline then (d.id, deadline) ∷ rest else rest

unfoldable pub group_extensions : Document → ℕ → ℕ → List Demand → List (ℕ × ℕ)
unfolding retainable latest_activity extend_to
group_extensions s seconds at ds =
    let retained = keep (retainable s at) ds in
    if is_some_and (latest_activity s at retained) (λ activity. ltb (at - activity) seconds)
    then extend_to (saturating_add at seconds) retained
    else []

unfoldable pub root_extensions : Document → ℕ → ℕ → Demand → Result (List (ℕ × ℕ))
unfolding peers group_extensions
root_extensions s seconds at r =
    if is_none r.reserve_request || not (is_none r.reservation_closed)
    then ok []
    else (members s r >>= λ ids.
        peers s r.owner ids >>= λ ds. ok (group_extensions s seconds at ds))

unfoldable pub extensions_of : Document → ℕ → ℕ → List Demand → Result (List (ℕ × ℕ))
unfolding root_extensions
extensions_of s seconds at [] = ok []
extensions_of s seconds at (r ∷ rs) = do
  u ← root_extensions s seconds at r
  us ← extensions_of s seconds at rs
  ok (u ++ us)

unfoldable pub extensions : Document → ℕ → ℕ → Result (List (ℕ × ℕ))
unfolding extensions_of
extensions s seconds at = extensions_of s seconds at (values s.demands)

unfoldable pub pending : Document → ℕ → ℕ → Bool
pending s seconds at = elim (extensions s seconds at) [
  | err e ↦ true
  | ok [] ↦ false
  | ok (u ∷ us) ↦ true
]

unfoldable pub apply_extensions : List (ℕ × ℕ) → Map Demand → Result (Map Demand)
apply_extensions [] m = ok m
apply_extensions ((id, deadline) ∷ us) m =
    let rest = apply_extensions us (modify id (λ d. record d { deadline = deadline }) m) in
    elim (lookup id m) [ none ↦ err Failure.missing_reservation_member | some d ↦ rest ]

unfoldable pub refresh : Document → ℕ → ℕ → Result Document
unfolding extensions apply_extensions
refresh s seconds at = do
  updates ← extensions s seconds at
  demands ← apply_extensions updates s.demands
  ok (record s { demands = demands })
