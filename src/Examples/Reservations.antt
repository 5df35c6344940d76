-- ===== src/Examples/Reservations.antt =====
-- The readiness of a pair of services, and the end of a demand with calls.
use rack_ai.Common.{
  ◌≢◌, ℕ, ◌<◌, ◌≤◌, Bool, true, false, Option, some, none, List, ◌∷◌, [], ◌≡◌, refl, ◌⊎◌, inl, inr,
  arith, ok, err, member, length, All, if◌then◌else◌, ◌==◌, nat_eq, saturating_add, ◌+◌,
}
use rack_ai.Common.Map.{lookup, Unique, Entries}
use rack_ai.Runtime.Types.{Document, Demand}
use rack_ai.Runtime.Types.Enums.{DemandState}
use rack_ai.Runtime.Service.{recover}
use rack_ai.Runtime.Reservation.{commit_ready, root, members, is_atomic}
use rack_ai.Runtime.Reservation.Publication.{Committed, commit_ready-atomic}
use rack_ai.Runtime.Control.{Action, apply, is_renew, is_cancel}
use rack_ai.Runtime.Control.Closing.{Closed, apply-Closed}
use rack_ai.Examples.{from_ok}
use rack_ai.Examples.Documents.{
  with_demand, started_demand, busy_demand, ready, queued_call, running_call, reservation,
}

-- Two services of one reservation, each with a proven backend.
abbrev first_member : Demand
first_member = record started_demand {
  ready_checked = true;
  services = (7, 1) ∷ (8, 2) ∷ [];
  reserve_request = some (record reservation { services = 7 ∷ 8 ∷ [] });
}

abbrev second_member : Demand
second_member = record started_demand {
  id = 2;
  ready_checked = true;
  reservation_id = some 1;
  profile = record (started_demand.profile) { tag = 8; resources = 1 ∷ [] };
}

abbrev pair : Document
pair = record ready {
  claims = (0, 1) ∷ (1, 2) ∷ [];
  demands = (1, first_member) ∷ (2, second_member) ∷ [];
}

abbrev committed : Document
committed = record pair {
  demands =
      (1, record first_member { state = DemandState.ready })
      ∷ (2, record second_member { state = DemandState.ready })
      ∷ [];
}

pair_commits : commit_ready 120 pair second_member ≡ ok committed
unfolding commit_ready root rack_ai.Runtime.Service.owned lookup members rack_ai.Common.Map.values
    rack_ai.Runtime.Service.active rack_ai.Runtime.Service.owns rack_ai.Common.Map.modify
pair_commits = refl

pair_has_first : root pair second_member ≡ ok first_member
unfolding root rack_ai.Runtime.Service.owned lookup
pair_has_first = refl

pair_has_both : members pair first_member ≡ ok (1 ∷ 2 ∷ [])
unfolding members rack_ai.Common.Map.values
pair_has_both = refl

pair_is_atomic : is_atomic first_member ≡ true
unfolding is_atomic
pair_is_atomic = refl

commit_ready-atomic_example :
    (committed ≡ pair) ⊎ ((j : ℕ) → member j (1 ∷ 2 ∷ []) ≡ true → Committed 120 pair committed j)
commit_ready-atomic_example =
    commit_ready-atomic 120 pair second_member first_member (1 ∷ 2 ∷ []) pair_commits pair_has_first
      pair_has_both pair_is_atomic

-- One call runs, and one waits behind it.
abbrev crowded : Document
crowded =
    with_demand (busy_demand 104)
      ((9, running_call) ∷ (10, record queued_call { id = 10; queue_order = 1 }) ∷ []) 2

abbrev cancelled : Document × Demand
cancelled = from_ok (crowded, busy_demand 104) (apply 200 3600 crowded 5 1 1 Action.cancel_all)

cancel_succeeds : apply 200 3600 crowded 5 1 1 Action.cancel_all ≡ ok cancelled
unfolding apply rack_ai.Runtime.Service.owned lookup
cancel_succeeds = refl

is_available : (busy_demand 104).state ≢ DemandState.unavailable
is_available e = cc

busy_stored : lookup 1 crowded.demands ≡ some (busy_demand 104)
unfolding lookup
busy_stored = refl

is_closing : is_renew Action.cancel_all ≡ false
unfolding is_renew
is_closing = refl

apply-Closed_example : Closed (is_cancel Action.cancel_all) crowded 1 cancelled.0
apply-Closed_example =
    apply-Closed 200 3600 crowded 5 1 1 Action.cancel_all (busy_demand 104) cancel_succeeds
      is_closing busy_stored is_available refl
