-- ===== src/Runtime/Reserving/Refreshing.antt =====
-- The explicit re-evaluation of services that were unavailable: crates/rack_ai_runtime/src/reservation_refresh.rs.
use rack_ai.Common.{
  ℕ, Bool, not, ◌||◌, some, none, List, ◌∷◌, [], leb, if◌then◌else◌, ◌==◌, nat_eq, option_eq, find,
  is_none, ok, ok_or, ◌>>=◌, ◌>>◌, refuse_if, add64,
}
use rack_ai.Common.Map.{lookup, insert}
use rack_ai.Runtime.Types.{Document, Demand, Reserve, Profile, Result}
use rack_ai.Runtime.Types.Enums.{DemandState, demand_state_eq}
use rack_ai.Runtime.Types.Messages.{Failure, Message}
use rack_ai.Runtime.Service.{owned}
use rack_ai.Runtime.Capacity.{retention}
use rack_ai.Runtime.Reserving.{GroupContext, attempt}
use rack_ai.Runtime.Reserving.Views.{ReservationView, view}

unfoldable pub with_profile : Profile → ℕ → Demand → Demand
with_profile p hash d = record d {
  profile = p;
  profile_hash = hash;
  request = record (d.request) { capabilities = p.capabilities; context_tokens = p.context_tokens };
}

-- A missing service is tried again; one whose profile is gone only learns the reason.
unfoldable pub refresh_member : GroupContext → Document → ℕ → ℕ → Demand → Result Document
unfolding with_profile
refresh_member k s id tag d = elim (find (λ p. p.tag == tag) k.config.profiles) [
  | some p ↦ do
    hash ← k.env.profile_digest p
    tried ← attempt k (k.fence_identities d.id) s (with_profile p hash d)
    ok (record (tried.0) { demands = insert id tried.1 (tried.0).demands })
  | none ↦ ok (record s {
    demands =
        insert id (record d { reason = some (Message.failure Failure.unknown_tag) }) s.demands;
  })
]

-- The loop over the requested services.
unfoldable pub refresh_services : GroupContext → Demand → List ℕ → Document → Result Document
unfolding refresh_member
refresh_services k root [] s = ok s
refresh_services k root (tag ∷ tags) s = do
  id ← ok_or (lookup tag root.services) Failure.service_not_reserved
  d ← owned s root.owner id
  t ←
      if not (d.state == DemandState.unavailable) || d.released
      then ok s
      else refresh_member k s id tag d
  refresh_services k root tags t

abbrev pub refresh_closed : GroupContext → Demand → Reserve → Bool
refresh_closed k root request =
    not (is_none root.reservation_closed) || leb (add64 root.created request.ttl_seconds) k.at

unfoldable pub refresh_reservation :
    GroupContext → ℕ → ℕ → Document → Result (Document × ReservationView)
unfolding refresh_services
refresh_reservation k owner id s = do
  root ← owned s owner id
  refuse_if (not (root.reservation_id == some id)) Failure.reservation_id_required
  request ← ok_or root.reserve_request Failure.reservation_id_required
  refuse_if (refresh_closed k root request) Failure.reservation_terminal
  t ← refresh_services k root request.services s
  kept ← retention k.env k.config.limits t
  shown ← view k.public kept owner id
  ok (kept, shown)
