-- ===== src/Runtime/Residency.antt =====
-- Backends kept warm after a release: crates/rack_ai_runtime/src/residency.rs.
pub mod Cache
pub mod Apart
use rack_ai.Common.{
  ℕ, Bool, not, ◌&&◌, some, none, map, if◌then◌else◌, ◌==◌, nat_eq, option_eq, find, keep, any,
  member, sum64, ok, list_eq,
}
use rack_ai.Common.Map.{values}
use rack_ai.Runtime.Types.{Document, Demand, Profile, WarmResidency, Result}
use rack_ai.Runtime.Types.Enums.{Backend, Driver, WarmState, backend_eq, driver_eq, warm_state_eq}

unfoldable pub supported : Profile → Bool
supported p = p.backend == Backend.vllm && p.driver == Driver.docker

-- A resident backend that this demand may adopt.
unfoldable pub compatible : WarmResidency → Demand → Bool
compatible r d =
    r.state == WarmState.resident
    && (r.profile_hash == d.profile_hash
        && (r.process.activation == r.id && r.resources == d.profile.resources))

unfoldable pub overlaps : WarmResidency → Demand → Bool
overlaps r d = any (λ resource. member resource d.profile.resources) r.resources

unfoldable pub disjoint : WarmResidency → Demand → Bool
unfolding overlaps
disjoint r d = not (overlaps r d)

-- `identity` is a new identity, should one be needed.
unfoldable pub backend_activation_for : Result ℕ → Document → Demand → Result ℕ
unfolding supported compatible
backend_activation_for identity s d =
    if not (supported d.profile)
    then ok d.generation
    else elim (find (λ r. compatible r d) (values s.warm_residencies)) [
      | some r ↦ ok r.id
      | none ↦ identity
    ]

unfoldable pub retained_host_mib : Document → Demand → ℕ
unfolding disjoint
retained_host_mib s d = sum64 (
    map (λ r. r.profile.host_mib)
      (keep (λ r. disjoint r d)
        (keep (λ r. r.state == WarmState.resident) (values s.warm_residencies))))
