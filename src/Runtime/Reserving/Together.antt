-- ===== src/Runtime/Reserving/Together.antt =====
-- The services of a reservation are admitted together or not at all.
use rack_ai.Common.{ℕ, some, none, List, map, ◌≡◌, ◌⊎◌, nat_eq, All}
use mathlib.Core.Option
use rack_ai.Common.Map.{lookup}
use rack_ai.Runtime.Types.{Document, Demand, Map, Reserve}
use rack_ai.Runtime.Service.Holding.{Holds}
use rack_ai.Runtime.Reserving.{GroupContext, member_refusal}
use rack_ai.Runtime.Reserving.Members.{Members, Exclusive, Configured}
use rack_ai.Runtime.Reserving.Stored.{StoredMember}

-- The demands of the services, one for each in the order of the request. In the document before,
-- `s`, none of them is refused; in the document after, `t`, each is stored.
pub record Together (k : GroupContext) (request : Reserve) (s t : Document) : Type 0 where
  pub root : ℕ
  pub ds : List Demand
  pub services : map (λ d. d.profile.tag) ds ≡ request.services
  pub configured : All (Configured k request) ds
  pub exclusive : Exclusive (map (λ d. d.profile.resources) ds)
  pub admitted : All (λ d. member_refusal k s d ≡ none) ds
  pub named : All (λ d. d.reservation_id ≡ some root) ds
  pub stored : All (StoredMember t.demands) ds
  pub claimed : (t.claims ≡ s.claims) ⊎ All (Holds t.claims) ds
  pub recorded :
      Option.map (λ (d : Demand). d.reserve_request) (lookup root t.demands) ≡ some (some request)

-- What a refusal leaves as it was.
pub record Untouched (s t : Document) : Type 0 where
  pub same_demands : t.demands ≡ s.demands
  pub same_claims : t.claims ≡ s.claims
  pub same_invocations : t.invocations ≡ s.invocations
  pub same_scopes : t.workspace_scopes ≡ s.workspace_scopes
  pub same_warm : t.warm_residencies ≡ s.warm_residencies
