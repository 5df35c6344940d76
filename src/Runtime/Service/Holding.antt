-- ===== src/Runtime/Service/Holding.antt =====
-- What `active` and `owns` of crates/rack_ai_runtime/src/service.rs ask of a demand.
use rack_ai.Common.{
  ℕ, ◌<◌, true, false, some, ◌≡◌, arith, ◌==◌, nat_eq, option_eq, all-member, member,
}
use rack_ai.Common.Map.{lookup}
use rack_ai.Runtime.Types.{Document, Demand, Map}
use rack_ai.Runtime.Service.{active, owns}

-- The demand holds the claim of each of its resources.
abbrev pub Holds : Map ℕ → Demand → Type 0
Holds claims d = (r : ℕ) → member r d.profile.resources ≡ true → lookup r claims ≡ some d.id

pub owns-Holds : (s : Document) (d : Demand) → owns s d ≡ true → Holds s.claims d
unfolding owns
owns-Holds s d h r m =
    let k = all-member (λ r. lookup r s.claims == some d.id) d.profile.resources r h m in
    ground arith

pub active_lem :
    (at : ℕ) (d : Demand) → active at d ≡ true → (d.released ≡ false) × (at < d.deadline)
unfolding active
active_lem at d h = (ground arith, ground arith)
