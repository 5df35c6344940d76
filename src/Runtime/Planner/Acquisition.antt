-- ===== src/Runtime/Planner/Acquisition.antt =====
-- The contract of the fence of one acquisition.
use rack_ai.Common.{
  ℕ, true, List, ◌∷◌, [], ◌≡◌, ◌≢◌, refl, if◌then◌else◌, nat_eq, option_eq, member, ok,
}
use mathlib.Core.Option
use rack_ai.Common.Map.{lookup, lookup-update_all}
use rack_ai.Runtime.Types.{Document, Demand, Invocation, Map}
use rack_ai.Runtime.Invocations.{cancel_queued_as_superseded}
use rack_ai.Runtime.Planner.{conflicts, fence, fence_claims, supersede, Fresh}
use rack_ai.Runtime.Planner.Claims.{claimed_at, lookup-claim_all}
use rack_ai.Runtime.Planner.Fence.{
  Displaceable, displaced_at, fence_victims_lem, fence_parts, Begun,
}

abbrev pub superseded_call : ℕ → List ℕ → Invocation → Invocation
superseded_call at victims i =
    if member i.request.reservation_id victims then cancel_queued_as_superseded at i else i

pub record Fenced (at : ℕ) (s : Document) (d : Demand) (s' : Document) (d' : Demand) : Type 0 where
  pub lower : (j : ℕ) → member j (conflicts s d) ≡ true → Displaceable s.demands d.priority j
  pub displaced : (j : ℕ) → lookup j s'.demands ≡ displaced_at at d.id (conflicts s d) s.demands j
  pub calls :
      (j : ℕ)
      → lookup j s'.invocations
        ≡ Option.map (superseded_call at (conflicts s d)) (lookup j s.invocations)
  pub waits : conflicts s d ≢ [] → s'.claims ≡ s.claims
  pub claims_now :
      conflicts s d ≡ []
      → (r : ℕ) → lookup r s'.claims ≡ claimed_at d.id d.profile.resources s.claims r
  pub begun : Begun (record d { victims = conflicts s d }) d'

fence_claims_waits :
    (vs : List ℕ) (id : ℕ) (rs : List ℕ) (claims : Map ℕ) {m : Map ℕ}
    → fence_claims vs id rs claims ≡ ok m
    → vs ≢ []
    → m ≡ claims
unfolding fence_claims
fence_claims_waits [] id rs claims h e = absurd (e refl)
fence_claims_waits (v ∷ vs) id rs claims h e = cc

fence_claims_now :
    (vs : List ℕ) (id : ℕ) (rs : List ℕ) (claims : Map ℕ) {m : Map ℕ}
    → fence_claims vs id rs claims ≡ ok m
    → vs ≡ []
    → (r : ℕ) → lookup r m ≡ claimed_at id rs claims r
unfolding fence_claims
fence_claims_now [] id rs claims h e r = lookup-claim_all id rs claims r h
fence_claims_now (v ∷ vs) id rs claims h e r = cc

-- A fence that succeeds displaces exactly the conflicting owners, each of which was ready and of a
-- lower priority, and cancels their queued calls. With victims it moves no claim; without any it
-- claims every resource at once. No other demand, call or claim changes.
pub fence-Fenced :
    (at : ℕ) (fresh : Fresh) (s : Document) (d : Demand) {r : Document × Demand}
    → fence at fresh s d ≡ ok r
    → Fenced at s d r.0 r.1
unfolding supersede
fence-Fenced at fresh s d {r} h =
    let (demands, claims, hd, hc, e, b) = fence_parts at fresh s d h in
    record {
      lower = λ j. (fence_victims_lem at d.id d.priority (conflicts s d) s.demands hd j).0;
      displaced = λ j. rw e (fence_victims_lem at d.id d.priority (conflicts s d) s.demands hd j).1;
      calls = λ j. rw e (lookup-update_all j (superseded_call at (conflicts s d)) s.invocations);
      waits = λ n. rw e (fence_claims_waits (conflicts s d) d.id d.profile.resources s.claims hc n);
      claims_now =
          λ n j. rw e (fence_claims_now (conflicts s d) d.id d.profile.resources s.claims hc n j);
      begun = b;
    }
