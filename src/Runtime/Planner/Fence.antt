-- ===== src/Runtime/Planner/Fence.antt =====
-- What the fence of one acquisition does to the incumbents, the claims and the calls.
use rack_ai.Common.{
  subst, ◌≢◌, ℕ, true, false, Option, some, List, ◌∷◌, [], ◌≡◌, if◌then◌else◌, nat_eq, member, ok,
  ◌<◌, arith, inl, inr, Bool-cases, Option-cases, >>=-eq-ok,
}
use mathlib.Core.Option
use rack_ai.Common.Map.{lookup, modify, lookup-modify}
use rack_ai.Runtime.Types.{Document, Demand, Map}
use rack_ai.Runtime.Types.Enums.{DemandState, Priority, demand_state_eq, priority_rank}
use rack_ai.Runtime.Planner.{
  fence_victims, displace, conflicts, fence, Fresh, begin_preparation, fence_claims, supersede,
}
use rack_ai.Runtime.Residency.{backend_activation_for}

-- Every victim was ready and of a lower priority.
abbrev pub Displaceable : Map Demand → Priority → ℕ → Type 0
Displaceable demands p id =
    (v : Demand) × (lookup id demands ≡ some v)
    × (v.state ≡ DemandState.ready)
    × (priority_rank v.priority < priority_rank p)

abbrev pub displaced_at : ℕ → ℕ → List ℕ → Map Demand → ℕ → Option Demand
displaced_at at by ids demands j =
    if member j ids then Option.map (displace at by) (lookup j demands) else lookup j demands

pub fence_victims_cases :
    (at by : ℕ) (p : Priority) (id : ℕ) (ids : List ℕ) (demands : Map Demand) {m : Map Demand}
    → fence_victims at by p (id ∷ ids) demands ≡ ok m
    → Displaceable demands p id
      × (fence_victims at by p ids (modify id (displace at by) demands) ≡ ok m)
unfolding fence_victims
fence_victims_cases at by p id ids demands {m} h = elim (Option-cases (lookup id demands)) [
  | inl e ↦ absurd (ground arith)
  | inr (v, e) ↦ ((v, e, ground arith, ground arith), ground arith)
]

-- One displacement does not change what holds of the other victims.
Displaceable-modify :
    (at by : ℕ) (p : Priority) (demands : Map Demand) (id j : ℕ)
    → Displaceable (modify id (displace at by) demands) p j
    → (j ≢ id) × Displaceable demands p j
unfolding displace
Displaceable-modify at by p demands id j (v, e, r, l) = elim (Option-cases (lookup j demands)) [
  | inl n ↦ absurd (ground (arith, lookup-modify j id (displace at by) demands))
  | inr (w, n) ↦ (
    ground (arith, lookup-modify j id (displace at by) demands),
    (
      w,
      n,
      ground (arith, lookup-modify j id (displace at by) demands),
      ground (arith, lookup-modify j id (displace at by) demands),
    ),
  )
]

same_first :
    (at by : ℕ) (p : Priority) (ids : List ℕ) (demands : Map Demand) (id j : ℕ) (o : Option Demand)
    → (member j ids ≡ true → Displaceable (modify id (displace at by) demands) p j)
    → o ≡ displaced_at at by ids (modify id (displace at by) demands) j
    → o ≡ displaced_at at by (id ∷ ids) demands j
same_first at by p ids demands id j o ready same = elim (Bool-cases (member j ids)) [
  | inl m ↦ ground (
    arith,
    (Displaceable-modify at by p demands id j (ready m)).0,
    lookup-modify j id (displace at by) demands,
  )
  | inr m ↦ ground (arith, lookup-modify j id (displace at by) demands)
]

pub fence_victims_lem :
    (at by : ℕ) (p : Priority) (ids : List ℕ) (demands : Map Demand) {m : Map Demand}
    → fence_victims at by p ids demands ≡ ok m
    → (j : ℕ)
    → (member j ids ≡ true → Displaceable demands p j)
      × (lookup j m ≡ displaced_at at by ids demands j)
unfolding fence_victims
fence_victims_lem at by p [] demands h j = (λ e. cc, ground arith)
fence_victims_lem at by p (id ∷ ids) demands {m} h j =
    let (first, rest) = fence_victims_cases at by p id ids demands h in
    let (ready, same) = fence_victims_lem at by p ids (modify id (displace at by) demands) rest j in
    (
      λ e. elim (Bool-cases (member j ids)) [
        | inl k ↦ (Displaceable-modify at by p demands id j (ready k)).1
        | inr k ↦ subst (Displaceable demands p) (ground arith) first
      ],
      same_first at by p ids demands id j (lookup j m) ready same,
    )

-- A demand that has begun to prepare, as its fence leaves it.
pub record Begun (d d' : Demand) : Type 0 where
  pub same_id : d'.id ≡ d.id
  pub same_owner : d'.owner ≡ d.owner
  pub same_request : d'.request ≡ d.request
  pub same_profile : d'.profile ≡ d.profile
  pub same_reservation : d'.reservation_id ≡ d.reservation_id
  pub same_victims : d'.victims ≡ d.victims
  pub is_preparing : d'.state ≡ DemandState.preparing
  pub not_started : d'.effect_started ≡ false
  pub not_preflighted : d'.preflight_done ≡ false

pub begin_preparation-Begun :
    (at : ℕ) (fresh : Fresh) (s : Document) (d : Demand) {d' : Demand}
    → begin_preparation at fresh s d ≡ ok d'
    → Begun d d'
unfolding begin_preparation
begin_preparation-Begun at fresh s d {d'} h =
    let (g, hg, h1) = >>=-eq-ok fresh.generation _ h in
    let (k, hk, h2) = >>=-eq-ok fresh.access_key _ h1 in
    let (a, ha, h3) =
      >>=-eq-ok
        (backend_activation_for fresh.activation s (record d { generation = g; access_key = k })) _
        h2 in
    ground arith

-- The three parts of a fence that succeeds.
pub fence_parts :
    (at : ℕ) (fresh : Fresh) (s : Document) (d : Demand) {r : Document × Demand}
    → fence at fresh s d ≡ ok r
    → (demands : Map Demand) × (claims : Map ℕ) × (fence_victims at d.id d.priority
          (conflicts s d)
          s.demands
        ≡ ok demands)
      × (fence_claims (conflicts s d) d.id d.profile.resources s.claims ≡ ok claims)
      × (r.0 ≡ record s {
        demands = demands;
        claims = claims;
        invocations = supersede at (conflicts s d) s.invocations;
      })
      × Begun (record d { victims = conflicts s d }) r.1
unfolding fence
fence_parts at fresh s d {r} h =
    let (demands, hd, h1) =
      >>=-eq-ok (fence_victims at d.id d.priority (conflicts s d) s.demands) _ h in
    let (claims, hc, h2) =
      >>=-eq-ok (fence_claims (conflicts s d) d.id d.profile.resources s.claims) _ h1 in
    let s' : Document = record s {
      demands = demands;
      claims = claims;
      invocations = supersede at (conflicts s d) s.invocations;
    } in
    let (d', hb, h3) =
      >>=-eq-ok (begin_preparation at fresh s' (record d { victims = conflicts s d })) _ h2 in
    (
      demands,
      claims,
      hd,
      hc,
      ground arith,
      subst (Begun (record d { victims = conflicts s d })) (ground arith)
          (begin_preparation-Begun at fresh s' (record d { victims = conflicts s d }) hb),
    )
