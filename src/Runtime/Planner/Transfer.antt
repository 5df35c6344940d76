-- ===== src/Runtime/Planner/Transfer.antt =====
-- The contract of the transfer of claims.
use rack_ai.Common.{
  ℕ, true, false, some, List, ◌∷◌, [], ◌≡◌, refl, ◌==◌, nat_eq, option_eq, member, ok, arith,
  Bool-cases, Option-cases, inl, inr, all-of, member-tail, >>=-eq-ok, ok-injective, subst,
}
use rack_ai.Common.Map.{lookup}
use rack_ai.Runtime.Types.{Document, Demand}
use rack_ai.Runtime.Types.Enums.{DemandState, demand_state_eq}
use rack_ai.Runtime.Service.{owns, inflight}
use rack_ai.Runtime.Planner.{transfer, check_victims, check_claims, take_all}
use rack_ai.Runtime.Planner.Claims.{
  FreeFor, claimed_at, lookup-take_all, check_claims-FreeFor, check_claims-total,
}

-- The victim is terminal, and none of its calls is still in flight.
abbrev pub Drained : Document → ℕ → Type 0
Drained s j =
    (v : Demand) × (lookup j s.demands ≡ some v)
    × (v.state ≡ DemandState.preempted)
    × (inflight s j ≡ false)

check_victims-Drained :
    (s : Document) (ids : List ℕ) (j : ℕ) {u : Unit {0}}
    → check_victims s ids ≡ ok u
    → member j ids ≡ true
    → Drained s j
unfolding check_victims
check_victims-Drained s [] j h e = cc
check_victims-Drained s (id ∷ ids) j {u} h e = elim (Option-cases (lookup id s.demands)) [
  | inl n ↦ absurd (ground arith)
  | inr (v, n) ↦ elim (Bool-cases (j == id)) [
    | inl same ↦ (v, ground arith, ground arith, ground arith)
    | inr other ↦ check_victims-Drained s ids j {u = u} (ground arith) (ground arith)
  ]
]

check_victims-total :
    (s : Document) (ids : List ℕ)
    → ((j : ℕ) → member j ids ≡ true → Drained s j)
    → check_victims s ids ≡ ok tt
unfolding check_victims
check_victims-total s [] h = refl
check_victims-total s (id ∷ ids) h =
    let (v, e, p, q) = h id (ground arith) in
    ground (arith, check_victims-total s ids (λ j m. h j (member-tail j id ids m)))

pub record Transferred (s : Document) (d : Demand) (s' : Document) : Type 0 where
  pub drained : (j : ℕ) → member j d.victims ≡ true → Drained s j
  pub free : (r : ℕ) → member r d.profile.resources ≡ true → FreeFor s.claims d.id r
  pub moved : (r : ℕ) → lookup r s'.claims ≡ claimed_at d.id d.profile.resources s.claims r
  pub owning : owns s' d ≡ true
  pub same_demands : s'.demands ≡ s.demands
  pub same_calls : s'.invocations ≡ s.invocations

owns-take_all :
    (s : Document) (d : Demand)
    → owns (record s { claims = take_all d.id d.profile.resources s.claims }) d ≡ true
unfolding owns
owns-take_all s d =
    all-of (λ q. lookup q (take_all d.id d.profile.resources s.claims) == some d.id)
      d.profile.resources
      (λ q m. ground (arith, lookup-take_all d.id d.profile.resources s.claims q))

-- A transfer that succeeds finds every victim preempted with no call in flight and every resource
-- free or already the candidate's; the candidate then owns all its resources, every other claim is
-- as it was, and no demand or call changes.
pub transfer-Transferred :
    (s : Document) (d : Demand) {s' : Document} → transfer s d ≡ ok s' → Transferred s d s'
unfolding transfer
transfer-Transferred s d {s'} h =
    let (u, hv, h1) = >>=-eq-ok (check_victims s d.victims) _ h in
    let (v, hc, h2) = >>=-eq-ok (check_claims d.id d.profile.resources s.claims) _ h1 in
    let e = ok-injective h2 in
    record {
      drained = λ j. check_victims-Drained s d.victims j hv;
      free = λ r. check_claims-FreeFor d.id d.profile.resources s.claims r hc;
      moved = λ r. rw (← e) (lookup-take_all d.id d.profile.resources s.claims r);
      owning = subst (λ t. owns t d ≡ true) e (owns-take_all s d);
      same_demands = ground arith;
      same_calls = ground arith;
    }

-- Once every victim is preempted with no call in flight and every resource is free or the
-- candidate's own, the transfer succeeds.
pub transfer-total :
    (s : Document) (d : Demand)
    → ((j : ℕ) → member j d.victims ≡ true → Drained s j)
    → ((r : ℕ) → member r d.profile.resources ≡ true → FreeFor s.claims d.id r)
    → transfer s d ≡ ok (record s { claims = take_all d.id d.profile.resources s.claims })
unfolding transfer
transfer-total s d drained free = ground (
  arith,
  check_victims-total s d.victims drained,
  check_claims-total d.id d.profile.resources s.claims free,
)
