-- ===== src/Runtime/Planner/Reserved.antt =====
-- The contract of the fence of several services.
use rack_ai.Common.{
  ℕ, true, false, Option, some, none, List, ◌∷◌, [], ◌≡◌, ◌≢◌, refl, subst, nat_eq, member, any,
  ◌||◌, set_insert, member-set_insert, ok, arith, All, >>=-eq-ok, ok-injective,
}
use rack_ai.Common.Map.{lookup, modify}
use rack_ai.Runtime.Types.{Document, Demand, Map}
use rack_ai.Runtime.Types.Enums.{DemandState, Priority, demand_state_eq}
use rack_ai.Runtime.Planner.{
  fence_victims, displace, claim_all, conflicts, supersede, Fresh, begin_preparation,
}
use rack_ai.Runtime.Planner.Group.{
  union, group_conflicts_onto, group_conflicts, group_priority, fence_group_victims, claim_members,
  group_claims, prepare_members, fence_group,
}
use rack_ai.Runtime.Service.Holding.{Holds}
use rack_ai.Runtime.Planner.Claims.{
  lookup-claim_all, claim_all-keeps, held_by_other, member-conflicts_of,
}
use rack_ai.Runtime.Planner.Fence.{
  Displaceable, displaced_at, fence_victims_lem, begin_preparation-Begun,
}

-- Where the demands have a highest priority, the group's loop is that of one demand with it.
fence_group_victims-fence_victims :
    (at root : ℕ) (p : Priority) (ids : List ℕ) (demands : Map Demand) {m : Map Demand}
    → fence_group_victims at root (some p) ids demands ≡ ok m
    → fence_victims at root p ids demands ≡ ok m
unfolding fence_group_victims fence_victims
fence_group_victims-fence_victims at root p [] demands h = h
fence_group_victims-fence_victims at root p (id ∷ ids) demands {m} h = ground (
  arith,
  fence_group_victims-fence_victims at root p ids (modify id (displace at root) demands) {m = m},
)

claim_members-keeps :
    (ds : List Demand) (claims : Map ℕ) (r : ℕ) {m : Map ℕ} {a : ℕ}
    → claim_members ds claims ≡ ok m
    → lookup r claims ≡ some a
    → lookup r m ≡ some a
unfolding claim_members
claim_members-keeps [] claims r h e = cc
claim_members-keeps (d ∷ ds) claims r h e =
    let (c, hc, h1) = >>=-eq-ok (claim_all d.id d.profile.resources claims) _ h in
    claim_members-keeps ds c r h1 (claim_all-keeps d.id d.profile.resources claims r hc e)

claim_members-Holds :
    (ds : List Demand) (claims : Map ℕ) {m : Map ℕ}
    → claim_members ds claims ≡ ok m
    → All (Holds m) ds
unfolding claim_members
claim_members-Holds [] claims h = tt
claim_members-Holds (d ∷ ds) claims {m} h =
    let (c, hc, h1) = >>=-eq-ok (claim_all d.id d.profile.resources claims) _ h in
    (
      λ r k.
          claim_members-keeps ds c r h1
            (ground (arith, lookup-claim_all d.id d.profile.resources claims r hc)),
      claim_members-Holds ds c h1,
    )

group_claims-Holds :
    (vs : List ℕ) (ds : List Demand) (claims : Map ℕ) {m : Map ℕ}
    → group_claims vs ds claims ≡ ok m
    → vs ≡ []
    → All (Holds m) ds
unfolding group_claims
group_claims-Holds [] ds claims h e = claim_members-Holds ds claims h
group_claims-Holds (v ∷ vs) ds claims h e = cc

group_claims-waits :
    (vs : List ℕ) (ds : List Demand) (claims : Map ℕ) {m : Map ℕ}
    → group_claims vs ds claims ≡ ok m
    → vs ≢ []
    → m ≡ claims
unfolding group_claims
group_claims-waits [] ds claims h e = absurd (e refl)
group_claims-waits (v ∷ vs) ds claims h e = cc

-- A member prepares with the victims of the whole group.
abbrev pub Joins : List ℕ → Demand → Type 0
Joins victims d =
    (d.state ≡ DemandState.preparing) × (d.victims ≡ victims) × (d.ready_checked ≡ false)

prepare_members-Joins :
    (at : ℕ) (fresh : ℕ → Fresh) (s : Document) (vs : List ℕ) (ds : List Demand) {ds' : List Demand}
    → prepare_members at fresh s vs ds ≡ ok ds'
    → All (Joins vs) ds'
unfolding prepare_members
prepare_members-Joins at fresh s vs [] h = subst (All (Joins vs)) (ok-injective h) tt
prepare_members-Joins at fresh s vs (d ∷ ds) h =
    let (d', hd, h1) =
      >>=-eq-ok (begin_preparation at (fresh d.id) s (record d { victims = vs })) _ h in
    let (ds', hs, h2) = >>=-eq-ok (prepare_members at fresh s vs ds) _ h1 in
    let b = begin_preparation-Begun at (fresh d.id) s (record d { victims = vs }) hd in
    subst (All (Joins vs)) (ok-injective h2)
      ((b.is_preparing, b.same_victims, refl), prepare_members-Joins at fresh s vs ds hs)

-- The victims of the group give way to its highest priority.
abbrev pub GivesWay : Map Demand → Option Priority → ℕ → Type 0
GivesWay demands none j = ⊥
GivesWay demands (some p) j = Displaceable demands p j

member-union : (j : ℕ) (xs ys : List ℕ) → member j (union xs ys) ≡ (member j xs || member j ys)
unfolding union
member-union j [] ys = refl
member-union j (x ∷ xs) ys =
    ground (arith, member-union j xs (set_insert x ys), member-set_insert j x ys)

member-conflicts :
    (s : Document) (d : Demand) (j : ℕ)
    → member j (conflicts s d) ≡ any (held_by_other s.claims d.id j) d.profile.resources
unfolding conflicts
member-conflicts s d j = member-conflicts_of s.claims d.id d.profile.resources j

member-group_conflicts_onto :
    (acc : List ℕ) (s : Document) (ds : List Demand) (j : ℕ)
    → member j (group_conflicts_onto acc s ds)
      ≡ (member j acc || any (λ d. any (held_by_other s.claims d.id j) d.profile.resources) ds)
unfolding group_conflicts_onto
member-group_conflicts_onto acc s [] j = ground arith
member-group_conflicts_onto acc s (d ∷ ds) j = ground (
  arith,
  member-group_conflicts_onto (union (conflicts s d) acc) s ds j,
  member-union j (conflicts s d) acc,
  member-conflicts s d j,
)

member-group_conflicts :
    (s : Document) (ds : List Demand) (j : ℕ)
    → member j (group_conflicts s ds)
      ≡ any (λ d. any (held_by_other s.claims d.id j) d.profile.resources) ds
unfolding group_conflicts
member-group_conflicts s ds j = member-group_conflicts_onto [] s ds j

pub record GroupFenced (at root : ℕ) (s : Document) (ds : List Demand) (s' : Document)
    (ds' : List Demand) : Type 0 where
  pub exactly_others :
      (j : ℕ)
      → member j (group_conflicts s ds)
        ≡ any (λ d. any (held_by_other s.claims d.id j) d.profile.resources) ds
  pub gives_way :
      (j : ℕ) → member j (group_conflicts s ds) ≡ true → GivesWay s.demands (group_priority ds) j
  pub displaced :
      (j : ℕ) → lookup j s'.demands ≡ displaced_at at root (group_conflicts s ds) s.demands j
  pub waits : group_conflicts s ds ≢ [] → s'.claims ≡ s.claims
  pub holds : group_conflicts s ds ≡ [] → All (Holds s'.claims) ds
  pub joins : All (Joins (group_conflicts s ds)) ds'

pub group_victims_lem :
    (at root : ℕ) (o : Option Priority) (ids : List ℕ) (demands : Map Demand) {m : Map Demand}
    → fence_group_victims at root o ids demands ≡ ok m
    → (j : ℕ)
    → (member j ids ≡ true → GivesWay demands o j)
      × (lookup j m ≡ displaced_at at root ids demands j)
unfolding fence_group_victims
group_victims_lem at root none [] demands h j = (λ e. cc, ground arith)
group_victims_lem at root none (id ∷ ids) demands h j = absurd (ground arith)
group_victims_lem at root (some p) ids demands h j =
    fence_victims_lem at root p ids demands
      (fence_group_victims-fence_victims at root p ids demands h) j

-- A fence of several services is all or nothing: it displaces exactly the demands that hold a
-- resource of a member other than themselves, each of them ready and below the highest priority of
-- the group; while there are victims no claim moves, and with none every member holds all its
-- resources; all members prepare with the same victims.
pub fence_group-GroupFenced :
    (at : ℕ) (fresh : ℕ → Fresh) (s : Document) (root : ℕ) (ds : List Demand)
    {r : Document × List Demand}
    → fence_group at fresh s root ds ≡ ok r
    → GroupFenced at root s ds r.0 r.1
unfolding fence_group
fence_group-GroupFenced at fresh s root ds {r} h =
    let vs = group_conflicts s ds in
    let (demands, hd, h1) =
      >>=-eq-ok (fence_group_victims at root (group_priority ds) vs s.demands) _ h in
    let (claims, hc, h2) = >>=-eq-ok (group_claims vs ds s.claims) _ h1 in
    let s' : Document = record s {
      demands = demands;
      claims = claims;
      invocations = supersede at vs s.invocations;
    } in
    let (ds', hp, h3) = >>=-eq-ok (prepare_members at fresh s' vs ds) _ h2 in
    let e = ok-injective h3 in
    subst (λ (t : Document × List Demand). GroupFenced at root s ds t.0 t.1) e
      (record {
        exactly_others = member-group_conflicts s ds;
        gives_way = λ j. (group_victims_lem at root (group_priority ds) vs s.demands hd j).0;
        displaced = λ j. (group_victims_lem at root (group_priority ds) vs s.demands hd j).1;
        waits = group_claims-waits vs ds s.claims hc;
        holds = group_claims-Holds vs ds s.claims hc;
        joins = prepare_members-Joins at fresh s' vs ds hp;
      })
