-- ===== src/Runtime/Ownership/Group.antt =====
-- A reservation of several services keeps the invariant of the claims.
use rack_ai.Common.{
  ℕ, true, false, some, none, List, ◌∷◌, [], map, ◌≡◌, refl, sym, subst, ◌∙◌, arith, inl, inr, ◌==◌,
  nat_eq, member, ok, >>=-eq-ok, ok-injective, Bool-cases, Option-cases, All,
}
use rack_ai.Common.Map.{lookup, insert, lookup-insert, Entries, Entries-map}
use rack_ai.Runtime.Types.{Document, Demand, Map}
use rack_ai.Runtime.Types.Enums.{DemandState}
use rack_ai.Runtime.Planner.{displace, claim_all, supersede, Fresh, begin_preparation}
use rack_ai.Runtime.Planner.Fence.{displaced_at, begin_preparation-Begun}
use rack_ai.Runtime.Planner.Group.{
  fence_group, group_conflicts, group_priority, fence_group_victims, group_claims, claim_members,
  prepare_members,
}
use rack_ai.Runtime.Planner.Reserved.{group_victims_lem}
use rack_ai.Runtime.Reserving.{insert_demands}
use rack_ai.Runtime.Ownership.{Owned, Holding, Keyed}
use rack_ai.Runtime.Ownership.Claims.{
  take_all-Entries, claim_all-take_all, occupies_preparing, occupies_preempting,
}

abbrev pub ids_of : List Demand → List ℕ
ids_of ds = map (λ d. d.id) ds

-- The members' identifiers differ, and none is in use.
abbrev pub AllNew : Map Demand → List Demand → Type 0
AllNew demands [] = Unit
AllNew demands (d ∷ ds) =
    (lookup d.id demands ≡ none) × (member d.id (ids_of ds) ≡ false) × AllNew demands ds

-- Each member after its preparation, beside the member before it.
abbrev pub Prepared : List Demand → List Demand → Type 0
Prepared [] [] = Unit
Prepared [] (e ∷ es) = ⊥
Prepared (d ∷ ds) [] = ⊥
Prepared (d ∷ ds) (e ∷ es) =
    (e.id ≡ d.id) × (e.profile ≡ d.profile) × (e.state ≡ DemandState.preparing) × Prepared ds es

prepare_members-Prepared :
    (at : ℕ) (fresh : ℕ → Fresh) (s : Document) (vs : List ℕ) (ds : List Demand) {es : List Demand}
    → prepare_members at fresh s vs ds ≡ ok es
    → Prepared ds es
unfolding prepare_members
prepare_members-Prepared at fresh s vs [] h = subst (Prepared []) (ok-injective h) tt
prepare_members-Prepared at fresh s vs (d ∷ ds) h =
    let (d', hd, h1) =
      >>=-eq-ok (begin_preparation at (fresh d.id) s (record d { victims = vs })) _ h in
    let (es, hs, h2) = >>=-eq-ok (prepare_members at fresh s vs ds) _ h1 in
    let b = begin_preparation-Begun at (fresh d.id) s (record d { victims = vs }) hd in
    subst (Prepared (d ∷ ds)) (ok-injective h2)
      (b.same_id, b.same_profile, b.is_preparing, prepare_members-Prepared at fresh s vs ds hs)

Prepared-ids : (ds es : List Demand) → Prepared ds es → ids_of es ≡ ids_of ds
Prepared-ids [] [] p = refl
Prepared-ids [] (e ∷ es) p = absurd p
Prepared-ids (d ∷ ds) [] p = absurd p
Prepared-ids (d ∷ ds) (e ∷ es) p = ground (arith, Prepared-ids ds es p.3)

pub lookup-insert_demands :
    (j : ℕ) (ds : List Demand) (m : Map Demand)
    → member j (ids_of ds) ≡ false
    → lookup j (insert_demands ds m) ≡ lookup j m
unfolding insert_demands
lookup-insert_demands j [] m h = refl
lookup-insert_demands j (d ∷ ds) m h =
    lookup-insert_demands j ds (insert d.id d m) (ground arith)
    ∙ ground (arith, lookup-insert j d.id d m)

insert_demands-Keyed : (ds : List Demand) (m : Map Demand) → Keyed m → Keyed (insert_demands ds m)
unfolding insert_demands
insert_demands-Keyed [] m k = k
insert_demands-Keyed (d ∷ ds) m k = insert_demands-Keyed ds (insert d.id d m) (λ j x e.
    elim (Bool-cases (j == d.id)) [
      | inl hit ↦ ground (arith, lookup-insert j d.id d m)
      | inr miss ↦ k j x (ground (arith, lookup-insert j d.id d m))
    ])

-- Each member holds on to what it needs, once all are stored.
abbrev MembersHold : Map Demand → Demand → Type 0
MembersHold demands d = (r : ℕ) → member r d.profile.resources ≡ true → Holding demands r d.id

members_hold :
    (demands m : Map Demand) (ds es : List Demand)
    → AllNew demands ds
    → Prepared ds es
    → All (MembersHold (insert_demands es m)) ds
unfolding insert_demands
members_hold demands m [] [] new p = tt
members_hold demands m [] (e ∷ es) new p = absurd p
members_hold demands m (d ∷ ds) [] new p = absurd p
members_hold demands m (d ∷ ds) (e ∷ es) new p = (
  λ r k. (
    e,
    lookup-insert_demands d.id es (insert e.id e m)
          (subst (λ is. member d.id is ≡ false) (sym (Prepared-ids ds es p.3)) new.1)
        ∙ ground (arith, lookup-insert d.id e.id e m, p.0),
    subst (λ q. member r q.resources ≡ true) (sym p.1) k,
    rw p.2 occupies_preparing,
  ),
  members_hold demands (insert e.id e m) ds es new.2 p.3,
)

claim_members-Entries :
    (Q : ℕ → ℕ → Type 0) (ds : List Demand) (claims : Map ℕ) {n : Map ℕ}
    → claim_members ds claims ≡ ok n
    → All (λ d. (r : ℕ) → member r d.profile.resources ≡ true → Q r d.id) ds
    → Entries Q claims
    → Entries Q n
unfolding claim_members
claim_members-Entries Q [] claims h q e = subst (Entries Q) (ok-injective h) e
claim_members-Entries Q (d ∷ ds) claims h q e =
    let (c, hc, h1) = >>=-eq-ok (claim_all d.id d.profile.resources claims) _ h in
    claim_members-Entries Q ds c h1 q.1 (
      subst (Entries Q) (sym (claim_all-take_all d.id d.profile.resources claims hc))
        (take_all-Entries Q d.id d.profile.resources claims q.0 e))

group_claims-Entries :
    (Q : ℕ → ℕ → Type 0) (vs : List ℕ) (ds : List Demand) (claims : Map ℕ) {n : Map ℕ}
    → group_claims vs ds claims ≡ ok n
    → All (λ d. (r : ℕ) → member r d.profile.resources ≡ true → Q r d.id) ds
    → Entries Q claims
    → Entries Q n
unfolding group_claims
group_claims-Entries Q [] ds claims h q e = claim_members-Entries Q ds claims h q e
group_claims-Entries Q (v ∷ vs) ds claims h q e = subst (Entries Q) (ok-injective h) e

new_apart :
    (demands : Map Demand) (ds : List Demand) (j : ℕ) {d : Demand}
    → AllNew demands ds
    → lookup j demands ≡ some d
    → member j (ids_of ds) ≡ false
new_apart demands [] j new e = refl
new_apart demands (d ∷ ds) j new e = elim (Bool-cases (j == d.id)) [
  | inl hit ↦ absurd (ground (arith, new.0))
  | inr miss ↦ ground (arith, new_apart demands ds j new.2 e)
]

module _ (at root : ℕ) (vs : List ℕ) (demands m : Map Demand) (ds es : List Demand)
    (displaced : (j : ℕ) → lookup j m ≡ displaced_at at root vs demands j) (new : AllNew demands ds)
    (prepared : Prepared ds es) where
  Holding-group : (r j : ℕ) → Holding demands r j → Holding (insert_demands es m) r j
  unfolding displace
  Holding-group r j (d, e, k, l) =
      let apart = lookup-insert_demands j es m (
        subst (λ is. member j is ≡ false) (sym (Prepared-ids ds es prepared))
          (new_apart demands ds j new e)) in
      elim (Bool-cases (member j vs)) [
        | inl hit ↦
            (displace at root d, apart ∙ ground (arith, displaced j), k, occupies_preempting)
        | inr miss ↦ (d, apart ∙ ground (arith, displaced j), k, l)
      ]

  Keyed-group : Keyed demands → Keyed (insert_demands es m)
  unfolding displace
  Keyed-group keyed = insert_demands-Keyed es m (λ j x e. elim (Option-cases (lookup j demands)) [
    | inl n ↦ absurd (ground (arith, displaced j))
    | inr (d, n) ↦ ground (arith, displaced j, keyed j d n)
  ])

-- A fence of several services keeps the invariant when all its members, whose identifiers are new and
-- differ, are put into the document.
pub fence_group-Owned :
    (at : ℕ) (fresh : ℕ → Fresh) (s : Document) (root : ℕ) (ds : List Demand)
    {r : Document × List Demand}
    → fence_group at fresh s root ds ≡ ok r
    → AllNew s.demands ds
    → Owned s
    → Owned (record (r.0) { demands = insert_demands r.1 (r.0).demands })
unfolding fence_group
fence_group-Owned at fresh s root ds {r} h new o =
    let vs = group_conflicts s ds in
    let (m, hd, h1) =
      >>=-eq-ok (fence_group_victims at root (group_priority ds) vs s.demands) _ h in
    let (c, hc, h2) = >>=-eq-ok (group_claims vs ds s.claims) _ h1 in
    let s' : Document = record s {
      demands = m;
      claims = c;
      invocations = supersede at vs s.invocations;
    } in
    let (es, hp, h3) = >>=-eq-ok (prepare_members at fresh s' vs ds) _ h2 in
    let prepared = prepare_members-Prepared at fresh s' vs ds hp in
    let displaced =
      λ (j : ℕ). (group_victims_lem at root (group_priority ds) vs s.demands hd j).1 in
    subst
      (λ (t : Document × List Demand).
        Owned (record (t.0) { demands = insert_demands t.1 (t.0).demands }))
      (ok-injective h3)
      (record {
        held =
            group_claims-Entries (Holding (insert_demands es m)) vs ds s.claims hc
              (members_hold s.demands m ds es new prepared)
              (Entries-map (Holding s.demands) (Holding (insert_demands es m)) s.claims
                (Holding-group at root vs s.demands m ds es displaced new prepared) o.held);
        keyed = Keyed-group at root vs s.demands m ds es displaced new prepared o.keyed;
      })
