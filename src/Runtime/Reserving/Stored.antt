-- ===== src/Runtime/Reserving/Stored.antt =====
-- The members of a reservation in the document after their fence.
use rack_ai.Common.{
  ℕ, false, some, none, List, ◌∷◌, [], ◌≡◌, refl, sym, subst, ◌∙◌, arith, inl, inr, ◌==◌, nat_eq,
  member, All, ok, >>=-eq-ok, ok-injective, Bool-cases,
}
use rack_ai.Common.Map.{lookup, insert, modify, lookup-insert, lookup-modify}
use rack_ai.Runtime.Types.{Document, Demand, Map, Reserve}
use rack_ai.Runtime.Types.Enums.{DemandState}
use rack_ai.Runtime.Config.{Environment, Limits}
use rack_ai.Runtime.Planner.{supersede, Fresh, begin_preparation}
use rack_ai.Runtime.Planner.Group.{
  group_conflicts, group_priority, fence_group_victims, group_claims, prepare_members, fence_group,
}
use rack_ai.Runtime.Planner.Fence.{begin_preparation-Begun}
use rack_ai.Runtime.Capacity.{retention, check_capacity}
use rack_ai.Runtime.Capacity.Compaction.{compact_terminal_requests, compact_terminal_payloads}
use rack_ai.Runtime.Ownership.Group.{AllNew, ids_of, lookup-insert_demands}
use rack_ai.Runtime.Reserving.{insert_demands, with_services}

-- The demand is stored, and prepares; it has the owner, the profile and the reservation that it was
-- prepared with.
pub record StoredMember (demands : Map Demand) (d : Demand) : Type 0 where
  pub demand : Demand
  pub found : lookup d.id demands ≡ some demand
  pub same_owner : demand.owner ≡ d.owner
  pub same_profile : demand.profile ≡ d.profile
  pub same_reservation : demand.reservation_id ≡ d.reservation_id
  pub is_preparing : demand.state ≡ DemandState.preparing

-- A member after its preparation, and before it.
record Follows (e d : Demand) : Type 0 where
  same_id : e.id ≡ d.id
  same_owner : e.owner ≡ d.owner
  same_profile : e.profile ≡ d.profile
  same_reservation : e.reservation_id ≡ d.reservation_id
  is_preparing : e.state ≡ DemandState.preparing

abbrev AllFollow : List Demand → List Demand → Type 0
AllFollow [] [] = Unit
AllFollow [] (e ∷ es) = ⊥
AllFollow (d ∷ ds) [] = ⊥
AllFollow (d ∷ ds) (e ∷ es) = Follows e d × AllFollow ds es

prepare_members-AllFollow :
    (at : ℕ) (fresh : ℕ → Fresh) (s : Document) (vs : List ℕ) (ds : List Demand) {es : List Demand}
    → prepare_members at fresh s vs ds ≡ ok es
    → AllFollow ds es
unfolding prepare_members
prepare_members-AllFollow at fresh s vs [] h = subst (AllFollow []) (ok-injective h) tt
prepare_members-AllFollow at fresh s vs (d ∷ ds) h =
    let (d', hd, h1) =
      >>=-eq-ok (begin_preparation at (fresh d.id) s (record d { victims = vs })) _ h in
    let (es, hs, h2) = >>=-eq-ok (prepare_members at fresh s vs ds) _ h1 in
    let b = begin_preparation-Begun at (fresh d.id) s (record d { victims = vs }) hd in
    let first : Follows (record d' { preempted_by = none; ready_checked = false }) d = record {
      same_id = b.same_id;
      same_owner = b.same_owner;
      same_profile = b.same_profile;
      same_reservation = b.same_reservation;
      is_preparing = b.is_preparing;
    } in
    subst (AllFollow (d ∷ ds)) (ok-injective h2)
      (first, prepare_members-AllFollow at fresh s vs ds hs)

AllFollow-ids : (ds es : List Demand) → AllFollow ds es → ids_of es ≡ ids_of ds
AllFollow-ids [] [] p = refl
AllFollow-ids [] (e ∷ es) p = absurd p
AllFollow-ids (d ∷ ds) [] p = absurd p
AllFollow-ids (d ∷ ds) (e ∷ es) p =
    let same = p.0.same_id in ground (arith, AllFollow-ids ds es p.1)

insert_demands-StoredMember :
    (demands m : Map Demand) (ds es : List Demand)
    → AllNew demands ds
    → AllFollow ds es
    → All (StoredMember (insert_demands es m)) ds
unfolding insert_demands
insert_demands-StoredMember demands m [] [] new p = tt
insert_demands-StoredMember demands m [] (e ∷ es) new p = absurd p
insert_demands-StoredMember demands m (d ∷ ds) [] new p = absurd p
insert_demands-StoredMember demands m (d ∷ ds) (e ∷ es) new p =
    let same = p.0.same_id in
    (
      record {
        demand = e;
        found =
            lookup-insert_demands d.id es (insert e.id e m)
              (subst (λ is. member d.id is ≡ false) (sym (AllFollow-ids ds es p.1)) new.1)
            ∙ ground (arith, lookup-insert d.id e.id e m);
        same_owner = p.0.same_owner;
        same_profile = p.0.same_profile;
        same_reservation = p.0.same_reservation;
        is_preparing = p.0.is_preparing;
      },
      insert_demands-StoredMember demands (insert e.id e m) ds es new.2 p.1,
    )

pub fence_group-StoredMember :
    (at : ℕ) (fresh : ℕ → Fresh) (s : Document) (root : ℕ) (ds : List Demand)
    {r : Document × List Demand}
    → fence_group at fresh s root ds ≡ ok r
    → AllNew s.demands ds
    → All (StoredMember (insert_demands r.1 (r.0).demands)) ds
unfolding fence_group
fence_group-StoredMember at fresh s root ds h new =
    let vs = group_conflicts s ds in
    let (m, hd, h1) =
      >>=-eq-ok (fence_group_victims at root (group_priority ds) vs s.demands) _ h in
    let (c, hc, h2) = >>=-eq-ok (group_claims vs ds s.claims) _ h1 in
    let s' : Document = record s {
      demands = m;
      claims = c;
      invocations = supersede at vs s.invocations;
    } in
    let (es, hp, h3) = >>=-eq-ok (prepare_members at fresh s' vs ds) _ h2 in
    subst (λ (t : Document × List Demand). All (StoredMember (insert_demands t.1 (t.0).demands)) ds)
      (ok-injective h3)
      (insert_demands-StoredMember s.demands m ds es new
        (prepare_members-AllFollow at fresh s' vs ds hp))

-- The root of a reservation learns its services and its request.
pub with_services-StoredMember :
    (root : ℕ) (services : Map ℕ) (request : Reserve) (m : Map Demand) (ds : List Demand)
    → All (StoredMember m) ds
    → All (StoredMember (modify root (with_services services request) m)) ds
with_services-StoredMember root services request m [] h = tt
with_services-StoredMember root services request m (d ∷ ds) h =
    let p = h.0 in
    let found = p.found in
    (
      elim (Bool-cases (d.id == root)) [
        | inl hit ↦ record {
          demand = with_services services request p.demand;
          found = ground (arith, lookup-modify d.id root (with_services services request) m);
          same_owner = p.same_owner;
          same_profile = p.same_profile;
          same_reservation = p.same_reservation;
          is_preparing = p.is_preparing;
        }
        | inr miss ↦ record {
          demand = p.demand;
          found = ground (arith, lookup-modify d.id root (with_services services request) m);
          same_owner = p.same_owner;
          same_profile = p.same_profile;
          same_reservation = p.same_reservation;
          is_preparing = p.is_preparing;
        }
      ],
      with_services-StoredMember root services request m ds h.1,
    )

-- Bounding what is retained changes calls alone.
pub retention-frame :
    (env : Environment) (l : Limits) (s : Document) {t : Document}
    → retention env l s ≡ ok t
    → (t.demands ≡ s.demands) × (t.claims ≡ s.claims)
unfolding retention
retention-frame env l s {t} h =
    let (m, hm, h1) = >>=-eq-ok (compact_terminal_requests env s.invocations) _ h in
    let (n, hn, h2) = >>=-eq-ok (compact_terminal_payloads env _ m) _ h1 in
    let (u, hu, h3) = >>=-eq-ok (check_capacity env l (record s { invocations = n })) _ h2 in
    subst (λ (x : Document). (x.demands ≡ s.demands) × (x.claims ≡ s.claims)) (ok-injective h3)
      (refl, refl)
