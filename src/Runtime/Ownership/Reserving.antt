-- ===== src/Runtime/Ownership/Reserving.antt =====
-- The admission and the refresh of a reservation keep the invariant of the claims.
use rack_ai.Common.{
  ℕ, false, not, List, ◌∷◌, [], map, ◌≡◌, refl, sym, subst, arith, inl, inr, nat_eq, option_eq,
  member, ok, >>=-eq-ok, ok-injective, Option-cases, branch, is_some_and,
}
use rack_ai.Common.Map.{modify}
use rack_ai.Runtime.Types.{Document, Demand, Map, Reserve}
use rack_ai.Runtime.Types.Enums.{demand_state_eq}
use rack_ai.Runtime.Planner.Group.{fence_group}
use rack_ai.Runtime.Capacity.{retention}
use rack_ai.Runtime.Admission.Decisions.{purge_decisions}
use rack_ai.Runtime.Reserving.{
  GroupContext, reserve, reserve_archived, reserve_new, admit_services, decide_group, admit_group,
  prepare_services, validate_reserve, previous_reservation, reserve_beq, group_material,
  group_environment, group_refusal, remember_group, unavailable_group, with_reservation,
  with_services, service_map, insert_demands,
}
use rack_ai.Runtime.Reserving.Views.{ReservationView, view}
use rack_ai.Runtime.Ownership.{Owned, Keeps, modify-Owned, same-Owned}
use rack_ai.Runtime.Ownership.Calls.{retention-Owned}
use rack_ai.Runtime.Ownership.Group.{AllNew, ids_of, fence_group-Owned}

with_services-Keeps :
    (services : Map ℕ) (request : Reserve) → Keeps (with_services services request)
with_services-Keeps services request = record {
  same_id = λ c. refl;
  same_profile = λ c. refl;
  stays = λ c l. l;
}

admit_group-Owned :
    (k : GroupContext) (request : Reserve) (root : ℕ) (s : Document) (ds : List Demand)
    {r : Document × ReservationView}
    → admit_group k request root s ds ≡ ok r
    → AllNew s.demands ds
    → Owned s
    → Owned r.0
unfolding admit_group
admit_group-Owned k request root s ds h new o =
    let (f, hf, h1) = >>=-eq-ok (fence_group k.at k.fence_identities s root ds) _ h in
    let services = service_map ds [] in
    let fenced = fence_group-Owned k.at k.fence_identities s root ds hf new o in
    let stored : Document = record (f.0) {
      demands = modify root (with_services services request) (insert_demands f.1 (f.0).demands);
    } in
    let (shown, hv, h2) = >>=-eq-ok (view k.public stored k.source.source root) _ h1 in
    let (kept, hk, h3) = >>=-eq-ok (retention k.env k.config.limits stored) _ h2 in
    subst (λ (t : Document × ReservationView). Owned t.0) (ok-injective h3)
      (retention-Owned k.env k.config.limits stored hk (
        modify-Owned root (with_services services request) (with_services-Keeps services request)
          fenced))

decide_group-Owned :
    (k : GroupContext) (request : Reserve) (root : ℕ) (s : Document) (ds : List Demand)
    {r : Document × ReservationView}
    → decide_group k request root s ds ≡ ok r
    → AllNew s.demands ds
    → Owned s
    → Owned r.0
unfolding decide_group remember_group purge_decisions
decide_group-Owned k request root s ds {r} h new o =
    let (key, hk, h1) = >>=-eq-ok (k.group_digest (group_material k request ds)) _ h in
    let (environment, he, h2) = >>=-eq-ok (group_environment k s) _ h1 in
    let purged = purge_decisions k.at s in
    elim (Option-cases (group_refusal k key environment purged ds)) [
      | inl e ↦
          admit_group-Owned k request root purged ds {r = r} (ground arith) new
            (same-Owned {s = s} refl refl o)
      | inr (reason, e) ↦
          let (shown, hs, h3) =
            >>=-eq-ok (unavailable_group k request reason ds)
              (λ shown. ok (remember_group k key environment reason purged, shown)) {r = r}
              (ground arith) in
          subst (λ (t : Document × ReservationView). Owned t.0) (ok-injective h3)
            (same-Owned {s = s} refl refl o)
    ]

ids-with_reservation :
    (root : ℕ) (ds : List Demand) → ids_of (map (with_reservation root) ds) ≡ ids_of ds
ids-with_reservation root [] = refl
ids-with_reservation root (d ∷ ds) = ground (arith, ids-with_reservation root ds)

pub AllNew-with_reservation :
    (root : ℕ) (demands : Map Demand) (ds : List Demand)
    → AllNew demands ds
    → AllNew demands (map (with_reservation root) ds)
AllNew-with_reservation root demands [] new = tt
AllNew-with_reservation root demands (d ∷ ds) new = (
  new.0,
  subst (λ is. member d.id is ≡ false) (sym (ids-with_reservation root ds)) new.1,
  AllNew-with_reservation root demands ds new.2,
)

admit_services-Owned :
    (k : GroupContext) (request : Reserve) (s : Document) (ds : List Demand)
    {r : Document × ReservationView}
    → admit_services k request s ds ≡ ok r
    → AllNew s.demands ds
    → Owned s
    → Owned r.0
unfolding admit_services
admit_services-Owned k request s [] h new o = absurd (ground arith)
admit_services-Owned k request s (d ∷ ds) h new o =
    decide_group-Owned k request d.id s (map (with_reservation d.id) (d ∷ ds)) h
      (AllNew-with_reservation d.id s.demands (d ∷ ds) new) o

-- The members of a reservation draw identifiers that are not in use and differ.
abbrev pub DrawsNew : GroupContext → Reserve → Document → Type 0
DrawsNew k request s =
    (ds : List Demand)
    → prepare_services k s request 0 request.services [] ≡ ok ds
    → AllNew s.demands ds

reserve_new-Owned :
    (k : GroupContext) (request : Reserve) (s : Document) {r : Document × ReservationView}
    → reserve_new k request s ≡ ok r
    → DrawsNew k request s
    → Owned s
    → Owned r.0
unfolding reserve_new
reserve_new-Owned k request s h draws o =
    let (u, hu, h1) = >>=-eq-ok (validate_reserve k request) _ h in
    let (ds, hd, h2) = >>=-eq-ok (prepare_services k s request 0 request.services []) _ h1 in
    admit_services-Owned k request s ds h2 (draws ds hd) o

pub reserve-Owned :
    (k : GroupContext) (request : Reserve) (s : Document) {r : Document × ReservationView}
    → reserve k request s ≡ ok r
    → DrawsNew k request s
    → Owned s
    → Owned r.0
unfolding reserve reserve_archived
reserve-Owned k request s {r} h draws o =
    let P = λ (t : Document × ReservationView). Owned t.0 in
    elim (Option-cases (previous_reservation k.source request s)) [
      | inr (d, e) ↦
          branch (not (is_some_and d.reserve_request (λ q. reserve_beq q request))) _ _
            (rw (reserve, e) at h) (λ b f. absurd (ground arith))
            (λ b f.
              let (shown, hs, f1) = >>=-eq-ok (view k.public s k.source.source d.id) _ f in
              subst P (ok-injective f1) o)
      | inl e ↦
          let (a, ha, h1) =
            >>=-eq-ok (k.archived k.source.source request.acquisition_id) _
              (rw (reserve, e) at h) in
          elim (Option-cases a) [
            | inl n ↦ reserve_new-Owned k request s {r = r} (ground arith) draws o
            | inr (v, n) ↦ subst P {x = (s, v.1)} {y = r} (ground arith) o
          ]
    ]
