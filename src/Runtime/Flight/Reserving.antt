-- ===== src/Runtime/Flight/Reserving.antt =====
-- The admission and the refresh of a reservation put no call into flight.
use rack_ai.Common.{
  ℕ, not, ◌||◌, some, List, ◌∷◌, [], map, ◌≡◌, subst, arith, inl, inr, ◌==◌, nat_eq, option_eq, ok,
  ok_or, >>=-eq-ok, ok-injective, Option-cases, branch, refuse_if, is_some_and, find, if◌then◌else◌,
}
use rack_ai.Common.Map.{lookup, insert, modify}
use rack_ai.Runtime.Types.{Document, Demand, Reserve}
use rack_ai.Runtime.Types.Enums.{DemandState, demand_state_eq}
use rack_ai.Runtime.Types.Messages.{Failure, Message}
use rack_ai.Runtime.Service.{owned}
use rack_ai.Runtime.Planner.{supersede, Fresh}
use rack_ai.Runtime.Planner.Group.{
  fence_group, group_conflicts, group_priority, fence_group_victims, group_claims, prepare_members,
}
use rack_ai.Runtime.Capacity.{retention}
use rack_ai.Runtime.Admission.Decisions.{purge_decisions}
use rack_ai.Runtime.Reserving.{
  GroupContext, reserve, reserve_archived, reserve_new, admit_services, decide_group, admit_group,
  prepare_services, validate_reserve, previous_reservation, reserve_beq, group_material,
  group_environment, group_refusal, remember_group, unavailable_group, with_reservation,
  with_services, service_map, insert_demands, attempt, member_refusal,
}
use rack_ai.Runtime.Reserving.Views.{ReservationView, view}
use rack_ai.Runtime.Reserving.Refreshing.{
  refresh_reservation, refresh_services, refresh_member, refresh_closed, with_profile,
}
use rack_ai.Runtime.Flight.{Calmer-refl, Calmer-trans}
use rack_ai.Runtime.Flight.Steps.{supersede-Calmer}
use rack_ai.Runtime.Flight.Bounds.{retention-Calmer}
use rack_ai.Runtime.Flight.Calls.{Quiet, fence-Quiet}

-- The same of the document of an answer.
abbrev Answers {ℓ} : {A : Type ℓ} → Document → Document × A → Type 0
Answers s r = Quiet s r.0

fence_group-Quiet :
    (at : ℕ) (fresh : ℕ → Fresh) (s : Document) (root : ℕ) (ds : List Demand)
    {r : Document × List Demand}
    → fence_group at fresh s root ds ≡ ok r
    → Answers s r
unfolding fence_group
fence_group-Quiet at fresh s root ds h =
    let vs = group_conflicts s ds in
    let (m, hd, h1) =
      >>=-eq-ok (fence_group_victims at root (group_priority ds) vs s.demands) _ h in
    let (c, hc, h2) = >>=-eq-ok (group_claims vs ds s.claims) _ h1 in
    let s' : Document = record s {
      demands = m;
      claims = c;
      invocations = supersede at vs s.invocations;
    } in
    let (es, hp, h3) = >>=-eq-ok (prepare_members at fresh s' vs ds) _ h2 in
    subst (λ (t : Document × List Demand). Answers s t) (ok-injective h3)
      (supersede-Calmer at vs s.invocations)

module _ (k : GroupContext) (request : Reserve) where
  admit_group-Quiet :
      (root : ℕ) (s : Document) (ds : List Demand) {r : Document × ReservationView}
      → admit_group k request root s ds ≡ ok r
      → Answers s r
  unfolding admit_group
  admit_group-Quiet root s ds h =
      let (f, hf, h1) = >>=-eq-ok (fence_group k.at k.fence_identities s root ds) _ h in
      let stored : Document = record (f.0) {
        demands =
            modify root (with_services (service_map ds []) request)
              (insert_demands f.1 (f.0).demands);
      } in
      let (shown, hv, h2) = >>=-eq-ok (view k.public stored k.source.source root) _ h1 in
      let (kept, hk, h3) = >>=-eq-ok (retention k.env k.config.limits stored) _ h2 in
      subst (λ (t : Document × ReservationView). Answers s t) (ok-injective h3)
        (Calmer-trans s.invocations (f.0).invocations kept.invocations
          (fence_group-Quiet k.at k.fence_identities s root ds hf)
          (retention-Calmer k.env k.config.limits stored hk))

  decide_group-Quiet :
      (root : ℕ) (s : Document) (ds : List Demand) {r : Document × ReservationView}
      → decide_group k request root s ds ≡ ok r
      → Answers s r
  unfolding decide_group remember_group purge_decisions
  decide_group-Quiet root s ds {r} h =
      let (key, hk, h1) = >>=-eq-ok (k.group_digest (group_material k request ds)) _ h in
      let (environment, he, h2) = >>=-eq-ok (group_environment k s) _ h1 in
      let purged = purge_decisions k.at s in
      elim (Option-cases (group_refusal k key environment purged ds)) [
        | inl e ↦ admit_group-Quiet root purged ds {r = r} (ground arith)
        | inr (reason, e) ↦
            let (shown, hs, h3) =
              >>=-eq-ok (unavailable_group k request reason ds)
                (λ shown. ok (remember_group k key environment reason purged, shown)) {r = r}
                (ground arith) in
            subst (λ (t : Document × ReservationView). Answers s t) (ok-injective h3)
              (Calmer-refl s.invocations)
      ]

  admit_services-Quiet :
      (s : Document) (ds : List Demand) {r : Document × ReservationView}
      → admit_services k request s ds ≡ ok r
      → Answers s r
  unfolding admit_services
  admit_services-Quiet s [] h = absurd (ground arith)
  admit_services-Quiet s (d ∷ ds) h =
      decide_group-Quiet d.id s (map (with_reservation d.id) (d ∷ ds)) h

  reserve_new-Quiet :
      (s : Document) {r : Document × ReservationView} → reserve_new k request s ≡ ok r → Answers s r
  unfolding reserve_new
  reserve_new-Quiet s h =
      let (u, hu, h1) = >>=-eq-ok (validate_reserve k request) _ h in
      let (ds, hd, h2) = >>=-eq-ok (prepare_services k s request 0 request.services []) _ h1 in
      admit_services-Quiet s ds h2

  pub reserve-Quiet :
      (s : Document) {r : Document × ReservationView} → reserve k request s ≡ ok r → Quiet s r.0
  unfolding reserve reserve_archived
  reserve-Quiet s {r} h =
      let P = λ (t : Document × ReservationView). Answers s t in
      elim (Option-cases (previous_reservation k.source request s)) [
        | inr (d, e) ↦
            branch (not (is_some_and d.reserve_request (λ q. reserve_beq q request))) _ _
              (rw (reserve, e) at h) (λ b f. absurd (ground arith))
              (λ b f.
                let (shown, hs, f1) = >>=-eq-ok (view k.public s k.source.source d.id) _ f in
                subst P (ok-injective f1) (Calmer-refl s.invocations))
        | inl e ↦
            let (a, ha, h1) =
              >>=-eq-ok (k.archived k.source.source request.acquisition_id) _
                (rw (reserve, e) at h) in
            elim (Option-cases a) [
              | inl n ↦ reserve_new-Quiet s {r = r} (ground arith)
              | inr (v, n) ↦
                  subst P {x = (s, v.1)} {y = r} (ground arith) (Calmer-refl s.invocations)
            ]
      ]

module _ (k : GroupContext) where
  attempt-Quiet :
      (fresh : Fresh) (s : Document) (d : Demand) {r : Document × Demand}
      → attempt k fresh s d ≡ ok r
      → Answers s r
  unfolding attempt
  attempt-Quiet fresh s d {r} h = elim (Option-cases (member_refusal k s d)) [
    | inl e ↦ fence-Quiet k.at fresh s d {r = r} (ground arith)
    | inr (reason, e) ↦
        subst (λ (x : Document). Quiet s x) {x = s} {y = r.0} (ground arith)
          (Calmer-refl s.invocations)
  ]

  refresh_member-Quiet :
      (s : Document) (id tag : ℕ) (d : Demand) {t : Document}
      → refresh_member k s id tag d ≡ ok t
      → Quiet s t
  unfolding refresh_member
  refresh_member-Quiet s id tag d {t} h =
      elim (Option-cases (find (λ p. p.tag == tag) k.config.profiles)) [
        | inl n ↦
            let gone : Demand = record d { reason = some (Message.failure Failure.unknown_tag) } in
            subst (Quiet s) {x = record s { demands = insert id gone s.demands }} {y = t}
              (ground arith) (Calmer-refl s.invocations)
        | inr (p, n) ↦
            let (hash, hh, h1) =
              >>=-eq-ok (k.env.profile_digest p) _ (rw (refresh_member, n) at h) in
            let (tried, ht, h2) =
              >>=-eq-ok (attempt k (k.fence_identities d.id) s (with_profile p hash d)) _ h1 in
            subst (Quiet s) (ok-injective h2)
              (attempt-Quiet (k.fence_identities d.id) s (with_profile p hash d) ht)
      ]

  refresh_services-Quiet :
      (root : Demand) (tags : List ℕ) (s : Document) {t : Document}
      → refresh_services k root tags s ≡ ok t
      → Quiet s t
  unfolding refresh_services
  refresh_services-Quiet root [] s h = subst (Quiet s) (ok-injective h) (Calmer-refl s.invocations)
  refresh_services-Quiet root (tag ∷ tags) s {t} h =
      let (id, hi, h1) =
        >>=-eq-ok (ok_or (lookup tag root.services) Failure.service_not_reserved) _ h in
      let (d, hd, h2) = >>=-eq-ok (owned s root.owner id) _ h1 in
      let skipped = not (d.state == DemandState.unavailable) || d.released in
      let (u, hu, h3) = >>=-eq-ok (if skipped then ok s else refresh_member k s id tag d) _ h2 in
      Calmer-trans s.invocations u.invocations t.invocations
        (branch skipped (ok s) (refresh_member k s id tag d) hu
          (λ b e. subst (Quiet s) (ok-injective e) (Calmer-refl s.invocations))
          (λ b e. refresh_member-Quiet s id tag d e))
        (refresh_services-Quiet root tags u h3)

  pub refresh_reservation-Quiet :
      (owner id : ℕ) (s : Document) {r : Document × ReservationView}
      → refresh_reservation k owner id s ≡ ok r
      → Quiet s r.0
  unfolding refresh_reservation
  refresh_reservation-Quiet owner id s h =
      let (root, hr, h1) = >>=-eq-ok (owned s owner id) _ h in
      let (u, hu, h2) =
        >>=-eq-ok (refuse_if (not (root.reservation_id == some id)) Failure.reservation_id_required)
          _ h1 in
      let (request, hq, h3) =
        >>=-eq-ok (ok_or root.reserve_request Failure.reservation_id_required) _ h2 in
      let (v, hv, h4) =
        >>=-eq-ok (refuse_if (refresh_closed k root request) Failure.reservation_terminal) _ h3 in
      let (t, ht, h5) = >>=-eq-ok (refresh_services k root request.services s) _ h4 in
      let (kept, hk, h6) = >>=-eq-ok (retention k.env k.config.limits t) _ h5 in
      let (shown, hs, h7) = >>=-eq-ok (view k.public kept owner id) _ h6 in
      subst (λ (x : Document × ReservationView). Answers s x) (ok-injective h7)
        (Calmer-trans s.invocations t.invocations kept.invocations
          (refresh_services-Quiet root request.services s ht)
          (retention-Calmer k.env k.config.limits t hk))
