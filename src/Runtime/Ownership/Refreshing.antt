-- ===== src/Runtime/Ownership/Refreshing.antt =====
-- The refresh of a reservation keeps the invariant of the claims.
use rack_ai.Common.{
  ℕ, true, false, not, ◌||◌, some, List, ◌∷◌, [], ◌≡◌, refl, subst, ◌∙◌, arith, inl, inr, ◌==◌,
  nat_eq, option_eq, ok, ok_or, >>=-eq-ok, ok-injective, Bool-cases, Option-cases, branch,
  refuse_if, find, if◌then◌else◌,
}
use rack_ai.Common.Map.{lookup, insert, lookup-insert, Entries-map}
use rack_ai.Runtime.Types.{Document, Demand, Profile}
use rack_ai.Runtime.Types.Enums.{DemandState, demand_state_eq}
use rack_ai.Runtime.Types.Messages.{Failure, Message}
use rack_ai.Runtime.Service.{owned}
use rack_ai.Runtime.Planner.{occupies_host, fence, Fresh}
use rack_ai.Runtime.Planner.Fence.{fence_parts}
use rack_ai.Runtime.Capacity.{retention}
use rack_ai.Runtime.Reserving.{GroupContext, attempt, member_refusal}
use rack_ai.Runtime.Reserving.Views.{ReservationView, view}
use rack_ai.Runtime.Reserving.Refreshing.{
  refresh_reservation, refresh_services, refresh_member, refresh_closed, with_profile,
}
use rack_ai.Runtime.Ownership.{Owned, Holding}
use rack_ai.Runtime.Ownership.Claims.{fence_idle-Owned}
use rack_ai.Runtime.Ownership.Calls.{retention-Owned}

-- A demand that holds nothing may give way to any other under its identifier.
put_idle-Owned :
    (id : ℕ) (d : Demand) {s : Document}
    → d.id ≡ id
    → ((e : Demand) → lookup id s.demands ≡ some e → occupies_host e.state ≡ false)
    → Owned s
    → Owned (record s { demands = insert id d s.demands })
put_idle-Owned id d {s} own idle o = record {
  held =
      Entries-map (Holding s.demands) (Holding (insert id d s.demands)) s.claims
        (λ r j (e, k, m, l). elim (Bool-cases (j == id)) [
          | inl hit ↦ absurd (ground (arith, idle e (ground arith)))
          | inr miss ↦ (e, ground (arith, lookup-insert j id d s.demands), m, l)
        ])
        o.held;
  keyed = λ j x e. elim (Bool-cases (j == id)) [
    | inl hit ↦ ground (arith, lookup-insert j id d s.demands)
    | inr miss ↦ o.keyed j x (ground (arith, lookup-insert j id d s.demands))
  ];
}

unavailable_idle :
    (d : Demand) → (d.state == DemandState.unavailable) ≡ true → occupies_host d.state ≡ false
unfolding occupies_host
unavailable_idle d h = ground arith

same_profile_id : (p : Profile) (hash : ℕ) (d : Demand) → (with_profile p hash d).id ≡ d.id
unfolding with_profile
same_profile_id p hash d = refl

attempt-Owned :
    (k : GroupContext) (fresh : Fresh) (s : Document) (id : ℕ) (d : Demand) {r : Document × Demand}
    → attempt k fresh s d ≡ ok r
    → d.id ≡ id
    → ((e : Demand) → lookup id s.demands ≡ some e → occupies_host e.state ≡ false)
    → Owned s
    → Owned (record (r.0) { demands = insert id r.1 (r.0).demands })
unfolding attempt
attempt-Owned k fresh s id d {r} h own idle o = elim (Option-cases (member_refusal k s d)) [
  | inl e ↦
      let f : fence k.at fresh s d ≡ ok r = ground arith in
      let (m, c, hd, hc, he, b) = fence_parts k.at fresh s d f in
      subst (λ i. Owned (record (r.0) { demands = insert i r.1 (r.0).demands })) (b.same_id ∙ own)
        (fence_idle-Owned k.at fresh s d f (rw own idle) o)
  | inr (reason, e) ↦
      let refused : Demand = record d {
        state = DemandState.unavailable;
        reason = some (Message.failure reason);
        retry_after = some 2;
      } in
      subst
        (λ (t : Document × Demand). Owned (record (t.0) { demands = insert id t.1 (t.0).demands }))
        {x = (s, refused)} {y = r} (ground arith) (put_idle-Owned id refused own idle o)
]

refresh_member-Owned :
    (k : GroupContext) (s : Document) (id tag : ℕ) (d : Demand) {t : Document}
    → refresh_member k s id tag d ≡ ok t
    → lookup id s.demands ≡ some d
    → (d.state == DemandState.unavailable) ≡ true
    → Owned s
    → Owned t
unfolding refresh_member
refresh_member-Owned k s id tag d {t} h e u o =
    let own = o.keyed id d e in
    let idle : (x : Demand) → lookup id s.demands ≡ some x → occupies_host x.state ≡ false = λ x q.
      subst (λ y. occupies_host y.state ≡ false) {x = d} {y = x} (ground arith)
        (unavailable_idle d u) in
    elim (Option-cases (find (λ p. p.tag == tag) k.config.profiles)) [
      | inl n ↦
          let gone : Demand = record d { reason = some (Message.failure Failure.unknown_tag) } in
          subst Owned {x = record s { demands = insert id gone s.demands }} {y = t} (ground arith)
            (put_idle-Owned id gone own idle o)
      | inr (p, n) ↦
          let (hash, hh, h1) = >>=-eq-ok (k.env.profile_digest p) _ (rw (refresh_member, n) at h) in
          let (tried, ht, h2) =
            >>=-eq-ok (attempt k (k.fence_identities d.id) s (with_profile p hash d)) _ h1 in
          subst Owned (ok-injective h2) (
            attempt-Owned k (k.fence_identities d.id) s id (with_profile p hash d) ht
              (same_profile_id p hash d ∙ own) idle o)
    ]

owned-stored :
    (s : Document) (owner id : ℕ) {d : Demand}
    → owned s owner id ≡ ok d
    → lookup id s.demands ≡ some d
unfolding owned
owned-stored s owner id h = ground arith

refresh_services-Owned :
    (k : GroupContext) (root : Demand) (tags : List ℕ) (s : Document) {t : Document}
    → refresh_services k root tags s ≡ ok t
    → Owned s
    → Owned t
unfolding refresh_services
refresh_services-Owned k root [] s h o = subst Owned (ok-injective h) o
refresh_services-Owned k root (tag ∷ tags) s h o =
    let (id, hi, h1) =
      >>=-eq-ok (ok_or (lookup tag root.services) Failure.service_not_reserved) _ h in
    let (d, hd, h2) = >>=-eq-ok (owned s root.owner id) _ h1 in
    let skipped = not (d.state == DemandState.unavailable) || d.released in
    let (t, ht, h3) = >>=-eq-ok (if skipped then ok s else refresh_member k s id tag d) _ h2 in
    refresh_services-Owned k root tags t h3 (
      branch skipped (ok s) (refresh_member k s id tag d) ht (λ b e. subst Owned (ok-injective e) o)
        (λ b e.
          refresh_member-Owned k s id tag d e (owned-stored s root.owner id hd) (ground arith) o))

pub refresh_reservation-Owned :
    (k : GroupContext) (owner id : ℕ) (s : Document) {r : Document × ReservationView}
    → refresh_reservation k owner id s ≡ ok r
    → Owned s
    → Owned r.0
unfolding refresh_reservation
refresh_reservation-Owned k owner id s h o =
    let (root, hr, h1) = >>=-eq-ok (owned s owner id) _ h in
    let (u, hu, h2) =
      >>=-eq-ok (refuse_if (not (root.reservation_id == some id)) Failure.reservation_id_required) _
        h1 in
    let (request, hq, h3) =
      >>=-eq-ok (ok_or root.reserve_request Failure.reservation_id_required) _ h2 in
    let (v, hv, h4) =
      >>=-eq-ok (refuse_if (refresh_closed k root request) Failure.reservation_terminal) _ h3 in
    let (t, ht, h5) = >>=-eq-ok (refresh_services k root request.services s) _ h4 in
    let (kept, hk, h6) = >>=-eq-ok (retention k.env k.config.limits t) _ h5 in
    let (shown, hs, h7) = >>=-eq-ok (view k.public kept owner id) _ h6 in
    subst (λ (x : Document × ReservationView). Owned x.0) (ok-injective h7)
      (retention-Owned k.env k.config.limits t hk
        (refresh_services-Owned k root request.services s ht o))
