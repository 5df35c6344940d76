-- ===== src/Runtime/Retention/Extension.antt =====
-- What the refresh of deadlines does to each demand.
use rack_ai.Common.{
  ℕ, ◌<◌, true, false, not, ◌||◌, some, List, ◌∷◌, [], ◌≡◌, refl, arith, inl, inr, ◌⊎◌,
  if◌then◌else◌, ◌==◌, nat_eq, ltb, any, keep, ok, >>=-eq-ok, ok-injective, subst, Bool-cases,
  Option-cases, All, All-keep, All-++, branch, saturating_add, is_none, is_some_and, ◌-◌,
}
use rack_ai.Common.Map.{lookup, modify, values, lookup-modify}
use rack_ai.Runtime.Types.{Document, Demand, Map}
use rack_ai.Runtime.Types.Enums.{DemandState, demand_state_eq}
use rack_ai.Runtime.Service.{owned, owns}
use rack_ai.Runtime.Service.Holding.{Holds, owns-Holds}
use rack_ai.Runtime.Reservation.{members}
use rack_ai.Runtime.Retention.{
  peers, retainable, latest_activity, extend_to, group_extensions, root_extensions, extensions_of,
  extensions, apply_extensions, refresh,
}
use rack_ai.Runtime.Ownership.{Keyed}

-- The demand is stored under its identifier.
abbrev pub Stored : Document → Demand → Type 0
Stored s d = lookup d.id s.demands ≡ some d

-- A new deadline for a stored demand that is retained, and that would elapse before it.
abbrev pub Justified : Document → ℕ → ℕ → ℕ × ℕ → Type 0
Justified s at t u =
    (u.1 ≡ t)
    × (d : Demand) × (lookup u.0 s.demands ≡ some d)
    × (d.deadline < t)
    × (retainable s at d ≡ true)

owned-Stored :
    (s : Document) (owner id : ℕ) {d : Demand}
    → Keyed s.demands
    → owned s owner id ≡ ok d
    → Stored s d
unfolding owned
owned-Stored s owner id {d} keyed h = elim (Option-cases (lookup id s.demands)) [
  | inl n ↦ absurd (ground arith)
  | inr (c, n) ↦
      let q : c ≡ d = ground arith in
      let k : d.id ≡ id = ground (arith, keyed id c n) in ground arith
]

peers-Stored :
    (s : Document) (owner : ℕ) (ids : List ℕ) {ds : List Demand}
    → Keyed s.demands
    → peers s owner ids ≡ ok ds
    → All (Stored s) ds
unfolding peers
peers-Stored s owner [] keyed h = subst (All (Stored s)) (ok-injective h) tt
peers-Stored s owner (id ∷ ids) keyed h =
    let (d, hd, h1) = >>=-eq-ok (owned s owner id) _ h in
    let (ds, hs, h2) = >>=-eq-ok (peers s owner ids) _ h1 in
    subst (All (Stored s)) (ok-injective h2)
      (owned-Stored s owner id keyed hd, peers-Stored s owner ids keyed hs)

extend_to-Justified :
    (s : Document) (at t : ℕ) (ds : List Demand)
    → All (λ d. Stored s d × (retainable s at d ≡ true)) ds
    → All (Justified s at t) (extend_to t ds)
unfolding extend_to
extend_to-Justified s at t [] h = tt
extend_to-Justified s at t (d ∷ ds) h = elim (Bool-cases (ltb d.deadline t)) [
  | inl e ↦ rw e ((refl, d, h.0.0, ground arith, h.0.1), extend_to-Justified s at t ds h.1)
  | inr e ↦ rw e (extend_to-Justified s at t ds h.1)
]

group_extensions-Justified :
    (s : Document) (seconds at : ℕ) (ds : List Demand)
    → All (Stored s) ds
    → All (Justified s at (saturating_add at seconds)) (group_extensions s seconds at ds)
unfolding group_extensions
group_extensions-Justified s seconds at ds h =
    let retained = keep (retainable s at) ds in
    elim (Bool-cases
      (is_some_and (latest_activity s at retained) (λ activity. ltb (at - activity) seconds))) [
        | inl e ↦ rw e (
            extend_to-Justified s at (saturating_add at seconds) retained
              (All-keep (Stored s) (retainable s at) ds h))
        | inr e ↦ rw e tt
      ]

root_extensions-Justified :
    (s : Document) (seconds at : ℕ) (r : Demand) {us : List (ℕ × ℕ)}
    → Keyed s.demands
    → root_extensions s seconds at r ≡ ok us
    → All (Justified s at (saturating_add at seconds)) us
unfolding root_extensions
root_extensions-Justified s seconds at r keyed h =
    branch (is_none r.reserve_request || not (is_none r.reservation_closed)) (ok []) _ h
      (λ b e. subst (All (Justified s at (saturating_add at seconds))) (ok-injective e) tt)
      (λ b e.
        let (ids, hi, e1) = >>=-eq-ok (members s r) _ e in
        let (ds, hd, e2) = >>=-eq-ok (peers s r.owner ids) _ e1 in
        subst (All (Justified s at (saturating_add at seconds))) (ok-injective e2)
          (group_extensions-Justified s seconds at ds (peers-Stored s r.owner ids keyed hd)))

extensions_of-Justified :
    (s : Document) (seconds at : ℕ) (rs : List Demand) {us : List (ℕ × ℕ)}
    → Keyed s.demands
    → extensions_of s seconds at rs ≡ ok us
    → All (Justified s at (saturating_add at seconds)) us
unfolding extensions_of
extensions_of-Justified s seconds at [] keyed h =
    subst (All (Justified s at (saturating_add at seconds))) (ok-injective h) tt
extensions_of-Justified s seconds at (r ∷ rs) keyed h =
    let (u, hu, h1) = >>=-eq-ok (root_extensions s seconds at r) _ h in
    let (us, hs, h2) = >>=-eq-ok (extensions_of s seconds at rs) _ h1 in
    subst (All (Justified s at (saturating_add at seconds))) (ok-injective h2) (
      All-++ (Justified s at (saturating_add at seconds)) u us
        (root_extensions-Justified s seconds at r keyed hu)
        (extensions_of-Justified s seconds at rs keyed hs))

lookup-apply_extensions :
    (t : ℕ) (us : List (ℕ × ℕ)) (m : Map Demand) (j : ℕ) (d : Demand) {n : Map Demand}
    → apply_extensions us m ≡ ok n
    → All (λ u. u.1 ≡ t) us
    → lookup j m ≡ some d
    → lookup j n ≡ some (if any (λ u. u.0 == j) us then record d { deadline = t } else d)
unfolding apply_extensions
lookup-apply_extensions t [] m j d h a e = ground arith
lookup-apply_extensions t ((id, u) ∷ us) m j d {n} h a e = elim (Option-cases (lookup id m)) [
  | inl x ↦ absurd (ground arith)
  | inr (c, x) ↦ elim (Bool-cases (id == j)) [
    | inl same ↦
        let k : apply_extensions us (modify id (λ d. record d { deadline = u }) m) ≡ ok n =
          ground arith in
        let q : u ≡ t = a.0 in
        let g =
          lookup-apply_extensions t us (modify id (λ d. record d { deadline = u }) m) j
            (record d { deadline = u }) k a.1
            (ground (arith, lookup-modify j id (λ (d : Demand). record d { deadline = u }) m)) in
        ground arith
    | inr other ↦
        let k : apply_extensions us (modify id (λ d. record d { deadline = u }) m) ≡ ok n =
          ground arith in
        let g =
          lookup-apply_extensions t us (modify id (λ d. record d { deadline = u }) m) j d k a.1
            (ground (arith, lookup-modify j id (λ (d : Demand). record d { deadline = u }) m)) in
        ground arith
  ]
]

-- The deadline of the demand moves on, and nothing else; the demand was ready, unreleased and not
-- elapsed, and held the claim of each of its resources.
pub record Extended (s : Document) (at t : ℕ) (d d' : Demand) : Type 0 where
  pub moved : d' ≡ record d { deadline = t }
  pub forward : d.deadline < t
  pub not_released : d.released ≡ false
  pub is_ready : d.state ≡ DemandState.ready
  pub not_elapsed : at < d.deadline
  pub holding : Holds s.claims d

retainable_lem :
    (s : Document) (at : ℕ) (d : Demand)
    → retainable s at d ≡ true
    → (d.released ≡ false) × (d.state ≡ DemandState.ready) × (at < d.deadline) × (owns s d ≡ true)
unfolding retainable
retainable_lem s at d h = (ground arith, ground arith, ground arith, ground arith)

same_target :
    (s : Document) (at t : ℕ) (us : List (ℕ × ℕ))
    → All (Justified s at t) us
    → All (λ u. u.1 ≡ t) us
same_target s at t [] h = tt
same_target s at t (u ∷ us) h = (h.0.0, same_target s at t us h.1)

extended_demand :
    (s : Document) (at t : ℕ) (us : List (ℕ × ℕ)) (j : ℕ) (d : Demand)
    → All (Justified s at t) us
    → lookup j s.demands ≡ some d
    → any (λ u. u.0 == j) us ≡ true
    → (d.deadline < t) × (retainable s at d ≡ true)
extended_demand s at t [] j d h e m = cc
extended_demand s at t ((id, u) ∷ us) j d h e m = elim (Bool-cases (id == j)) [
  | inl same ↦
      let (q, c, ec, l, r) = h.0 in
      let p : c ≡ d = ground arith in
      subst (λ x. (x.deadline < t) × (retainable s at x ≡ true)) p (l, r)
  | inr other ↦ extended_demand s at t us j d h.1 e (ground arith)
]

-- Where demands are stored under their own identifiers, a refresh keeps each one or moves its
-- deadline on to the whole idle period from now; it moves only deadlines that lie before that,
-- of ready, unreleased demands that own their resources and have not elapsed. No deadline comes
-- nearer, and nothing else of a demand changes.
pub refresh-Extended :
    (s : Document) (seconds at j : ℕ) (d : Demand) {t : Document}
    → Keyed s.demands
    → refresh s seconds at ≡ ok t
    → lookup j s.demands ≡ some d
    → (d' : Demand) × (lookup j t.demands ≡ some d')
      × ((d' ≡ d) ⊎ Extended s at (saturating_add at seconds) d d')
unfolding refresh extensions
refresh-Extended s seconds at j d {t} keyed h e =
    let target = saturating_add at seconds in
    let (us, hu, h1) = >>=-eq-ok (extensions_of s seconds at (values s.demands)) _ h in
    let (m, hm, h2) = >>=-eq-ok (apply_extensions us s.demands) _ h1 in
    let just = extensions_of-Justified s seconds at (values s.demands) keyed hu in
    let l =
      lookup-apply_extensions target us s.demands j d hm (same_target s at target us just) e in
    let p : t.demands ≡ m = let q = ok-injective h2 in ground arith in
    elim (Bool-cases (any (λ u. u.0 == j) us)) [
      | inl x ↦ (
        record d { deadline = target },
        ground arith,
        inr (
            let w = extended_demand s at target us j d just e x in
            let f = retainable_lem s at d w.1 in
            record {
              moved = refl;
              forward = w.0;
              not_released = f.0;
              is_ready = f.1;
              not_elapsed = f.2;
              holding = owns-Holds s d f.3;
            }),
      )
      | inr x ↦ (d, ground arith, inl refl)
    ]
