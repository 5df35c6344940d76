-- ===== src/Runtime/Ownership/Claims.antt =====
-- The operations that move claims keep the invariant.
use rack_ai.Common.{
  ℕ, true, some, none, List, ◌∷◌, [], ◌≡◌, false, ◌==◌, refl, sym, arith, member, nat_eq, ok,
  >>=-eq-ok, ok-injective, subst, Option-cases, Bool-cases, inl, inr, member-tail,
}
use rack_ai.Common.Map.{lookup, insert, lookup-insert, Entries, Entries-map, Entries-insert}
use rack_ai.Runtime.Types.{Document, Demand, Map}
use rack_ai.Runtime.Types.Enums.{DemandState}
use rack_ai.Runtime.Planner.{
  occupies_host, displace, claim_all, take_all, transfer, fence, fence_claims, conflicts, Fresh,
  check_victims, check_claims,
}
use rack_ai.Runtime.Planner.Fence.{displaced_at, fence_parts, fence_victims_lem}
use rack_ai.Runtime.Ownership.{Owned, Holding, Keyed}

-- Entries for the owner of the resources, and the others as they were.
pub take_all-Entries :
    (Q : ℕ → ℕ → Type 0) (id : ℕ) (rs : List ℕ) (claims : Map ℕ)
    → ((r : ℕ) → member r rs ≡ true → Q r id)
    → Entries Q claims
    → Entries Q (take_all id rs claims)
unfolding take_all
take_all-Entries Q id [] claims q h = h
take_all-Entries Q id (r ∷ rs) claims q h =
    take_all-Entries Q id rs (insert r id claims) (λ p m. q p (member-tail p r rs m))
      (Entries-insert Q r id claims (q r (ground arith)) h)

pub claim_all-take_all :
    (id : ℕ) (rs : List ℕ) (claims : Map ℕ) {m : Map ℕ}
    → claim_all id rs claims ≡ ok m
    → m ≡ take_all id rs claims
unfolding claim_all take_all
claim_all-take_all id [] claims h = ground arith
claim_all-take_all id (r ∷ rs) claims {m} h =
    ground (arith, claim_all-take_all id rs (insert r id claims) {m = m})

-- A transfer to a candidate that is stored keeps the invariant.
pub transfer-Owned :
    (s : Document) (d : Demand) {s' : Document}
    → lookup d.id s.demands ≡ some d
    → occupies_host d.state ≡ true
    → transfer s d ≡ ok s'
    → Owned s
    → Owned s'
unfolding transfer
transfer-Owned s d {s'} stored live h o =
    let (u, hv, h1) = >>=-eq-ok (check_victims s d.victims) _ h in
    let (v, hc, h2) = >>=-eq-ok (check_claims d.id d.profile.resources s.claims) _ h1 in
    subst Owned (ok-injective h2) (record {
      held =
          take_all-Entries (Holding s.demands) d.id d.profile.resources s.claims
            (λ r m. (d, stored, m, live)) o.held;
      keyed = o.keyed;
    })

pub occupies_preparing : occupies_host DemandState.preparing ≡ true
unfolding occupies_host
occupies_preparing = refl

pub occupies_preempting : occupies_host DemandState.preempting ≡ true
unfolding occupies_host
occupies_preempting = refl

-- What the fence leaves of the claims, with the new demand in the document.
fence_claims-Entries :
    (Q : ℕ → ℕ → Type 0) (vs : List ℕ) (id : ℕ) (rs : List ℕ) (claims : Map ℕ) {m : Map ℕ}
    → fence_claims vs id rs claims ≡ ok m
    → ((r : ℕ) → member r rs ≡ true → Q r id)
    → Entries Q claims
    → Entries Q m
unfolding fence_claims
fence_claims-Entries Q [] id rs claims h q e =
    subst (Entries Q) (sym (claim_all-take_all id rs claims h))
      (take_all-Entries Q id rs claims q e)
fence_claims-Entries Q (v ∷ vs) id rs claims h q e = subst (Entries Q) (ok-injective h) e

module _ (at by : ℕ) (vs : List ℕ) (demands m : Map Demand) (d' : Demand)
    (displaced : (j : ℕ) → lookup j m ≡ displaced_at at by vs demands j)
    (idle : (e : Demand) → lookup d'.id demands ≡ some e → occupies_host e.state ≡ false) where
  -- An old holder is still there beside a demand that held nothing, displaced or not.
  Holding-displaced : (r j : ℕ) → Holding demands r j → Holding (insert d'.id d' m) r j
  unfolding displace
  Holding-displaced r j (d, e, k, l) = elim (Bool-cases (j == d'.id)) [
    | inl own ↦ absurd (ground (arith, idle d (ground arith)))
    | inr apart ↦ elim (Bool-cases (member j vs)) [
      | inl hit ↦ (
        displace at by d,
        ground (arith, lookup-insert j d'.id d' m, displaced j),
        k,
        occupies_preempting,
      )
      | inr miss ↦ (d, ground (arith, lookup-insert j d'.id d' m, displaced j), k, l)
    ]
  ]

  Keyed-displaced : Keyed demands → Keyed (insert d'.id d' m)
  unfolding displace
  Keyed-displaced keyed j x e = elim (Option-cases (lookup j demands)) [
    | inl n ↦ ground (arith, lookup-insert j d'.id d' m, displaced j)
    | inr (d, n) ↦ ground (arith, lookup-insert j d'.id d' m, displaced j, keyed j d n)
  ]

-- A fence keeps the invariant when the demand that it prepares, which holds nothing yet, is put
-- into the document.
pub fence_idle-Owned :
    (at : ℕ) (fresh : Fresh) (s : Document) (d : Demand) {r : Document × Demand}
    → fence at fresh s d ≡ ok r
    → ((e : Demand) → lookup d.id s.demands ≡ some e → occupies_host e.state ≡ false)
    → Owned s
    → Owned (record (r.0) { demands = insert (r.1).id r.1 (r.0).demands })
fence_idle-Owned at fresh s d {r} h idle o =
    let (m, c, hd, hc, e, b) = fence_parts at fresh s d h in
    let d' = r.1 in
    let displaced =
      λ (j : ℕ). (fence_victims_lem at d.id d.priority (conflicts s d) s.demands hd j).1 in
    let idle' : (e : Demand) → lookup d'.id s.demands ≡ some e → occupies_host e.state ≡ false =
      rw b.same_id idle in
    subst (λ (t : Document). Owned (record t { demands = insert d'.id d' t.demands })) (sym e)
      (record {
        held =
            fence_claims-Entries (Holding (insert d'.id d' m)) (conflicts s d) d.id
              d.profile.resources s.claims hc
              (λ q k. (
                d',
                ground (arith, lookup-insert d.id d'.id d' m, b.same_id),
                subst (λ p. member q p.resources ≡ true) (sym b.same_profile) k,
                rw b.is_preparing occupies_preparing,
              ))
              (Entries-map (Holding s.demands) (Holding (insert d'.id d' m)) s.claims
                (Holding-displaced at d.id (conflicts s d) s.demands m d' displaced idle') o.held);
        keyed = Keyed-displaced at d.id (conflicts s d) s.demands m d' displaced idle' o.keyed;
      })

-- The same for a demand whose identifier is new.
pub fence-Owned :
    (at : ℕ) (fresh : Fresh) (s : Document) (d : Demand) {r : Document × Demand}
    → fence at fresh s d ≡ ok r
    → lookup d.id s.demands ≡ none
    → Owned s
    → Owned (record (r.0) { demands = insert (r.1).id r.1 (r.0).demands })
fence-Owned at fresh s d h new o = fence_idle-Owned at fresh s d h (λ e k. absurd (ground arith)) o
