-- ===== src/Runtime/Planner/Claims.antt =====
-- What claiming resources does to the claims.
use rack_ai.Common.{
  ℕ, Bool, true, not, Option, some, none, List, ◌∷◌, [], ◌≡◌, refl, if◌then◌else◌, ◌==◌, nat_eq,
  member, ok, arith, ◌⊎◌, inl, inr, Option-cases, Bool-cases, member-set_insert, member-tail,
  any-member, any, is_some_and, ◌&&◌, option_eq,
}
use rack_ai.Common.Map.{lookup, insert, lookup-insert}
use rack_ai.Runtime.Types.{Map}
use rack_ai.Runtime.Planner.{claim_all, check_claims, take_all, conflicts_of}

-- Nobody else holds the resource.
abbrev pub FreeFor : Map ℕ → ℕ → ℕ → Type 0
FreeFor claims id r = (lookup r claims ≡ none) ⊎ (lookup r claims ≡ some id)

abbrev pub claimed_at : ℕ → List ℕ → Map ℕ → ℕ → Option ℕ
claimed_at id rs claims r = if member r rs then some id else lookup r claims

claimed_at-insert :
    (id q : ℕ) (rs : List ℕ) (claims : Map ℕ) (r : ℕ)
    → claimed_at id rs (insert q id claims) r ≡ claimed_at id (q ∷ rs) claims r
claimed_at-insert id q rs claims r = ground (arith, lookup-insert r q id claims)

pub lookup-take_all :
    (id : ℕ) (rs : List ℕ) (claims : Map ℕ) (r : ℕ)
    → lookup r (take_all id rs claims) ≡ claimed_at id rs claims r
unfolding take_all
lookup-take_all id [] claims r = refl
lookup-take_all id (q ∷ rs) claims r =
    ground (arith, lookup-take_all id rs (insert q id claims) r, claimed_at-insert id q rs claims r)

-- The claims after all resources are taken: none was another owner's, and all are this one's.
pub lookup-claim_all :
    (id : ℕ) (rs : List ℕ) (claims : Map ℕ) (r : ℕ) {m : Map ℕ}
    → claim_all id rs claims ≡ ok m
    → lookup r m ≡ claimed_at id rs claims r
unfolding claim_all
lookup-claim_all id [] claims r h = ground arith
lookup-claim_all id (q ∷ rs) claims r {m} h = ground (
  arith,
  lookup-claim_all id rs (insert q id claims) r {m = m},
  claimed_at-insert id q rs claims r,
)

FreeFor-insert :
    (id q : ℕ) (claims : Map ℕ) (r : ℕ)
    → FreeFor claims id q
    → FreeFor (insert q id claims) id r
    → FreeFor claims id r
FreeFor-insert id q claims r f h =
    ground (arith, lookup-insert r q id claims, Option-cases (lookup r claims))

pub claim_all-FreeFor :
    (id : ℕ) (rs : List ℕ) (claims : Map ℕ) (r : ℕ) {m : Map ℕ}
    → claim_all id rs claims ≡ ok m
    → member r rs ≡ true
    → FreeFor claims id r
unfolding claim_all
claim_all-FreeFor id [] claims r h e = cc
claim_all-FreeFor id (q ∷ rs) claims r {m} h e = ground (
  arith,
  claim_all-FreeFor id rs (insert q id claims) r {m = m},
  FreeFor-insert id q claims r,
  Option-cases (lookup q claims),
  lookup-insert r q id claims,
)

pub claim_all-total :
    (id : ℕ) (rs : List ℕ) (claims : Map ℕ)
    → ((r : ℕ) → member r rs ≡ true → FreeFor claims id r)
    → claim_all id rs claims ≡ ok (take_all id rs claims)
unfolding claim_all take_all
claim_all-total id [] claims f = refl
claim_all-total id (q ∷ rs) claims f = ground (
  arith,
  f q,
  claim_all-total id rs (insert q id claims)
      (λ r e. ground (arith, f r (member-tail r q rs e), lookup-insert r q id claims)),
)

-- A claim that another demand holds is there after the resources are taken.
pub claim_all-keeps :
    (id : ℕ) (rs : List ℕ) (claims : Map ℕ) (r : ℕ) {m : Map ℕ} {a : ℕ}
    → claim_all id rs claims ≡ ok m
    → lookup r claims ≡ some a
    → lookup r m ≡ some a
claim_all-keeps id rs claims r {m} {a} h e = elim (Bool-cases (member r rs)) [
  | inl k ↦ ground (arith, claim_all-FreeFor id rs claims r h k, lookup-claim_all id rs claims r h)
  | inr k ↦ ground (arith, lookup-claim_all id rs claims r h)
]

pub check_claims-FreeFor :
    (id : ℕ) (rs : List ℕ) (claims : Map ℕ) (r : ℕ) {u : Unit {0}}
    → check_claims id rs claims ≡ ok u
    → member r rs ≡ true
    → FreeFor claims id r
unfolding check_claims
check_claims-FreeFor id [] claims r h e = cc
check_claims-FreeFor id (q ∷ rs) claims r {u} h e =
    ground (arith, check_claims-FreeFor id rs claims r {u = u}, Option-cases (lookup r claims))

pub check_claims-total :
    (id : ℕ) (rs : List ℕ) (claims : Map ℕ)
    → ((r : ℕ) → member r rs ≡ true → FreeFor claims id r)
    → check_claims id rs claims ≡ ok tt
unfolding check_claims
check_claims-total id [] claims f = refl
check_claims-total id (q ∷ rs) claims f =
    ground (
      arith,
      f q (ground arith),
      check_claims-total id rs claims (λ r e. f r (member-tail r q rs e)),
    )

-- Another demand than `id` that holds the resource.
abbrev pub held_by_other : Map ℕ → ℕ → ℕ → ℕ → Bool
held_by_other claims id j r = is_some_and (lookup r claims) (λ o. o == j && not (o == id))

-- The conflicts are exactly the other holders of the resources.
pub member-conflicts_of :
    (claims : Map ℕ) (id : ℕ) (rs : List ℕ) (j : ℕ)
    → member j (conflicts_of claims id rs) ≡ any (held_by_other claims id j) rs
unfolding conflicts_of
member-conflicts_of claims id [] j = refl
member-conflicts_of claims id (q ∷ rs) j = elim (Option-cases (lookup q claims)) [
  | inl e ↦ ground (arith, member-conflicts_of claims id rs j)
  | inr (o, e) ↦
      ground (
        arith,
        member-conflicts_of claims id rs j,
        member-set_insert j o (conflicts_of claims id rs),
      )
]

-- A resource is free for a demand that has no conflicts.
pub conflicts_of-FreeFor :
    (claims : Map ℕ) (id : ℕ) (rs : List ℕ) (r : ℕ)
    → conflicts_of claims id rs ≡ []
    → member r rs ≡ true
    → FreeFor claims id r
conflicts_of-FreeFor claims id rs r h e = elim (Option-cases (lookup r claims)) [
  | inl n ↦ inl n
  | inr (o, n) ↦ elim (Bool-cases (o == id)) [
    | inl same ↦ inr (ground arith)
    | inr other ↦ absurd (
        ground (
          arith,
          member-conflicts_of claims id rs o,
          any-member (held_by_other claims id o) rs r e (ground arith),
        ))
  ]
]
