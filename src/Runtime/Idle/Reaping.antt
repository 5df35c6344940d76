-- ===== src/Runtime/Idle/Reaping.antt =====
-- What the retirement of idle demands does to each demand.
use rack_ai.Common.{
  ℕ, some, List, ◌∷◌, [], ◌≡◌, refl, arith, ◌⊎◌, inl, inr, if◌then◌else◌, nat_eq, member,
  Bool-cases, Option-cases, member-keys,
}
use mathlib.Core.Option
use rack_ai.Common.Map.{lookup, modify, values, lookup-modify, Unique, Entries, any-keyed}
use rack_ai.Runtime.Types.{Document, Demand, Map}
use rack_ai.Runtime.Types.Enums.{demand_state_eq, backend_eq, driver_eq}
use rack_ai.Runtime.Idle.{expire, expire_ids, eligible, eligible_ids, reap}
use rack_ai.Runtime.Idle.Eligibility.{Unused, eligible-Unused, Unused-eligible}

expire-expire : (at : ℕ) (d : Demand) → expire at (expire at d) ≡ expire at d
unfolding expire
expire-expire at d = refl

lookup-expire_ids :
    (at : ℕ) (ids : List ℕ) (m : Map Demand) (j : ℕ)
    → lookup j (expire_ids at ids m)
      ≡ (if member j ids then Option.map (expire at) (lookup j m) else lookup j m)
unfolding expire_ids
lookup-expire_ids at [] m j = refl
lookup-expire_ids at (id ∷ ids) m j = elim (Option-cases (lookup j m)) [
  | inl n ↦ ground (
    arith,
    lookup-expire_ids at ids (modify id (expire at) m) j,
    lookup-modify j id (expire at) m,
  )
  | inr (d, n) ↦ ground (
    arith,
    lookup-expire_ids at ids (modify id (expire at) m) j,
    lookup-modify j id (expire at) m,
    expire-expire at d,
  )
]

-- A demand is stored once, under its own identifier.
abbrev pub Filed : Map Demand → Type 0
Filed m = Unique m × Entries (λ k d. d.id ≡ k) m

reap-lookup :
    (s : Document) (seconds at j : ℕ)
    → Filed s.demands
    → lookup j (reap s seconds at).demands
      ≡ Option.map (λ d. if eligible s seconds at d then expire at d else d) (lookup j s.demands)
unfolding reap eligible_ids
reap-lookup s seconds at j filed = elim (Option-cases (lookup j s.demands)) [
  | inl n ↦ ground (arith, lookup-expire_ids at (eligible_ids s seconds at) s.demands j)
  | inr (d, n) ↦ ground (
    arith,
    lookup-expire_ids at (eligible_ids s seconds at) s.demands j,
    member-keys (λ (d : Demand). d.id) (eligible s seconds at) j (values s.demands),
    any-keyed (λ (d : Demand). d.id) (eligible s seconds at) j s.demands filed.0 filed.1,
  )
]

-- Where each demand is stored once, under its own identifier, a reap retires a demand exactly if it
-- is ready or preparing and unreleased, has seen no activity for the period, all members of its
-- reservation can be read and are released or as long without activity and without a call or a
-- workspace that runs, and no media backend of a member, its own included, may be in use; every other
-- demand stays as it was.
pub reap-Unused :
    (s : Document) (seconds at j : ℕ) (d : Demand)
    → Filed s.demands
    → lookup j s.demands ≡ some d
    → ((lookup j (reap s seconds at).demands ≡ some (expire at d)) × Unused s seconds at d)
      ⊎ ((lookup j (reap s seconds at).demands ≡ some d) × ¬ Unused s seconds at d)
reap-Unused s seconds at j d filed e =
    let r = reap-lookup s seconds at j filed in
    elim (Bool-cases (eligible s seconds at d)) [
      | inl q ↦ inl (ground arith, eligible-Unused s seconds at d q)
      | inr q ↦ inr (ground arith, λ u. let p = Unused-eligible s seconds at d u in cc)
    ]
