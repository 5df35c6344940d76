-- ===== src/Runtime/Ownership.antt =====
-- The invariant of the authority: a claim names a demand that is stored under that identifier,
-- needs the resource, and still holds on to it.
pub mod Changes
pub mod Claims
pub mod Steps
pub mod Calls
pub mod Acquire
pub mod Dispatch
pub mod Submits
pub mod Supervision
pub mod Warm
pub mod Group
pub mod Reserving
pub mod Refreshing
pub mod Reach
use rack_ai.Common.{
  ℕ, Bool, true, false, not, Option, some, none, List, ◌∷◌, [], ◌≡◌, ◌≢◌, refl, sym, subst,
  if◌then◌else◌, ◌==◌, nat_eq, member, ok, err, arith, Bool-cases, Option-cases, inl, inr,
}
use mathlib.Core.Option
use rack_ai.Common.Map.{
  lookup, insert, modify, update_all, retain, lookup-modify, lookup-insert, lookup-update_all,
  Entries, Entries-map, Entries-retain, Entries-insert, Entries-lookup,
}
use rack_ai.Runtime.Types.{Document, Demand, Map, Result}
use rack_ai.Runtime.Types.Enums.{DemandState}
use rack_ai.Runtime.Planner.{occupies_host}

-- The demand `id` is stored, needs the resource `r`, and is in a state that keeps its claims.
abbrev pub Holding : Map Demand → ℕ → ℕ → Type 0
Holding demands r id =
    (d : Demand) × (lookup id demands ≡ some d)
    × (member r d.profile.resources ≡ true)
    × (occupies_host d.state ≡ true)

-- A demand is stored under its own identifier.
abbrev pub Keyed : Map Demand → Type 0
Keyed demands = (id : ℕ) (d : Demand) → lookup id demands ≡ some d → d.id ≡ id

pub record Owned (s : Document) : Type 0 where
  pub held : Entries (Holding s.demands) s.claims
  pub keyed : Keyed s.demands

-- A change of one demand under which its claims stay right.
pub record Keeps (f : Demand → Demand) : Type 0 where
  pub same_id : (d : Demand) → (f d).id ≡ d.id
  pub same_profile : (d : Demand) → (f d).profile ≡ d.profile
  pub stays : (d : Demand) → occupies_host d.state ≡ true → occupies_host (f d).state ≡ true

Keyed-modify :
    (k : ℕ) (f : Demand → Demand) (demands : Map Demand)
    → ((d : Demand) → (f d).id ≡ d.id)
    → Keyed demands
    → Keyed (modify k f demands)
Keyed-modify k f demands same keyed id d e = elim (Option-cases (lookup id demands)) [
  | inl n ↦ absurd (ground (arith, lookup-modify id k f demands))
  | inr (c, n) ↦ ground (arith, lookup-modify id k f demands, keyed id c n, same c)
]

Holding-modify :
    (k : ℕ) (f : Demand → Demand) (demands : Map Demand) (r id : ℕ)
    → Keeps f
    → Holding demands r id
    → Holding (modify k f demands) r id
Holding-modify k f demands r id keeps (d, e, m, l) = elim (Bool-cases (id == k)) [
  | inl same ↦ (
    f d,
    ground (arith, lookup-modify id k f demands),
    subst (λ p. member r p.resources ≡ true) (sym (keeps.same_profile d)) m,
    keeps.stays d l,
  )
  | inr other ↦ (d, ground (arith, lookup-modify id k f demands), m, l)
]

pub modify-Owned :
    (k : ℕ) (f : Demand → Demand) {s : Document}
    → Keeps f
    → Owned s
    → Owned (record s { demands = modify k f s.demands })
modify-Owned k f {s} keeps o = record {
  held =
      Entries-map (Holding s.demands) (Holding (modify k f s.demands)) s.claims
        (λ r id. Holding-modify k f s.demands r id keeps) o.held;
  keyed = Keyed-modify k f s.demands keeps.same_id o.keyed;
}

-- A demand that gives up every claim may end.
pub retire-Owned :
    (k : ℕ) (f : Demand → Demand) {s : Document}
    → ((d : Demand) → (f d).id ≡ d.id)
    → Owned s
    → Owned (record s {
      demands = modify k f s.demands;
      claims = retain (λ owner. not (owner == k)) s.claims;
    })
retire-Owned k f {s} same o = record {
  held =
      Entries-retain (Holding (modify k f s.demands)) (λ owner. not (owner == k)) s.claims
        (Entries-map (Holding s.demands) _ s.claims
          (λ r id (d, e, m, l) kept. (d, ground (arith, lookup-modify id k f s.demands), m, l))
          o.held);
  keyed = Keyed-modify k f s.demands same o.keyed;
}

pub update_all-Owned :
    (f : Demand → Demand) {s : Document}
    → Keeps f
    → Owned s
    → Owned (record s { demands = update_all f s.demands })
update_all-Owned f {s} keeps o = record {
  held =
      Entries-map (Holding s.demands) (Holding (update_all f s.demands)) s.claims
        (λ r id (d, e, m, l). (
          f d,
          ground (arith, lookup-update_all id f s.demands),
          subst (λ p. member r p.resources ≡ true) (sym (keeps.same_profile d)) m,
          keeps.stays d l,
        ))
        o.held;
  keyed = λ id d e. elim (Option-cases (lookup id s.demands)) [
    | inl n ↦ absurd (ground (arith, lookup-update_all id f s.demands))
    | inr (c, n) ↦ ground (arith, lookup-update_all id f s.demands, o.keyed id c n, keeps.same_id c)
  ];
}

-- The invariant speaks of the claims and the demands alone.
pub same-Owned : {s t : Document} → t.claims ≡ s.claims → t.demands ≡ s.demands → Owned s → Owned t
same-Owned {s} {t} c d o = record { held = rw (c, d) o.held; keyed = rw d o.keyed }
