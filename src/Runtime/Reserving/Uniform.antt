-- ===== src/Runtime/Reserving/Uniform.antt =====
-- The state that a reservation of several services shows: `aggregate_state` of
-- crates/rack_ai_runtime/src/reservation_view.rs.
use rack_ai.Common.{
  true, none, List, ◌∷◌, [], ◌≡◌, refl, sym, ◌∙◌, ap, subst, arith, inl, inr, Bool-cases, all, All,
  ◌==◌,
}
use rack_ai.Runtime.Types.{Demand}
use rack_ai.Runtime.Types.Enums.{DemandState, demand_state_eq}
use rack_ai.Runtime.Reserving.Views.{Aggregate, aggregate_state, open_state}

all-All :
    (x : DemandState) (ss : List DemandState) → all (λ s. s == x) ss ≡ true → All (λ s. s ≡ x) ss
all-All x [] h = tt
all-All x (s ∷ ss) h = (ground arith, all-All x ss (ground arith))

All-all :
    (x : DemandState) (ss : List DemandState) → All (λ s. s ≡ x) ss → all (λ s. s == x) ss ≡ true
All-all x [] h = refl
All-all x (s ∷ ss) h = let rest = All-all x ss h.1 in let same = h.0 in ground arith

-- The state that an aggregate names, or else the given one.
abbrev named : DemandState → Aggregate → DemandState
named x (Aggregate.uniform s) = s
named x Aggregate.partial = x

open_state-All :
    (s : DemandState) (ss : List DemandState) (x : DemandState)
    → (open_state s (s ∷ ss) ≡ Aggregate.uniform x → All (λ a. a ≡ x) (s ∷ ss))
      × (All (λ a. a ≡ x) (s ∷ ss) → open_state s (s ∷ ss) ≡ Aggregate.uniform x)
open_state-All s ss x = elim (Bool-cases (all (λ a. a == DemandState.unavailable) (s ∷ ss))) [
  | inl e ↦
      let same = all-All DemandState.unavailable (s ∷ ss) e in
      rw e (
        (λ h. subst (λ y. All (λ a. a ≡ y) (s ∷ ss)) (ap (named x) h) same),
        λ h. ap Aggregate.uniform (sym same.0 ∙ h.0),
      )
  | inr e ↦ elim (Bool-cases (all (λ a. a == s) (s ∷ ss))) [
    | inl f ↦
        rw (e, f)
          (
            (λ h. subst (λ y. All (λ a. a ≡ y) (s ∷ ss)) (ap (named x) h) (all-All s (s ∷ ss) f)),
            λ h. ap Aggregate.uniform h.0,
          )
    | inr f ↦
        rw (e, f)
          (
            (λ h. absurd (ground arith)),
            λ h.
                let q = All-all s (s ∷ ss) (subst (λ y. All (λ a. a ≡ y) (s ∷ ss)) (sym h.0) h) in
                absurd (ground arith),
          )
  ]
]

-- An open reservation shows the state of a service exactly if all its services are in that state.
pub aggregate_state-All :
    (r : Demand) (s : DemandState) (ss : List DemandState) (x : DemandState)
    → r.reservation_closed ≡ none
    → (aggregate_state r (s ∷ ss) ≡ Aggregate.uniform x → All (λ a. a ≡ x) (s ∷ ss))
      × (All (λ a. a ≡ x) (s ∷ ss) → aggregate_state r (s ∷ ss) ≡ Aggregate.uniform x)
unfolding aggregate_state
aggregate_state-All r s ss x e = rw e (open_state-All s ss x)
