-- ===== src/Runtime/Flight.antt =====
-- At most one call of a reservation is in flight, workspaces apart.
pub mod Steps
pub mod Bounds
pub mod Starts
pub mod Ends
pub mod Transitions
pub mod Submits
pub mod Supervision
pub mod Calls
pub mod Warm
pub mod Reserving
pub mod Reach
use rack_ai.Common.{
  ℕ, Bool, true, false, not, ◌&&◌, Option, some, none, ◌≡◌, refl, arith, inl, inr, if◌then◌else◌,
  ◌==◌, nat_eq, any, Bool-cases, Option-cases, sym, ◌∙◌, subst,
}
use mathlib.Core.Option
use rack_ai.Common.Map.{
  lookup, modify, update_all, insert, values, lookup-modify, lookup-update_all, any-values,
}
use rack_ai.Runtime.Types.{Document, Invocation, Map}
use rack_ai.Runtime.Types.Enums.{InvocationState}
use rack_ai.Runtime.Service.{is_workspace, is_running_or_uncertain, inflight}

-- The outcome of the call is not known, and it is no workspace.
unfoldable pub in_flight : Invocation → Bool
in_flight i = not (is_workspace i) && is_running_or_uncertain i.state

-- Two calls in flight under one reservation are one.
abbrev pub SingleFlight : Map Invocation → Type 0
SingleFlight m =
    (j k : ℕ) (a b : Invocation)
    → lookup j m ≡ some a
    → lookup k m ≡ some b
    → in_flight a ≡ true
    → in_flight b ≡ true
    → a.request.reservation_id ≡ b.request.reservation_id
    → j ≡ k

-- A change of one call that puts nothing into flight.
pub record Calm (f : Invocation → Invocation) : Type 0 where
  pub same_reservation : (i : Invocation) → (f i).request.reservation_id ≡ i.request.reservation_id
  pub lands : (i : Invocation) → in_flight (f i) ≡ true → in_flight i ≡ true

-- Each call after a change was there before it, with the same reservation and in flight if it is.
abbrev pub Calmer : Map Invocation → Map Invocation → Type 0
Calmer m n =
    (j : ℕ) (b : Invocation)
    → lookup j n ≡ some b
    → (a : Invocation) × (lookup j m ≡ some a)
      × (b.request.reservation_id ≡ a.request.reservation_id)
      × (in_flight b ≡ true → in_flight a ≡ true)

pub Calmer-refl : (m : Map Invocation) → Calmer m m
Calmer-refl m j b e = (b, e, refl, λ h. h)

pub same-Calmer : (m n : Map Invocation) → n ≡ m → Calmer m n
same-Calmer m n e = subst (Calmer m) (sym e) (Calmer-refl m)

pub Calmer-trans : (l m n : Map Invocation) → Calmer l m → Calmer m n → Calmer l n
Calmer-trans l m n f g j c e =
    let (b, eb, rb, hb) = g j c e in
    let (a, ea, ra, ha) = f j b eb in (a, ea, rb ∙ ra, λ h. ha (hb h))

pub Calmer-SingleFlight : (m n : Map Invocation) → Calmer m n → SingleFlight m → SingleFlight n
Calmer-SingleFlight m n calm single j k c d ec ed fc fd r =
    let (a, ea, ra, ha) = calm j c ec in
    let (b, eb, rb, hb) = calm k d ed in single j k a b ea eb (ha fc) (hb fd) (sym ra ∙ r ∙ rb)

pub modify-Calmer :
    (k : ℕ) (f : Invocation → Invocation) (m : Map Invocation) → Calm f → Calmer m (modify k f m)
modify-Calmer k f m calm j b e = elim (Option-cases (lookup j m)) [
  | inl n ↦ absurd (ground (arith, lookup-modify j k f m))
  | inr (a, n) ↦ elim (Bool-cases (j == k)) [
    | inl same ↦
        let q : f a ≡ b = ground (arith, lookup-modify j k f m) in
        (a, n, rw (← q) (calm.same_reservation a), rw (← q) (calm.lands a))
    | inr other ↦
        let q : a ≡ b = ground (arith, lookup-modify j k f m) in (a, n, rw q refl, rw q (λ h. h))
  ]
]

pub update_all-Calmer :
    (f : Invocation → Invocation) (m : Map Invocation) → Calm f → Calmer m (update_all f m)
update_all-Calmer f m calm j b e = elim (Option-cases (lookup j m)) [
  | inl n ↦ absurd (ground (arith, lookup-update_all j f m))
  | inr (a, n) ↦
      let q : f a ≡ b = ground (arith, lookup-update_all j f m) in
      (a, n, rw (← q) (calm.same_reservation a), rw (← q) (calm.lands a))
]

-- Nothing in flight under a reservation means no call in flight under it.
pub inflight-in_flight :
    (s : Document) (id j : ℕ) {a : Invocation}
    → inflight s id ≡ false
    → lookup j s.invocations ≡ some a
    → a.request.reservation_id ≡ id
    → in_flight a ≡ false
unfolding inflight in_flight
inflight-in_flight s id j {a} h e r =
    let q =
      any-values
        (λ i.
          i.request.reservation_id == id && not (is_workspace i) && is_running_or_uncertain i.state)
        j s.invocations h e in
    ground arith

module _ (k : ℕ) (f : Invocation → Invocation) (s : Document) (id : ℕ) (i : Invocation)
    (same : (a : Invocation) → (f a).request.reservation_id ≡ a.request.reservation_id)
    (stored : lookup k s.invocations ≡ some i) (under : i.request.reservation_id ≡ id)
    (clear : inflight s id ≡ false) where
  -- Only the changed call can be in flight under the reservation.
  only_changed :
      (x : ℕ) (c : Invocation)
      → lookup x (modify k f s.invocations) ≡ some c
      → in_flight c ≡ true
      → c.request.reservation_id ≡ id
      → x ≡ k
  only_changed x c e h r = elim (Bool-cases (x == k)) [
    | inl hit ↦ ground arith
    | inr miss ↦
        let q : lookup x s.invocations ≡ some c =
          ground (arith, lookup-modify x k f s.invocations) in
        absurd (ground (arith, inflight-in_flight s id x clear q r))
  ]

  changed_reservation :
      (x : ℕ) (c : Invocation)
      → lookup x (modify k f s.invocations) ≡ some c
      → x ≡ k
      → c.request.reservation_id ≡ id
  changed_reservation x c e h =
      let q : f i ≡ c = ground (arith, lookup-modify x k f s.invocations) in
      rw (← q) (same i ∙ under)

  -- A call may take off when nothing else of its reservation is in flight.
  pub modify-SingleFlight : SingleFlight s.invocations → SingleFlight (modify k f s.invocations)
  modify-SingleFlight single x y c d ec ed fc fd q = elim (Bool-cases (x == k)) [
    | inl hit ↦
        let hx : x ≡ k = ground arith in
        hx ∙ sym (only_changed y d ed fd (sym q ∙ changed_reservation x c ec hx))
    | inr miss ↦ elim (Bool-cases (y == k)) [
      | inl hit ↦
          let hy : y ≡ k = ground arith in
          only_changed x c ec fc (q ∙ changed_reservation y d ed hy) ∙ sym hy
      | inr other ↦
          single x y c d (ground (arith, lookup-modify x k f s.invocations))
            (ground (arith, lookup-modify y k f s.invocations)) fc fd q
    ]
  ]
