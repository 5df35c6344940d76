-- ===== src/Runtime/Flight/Steps.antt =====
-- The changes of calls that put none into flight: supersession, cancellation, recovery and control.
use rack_ai.Common.{
  ℕ, Bool, true, ◌&&◌, ◌||◌, some, List, ◌∷◌, [], ◌≡◌, refl, arith, inl, inr, if◌then◌else◌, ◌==◌,
  nat_eq, member, Bool-cases, Option-cases, map, keep,
}
use rack_ai.Common.Map.{lookup, modify, update_all, lookup-modify, values}
use rack_ai.Runtime.Types.{Document, Invocation, Map}
use rack_ai.Runtime.Types.Enums.{InvocationState, invocation_state_eq}
use rack_ai.Runtime.Service.{is_workspace, is_running_or_uncertain, recover_invocation}
use rack_ai.Runtime.Invocations.{cancel, cancel_queued_as_superseded}
use rack_ai.Runtime.Planner.{supersede}
use rack_ai.Runtime.Scopes.{cancel_ids, cancel_closed, needs_cancel}
use rack_ai.Runtime.Control.{close_calls}
use rack_ai.Runtime.Flight.{
  in_flight, Calm, Calmer, Calmer-refl, Calmer-trans, modify-Calmer, update_all-Calmer,
}

pub cancel-Calm : (at : ℕ) → Calm (cancel at)
unfolding cancel in_flight is_workspace is_running_or_uncertain
cancel-Calm at = record { same_reservation = λ i. ground arith; lands = λ i h. ground arith }

superseded-Calm :
    (at : ℕ) (victims : List ℕ)
    → Calm (λ i.
      if member i.request.reservation_id victims then cancel_queued_as_superseded at i else i)
unfolding cancel_queued_as_superseded in_flight is_workspace is_running_or_uncertain
superseded-Calm at victims = record {
  same_reservation = λ i. ground arith;
  lands = λ i h. ground arith;
}

pub supersede-Calmer :
    (at : ℕ) (victims : List ℕ) (m : Map Invocation) → Calmer m (supersede at victims m)
unfolding supersede
supersede-Calmer at victims m = update_all-Calmer _ m (superseded-Calm at victims)

closed_call-Calm :
    (at : ℕ) (c : Bool) (id : ℕ)
    → Calm (λ i.
      if i.request.reservation_id == id && (i.state == InvocationState.queued || c)
      then cancel at i
      else i)
unfolding cancel in_flight is_workspace is_running_or_uncertain
closed_call-Calm at c id = record {
  same_reservation = λ i. ground arith;
  lands = λ i h. ground arith;
}

pub close_calls-Calmer :
    (at : ℕ) (c : Bool) (id : ℕ) (m : Map Invocation) → Calmer m (close_calls at c id m)
unfolding close_calls
close_calls-Calmer at c id m = update_all-Calmer _ m (closed_call-Calm at c id)

recover_invocation-Calm : Calm recover_invocation
unfolding recover_invocation in_flight is_workspace is_running_or_uncertain
recover_invocation-Calm = record {
  same_reservation = λ i. ground arith;
  lands = λ i h. ground arith;
}

pub recover_all-Calmer : (m : Map Invocation) → Calmer m (update_all recover_invocation m)
recover_all-Calmer m = update_all-Calmer recover_invocation m recover_invocation-Calm

cancel_ids-Calmer : (at : ℕ) (ids : List ℕ) (m : Map Invocation) → Calmer m (cancel_ids at ids m)
unfolding cancel_ids
cancel_ids-Calmer at [] m = Calmer-refl m
cancel_ids-Calmer at (id ∷ ids) m =
    Calmer-trans m (modify id (cancel at) m) _ (modify-Calmer id (cancel at) m (cancel-Calm at))
      (cancel_ids-Calmer at ids (modify id (cancel at) m))

pub cancel_closed-Calmer :
    (at ms : ℕ) (s : Document) → Calmer s.invocations (cancel_closed at ms s).invocations
unfolding cancel_closed
cancel_closed-Calmer at ms s =
    cancel_ids-Calmer at (map (λ i. i.id) (keep (needs_cancel at ms s) (values s.invocations)))
      s.invocations

-- One stored call gives way to another under the same reservation.
pub put-Calmer :
    (k : ℕ) (i j : Invocation) (m : Map Invocation)
    → lookup k m ≡ some i
    → j.request.reservation_id ≡ i.request.reservation_id
    → (in_flight j ≡ true → in_flight i ≡ true)
    → Calmer m (modify k (λ _. j) m)
put-Calmer k i j m stored same lands x b e = elim (Option-cases (lookup x m)) [
  | inl n ↦ absurd (ground (arith, lookup-modify x k (λ (_ : Invocation). j) m))
  | inr (a, n) ↦ elim (Bool-cases (x == k)) [
    | inl hit ↦
        let q : j ≡ b = ground (arith, lookup-modify x k (λ (_ : Invocation). j) m) in
        let p : lookup x m ≡ some i = ground arith in (i, p, rw (← q) same, rw (← q) lands)
    | inr miss ↦
        let q : a ≡ b = ground (arith, lookup-modify x k (λ (_ : Invocation). j) m) in
        (a, n, rw q refl, rw q (λ h. h))
  ]
]
