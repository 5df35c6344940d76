-- ===== src/Runtime/Control/Closing.antt =====
-- What a release or a cancellation does to a demand and to the calls under it.
use rack_ai.Common.{
  ℕ, Bool, true, false, not, ◌&&◌, ◌||◌, some, none, ◌≡◌, ◌≢◌, arith, inl, inr, if◌then◌else◌, ◌==◌,
  nat_eq, is_none, ok, ok-injective, subst, Bool-cases,
}
use rack_ai.Common.Map.{lookup, modify, lookup-modify, lookup-update_all}
use rack_ai.Runtime.Types.{Document, Demand, Invocation, Map}
use rack_ai.Runtime.Types.Enums.{DemandState, InvocationState, demand_state_eq, invocation_state_eq}
use rack_ai.Runtime.Service.{owned}
use rack_ai.Runtime.Invocations.{cancel}
use rack_ai.Runtime.Control.{Action, is_renew, is_cancel, closed, close_calls, perform, apply}

closed_call : ℕ → Bool → ℕ → Invocation → Invocation
closed_call at c id i =
    if i.request.reservation_id == id && (i.state == InvocationState.queued || c)
    then cancel at i
    else i

lookup-close_calls :
    (at : ℕ) (c : Bool) (id j : ℕ) (m : Map Invocation) {i : Invocation}
    → lookup j m ≡ some i
    → lookup j (close_calls at c id m) ≡ some (closed_call at c id i)
unfolding close_calls closed_call
lookup-close_calls at c id j m {i} e = ground (arith, lookup-update_all j (closed_call at c id) m)

-- The demand is released, and retires unless it waits for a recovery; its queued calls are
-- cancelled; its running calls go on, with the intention to cancel recorded if all are to be
-- cancelled; the calls of other reservations stay as they are.
pub record Closed (c : Bool) (s : Document) (id : ℕ) (t : Document) : Type 0 where
  pub demand_released :
      (d : Demand)
      → lookup id s.demands ≡ some d
      → d.state ≢ DemandState.unavailable
      → (d' : Demand) × (lookup id t.demands ≡ some d')
        × (d'.released ≡ true)
        × (d'.state ≡ (
            if d.state == DemandState.recovery_required
            then DemandState.recovery_required
            else DemandState.releasing))
  pub queued_cancelled :
      (j : ℕ) (i : Invocation)
      → lookup j s.invocations ≡ some i
      → i.request.reservation_id ≡ id
      → i.state ≡ InvocationState.queued
      → (i' : Invocation) × (lookup j t.invocations ≡ some i')
        × (i'.state ≡ InvocationState.cancelled)
  pub running_goes_on :
      (j : ℕ) (i : Invocation)
      → lookup j s.invocations ≡ some i
      → i.request.reservation_id ≡ id
      → i.state ≡ InvocationState.running
      → (i' : Invocation) × (lookup j t.invocations ≡ some i')
        × (i'.state ≡ InvocationState.running)
        × (is_none i'.cancellation ≡ (is_none i.cancellation && not c))
  pub others_stay :
      (j : ℕ) (i : Invocation)
      → lookup j s.invocations ≡ some i
      → i.request.reservation_id ≢ id
      → lookup j t.invocations ≡ some i

closed-released :
    (at : ℕ) (c : Bool) (d : Demand)
    → d.state ≢ DemandState.unavailable
    → ((closed at c d).released ≡ true)
      × ((closed at c d).state ≡ (
          if d.state == DemandState.recovery_required
          then DemandState.recovery_required
          else DemandState.releasing))
unfolding closed
closed-released at c d n = (ground arith, ground arith)

closing_document : ℕ → Bool → ℕ → Document → Document
closing_document at c id s = record s {
  demands = modify id (closed at c) s.demands;
  invocations = close_calls at c id s.invocations;
}

closing_document-Closed :
    (at : ℕ) (c : Bool) (id : ℕ) (s : Document) → Closed c s id (closing_document at c id s)
unfolding closing_document closed_call cancel
closing_document-Closed at c id s = record {
  demand_released = λ d e n.
      let f = closed-released at c d n in
      (closed at c d, ground (arith, lookup-modify id id (closed at c) s.demands), f.0, f.1);
  queued_cancelled = λ j i e r q.
      (closed_call at c id i, lookup-close_calls at c id j s.invocations e, ground arith);
  running_goes_on = λ j i e r q. (
    closed_call at c id i,
    lookup-close_calls at c id j s.invocations e,
    ground arith,
    ground arith,
  );
  others_stay = λ j i e r. ground (arith, lookup-close_calls at c id j s.invocations e);
}

perform-Closed :
    (at max_ttl : ℕ) (s : Document) (id : ℕ) (d : Demand) (action : Action) {r : Document × Demand}
    → perform at max_ttl s id d action ≡ ok r
    → is_renew action ≡ false
    → Closed (is_cancel action) s id r.0
unfolding perform is_renew is_cancel closing_document
perform-Closed at max_ttl s id d (Action.renew ttl) h e = cc
perform-Closed at max_ttl s id d Action.release h e =
    subst (λ (t : Document × Demand). Closed false s id t.0) (ok-injective h)
      (closing_document-Closed at false id s)
perform-Closed at max_ttl s id d Action.cancel_all h e =
    subst (λ (t : Document × Demand). Closed true s id t.0) (ok-injective h)
      (closing_document-Closed at true id s)

-- A release or a cancellation of a demand that is not unavailable and not being reconciled, when
-- it succeeds, releases the demand and lets it retire unless it waits for a recovery, cancels its
-- queued calls, and lets its running calls go on, with the intention to cancel recorded if it is a
-- cancellation; calls of other reservations stay as they are.
pub apply-Closed :
    (at max_ttl : ℕ) (s : Document) (owner id generation : ℕ) (action : Action) (d : Demand)
    {r : Document × Demand}
    → apply at max_ttl s owner id generation action ≡ ok r
    → is_renew action ≡ false
    → lookup id s.demands ≡ some d
    → d.state ≢ DemandState.unavailable
    → d.recovery_reconciliation ≡ none
    → Closed (is_cancel action) s id r.0
unfolding apply owned
apply-Closed at max_ttl s owner id generation action d {r} h e stored available settled =
    elim (Bool-cases (d.state == DemandState.unavailable)) [
      | inl u ↦ absurd (ground arith)
      | inr u ↦ perform-Closed at max_ttl s id d action {r = r} (ground arith) e
    ]
