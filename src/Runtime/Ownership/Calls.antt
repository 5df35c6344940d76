-- ===== src/Runtime/Ownership/Calls.antt =====
-- Each update of the document keeps the invariant: acquisition, control, calls, and recovery.
use rack_ai.Common.{
  ℕ, true, false, not, ◌&&◌, some, none, List, ◌∷◌, [], ◌≡◌, refl, arith, inl, inr, ◌==◌, nat_eq,
  ok, >>=-eq-ok, ok-injective, subst, Bool-cases, Option-cases, branch, is_some_and, is_none,
}
use rack_ai.Common.Map.{lookup, insert, modify, update_all}
use rack_ai.Runtime.Types.{Document, Demand, Invocation}
use rack_ai.Runtime.Types.Enums.{DemandState, demand_state_eq}
use rack_ai.Runtime.Config.{Environment, Limits, Config}
use rack_ai.Runtime.Service.{owned, recover, recover_demand}
use rack_ai.Runtime.Planner.{fence, Fresh}
use rack_ai.Runtime.Reservation.{root, members}
use rack_ai.Runtime.Capacity.{retention, check_capacity}
use rack_ai.Runtime.Capacity.Compaction.{compact_terminal_requests, compact_terminal_payloads}
use rack_ai.Runtime.Control.{
  Action, apply, perform, renewed, closed, apply_members, mark_closed, reservation_control,
  is_renew, is_cancel, closing_state, cancel_invocation,
}
use rack_ai.Runtime.Invocations.{cancel}
use rack_ai.Runtime.Admission.{admit}
use rack_ai.Runtime.Ownership.{Owned, Keeps, modify-Owned, update_all-Owned, same-Owned}
use rack_ai.Runtime.Ownership.Changes.{closed-Keeps, deadline-Keeps, recover_demand-Keeps}
use rack_ai.Runtime.Ownership.Claims.{fence-Owned}
use rack_ai.Runtime.Ownership.Steps.{cancel_closed-Owned}

-- Bounding what is retained changes calls alone.
pub retention-Owned :
    (env : Environment) (l : Limits) (s : Document) {s' : Document}
    → retention env l s ≡ ok s'
    → Owned s
    → Owned s'
unfolding retention
retention-Owned env l s {s'} h o =
    let (m, hm, h1) = >>=-eq-ok (compact_terminal_requests env s.invocations) _ h in
    let (n, hn, h2) = >>=-eq-ok (compact_terminal_payloads env _ m) _ h1 in
    let (u, hu, h3) = >>=-eq-ok (check_capacity env l (record s { invocations = n })) _ h2 in
    subst Owned (ok-injective h3) (same-Owned refl refl o)

pub perform-Owned :
    (at max_ttl : ℕ) (s : Document) (id : ℕ) (d : Demand) (action : Action) {r : Document × Demand}
    → perform at max_ttl s id d action ≡ ok r
    → Owned s
    → Owned r.0
unfolding perform
perform-Owned at max_ttl s id d (Action.renew ttl) {r} h o =
    let (d', hd, h1) = >>=-eq-ok (renewed at max_ttl ttl d) _ h in
    subst (λ (t : Document × Demand). Owned t.0) (ok-injective h1)
      (modify-Owned id (λ c. record c { deadline = d'.deadline }) (deadline-Keeps d'.deadline) o)
perform-Owned at max_ttl s id d Action.release {r} h o =
    subst (λ (t : Document × Demand). Owned t.0) (ok-injective h)
      (same-Owned {s = record s { demands = modify id (closed at false) s.demands }} refl refl
        (modify-Owned id (closed at false) (closed-Keeps at false) o))
perform-Owned at max_ttl s id d Action.cancel_all {r} h o =
    subst (λ (t : Document × Demand). Owned t.0) (ok-injective h)
      (same-Owned {s = record s { demands = modify id (closed at true) s.demands }} refl refl
        (modify-Owned id (closed at true) (closed-Keeps at true) o))

pub apply-Owned :
    (at max_ttl : ℕ) (s : Document) (owner id generation : ℕ) (action : Action)
    {r : Document × Demand}
    → apply at max_ttl s owner id generation action ≡ ok r
    → Owned s
    → Owned r.0
unfolding apply
apply-Owned at max_ttl s owner id generation action {r} h o =
    let (d, hd, h1) = >>=-eq-ok (owned s owner id) _ h in
    elim (Bool-cases (d.state == DemandState.unavailable)) [
      | inl u ↦ subst (λ (t : Document × Demand). Owned t.0) {x = (s, d)} {y = r} (ground arith) o
      | inr u ↦ elim (Bool-cases (not (d.generation == generation))) [
        | inl g ↦ absurd (ground arith)
        | inr g ↦
            elim (Bool-cases (not (is_none d.recovery_reconciliation) && not (is_renew action))) [
              | inl k ↦
                  subst (λ (t : Document × Demand). Owned t.0) {x = (s, d)} {y = r} (ground arith) o
              | inr k ↦ perform-Owned at max_ttl s id d action {r = r} (ground arith) o
            ]
      ]
    ]

pub apply_members-Owned :
    (at max_ttl : ℕ) (s : Document) (owner : ℕ) (action : Action) (ids : List ℕ) {s' : Document}
    → apply_members at max_ttl s owner action ids ≡ ok s'
    → Owned s
    → Owned s'
unfolding apply_members
apply_members-Owned at max_ttl s owner action [] h o = subst Owned (ok-injective h) o
apply_members-Owned at max_ttl s owner action (id ∷ ids) h o =
    let (d, hd, h1) = >>=-eq-ok (owned s owner id) _ h in
    let (r, hr, h2) = >>=-eq-ok (apply at max_ttl s owner id d.generation action) _ h1 in
    apply_members-Owned at max_ttl r.0 owner action ids h2
      (apply-Owned at max_ttl s owner id d.generation action hr o)

closed_mark-Keeps : (c : DemandState) → Keeps (λ d. record d { reservation_closed = some c })
closed_mark-Keeps c = record { same_id = λ d. refl; same_profile = λ d. refl; stays = λ d h. h }

mark_closed-Owned :
    (action : Action) (id : ℕ) (s : Document) → Owned s → Owned (mark_closed action id s)
unfolding mark_closed
mark_closed-Owned action id s o = elim (Bool-cases (is_renew action)) [
  | inl e ↦ rw e o
  | inr e ↦ rw e (modify-Owned id _ (closed_mark-Keeps (closing_state (is_cancel action))) o)
]

pub reservation_control-Owned :
    (at ms max_ttl : ℕ) (s : Document) (owner id : ℕ) (action : Action) {s' : Document}
    → reservation_control at ms max_ttl s owner id action ≡ ok s'
    → Owned s
    → Owned s'
unfolding reservation_control
reservation_control-Owned at ms max_ttl s owner id action {s'} h o =
    let (d, hd, h1) = >>=-eq-ok (owned s owner id) _ h in
    let (r, hr, h2) = >>=-eq-ok (root s d) _ h1 in
    let (ids, hi, h3) = >>=-eq-ok (members s d) _ h2 in
    let marked = mark_closed action r.id s in
    let (t, ht, h4) = >>=-eq-ok (apply_members at max_ttl marked owner action ids) _ h3 in
    subst Owned (ok-injective h4) (
      cancel_closed-Owned at ms t (
        apply_members-Owned at max_ttl marked owner action ids ht
          (mark_closed-Owned action r.id s o)))

pub cancel_invocation-Owned :
    (at ms : ℕ) (s : Document) (owner id : ℕ) {r : Document × Invocation}
    → cancel_invocation at ms s owner id ≡ ok r
    → Owned s
    → Owned r.0
unfolding cancel_invocation
cancel_invocation-Owned at ms s owner id {r} h o = elim (Option-cases (lookup id s.invocations)) [
  | inl n ↦ absurd (ground arith)
  | inr (i, n) ↦
      branch (i.owner == owner) _ _ (rw (cancel_invocation, n) at h)
        (λ b e.
          let cancelled : Document = record s {
            invocations = modify id (cancel at) s.invocations;
          } in
          subst (λ (t : Document × Invocation). Owned t.0) (ok-injective e)
            (cancel_closed-Owned at ms cancelled (same-Owned {s = s} refl refl o)))
        (λ b e. absurd (ground arith))
]

pub recover-Owned :
    (placement port : ℕ) (s : Document) {s' : Document}
    → recover placement port s ≡ ok s'
    → Owned s
    → Owned s'
unfolding recover
recover-Owned placement port s {s'} h o =
    branch (is_some_and s.placement_hash (λ hash. not (hash == placement))) _ _ h
      (λ b e. absurd (ground arith))
      (λ b e. subst Owned (ok-injective e) (
        same-Owned {s = record s { demands = update_all recover_demand s.demands }} refl refl
          (update_all-Owned recover_demand recover_demand-Keeps o)))

-- An acquisition that is admitted under a new identifier keeps the invariant.
pub admit-Owned :
    (at : ℕ) (env : Environment) (config : Config) (fresh : Fresh) (s : Document) (d : Demand)
    {r : Document × Demand}
    → admit at env config fresh s d ≡ ok r
    → lookup d.id s.demands ≡ none
    → Owned s
    → Owned r.0
unfolding admit
admit-Owned at env config fresh s d {r} h new o =
    let (f, hf, h1) = >>=-eq-ok (fence at fresh s d) _ h in
    let t : Document = record (f.0) { demands = insert (f.1).id f.1 (f.0).demands } in
    let (s', hs, h2) = >>=-eq-ok (retention env config.limits t) _ h1 in
    subst (λ (t : Document × Demand). Owned t.0) (ok-injective h2)
      (retention-Owned env config.limits t hs (fence-Owned at fresh s d hf new o))
