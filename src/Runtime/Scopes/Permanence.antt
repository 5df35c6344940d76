-- ===== src/Runtime/Scopes/Permanence.antt =====
-- A scope is never extended, reopened or taken away by its controller.
use rack_ai.Common.{
  ℕ, false, not, Option, some, none, ◌≡◌, refl, sym, subst, ◌==◌, nat_eq, option_eq, ok, ok_or,
  refuse_if, arith, inl, inr, Bool-cases, Option-cases, >>=-eq-ok, ok-injective, ok_or-eq-ok,
}
use rack_ai.Common.Map.{lookup, insert, modify, lookup-insert, lookup-modify}
use rack_ai.Runtime.Types.{Document, Demand, WorkspaceScope, Map}
use rack_ai.Runtime.Types.Messages.{Failure}
use rack_ai.Runtime.Config.{Environment, Limits}
use rack_ai.Runtime.Capacity.{retention, check_capacity}
use rack_ai.Runtime.Capacity.Compaction.{compact_terminal_requests, compact_terminal_payloads}
use rack_ai.Runtime.Admission.Demands.{valid_id}
use rack_ai.Runtime.Scopes.{cancel_closed}
use rack_ai.Runtime.Scopes.Controller.{
  ScopeContext, ScopeAccess, ScopeControl, may_open, reconcile_scope, add_scope, new_scope,
  open_control, closed_scope, close_control, operate, control_scope, authorizes, out_of_bounds,
}

-- A scope after a change: the same in all but its end, which stays once it is there.
pub record Frozen (old new : WorkspaceScope) : Type 0 where
  pub same_parent : new.invocation_id ≡ old.invocation_id
  pub same_owner : new.owner ≡ old.owner
  pub same_reservation : new.reservation_id ≡ old.reservation_id
  pub same_deadline : new.deadline_ms ≡ old.deadline_ms
  pub same_authorization : new.authorization_hash ≡ old.authorization_hash
  pub stays_closed : (t : ℕ) → old.closed_at_ms ≡ some t → new.closed_at_ms ≡ some t

-- Every scope is there after the change.
abbrev pub Kept : Map WorkspaceScope → Map WorkspaceScope → Type 0
Kept m n =
    (id : ℕ) (old : WorkspaceScope)
    → lookup id m ≡ some old
    → (new : WorkspaceScope) × (lookup id n ≡ some new) × Frozen old new

Frozen-refl : (scope : WorkspaceScope) → Frozen scope scope
Frozen-refl scope = record {
  same_parent = refl;
  same_owner = refl;
  same_reservation = refl;
  same_deadline = refl;
  same_authorization = refl;
  stays_closed = λ t h. h;
}

Kept-refl : (m : Map WorkspaceScope) → Kept m m
Kept-refl m id old e = (old, e, Frozen-refl old)

retention-scopes :
    (env : Environment) (l : Limits) (s : Document) {t : Document}
    → retention env l s ≡ ok t
    → t.workspace_scopes ≡ s.workspace_scopes
unfolding retention
retention-scopes env l s {t} h =
    let (m, hm, h1) = >>=-eq-ok (compact_terminal_requests env s.invocations) _ h in
    let (n, hn, h2) = >>=-eq-ok (compact_terminal_payloads env _ m) _ h1 in
    let (u, hu, h3) = >>=-eq-ok (check_capacity env l (record s { invocations = n })) _ h2 in
    subst (λ (x : Document). x.workspace_scopes ≡ s.workspace_scopes) (ok-injective h3) refl

insert-Kept :
    (id : ℕ) (scope : WorkspaceScope) (m : Map WorkspaceScope)
    → lookup id m ≡ none
    → Kept m (insert id scope m)
insert-Kept id scope m new j old e =
    (old, ground (arith, lookup-insert j id scope m), Frozen-refl old)

closed_scope-Frozen : (ms : ℕ) (scope : WorkspaceScope) → Frozen scope (closed_scope ms scope)
unfolding closed_scope
closed_scope-Frozen ms scope = record {
  same_parent = refl;
  same_owner = refl;
  same_reservation = refl;
  same_deadline = refl;
  same_authorization = refl;
  stays_closed = λ t h. ground arith;
}

modify-Kept : (ms id : ℕ) (m : Map WorkspaceScope) → Kept m (modify id (closed_scope ms) m)
modify-Kept ms id m j old e = elim (Bool-cases (j == id)) [
  | inl hit ↦ (
    closed_scope ms old,
    ground (arith, lookup-modify j id (closed_scope ms) m),
    closed_scope-Frozen ms old,
  )
  | inr miss ↦ (old, ground (arith, lookup-modify j id (closed_scope ms) m), Frozen-refl old)
]

add_scope-Kept :
    (k : ScopeContext) (s : Document) (d : Demand) (id deadline_ms hash : ℕ) (invocation : Option ℕ)
    {t : Document}
    → add_scope k s d id deadline_ms hash invocation ≡ ok t
    → lookup id s.workspace_scopes ≡ none
    → Kept s.workspace_scopes t.workspace_scopes
unfolding add_scope
add_scope-Kept k s d id deadline_ms hash invocation {t} h new =
    let (u, hu, h1) =
      >>=-eq-ok (refuse_if (out_of_bounds k deadline_ms) Failure.workspace_scope_deadline_limits) _
        h in
    subst (Kept s.workspace_scopes)
      (sym (
        retention-scopes k.env k.limits
          (record s {
            workspace_scopes =
                insert id (new_scope d deadline_ms hash invocation) s.workspace_scopes;
          })
          h1))
      (insert-Kept id (new_scope d deadline_ms hash invocation) s.workspace_scopes new)

open_control-Kept :
    (k : ScopeContext) (s : Document) (access : ScopeAccess) (deadline_ms : ℕ)
    (invocation : Option ℕ) {t : Document}
    → open_control k s access deadline_ms invocation ≡ ok t
    → Kept s.workspace_scopes t.workspace_scopes
unfolding open_control reconcile_scope
open_control-Kept k s access deadline_ms invocation {t} h =
    let (d, hd, h1) =
      >>=-eq-ok (ok_or (lookup access.reservation s.demands) Failure.invalid_scoped_capability) _
        h in
    let (u, hu, h2) =
      >>=-eq-ok
        (refuse_if (not (may_open k s d access invocation)) Failure.invalid_scoped_capability) _
        h1 in
    let id = k.scope_key access.reservation access.namespace in
    elim (Option-cases (lookup id s.workspace_scopes)) [
      | inl e ↦
          add_scope-Kept k s d id deadline_ms (k.capability_digest access.capability) invocation
            (rw e at h2) e
      | inr (scope, e) ↦
          subst (λ (x : Document). Kept s.workspace_scopes x.workspace_scopes) {x = s} {y = t}
            (ground arith) (Kept-refl s.workspace_scopes)
    ]

close_control-Kept :
    (k : ScopeContext) (s : Document) (access : ScopeAccess) {t : Document}
    → close_control k s access ≡ ok t
    → Kept s.workspace_scopes t.workspace_scopes
unfolding close_control cancel_closed
close_control-Kept k s access h =
    let id = k.scope_key access.reservation access.namespace in
    let (scope, hs, h1) =
      >>=-eq-ok (ok_or (lookup id s.workspace_scopes) Failure.unknown_workspace_scope) _ h in
    let (u, hu, h2) =
      >>=-eq-ok
        (refuse_if (not (scope.authorization_hash == k.capability_digest access.capability))
          Failure.invalid_scoped_capability)
        _ h1 in
    subst (λ (x : Document). Kept s.workspace_scopes x.workspace_scopes) (ok-injective h2)
      (modify-Kept k.ms id s.workspace_scopes)

-- An operation on a scope that succeeds keeps every scope with its owner, its reservation, its parent,
-- its deadline and its authorization, and a closed scope closed since the same time: nothing extends
-- or reopens one.
pub control_scope-Kept :
    (k : ScopeContext) (s : Document) (access : ScopeAccess) (operation : ScopeControl)
    {t : Document}
    → control_scope k s access operation ≡ ok t
    → Kept s.workspace_scopes t.workspace_scopes
unfolding control_scope operate
control_scope-Kept k s access (ScopeControl.open_scope deadline_ms invocation) h =
    let (u, hu, h1) =
      >>=-eq-ok
        (refuse_if (not (valid_id (k.env.text access.namespace))) Failure.invalid_call_namespace) _
        h in
    open_control-Kept k s access deadline_ms invocation h1
control_scope-Kept k s access ScopeControl.close_scope h =
    let (u, hu, h1) =
      >>=-eq-ok
        (refuse_if (not (valid_id (k.env.text access.namespace))) Failure.invalid_call_namespace) _
        h in
    close_control-Kept k s access h1

-- A scope that has been closed authorises no call any more, whatever the time and the capability.
pub control_scope-closes :
    (k later : ScopeContext) (s : Document) (access : ScopeAccess) (capability : ℕ) {t : Document}
    → control_scope k s access ScopeControl.close_scope ≡ ok t
    → later.scope_key access.reservation access.namespace
      ≡ k.scope_key access.reservation access.namespace
    → authorizes later t access.reservation capability (some access.namespace) ≡ false
unfolding control_scope operate close_control authorizes closed_scope cancel_closed
control_scope-closes k later s access capability {t} h same =
    let id = k.scope_key access.reservation access.namespace in
    let (v, hv, h0) =
      >>=-eq-ok
        (refuse_if (not (valid_id (k.env.text access.namespace))) Failure.invalid_call_namespace) _
        h in
    let (scope, hs, h1) =
      >>=-eq-ok (ok_or (lookup id s.workspace_scopes) Failure.unknown_workspace_scope) _ h0 in
    let (u, hu, h2) =
      >>=-eq-ok
        (refuse_if (not (scope.authorization_hash == k.capability_digest access.capability))
          Failure.invalid_scoped_capability)
        _ h1 in
    let found : lookup id t.workspace_scopes ≡ some (closed_scope k.ms scope) =
      subst (λ (x : Document). lookup id x.workspace_scopes ≡ some (closed_scope k.ms scope))
        (ok-injective h2)
        (ground (
          arith,
          lookup-modify id id (closed_scope k.ms) s.workspace_scopes,
          ok_or-eq-ok _ _ hs,
        )) in
    rw (same, found) (ground arith)
