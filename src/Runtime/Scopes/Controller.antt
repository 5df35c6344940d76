-- ===== src/Runtime/Scopes/Controller.antt =====
-- The opening and closing of a workspace's scope: `ScopeController` and `authorizes` of
-- crates/rack_ai_runtime/src/workspace_scope.rs. The digests are arguments.
use rack_ai.Common.{
  ℕ, ◌*◌, Bool, not, ◌&&◌, ◌||◌, Option, some, none, leb, ltb, ◌==◌, nat_eq, option_eq, is_none,
  is_some_and, is_none_or, if◌then◌else◌, get_or_insert, saturating_add, ok, err, ok_or, ◌>>=◌,
  ◌>>◌, refuse_if,
}
use rack_ai.Common.Map.{lookup, insert, modify}
use rack_ai.Runtime.Types.{Document, Demand, WorkspaceScope, Result}
use rack_ai.Runtime.Types.Messages.{Failure}
use rack_ai.Runtime.Config.{Environment, Limits}
use rack_ai.Runtime.Service.{active}
use rack_ai.Runtime.Capacity.{retention}
use rack_ai.Runtime.Admission.Demands.{valid_id}
use rack_ai.Runtime.Scopes.{parent_open, cancel_closed}

pub data ScopeControl : Type 0 where
  open_scope : ℕ → Option ℕ → ScopeControl
  close_scope : ScopeControl

pub record ScopeAccess : Type 0 where
  pub reservation : ℕ
  pub capability : ℕ
  pub namespace : ℕ

-- The clock, the bounds, and the digests of a scope's key and of a capability.
pub record ScopeContext : Type 0 where
  pub at : ℕ
  pub ms : ℕ
  pub env : Environment
  pub limits : Limits
  pub scope_key : ℕ → ℕ → ℕ
  pub capability_digest : ℕ → ℕ

-- The workspace call whose runner presents the capability that the call was given.
unfoldable pub accepted_runner : ScopeContext → Document → Demand → ℕ → Option ℕ → Bool
accepted_runner k s d hash invocation = is_some_and invocation (λ id.
    is_some_and (lookup id s.invocations) (λ i.
      parent_open k.at i
      && (i.request.reservation_id == d.id
          && (i.owner == d.owner && i.scope_access_hash == some hash))))

unfoldable pub may_open : ScopeContext → Document → Demand → ScopeAccess → Option ℕ → Bool
unfolding accepted_runner
may_open k s d access invocation =
    let runner = accepted_runner k s d (k.capability_digest access.capability) invocation in
    active k.at d
    && ((d.access_key == access.capability || runner) && (is_none invocation || runner))

-- A scope that is there already is left as it is: reconciliation never extends or reopens one.
unfoldable pub reconcile_scope : Document → WorkspaceScope → ℕ → ℕ → Option ℕ → Result Document
reconcile_scope s scope deadline_ms hash invocation =
    if scope.deadline_ms == deadline_ms
      && (scope.authorization_hash == hash && scope.invocation_id == invocation)
    then ok s
    else err Failure.workspace_scope_identity_conflict

-- The largest time to the deadline: `u32::MAX` seconds.
abbrev pub remaining_bound : ℕ
remaining_bound = 4294967295

unfoldable pub new_scope : Demand → ℕ → ℕ → Option ℕ → WorkspaceScope
new_scope d deadline_ms hash invocation = record {
  invocation_id = invocation;
  owner = d.owner;
  reservation_id = d.id;
  deadline_ms = deadline_ms;
  closed_at_ms = none;
  authorization_hash = hash;
}

-- A deadline that has passed, or is too far away.
abbrev pub out_of_bounds : ScopeContext → ℕ → Bool
out_of_bounds k deadline_ms =
    leb deadline_ms k.ms || ltb (saturating_add k.ms (remaining_bound * 1000)) deadline_ms

unfoldable pub add_scope : ScopeContext → Document → Demand → ℕ → ℕ → ℕ → Option ℕ → Result Document
unfolding new_scope
add_scope k s d id deadline_ms hash invocation = do
  refuse_if (out_of_bounds k deadline_ms) Failure.workspace_scope_deadline_limits
  retention k.env k.limits (record s {
    workspace_scopes = insert id (new_scope d deadline_ms hash invocation) s.workspace_scopes;
  })

unfoldable pub open_control : ScopeContext → Document → ScopeAccess → ℕ → Option ℕ → Result Document
unfolding may_open reconcile_scope add_scope
open_control k s access deadline_ms invocation =
    let id = k.scope_key access.reservation access.namespace in
    let hash = k.capability_digest access.capability in
    do
      d ← ok_or (lookup access.reservation s.demands) Failure.invalid_scoped_capability
      refuse_if (not (may_open k s d access invocation)) Failure.invalid_scoped_capability
      elim (lookup id s.workspace_scopes) [
        | some scope ↦ reconcile_scope s scope deadline_ms hash invocation
        | none ↦ add_scope k s d id deadline_ms hash invocation
      ]

unfoldable pub closed_scope : ℕ → WorkspaceScope → WorkspaceScope
closed_scope ms scope = record scope { closed_at_ms = get_or_insert scope.closed_at_ms ms }

unfoldable pub close_control : ScopeContext → Document → ScopeAccess → Result Document
unfolding closed_scope
close_control k s access =
    let id = k.scope_key access.reservation access.namespace in
    do
      scope ← ok_or (lookup id s.workspace_scopes) Failure.unknown_workspace_scope
      refuse_if (not (scope.authorization_hash == k.capability_digest access.capability))
          Failure.invalid_scoped_capability
      ok (
          cancel_closed k.at k.ms
            (record s { workspace_scopes = modify id (closed_scope k.ms) s.workspace_scopes }))

unfoldable pub operate : ScopeContext → Document → ScopeAccess → ScopeControl → Result Document
operate k s access (ScopeControl.open_scope deadline_ms invocation) =
    open_control k s access deadline_ms invocation
operate k s access ScopeControl.close_scope = close_control k s access

unfoldable pub control_scope :
    ScopeContext → Document → ScopeAccess → ScopeControl → Result Document
control_scope k s access operation = do
  refuse_if (not (valid_id (k.env.text access.namespace))) Failure.invalid_call_namespace
  operate k s access operation

-- Whether a capability authorises the calls of a namespace.
unfoldable pub authorizes : ScopeContext → Document → ℕ → ℕ → Option ℕ → Bool
authorizes k s reservation capability namespace = is_some_and namespace (λ n.
    is_some_and (lookup (k.scope_key reservation n) s.workspace_scopes) (λ scope.
      scope.reservation_id == reservation
      && (is_none scope.closed_at_ms
          && (ltb k.ms scope.deadline_ms
              && (is_none_or scope.invocation_id
                    (λ id. is_some_and (lookup id s.invocations) (parent_open k.at))
                  && scope.authorization_hash == k.capability_digest capability)))))
