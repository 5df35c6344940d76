-- ===== src/Runtime/Scopes.antt =====
-- The scope of a workspace's calls: crates/rack_ai_runtime/src/workspace_scope.rs. `at` is in
-- seconds and `ms` in milliseconds.
pub mod Controller
pub mod Permanence
use rack_ai.Common.{
  ℕ, Bool, not, ◌&&◌, List, ◌∷◌, [], map, ltb, ◌==◌, nat_eq, is_none, is_some_and, is_none_or, keep,
}
use rack_ai.Common.Map.{lookup, modify, values}
use rack_ai.Runtime.Types.{Document, Invocation, Inference, WorkspaceScope, Map}
use rack_ai.Runtime.Types.Enums.{InvocationState, invocation_state_eq}
use rack_ai.Runtime.Service.{is_workspace}
use rack_ai.Runtime.Invocations.{is_open, cancel}

unfoldable pub parent_open : ℕ → Invocation → Bool
parent_open at i =
    is_workspace i
    && (i.state == InvocationState.running
        && (is_none i.cancellation
            && is_some_and i.execution_deadline (λ deadline. ltb at deadline)))

unfoldable pub scope_permits : ℕ → ℕ → Document → Inference → WorkspaceScope → Bool
unfolding parent_open
scope_permits at ms s request scope =
    is_none_or scope.invocation_id (λ id. is_some_and (lookup id s.invocations) (parent_open at))
    && (scope.reservation_id == request.reservation_id
        && (is_none scope.closed_at_ms && ltb ms scope.deadline_ms))

unfoldable pub permits : ℕ → ℕ → Document → Inference → Bool
unfolding scope_permits
permits at ms s request =
    is_none_or request.workspace_scope
      (λ id. is_some_and (lookup id s.workspace_scopes) (scope_permits at ms s request))

unfoldable pub needs_cancel : ℕ → ℕ → Document → Invocation → Bool
unfolding permits
needs_cancel at ms s i =
    is_none i.cancellation && (is_open i.state && not (permits at ms s i.request))

unfoldable pub cancel_ids : ℕ → List ℕ → Map Invocation → Map Invocation
cancel_ids at [] m = m
cancel_ids at (id ∷ ids) m = cancel_ids at ids (modify id (cancel at) m)

-- The calls whose scope no longer permits them are cancelled.
unfoldable pub cancel_closed : ℕ → ℕ → Document → Document
unfolding needs_cancel cancel_ids
cancel_closed at ms s = record s {
  invocations =
      cancel_ids at (map (λ i. i.id) (keep (needs_cancel at ms s) (values s.invocations)))
        s.invocations;
}
