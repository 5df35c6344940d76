-- ===== src/Examples/Scopes.antt =====
-- A workspace's scope that is open, and then closed.
use rack_ai.Common.{ℕ, ◌+◌, ◌*◌, Bool, true, false, Option, some, none, ◌∷◌, [], ◌≡◌, refl, ok}
use rack_ai.Common.Map.{lookup, modify}
use rack_ai.Runtime.Types.{Document, WorkspaceScope}
use rack_ai.Runtime.Scopes.Controller.{
  ScopeContext, ScopeAccess, ScopeControl, control_scope, authorizes, operate, close_control,
}
use rack_ai.Runtime.Scopes.Permanence.{Kept, control_scope-Kept, control_scope-closes}
use rack_ai.Examples.{environment, small_limits}
use rack_ai.Examples.Documents.{ready}

abbrev open_workspace : WorkspaceScope
open_workspace = record {
  invocation_id = none;
  owner = 5;
  reservation_id = 1;
  deadline_ms = 500000;
  closed_at_ms = none;
  authorization_hash = 1;
}

abbrev scoped : Document
scoped = record ready { workspace_scopes = (3, open_workspace) ∷ [] }

abbrev scope_context : ℕ → ScopeContext
scope_context at = record {
  at = at;
  ms = at * 1000;
  env = environment;
  limits = small_limits;
  scope_key = λ _ _. 3;
  capability_digest = λ c. c;
}

abbrev access : ScopeAccess
access = record { reservation = 1; capability = 1; namespace = 4 }

abbrev unscoped : Document
unscoped = record scoped {
  workspace_scopes = (3, record open_workspace { closed_at_ms = some 110000 }) ∷ [];
}

was_open : authorizes (scope_context 110) scoped 1 1 (some 4) ≡ true
unfolding authorizes lookup
was_open = refl

close_succeeds :
    control_scope (scope_context 110) scoped access ScopeControl.close_scope ≡ ok unscoped
unfolding control_scope rack_ai.Runtime.Admission.Demands.valid_id operate close_control lookup
    rack_ai.Runtime.Scopes.cancel_closed rack_ai.Common.Map.values modify
close_succeeds = refl

control_scope-Kept_example : Kept scoped.workspace_scopes unscoped.workspace_scopes
control_scope-Kept_example =
    control_scope-Kept (scope_context 110) scoped access ScopeControl.close_scope close_succeeds

control_scope-closes_example : authorizes (scope_context 120) unscoped 1 1 (some 4) ≡ false
control_scope-closes_example =
    control_scope-closes (scope_context 110) (scope_context 120) scoped access 1 close_succeeds refl
