-- ===== src/Runtime/Flight/Warm.antt =====
-- The warm backends and the scopes put no call into flight.
use rack_ai.Common.{
  ℕ, Bool, false, not, Option, ◌≡◌, refl, subst, ◌==◌, nat_eq, ok, ok_or, >>=-eq-ok, ok-injective,
  branch, arith, inl, inr, Option-cases, Bool-cases, refuse_if, is_some_and,
}
use rack_ai.Common.Map.{lookup, insert, modify}
use rack_ai.Runtime.Types.{Document, Demand, WarmResidency}
use rack_ai.Runtime.Types.Messages.{Failure}
use rack_ai.Runtime.Reservation.{current}
use rack_ai.Runtime.Retirement.{retired}
use rack_ai.Runtime.Residency.Cache.{
  cache_after_release, may_cache, occupied_warm, adopt, adopt_live, adopts, still_preparing,
  evict_incompatible, remove_if_unchanged, process_beq,
}
use rack_ai.Runtime.Admission.Demands.{valid_id}
use rack_ai.Runtime.Scopes.Controller.{
  ScopeContext, ScopeAccess, ScopeControl, may_open, reconcile_scope, add_scope, new_scope,
  open_control, closed_scope, close_control, operate, control_scope, out_of_bounds,
}
use rack_ai.Runtime.Flight.{Calmer, Calmer-refl}
use rack_ai.Runtime.Flight.Steps.{cancel_closed-Calmer}
use rack_ai.Runtime.Flight.Bounds.{retention-Calmer}

pub cache_after_release-SameCalls :
    (at : ℕ) (s : Document) (d : Demand) (w : WarmResidency) {r : Document × Bool}
    → cache_after_release at s d w ≡ ok r
    → (r.0).invocations ≡ s.invocations
unfolding cache_after_release retired
cache_after_release-SameCalls at s d w {r} h =
    let P = λ (t : Document × Bool). (t.0).invocations ≡ s.invocations in
    let (saved, hs, h1) =
      >>=-eq-ok (ok_or (lookup d.id s.demands) Failure.missing_transition) _ h in
    branch (not (may_cache d w saved)) _ _ h1 (λ b e. subst P (ok-injective e) refl)
      (λ b e.
        branch (occupied_warm s w saved) _ _ e (λ c f. absurd (ground arith))
          (λ c f.
            let (now, hn, f1) = >>=-eq-ok (current s d) _ f in subst P (ok-injective f1) refl))

pub adopt-SameCalls :
    (s : Document) (d : Demand) (seen : WarmResidency) {r : Document × Bool}
    → adopt s d seen ≡ ok r
    → (r.0).invocations ≡ s.invocations
unfolding adopt adopt_live
adopt-SameCalls s d seen {r} h =
    let P = λ (t : Document × Bool). (t.0).invocations ≡ s.invocations in
    elim (Option-cases (lookup seen.id s.warm_residencies)) [
      | inl n ↦ subst P {x = (s, false)} {y = r} (ground arith) refl
      | inr (live, e) ↦
          branch (adopts s d seen live) (adopt_live s d seen) (ok (s, false)) (rw (adopt, e) at h)
            (λ b k.
              let (saved, hs, k1) =
                >>=-eq-ok (ok_or (lookup d.id s.demands) Failure.missing_transition) _ k in
              branch (not (still_preparing s d saved)) _ _ k1 (λ c f. subst P (ok-injective f) refl)
                (λ c f.
                  let (now, hn, f1) = >>=-eq-ok (current s d) _ f in
                  subst P (ok-injective f1) refl))
            (λ b k. subst P (ok-injective k) refl)
    ]

pub evict_incompatible-SameCalls :
    (s : Document) (d : Demand) {t : Document}
    → evict_incompatible s d ≡ ok t
    → t.invocations ≡ s.invocations
unfolding evict_incompatible
evict_incompatible-SameCalls s d h =
    let (saved, hs, h1) =
      >>=-eq-ok (ok_or (lookup d.id s.demands) Failure.missing_transition) _ h in
    branch (not (still_preparing s d saved)) _ _ h1
      (λ c f. subst (λ (t : Document). t.invocations ≡ s.invocations) (ok-injective f) refl)
      (λ c f. subst (λ (t : Document). t.invocations ≡ s.invocations) (ok-injective f) refl)

pub remove_if_unchanged-SameCalls :
    (s : Document) (seen : WarmResidency) → (remove_if_unchanged s seen).invocations ≡ s.invocations
unfolding remove_if_unchanged
remove_if_unchanged-SameCalls s seen =
    elim (Bool-cases (
      is_some_and (lookup seen.id s.warm_residencies)
        (λ saved. process_beq saved.process seen.process))) [
          | inl e ↦ rw e refl
          | inr e ↦ rw e refl
        ]

open_control-Quiet :
    (k : ScopeContext) (s : Document) (access : ScopeAccess) (deadline_ms : ℕ)
    (invocation : Option ℕ) {t : Document}
    → open_control k s access deadline_ms invocation ≡ ok t
    → Calmer s.invocations t.invocations
unfolding open_control reconcile_scope add_scope
open_control-Quiet k s access deadline_ms invocation {t} h =
    let id = k.scope_key access.reservation access.namespace in
    let hash = k.capability_digest access.capability in
    let (d, hd, h1) =
      >>=-eq-ok (ok_or (lookup access.reservation s.demands) Failure.invalid_scoped_capability) _
        h in
    let (u, hu, h2) =
      >>=-eq-ok
        (refuse_if (not (may_open k s d access invocation)) Failure.invalid_scoped_capability) _
        h1 in
    elim (Option-cases (lookup id s.workspace_scopes)) [
      | inl e ↦
          let (v, hv, h3) =
            >>=-eq-ok
              (refuse_if (out_of_bounds k deadline_ms) Failure.workspace_scope_deadline_limits) _
              (rw e at h2) in
          retention-Calmer k.env k.limits
            (record s {
              workspace_scopes =
                  insert id (new_scope d deadline_ms hash invocation) s.workspace_scopes;
            })
            h3
      | inr (scope, e) ↦
          subst (λ (x : Document). Calmer s.invocations x.invocations) {x = s} {y = t}
            (ground arith) (Calmer-refl s.invocations)
    ]

close_control-Quiet :
    (k : ScopeContext) (s : Document) (access : ScopeAccess) {t : Document}
    → close_control k s access ≡ ok t
    → Calmer s.invocations t.invocations
unfolding close_control
close_control-Quiet k s access h =
    let id = k.scope_key access.reservation access.namespace in
    let (scope, hs, h1) =
      >>=-eq-ok (ok_or (lookup id s.workspace_scopes) Failure.unknown_workspace_scope) _ h in
    let (u, hu, h2) =
      >>=-eq-ok
        (refuse_if (not (scope.authorization_hash == k.capability_digest access.capability))
          Failure.invalid_scoped_capability)
        _ h1 in
    subst (λ (x : Document). Calmer s.invocations x.invocations) (ok-injective h2)
      (cancel_closed-Calmer k.at k.ms
        (record s { workspace_scopes = modify id (closed_scope k.ms) s.workspace_scopes }))

pub control_scope-Quiet :
    (k : ScopeContext) (s : Document) (access : ScopeAccess) (operation : ScopeControl)
    {t : Document}
    → control_scope k s access operation ≡ ok t
    → Calmer s.invocations t.invocations
unfolding control_scope operate
control_scope-Quiet k s access (ScopeControl.open_scope deadline_ms invocation) h =
    let (u, hu, h1) =
      >>=-eq-ok
        (refuse_if (not (valid_id (k.env.text access.namespace))) Failure.invalid_call_namespace) _
        h in
    open_control-Quiet k s access deadline_ms invocation h1
control_scope-Quiet k s access ScopeControl.close_scope h =
    let (u, hu, h1) =
      >>=-eq-ok
        (refuse_if (not (valid_id (k.env.text access.namespace))) Failure.invalid_call_namespace) _
        h in
    close_control-Quiet k s access h1
