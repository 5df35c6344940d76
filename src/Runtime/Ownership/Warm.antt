-- ===== src/Runtime/Ownership/Warm.antt =====
-- The warm backends and the scopes keep the invariant of the claims.
use rack_ai.Common.{
  ℕ, Bool, false, not, Option, ◌≡◌, refl, subst, ◌==◌, nat_eq, ok, ok_or, >>=-eq-ok, ok-injective,
  branch, arith, inl, inr, Option-cases, Bool-cases, refuse_if, is_some_and,
}
use rack_ai.Common.Map.{lookup, insert}
use rack_ai.Runtime.Types.{Document, Demand, WarmResidency}
use rack_ai.Runtime.Types.Messages.{Failure}
use rack_ai.Runtime.Reservation.{current}
use rack_ai.Runtime.Retirement.{retired}
use rack_ai.Runtime.Residency.Cache.{
  cache_after_release, may_cache, occupied_warm, adopt, adopt_live, adopts, adopted,
  still_preparing, evict_incompatible, remove_if_unchanged, process_beq,
}
use rack_ai.Runtime.Admission.Demands.{valid_id}
use rack_ai.Runtime.Scopes.Controller.{
  ScopeContext, ScopeAccess, ScopeControl, may_open, reconcile_scope, add_scope, new_scope,
  open_control, close_control, operate, control_scope, out_of_bounds,
}
use rack_ai.Runtime.Ownership.{Owned, Keeps, modify-Owned, retire-Owned, same-Owned}
use rack_ai.Runtime.Ownership.Calls.{retention-Owned}
use rack_ai.Runtime.Ownership.Steps.{cancel_closed-Owned}

pub cache_after_release-Owned :
    (at : ℕ) (s : Document) (d : Demand) (w : WarmResidency) {r : Document × Bool}
    → cache_after_release at s d w ≡ ok r
    → Owned s
    → Owned r.0
unfolding cache_after_release retired
cache_after_release-Owned at s d w {r} h o =
    let P = λ (t : Document × Bool). Owned t.0 in
    let (saved, hs, h1) =
      >>=-eq-ok (ok_or (lookup d.id s.demands) Failure.missing_transition) _ h in
    branch (not (may_cache d w saved)) _ _ h1 (λ b e. subst P (ok-injective e) o)
      (λ b e.
        branch (occupied_warm s w saved) _ _ e (λ c f. absurd (ground arith))
          (λ c f.
            let (now, hn, f1) = >>=-eq-ok (current s d) _ f in
            subst P (ok-injective f1)
              (same-Owned refl refl (retire-Owned d.id (retired at) (λ c. refl) o))))

adopted-Keeps : (w : WarmResidency) → Keeps (adopted w)
unfolding adopted
adopted-Keeps w = record { same_id = λ c. refl; same_profile = λ c. refl; stays = λ c l. l }

pub adopt-Owned :
    (s : Document) (d : Demand) (seen : WarmResidency) {r : Document × Bool}
    → adopt s d seen ≡ ok r
    → Owned s
    → Owned r.0
unfolding adopt adopt_live
adopt-Owned s d seen {r} h o =
    let P = λ (t : Document × Bool). Owned t.0 in
    elim (Option-cases (lookup seen.id s.warm_residencies)) [
      | inl n ↦ subst P {x = (s, false)} {y = r} (ground arith) o
      | inr (live, e) ↦
          branch (adopts s d seen live) (adopt_live s d seen) (ok (s, false)) (rw (adopt, e) at h)
            (λ b k.
              let (saved, hs, k1) =
                >>=-eq-ok (ok_or (lookup d.id s.demands) Failure.missing_transition) _ k in
              branch (not (still_preparing s d saved)) _ _ k1 (λ c f. subst P (ok-injective f) o)
                (λ c f.
                  let (now, hn, f1) = >>=-eq-ok (current s d) _ f in
                  subst P (ok-injective f1) (
                    same-Owned refl refl
                      (modify-Owned d.id (adopted seen) (adopted-Keeps seen) o))))
            (λ b k. subst P (ok-injective k) o)
    ]

pub evict_incompatible-Owned :
    (s : Document) (d : Demand) {t : Document} → evict_incompatible s d ≡ ok t → Owned s → Owned t
unfolding evict_incompatible
evict_incompatible-Owned s d h o =
    let (saved, hs, h1) =
      >>=-eq-ok (ok_or (lookup d.id s.demands) Failure.missing_transition) _ h in
    branch (not (still_preparing s d saved)) _ _ h1 (λ c f. subst Owned (ok-injective f) o)
      (λ c f. subst Owned (ok-injective f) (same-Owned refl refl o))

pub remove_if_unchanged-Owned :
    (s : Document) (seen : WarmResidency) → Owned s → Owned (remove_if_unchanged s seen)
unfolding remove_if_unchanged
remove_if_unchanged-Owned s seen o =
    elim (Bool-cases (
      is_some_and (lookup seen.id s.warm_residencies)
        (λ saved. process_beq saved.process seen.process))) [
          | inl e ↦ rw e (same-Owned refl refl o)
          | inr e ↦ rw e o
        ]

open_control-Owned :
    (k : ScopeContext) (s : Document) (access : ScopeAccess) (deadline_ms : ℕ)
    (invocation : Option ℕ) {t : Document}
    → open_control k s access deadline_ms invocation ≡ ok t
    → Owned s
    → Owned t
unfolding open_control reconcile_scope add_scope
open_control-Owned k s access deadline_ms invocation {t} h o =
    let id = k.scope_key access.reservation access.namespace in
    let hash = k.capability_digest access.capability in
    let (d, hd, h1) =
      >>=-eq-ok (ok_or (lookup access.reservation s.demands) Failure.invalid_scoped_capability) _
        h in
    let (u, hu, h2) =
      >>=-eq-ok
        (refuse_if (not (may_open k s d access invocation)) Failure.invalid_scoped_capability) _
        h1 in
    elim (Option-cases (lookup id s.workspace_scopes)) [
      | inl e ↦
          let (v, hv, h3) =
            >>=-eq-ok
              (refuse_if (out_of_bounds k deadline_ms) Failure.workspace_scope_deadline_limits) _
              (rw e at h2) in
          retention-Owned k.env k.limits
            (record s {
              workspace_scopes =
                  insert id (new_scope d deadline_ms hash invocation) s.workspace_scopes;
            })
            h3 (same-Owned refl refl o)
      | inr (scope, e) ↦ subst Owned {x = s} {y = t} (ground arith) o
    ]

close_control-Owned :
    (k : ScopeContext) (s : Document) (access : ScopeAccess) {t : Document}
    → close_control k s access ≡ ok t
    → Owned s
    → Owned t
unfolding close_control
close_control-Owned k s access h o =
    let id = k.scope_key access.reservation access.namespace in
    let (scope, hs, h1) =
      >>=-eq-ok (ok_or (lookup id s.workspace_scopes) Failure.unknown_workspace_scope) _ h in
    let (u, hu, h2) =
      >>=-eq-ok
        (refuse_if (not (scope.authorization_hash == k.capability_digest access.capability))
          Failure.invalid_scoped_capability)
        _ h1 in
    subst Owned (ok-injective h2) (cancel_closed-Owned k.at k.ms _ (same-Owned {s = s} refl refl o))

pub control_scope-Owned :
    (k : ScopeContext) (s : Document) (access : ScopeAccess) (operation : ScopeControl)
    {t : Document}
    → control_scope k s access operation ≡ ok t
    → Owned s
    → Owned t
unfolding control_scope operate
control_scope-Owned k s access (ScopeControl.open_scope deadline_ms invocation) h o =
    let (u, hu, h1) =
      >>=-eq-ok
        (refuse_if (not (valid_id (k.env.text access.namespace))) Failure.invalid_call_namespace) _
        h in
    open_control-Owned k s access deadline_ms invocation h1 o
control_scope-Owned k s access ScopeControl.close_scope h o =
    let (u, hu, h1) =
      >>=-eq-ok
        (refuse_if (not (valid_id (k.env.text access.namespace))) Failure.invalid_call_namespace) _
        h in
    close_control-Owned k s access h1 o
