-- ===== src/Runtime/Service/Recovery.antt =====
-- What `recover` leaves after a restart.
use rack_ai.Common.{
  ℕ, true, false, not, some, none, List, ◌∷◌, [], ◌≡◌, refl, arith, ◌==◌, nat_eq, ok, ok-injective,
  subst, branch, is_some_and,
}
use rack_ai.Common.Map.{lookup, update_all, lookup-update_all}
use rack_ai.Runtime.Types.{Document, Demand, Invocation}
use rack_ai.Runtime.Types.Enums.{DemandState, InvocationState, demand_state_eq, invocation_state_eq}
use rack_ai.Runtime.Service.{recover, recover_invocation, recover_demand}

recover_invocation-twice :
    (i : Invocation) → recover_invocation (recover_invocation i) ≡ recover_invocation i
unfolding recover_invocation
recover_invocation-twice i = ground arith

recover_demand-twice : (d : Demand) → recover_demand (recover_demand d) ≡ recover_demand d
unfolding recover_demand
recover_demand-twice d = ground arith

update_all-twice {ℓ} :
    {V : Type ℓ} (f : V → V) (m : List (ℕ × V))
    → ((v : V) → f (f v) ≡ f v)
    → update_all f (update_all f m) ≡ update_all f m
unfolding update_all
update_all-twice f [] h = refl
update_all-twice f ((k, v) ∷ m) h = rw (h v, update_all-twice f m h) refl

-- No stored call is taken to run, and no start that was announced without a process passes for a
-- preparation.
pub record Settled (t : Document) : Type 0 where
  pub no_call_runs :
      (j : ℕ) (i : Invocation)
      → lookup j t.invocations ≡ some i
      → (i.state == InvocationState.running) ≡ false
  pub starts_known :
      (j : ℕ) (d : Demand)
      → lookup j t.demands ≡ some d
      → d.effect_started ≡ true
      → d.process ≡ none
      → d.state ≡ DemandState.recovery_required

-- After a recovery that succeeds no call is taken to run, and each announced start of which no
-- process is recorded wants a reconciliation.
pub recover-Settled :
    (placement port : ℕ) (s : Document) {t : Document} → recover placement port s ≡ ok t → Settled t
unfolding recover recover_invocation recover_demand
recover-Settled placement port s h =
    branch (is_some_and s.placement_hash (λ hash. not (hash == placement))) _ _ h
      (λ b e. absurd (ground arith))
      (λ b e. subst Settled (ok-injective e) (record {
        no_call_runs =
            λ j i e. ground (arith, lookup-update_all j recover_invocation s.invocations);
        starts_known = λ j d e f g. ground (arith, lookup-update_all j recover_demand s.demands);
      }))

-- A recovery may be repeated: a second one under the same placement changes nothing.
pub recover-twice :
    (placement port : ℕ) (s : Document) {t : Document}
    → recover placement port s ≡ ok t
    → recover placement port t ≡ ok t
unfolding recover
recover-twice placement port s h =
    branch (is_some_and s.placement_hash (λ hash. not (hash == placement))) _ _ h
      (λ b e. absurd (ground arith))
      (λ b e.
        subst (λ (t : Document). recover placement port t ≡ ok t) (ok-injective e)
          (ground (
            arith,
            update_all-twice recover_invocation s.invocations recover_invocation-twice,
            update_all-twice recover_demand s.demands recover_demand-twice,
          )))
