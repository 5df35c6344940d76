-- ===== src/Runtime/Flight/Transitions.antt =====
-- The steps of a demand change no call.
use rack_ai.Common.{
  ℕ, Bool, true, false, not, ◌&&◌, ◌||◌, Option, ◌≡◌, refl, arith, ◌==◌, nat_eq, ok, ok_or, ◌>>=◌,
  >>=-eq-ok, ok-injective, subst, branch,
}
use rack_ai.Common.Map.{lookup}
use rack_ai.Runtime.Types.{Document, Demand, Process}
use rack_ai.Runtime.Types.Enums.{DemandState, demand_state_eq}
use rack_ai.Runtime.Types.Messages.{Failure}
use rack_ai.Runtime.Service.{active}
use rack_ai.Runtime.Planner.Transfer.{transfer-Transferred}
use rack_ai.Runtime.Reservation.{
  current, commit_ready, root, members, publish_all, publish_members, commit_members, is_atomic,
  may_commit_all,
}
use rack_ai.Runtime.Transition.{
  finish_preflight, mark_preempted, claim_drained, announce_start, start_announced, record_process,
  commit_readiness, fail_readiness, restart_preparation, refresh_process,
}
use rack_ai.Runtime.Retirement.{commit_retirement}

-- The calls of one document are those of the other.
abbrev pub SameCalls : Document → Document → Type 0
SameCalls s t = t.invocations ≡ s.invocations

pub finish_preflight-SameCalls :
    (at : ℕ) (s : Document) (d : Demand) {t : Document}
    → finish_preflight at s d ≡ ok t
    → SameCalls s t
unfolding finish_preflight
finish_preflight-SameCalls at s d h =
    let (saved, hs, h1) = >>=-eq-ok (current s d) _ h in
    branch (not (active at saved)) _ _ h1 (λ b e. subst (SameCalls s) (ok-injective e) refl)
      (λ b e. subst (SameCalls s) (ok-injective e) refl)

pub mark_preempted-SameCalls :
    (s : Document) (id : ℕ) (victim : Demand) {t : Document}
    → mark_preempted s id victim ≡ ok t
    → SameCalls s t
unfolding mark_preempted
mark_preempted-SameCalls s id victim h =
    let (v, hv, h1) = >>=-eq-ok (ok_or (lookup id s.demands) Failure.missing_victim) _ h in
    branch (not (v.generation == victim.generation) || not (v.state == DemandState.preempting)) _ _
      h1 (λ b e. absurd (ground arith)) (λ b e. subst (SameCalls s) (ok-injective e) refl)

pub claim_drained-SameCalls :
    (s : Document) (d : Demand) {t : Document} → claim_drained s d ≡ ok t → SameCalls s t
unfolding claim_drained
claim_drained-SameCalls s d h =
    let (c, hc, h1) = >>=-eq-ok (ok_or (lookup d.id s.demands) Failure.missing_transition) _ h in
    branch (not (c.generation == d.generation) || not (c.state == DemandState.preparing)) _ _ h1
      (λ b e. absurd (ground arith)) (λ b e. (transfer-Transferred s c e).same_calls)

pub announce_start-SameCalls :
    (at : ℕ) (s : Document) (d : Demand) {r : Document × Bool}
    → announce_start at s d ≡ ok r
    → SameCalls s r.0
unfolding announce_start start_announced
announce_start-SameCalls at s d h =
    let (saved, hs, h1) =
      >>=-eq-ok (ok_or (lookup d.id s.demands) Failure.missing_transition) _ h in
    branch _ (ok (s, false)) (current s d >>= λ c. ok (start_announced s d.id, true)) h1
      (λ b e. subst (λ (r : Document × Bool). SameCalls s r.0) (ok-injective e) refl)
      (λ b e.
        let (c, hc, e1) = >>=-eq-ok (current s d) _ e in
        subst (λ (r : Document × Bool). SameCalls s r.0) (ok-injective e1) refl)

pub record_process-SameCalls :
    (s : Document) (d : Demand) (p : Process) {t : Document}
    → record_process s d p ≡ ok t
    → SameCalls s t
unfolding record_process
record_process-SameCalls s d p h =
    let (saved, hs, h1) = >>=-eq-ok (current s d) _ h in subst (SameCalls s) (ok-injective h1) refl

pub fail_readiness-SameCalls :
    (s : Document) (d : Demand) (error : Failure) {t : Document}
    → fail_readiness s d error ≡ ok t
    → SameCalls s t
unfolding fail_readiness
fail_readiness-SameCalls s d error h =
    let (saved, hs, h1) = >>=-eq-ok (current s d) _ h in subst (SameCalls s) (ok-injective h1) refl

pub restart_preparation-SameCalls :
    (at : ℕ) (s : Document) (d : Demand) {t : Document}
    → restart_preparation at s d ≡ ok t
    → SameCalls s t
unfolding restart_preparation
restart_preparation-SameCalls at s d h =
    let (saved, hs, h1) = >>=-eq-ok (current s d) _ h in
    branch (saved.state == DemandState.ready && active at saved) _ _ h1
      (λ b e. subst (SameCalls s) (ok-injective e) refl)
      (λ b e. subst (SameCalls s) (ok-injective e) refl)

pub refresh_process-SameCalls :
    (s : Document) (d : Demand) (p : Process) {t : Document}
    → refresh_process s d p ≡ ok t
    → SameCalls s t
unfolding refresh_process
refresh_process-SameCalls s d p h =
    let (saved, hs, h1) = >>=-eq-ok (current s d) _ h in
    branch (saved.state == DemandState.ready) _ _ h1
      (λ b e. subst (SameCalls s) (ok-injective e) refl)
      (λ b e. subst (SameCalls s) (ok-injective e) refl)

pub commit_ready-SameCalls :
    (at : ℕ) (s : Document) (d : Demand) {t : Document} → commit_ready at s d ≡ ok t → SameCalls s t
unfolding commit_ready commit_members publish_members
commit_ready-SameCalls at s d h =
    let (r, hr, h1) = >>=-eq-ok (root s d) _ h in
    let (ids, hi, h2) = >>=-eq-ok (members s r) _ h1 in
    branch (is_atomic r && not (may_commit_all at s ids)) (ok s) (publish_members s ids) h2
      (λ b e. subst (SameCalls s) (ok-injective e) refl)
      (λ b e.
        let (m, hm, e1) = >>=-eq-ok (publish_all ids s.demands) _ e in
        subst (SameCalls s) (ok-injective e1) refl)

pub commit_readiness-SameCalls :
    (at : ℕ) (s : Document) (d : Demand) (p : Option Process) {t : Document}
    → commit_readiness at s d p ≡ ok t
    → SameCalls s t
unfolding commit_readiness
commit_readiness-SameCalls at s d p h =
    let (saved, hs, h1) = >>=-eq-ok (current s d) _ h in
    branch (not (active at saved)) _ _ h1 (λ b e. subst (SameCalls s) (ok-injective e) refl)
      (λ b e. commit_ready-SameCalls at _ d e)

pub commit_retirement-SameCalls :
    (at : ℕ) (s : Document) (d : Demand) {t : Document}
    → commit_retirement at s d ≡ ok t
    → SameCalls s t
unfolding commit_retirement
commit_retirement-SameCalls at s d h =
    let (saved, hs, h1) = >>=-eq-ok (current s d) _ h in subst (SameCalls s) (ok-injective h1) refl
