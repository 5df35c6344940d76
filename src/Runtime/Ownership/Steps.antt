-- ===== src/Runtime/Ownership/Steps.antt =====
-- Each update of the document keeps the invariant: transitions, retirement, idleness, control.
use rack_ai.Common.{
  ℕ, Bool, true, false, not, ◌||◌, ◌&&◌, branch, Option, List, ◌≡◌, refl, arith, inl, inr, ◌==◌,
  nat_eq, ok, ok_or, ◌>>=◌, >>=-eq-ok, ok_or-eq-ok, ok-injective, subst, Option-cases, Bool-cases,
}
use rack_ai.Common.Map.{lookup, modify}
use rack_ai.Runtime.Types.{Document, Demand, Process}
use rack_ai.Runtime.Types.Enums.{DemandState, demand_state_eq}
use rack_ai.Runtime.Types.Messages.{Failure}
use rack_ai.Runtime.Service.{active}
use rack_ai.Runtime.Planner.{occupies_host}
use rack_ai.Runtime.Reservation.{
  current, commit_ready, root, members, publish_all, publish_members, commit_members, is_atomic,
  may_commit_all,
}
use rack_ai.Runtime.Transition.{
  finish_preflight, mark_preempted, retired_victim, claim_drained, announce_start, start_announced,
  record_process, commit_readiness, fail_readiness, restart_preparation, refresh_process,
}
use rack_ai.Runtime.Retirement.{commit_retirement, retired}
use rack_ai.Runtime.Idle.{touch, touched, reap, eligible_ids}
use rack_ai.Runtime.Retention.{refresh, extensions, apply_extensions}
use rack_ai.Runtime.Scopes.{cancel_closed}
use rack_ai.Runtime.Ownership.{Owned, modify-Owned, retire-Owned, same-Owned}
use rack_ai.Runtime.Ownership.Changes.{
  expire_ids-Owned, publish_all-Owned, apply_extensions-Owned, touched-Keeps,
}
use rack_ai.Runtime.Ownership.Claims.{transfer-Owned, occupies_preparing}

pub finish_preflight-Owned :
    (at : ℕ) (s : Document) (d : Demand) {s' : Document}
    → finish_preflight at s d ≡ ok s'
    → Owned s
    → Owned s'
unfolding finish_preflight
finish_preflight-Owned at s d {s'} h o =
    let (saved, hs, h1) = >>=-eq-ok (current s d) _ h in
    branch (not (active at saved)) _ _ h1 (λ b e. subst Owned (ok-injective e) o)
      (λ b e. subst Owned (ok-injective e) (
        modify-Owned d.id _
          (record { same_id = λ c. refl; same_profile = λ c. refl; stays = λ c l. l }) o))

-- The end of a victim frees every claim that it held.
pub mark_preempted-Owned :
    (s : Document) (id : ℕ) (victim : Demand) {s' : Document}
    → mark_preempted s id victim ≡ ok s'
    → Owned s
    → Owned s'
unfolding mark_preempted
mark_preempted-Owned s id victim {s'} h o =
    let (v, hv, h1) = >>=-eq-ok (ok_or (lookup id s.demands) Failure.missing_victim) _ h in
    branch (not (v.generation == victim.generation) || not (v.state == DemandState.preempting)) _ _
      h1 (λ b e. absurd (ground arith))
      (λ b e. subst Owned (ok-injective e) (retire-Owned id retired_victim (λ c. refl) o))

pub claim_drained-Owned :
    (s : Document) (d : Demand) {s' : Document} → claim_drained s d ≡ ok s' → Owned s → Owned s'
unfolding claim_drained occupies_host
claim_drained-Owned s d {s'} h o =
    let (c, hc, h1) = >>=-eq-ok (ok_or (lookup d.id s.demands) Failure.missing_transition) _ h in
    let stored = ok_or-eq-ok (lookup d.id s.demands) Failure.missing_transition hc in
    let same = o.keyed d.id c stored in
    elim (Bool-cases
      (not (c.generation == d.generation) || not (c.state == DemandState.preparing))) [
        | inl e ↦ absurd (ground arith)
        | inr e ↦ transfer-Owned s c (rw same stored) (ground arith) (ground arith) o
      ]

pub announce_start-Owned :
    (at : ℕ) (s : Document) (d : Demand) {r : Document × Bool}
    → announce_start at s d ≡ ok r
    → Owned s
    → Owned r.0
unfolding announce_start
announce_start-Owned at s d {r} h o =
    let (saved, hs, h1) =
      >>=-eq-ok (ok_or (lookup d.id s.demands) Failure.missing_transition) _ h in
    branch _ (ok (s, false)) (current s d >>= λ c. ok (start_announced s d.id, true)) h1
      (λ b e. subst (λ (t : Document × Bool). Owned t.0) (ok-injective e) o)
      (λ b e.
        let (c, hc, e1) = >>=-eq-ok (current s d) _ e in
        subst (λ (t : Document × Bool). Owned t.0) (ok-injective e1)
          (modify-Owned d.id _
            (record { same_id = λ c. refl; same_profile = λ c. refl; stays = λ c l. l }) o))

pub record_process-Owned :
    (s : Document) (d : Demand) (p : Process) {s' : Document}
    → record_process s d p ≡ ok s'
    → Owned s
    → Owned s'
unfolding record_process
record_process-Owned s d p {s'} h o =
    let (saved, hs, h1) = >>=-eq-ok (current s d) _ h in
    subst Owned (ok-injective h1) (
      modify-Owned d.id _
        (record { same_id = λ c. refl; same_profile = λ c. refl; stays = λ c l. l }) o)

pub fail_readiness-Owned :
    (s : Document) (d : Demand) (error : Failure) {s' : Document}
    → fail_readiness s d error ≡ ok s'
    → Owned s
    → Owned s'
unfolding fail_readiness
fail_readiness-Owned s d error {s'} h o =
    let (saved, hs, h1) = >>=-eq-ok (current s d) _ h in
    subst Owned (ok-injective h1) (
      modify-Owned d.id _
        (record { same_id = λ c. refl; same_profile = λ c. refl; stays = λ c l. l }) o)

pub restart_preparation-Owned :
    (at : ℕ) (s : Document) (d : Demand) {s' : Document}
    → restart_preparation at s d ≡ ok s'
    → Owned s
    → Owned s'
unfolding restart_preparation
restart_preparation-Owned at s d {s'} h o =
    let (saved, hs, h1) = >>=-eq-ok (current s d) _ h in
    branch (saved.state == DemandState.ready && active at saved) _ _ h1
      (λ b e. subst Owned (ok-injective e) (
        modify-Owned d.id _
          (record {
            same_id = λ c. refl;
            same_profile = λ c. refl;
            stays = λ c l. occupies_preparing;
          })
          o))
      (λ b e. subst Owned (ok-injective e) o)

pub refresh_process-Owned :
    (s : Document) (d : Demand) (p : Process) {s' : Document}
    → refresh_process s d p ≡ ok s'
    → Owned s
    → Owned s'
unfolding refresh_process
refresh_process-Owned s d p {s'} h o =
    let (saved, hs, h1) = >>=-eq-ok (current s d) _ h in
    branch (saved.state == DemandState.ready) _ _ h1
      (λ b e. subst Owned (ok-injective e) (
        modify-Owned d.id _
          (record { same_id = λ c. refl; same_profile = λ c. refl; stays = λ c l. l }) o))
      (λ b e. subst Owned (ok-injective e) o)

pub publish_members-Owned :
    (s : Document) (ids : List ℕ) {s' : Document}
    → publish_members s ids ≡ ok s'
    → Owned s
    → Owned s'
unfolding publish_members
publish_members-Owned s ids h o =
    let (m, hm, h1) = >>=-eq-ok (publish_all ids s.demands) _ h in
    subst Owned (ok-injective h1) (publish_all-Owned ids s hm o)

pub commit_ready-Owned :
    (at : ℕ) (s : Document) (d : Demand) {s' : Document}
    → commit_ready at s d ≡ ok s'
    → Owned s
    → Owned s'
unfolding commit_ready commit_members
commit_ready-Owned at s d h o =
    let (r, hr, h1) = >>=-eq-ok (root s d) _ h in
    let (ids, hi, h2) = >>=-eq-ok (members s r) _ h1 in
    branch (is_atomic r && not (may_commit_all at s ids)) (ok s) (publish_members s ids) h2
      (λ b e. subst Owned (ok-injective e) o) (λ b e. publish_members-Owned s ids e o)

pub commit_readiness-Owned :
    (at : ℕ) (s : Document) (d : Demand) (p : Option Process) {s' : Document}
    → commit_readiness at s d p ≡ ok s'
    → Owned s
    → Owned s'
unfolding commit_readiness
commit_readiness-Owned at s d p {s'} h o =
    let (saved, hs, h1) = >>=-eq-ok (current s d) _ h in
    branch (not (active at saved)) _ _ h1 (λ b e. subst Owned (ok-injective e) o)
      (λ b e. commit_ready-Owned at _ d e (
        modify-Owned d.id _
          (record { same_id = λ c. refl; same_profile = λ c. refl; stays = λ c l. l }) o))

pub commit_retirement-Owned :
    (at : ℕ) (s : Document) (d : Demand) {s' : Document}
    → commit_retirement at s d ≡ ok s'
    → Owned s
    → Owned s'
unfolding commit_retirement
commit_retirement-Owned at s d {s'} h o =
    let (saved, hs, h1) = >>=-eq-ok (current s d) _ h in
    subst Owned (ok-injective h1) (retire-Owned d.id (retired at) (λ c. refl) o)

pub reap-Owned : (s : Document) (seconds at : ℕ) → Owned s → Owned (reap s seconds at)
unfolding reap
reap-Owned s seconds at o = expire_ids-Owned at (eligible_ids s seconds at) s o

pub touch-Owned :
    (s : Document) (id at : ℕ) {s' : Document} → touch s id at ≡ ok s' → Owned s → Owned s'
unfolding touch
touch-Owned s id at {s'} h o = elim (Option-cases (lookup id s.demands)) [
  | inl e ↦ absurd (ground arith)
  | inr (d, e) ↦
      subst Owned {x = record s { demands = modify id (touched at) s.demands }} (ground arith)
        (modify-Owned id (touched at) (touched-Keeps at) o)
]

pub refresh-Owned :
    (s : Document) (seconds at : ℕ) {s' : Document}
    → refresh s seconds at ≡ ok s'
    → Owned s
    → Owned s'
unfolding refresh
refresh-Owned s seconds at {s'} h o =
    let (us, hu, h1) = >>=-eq-ok (extensions s seconds at) _ h in
    let (m, hm, h2) = >>=-eq-ok (apply_extensions us s.demands) _ h1 in
    subst Owned (ok-injective h2) (apply_extensions-Owned us s hm o)

pub cancel_closed-Owned : (at ms : ℕ) (s : Document) → Owned s → Owned (cancel_closed at ms s)
unfolding cancel_closed
cancel_closed-Owned at ms s o = same-Owned refl refl o
