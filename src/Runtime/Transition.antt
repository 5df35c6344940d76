-- ===== src/Runtime/Transition.antt =====
-- The steps of a demand that prepares: crates/rack_ai_runtime/src/transition.rs. A stop of a
-- backend is made outside of the authority; its outcome is an argument.
use rack_ai.Common.{
  ℕ, Bool, true, false, not, ◌&&◌, ◌||◌, Option, some, none, List, ◌∷◌, [], leb, if◌then◌else◌,
  ◌==◌, nat_eq, option_eq, all, is_some_and, ok, err, ok_or, ◌>>=◌, ◌>>◌, add64,
}
use rack_ai.Common.Map.{lookup, modify, retain}
use rack_ai.Runtime.Types.{Document, Demand, Process, Map, Result}
use rack_ai.Runtime.Types.Enums.{DemandState, demand_state_eq}
use rack_ai.Runtime.Types.Messages.{Failure, Message}
use rack_ai.Runtime.Service.{active, owns, inflight}
use rack_ai.Runtime.Reservation.{current, commit_ready}
use rack_ai.Runtime.Planner.{transfer}

unfoldable pub boundary : ℕ → Document → Demand → Result (Unit {0})
boundary at s d = do
  saved ← ok_or (lookup d.id s.demands) Failure.missing_transition
  if not (saved.generation == d.generation)
        || (not (saved.state == DemandState.preparing) || not (active at saved))
      then err Failure.transition_fence_changed
      else ok tt

-- The commit of a preflight.
unfoldable pub finish_preflight : ℕ → Document → Demand → Result Document
finish_preflight at s d = do
  saved ← current s d
  if not (active at saved)
      then ok s
      else ok (record s {
        demands =
            modify d.id
              (λ saved. record saved {
                preflight_done = true;
                transition_deadline =
                    add64 (add64 (add64 at d.profile.startup_seconds) d.profile.drain_seconds)
                      d.profile.stop_seconds;
              })
              s.demands;
      })

unfoldable pub is_preempted_in : Map Demand → ℕ → Bool
is_preempted_in demands id =
    is_some_and (lookup id demands) (λ victim. victim.state == DemandState.preempted)

-- A member that is not the root of its reservation waits until the root's victims are gone.
unfoldable pub root_drained : Document → Demand → Result Bool
unfolding is_preempted_in
root_drained s d = elim d.reservation_id [
  | none ↦ ok true
  | some id ↦ if id == d.id then ok true else do
    root ← ok_or (lookup id s.demands) Failure.missing_reservation_root
    ok (all (is_preempted_in s.demands) root.victims)
]

-- `none` while the victim still has work in flight.
unfoldable pub victim_status : ℕ → Document → ℕ → Result (Option Demand)
victim_status at s id = do
  victim ← ok_or (lookup id s.demands) Failure.missing_victim
  if not (victim.state == DemandState.preempted) && inflight s id
      then (if leb victim.transition_deadline at
          then err Failure.drain_deadline_invocation_uncertain
          else ok none)
      else ok (some victim)

unfoldable pub retired_victim : Demand → Demand
retired_victim v = record v {
  process = none;
  effect_started = false;
  state = DemandState.preempted;
  reason = some Message.preempted_by_higher_priority;
}

-- The victim has stopped: it is terminal, and every claim that it held is free.
unfoldable pub mark_preempted : Document → ℕ → Demand → Result Document
unfolding retired_victim
mark_preempted s id victim = do
  v ← ok_or (lookup id s.demands) Failure.missing_victim
  if not (v.generation == victim.generation) || not (v.state == DemandState.preempting)
      then err Failure.stale_victim_callback
      else ok (record s {
        demands = modify id retired_victim s.demands;
        claims = retain (λ owner. not (owner == id)) s.claims;
      })

unfoldable pub claim_drained : Document → Demand → Result Document
claim_drained s d = do
  candidate ← ok_or (lookup d.id s.demands) Failure.missing_transition
  if not (candidate.generation == d.generation) || not (candidate.state == DemandState.preparing)
      then err Failure.transition_fence_changed
      else transfer s candidate

-- The first victim that is not preempted yet is stopped; when there is none the claims move.
-- `true` says that they have moved.
unfoldable pub drain_victims :
    ℕ → (Demand → Result (Unit {0})) → Document → Demand → List ℕ → Result (Document × Bool)
unfolding victim_status mark_preempted claim_drained
drain_victims at stop s d [] = do s' ← claim_drained s d; ok (s', true)
drain_victims at stop s d (id ∷ ids) =
    let rest = drain_victims at stop s d ids in
    victim_status at s id >>= λ status. elim status [
      | none ↦ ok (s, false)
      | some victim ↦
          if victim.state == DemandState.preempted
          then rest
          else if not (victim.state == DemandState.preempting)
          then err Failure.victim_transition_changed
          else (do boundary at s d; stop victim; s' ← mark_preempted s id victim; ok (s', false))
    ]

unfoldable pub victim_drain :
    ℕ → (Demand → Result (Unit {0})) → Document → Demand → Result (Document × Bool)
unfolding root_drained drain_victims
victim_drain at stop s d = do
  drained ← root_drained s d
  if drained then drain_victims at stop s d d.victims else ok (s, false)

-- The start of the backend is announced before it is made.
unfoldable pub start_announced : Document → ℕ → Document
start_announced s id = record s {
  demands = modify id (λ m. record m { effect_started = true }) s.demands;
}

unfoldable pub announce_start : ℕ → Document → Demand → Result (Document × Bool)
unfolding start_announced
announce_start at s d = do
  saved ← ok_or (lookup d.id s.demands) Failure.missing_transition
  if not (active at saved) || (not (saved.state == DemandState.preparing) || not (owns s saved))
      then ok (s, false)
      else (current s d >>= λ c. ok (start_announced s d.id, true))

unfoldable pub record_process : Document → Demand → Process → Result Document
record_process s d p = do
  saved ← current s d
  ok (record s { demands = modify d.id (λ m. record m { process = some p }) s.demands })

-- The commit of a backend's readiness; `observed` is the process of a media backend.
unfoldable pub commit_readiness : ℕ → Document → Demand → Option Process → Result Document
commit_readiness at s d observed = do
  saved ← current s d
  if not (active at saved)
      then ok s
      else commit_ready at
          (record s {
            demands =
                modify d.id
                  (λ m. record m {
                    ready_checked = true;
                    process = elim observed [ some p ↦ some p | none ↦ m.process ];
                  })
                  s.demands;
          })
          d

-- A backend that has not become ready by its deadline: the demand is released, for the reason given.
unfoldable pub fail_readiness : Document → Demand → Failure → Result Document
fail_readiness s d error = do
  saved ← current s d
  ok (record s {
    demands =
        modify d.id (λ m. record m { released = true; reason = some (Message.failure error) })
          s.demands;
  })

-- A ready demand whose media backend restarts prepares again.
unfoldable pub restart_preparation : ℕ → Document → Demand → Result Document
restart_preparation at s d = do
  saved ← current s d
  if saved.state == DemandState.ready && active at saved
      then ok (record s {
        demands =
            modify d.id
              (λ m. record m {
                state = DemandState.preparing;
                transition_deadline = add64 at d.profile.startup_seconds;
              })
              s.demands;
      })
      else ok s

-- The process that a ready media backend is observed to have.
unfoldable pub refresh_process : Document → Demand → Process → Result Document
refresh_process s d p = do
  saved ← current s d
  if saved.state == DemandState.ready
      then ok (record s { demands = modify d.id (λ m. record m { process = some p }) s.demands })
      else ok s
