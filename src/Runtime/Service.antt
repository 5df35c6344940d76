-- ===== src/Runtime/Service.antt =====
-- The questions that every operation asks of the document: crates/rack_ai_runtime/src/service.rs
-- and reservation.rs, with `is_workspace` of work_payload.rs. `at` is the time in seconds.
pub mod Holding
pub mod Recovery
use rack_ai.Common.{
  ℕ, Bool, true, false, not, ◌&&◌, Option, some, none, ltb, ◌==◌, if◌then◌else◌, all, any, is_none,
  is_some_and, ok, err, nat_eq, option_eq,
}
use rack_ai.Common.Map.{lookup, values, update_all}
use rack_ai.Runtime.Types.{Document, Demand, Invocation, Result, Work, WorkPayload}
use rack_ai.Runtime.Types.Enums.{DemandState, InvocationState, demand_state_eq, invocation_state_eq}
use rack_ai.Runtime.Types.Messages.{Failure, not_found, Message}

unfoldable pub is_workspace_payload : Option Work → Bool
is_workspace_payload none = false
is_workspace_payload (some w) = elim w.payload [
  | WorkPayload.inference_payload p m t ↦ false
  | WorkPayload.workspace_payload w ↦ true
]

unfoldable pub is_workspace : Invocation → Bool
unfolding is_workspace_payload
is_workspace i = is_workspace_payload i.request.work

-- The demand of that identifier, for its owner only.
unfoldable pub owned : Document → ℕ → ℕ → Result Demand
owned s owner id = elim (lookup id s.demands) [
  | none ↦ err not_found
  | some d ↦ if d.owner == owner then ok d else err not_found
]

unfoldable pub active : ℕ → Demand → Bool
active at d = not d.released && ltb at d.deadline

-- Every resource of the profile is claimed for this demand.
unfoldable pub owns : Document → Demand → Bool
owns s d = all (λ r. lookup r s.claims == some d.id) d.profile.resources

unfoldable pub is_running_or_uncertain : InvocationState → Bool
is_running_or_uncertain InvocationState.running = true
is_running_or_uncertain InvocationState.uncertain = true
is_running_or_uncertain _ = false

-- A call, other than a workspace, whose outcome is not known yet.
unfoldable pub inflight : Document → ℕ → Bool
unfolding is_workspace is_running_or_uncertain
inflight s id =
    any
      (λ i.
        i.request.reservation_id == id && not (is_workspace i) && is_running_or_uncertain i.state)
      (values s.invocations)

-- `recover` on start: calls that were running have an unknown outcome, and a start of which no
-- process is recorded wants a reconciliation.
unfoldable pub recover_invocation : Invocation → Invocation
recover_invocation i =
    if i.state == InvocationState.running
    then record i { state = InvocationState.uncertain; error = some Message.receiver_restart }
    else i

unfoldable pub recover_demand : Demand → Demand
recover_demand d =
    if d.effect_started && (is_none d.process && not (d.state == DemandState.recovery_required))
    then record d { state = DemandState.recovery_required; reason = some Message.interrupted_start }
    else d

unfoldable pub recover : ℕ → ℕ → Document → Result Document
unfolding recover_invocation recover_demand
recover placement port s =
    if is_some_and s.placement_hash (λ hash. not (hash == placement))
    then err Failure.physical_map_requires_migration
    else ok (record s {
      placement_hash = some placement;
      gateway_port = some port;
      invocations = update_all recover_invocation s.invocations;
      demands = update_all recover_demand s.demands;
    })
