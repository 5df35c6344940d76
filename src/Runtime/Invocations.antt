-- ===== src/Runtime/Invocations.antt =====
-- What one call does when it is cancelled: the methods of `Invocation` in
-- crates/rack_ai_runtime/src/types.rs.
use rack_ai.Common.{ℕ, Bool, true, false, some, if◌then◌else◌, ◌==◌, nat_eq, get_or_insert}
use rack_ai.Runtime.Types.{Invocation}
use rack_ai.Runtime.Types.Enums.{InvocationState, invocation_state_eq}
use rack_ai.Runtime.Types.Messages.{Message}

unfoldable pub is_open : InvocationState → Bool
is_open InvocationState.queued = true
is_open InvocationState.running = true
is_open InvocationState.uncertain = true
is_open _ = false

-- The intention is recorded once; only a queued call ends at once.
unfoldable pub cancel : ℕ → Invocation → Invocation
unfolding is_open
cancel at i =
    if is_open i.state
    then (if i.state == InvocationState.queued
        then record i {
          cancellation = get_or_insert i.cancellation at;
          state = InvocationState.cancelled;
          completed = get_or_insert i.completed at;
        }
        else record i { cancellation = get_or_insert i.cancellation at })
    else i

unfoldable pub cancel_queued_as_superseded : ℕ → Invocation → Invocation
cancel_queued_as_superseded at i =
    if i.state == InvocationState.queued
    then record i {
      state = InvocationState.cancelled;
      completed = get_or_insert i.completed at;
      error = some Message.reservation_superseded;
    }
    else i
