-- ===== src/Media/Throttle.antt =====
-- The wait between attempts to sign in: crates/rack_ai_media/src/login_throttle.rs, and its use in
-- browser_attempt.rs. A time is a number of nanoseconds on the monotonic clock.
pub mod Doubling
pub mod Refinement
pub mod Waiting
use rack_ai.Common.{
  ℕ, ◌+◌, ◌*◌, ◌-◌, ◌/◌, ◌%◌, ◌^◌, min, Bool, true, false, Option, some, none, List, ◌∷◌, [], ltb,
  leb, is_some_and, if◌then◌else◌, unwrap_or,
}
use mathlib.Core.Option

abbrev pub max_backoff_seconds : ℕ
max_backoff_seconds = 30

abbrev pub forget_after_seconds : ℕ
forget_after_seconds = 300

abbrev pub nanos : ℕ
nanos = 1000000000

abbrev pub u32_max : ℕ
u32_max = 4294967295

pub record LoginThrottle : Type 0 where
  pub failures : ℕ
  pub retry_at : Option ℕ
  pub last_failure : Option ℕ

abbrev pub initial_throttle : LoginThrottle
initial_throttle = record { failures = 0; retry_at = none; last_failure = none }

unfoldable pub success : LoginThrottle → LoginThrottle
success t = record t { failures = 0; retry_at = none; last_failure = none }

abbrev pub next_failures : ℕ → ℕ
next_failures n = min (min (n + 1) u32_max) 6

abbrev pub delay_seconds : ℕ → ℕ
delay_seconds failures = min (2 ^ (failures - 1)) max_backoff_seconds

unfoldable pub failure : ℕ → LoginThrottle → LoginThrottle
failure now t = record t {
  failures = next_failures t.failures;
  retry_at = some (now + delay_seconds (next_failures t.failures) * nanos);
  last_failure = some now;
}

-- The seconds of a duration, rounded up.
abbrev pub rounded_up : ℕ → ℕ
rounded_up d = d / nanos + (if ltb 0 (d % nanos) then 1 else 0)

abbrev pub is_forgotten : ℕ → LoginThrottle → Bool
is_forgotten now t =
    is_some_and t.last_failure (λ last. leb (forget_after_seconds * nanos) (now - last))

abbrev pub wait_of : ℕ → Option ℕ → ℕ
wait_of now none = 0
wait_of now (some at) = rounded_up (at - now)

unfoldable pub remaining : ℕ → LoginThrottle → ℕ × LoginThrottle
unfolding success
remaining now t =
    let t' = if is_forgotten now t then success t else t in (wait_of now t'.retry_at, t')

-- How an attempt to sign in ends.
pub data AttemptResult : Type 0 where
  accepted : AttemptResult
  refused_input : AttemptResult
  invalid : AttemptResult
  unavailable : AttemptResult

pub data Begun : Type 0 where
  throttled : ℕ → Begun
  started : Begun

abbrev pub answered : ℕ × LoginThrottle → Begun × LoginThrottle
answered (wait, t) = if ltb 0 wait then (Begun.throttled wait, t) else (Begun.started, t)

-- The part of `run` before the action, where `is_busy` says that another attempt has the gate.
unfoldable pub begin_attempt : ℕ → Bool → LoginThrottle → Begun × LoginThrottle
begin_attempt now is_busy t = if is_busy then (Begun.throttled 1, t) else answered (remaining now t)

-- The part of `run` after the action.
unfoldable pub end_attempt : ℕ → AttemptResult → LoginThrottle → LoginThrottle
unfolding success failure
end_attempt now AttemptResult.accepted t = success t
end_attempt now AttemptResult.refused_input t = success t
end_attempt now AttemptResult.invalid t = failure now t
end_attempt now AttemptResult.unavailable t = t

-- What happens to the throttle, in the order of the lock: the attempts that begin and those that end.
pub data Event : Type 0 where
  begins : ℕ → Bool → Event
  ends : ℕ → AttemptResult → Event

unfoldable pub happen : Event → LoginThrottle → LoginThrottle
unfolding begin_attempt end_attempt
happen (Event.begins now is_busy) t = (begin_attempt now is_busy t).1
happen (Event.ends now result) t = end_attempt now result t

-- The events, the latest first.
unfoldable pub after : List Event → LoginThrottle
unfolding happen
after [] = initial_throttle
after (e ∷ es) = happen e (after es)
