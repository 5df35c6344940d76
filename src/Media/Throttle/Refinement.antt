-- ===== src/Media/Throttle/Refinement.antt =====
-- The throttle as an attempt to sign in sees it: a count of failures that is never cut off, and a wait
-- that doubles with each of them up to its bound.
use rack_ai.Common.{
  ℕ, suc, ◌+◌, ◌*◌, ◌-◌, min, Bool, true, false, some, List, ◌∷◌, [], ◌≡◌, refl, ◌∙◌, ap, ltb, leb,
  if◌then◌else◌, arith, inl, inr, Bool-cases,
}
use rack_ai.Media.Throttle.{
  LoginThrottle, initial_throttle, success, failure, next_failures, rounded_up, remaining,
  AttemptResult, answered, Begun, begin_attempt, end_attempt, Event, happen, after, nanos,
  forget_after_seconds,
}
use rack_ai.Media.Throttle.Doubling.{backoff, delay-backoff}

-- Failures one after the other: the earlier ones, and when the latest one was.
pub data Streak : Type 0 where
  broken : Streak
  streak : ℕ → ℕ → Streak

abbrev pub extended : ℕ → Streak → Streak
extended now Streak.broken = Streak.streak 0 now
extended now (Streak.streak n last) = Streak.streak (suc n) now

-- A streak ends five minutes after its latest failure.
abbrev pub recalled : ℕ → Streak → Streak
recalled now Streak.broken = Streak.broken
recalled now (Streak.streak n last) =
    if leb (forget_after_seconds * nanos) (now - last) then Streak.broken else Streak.streak n last

abbrev pub streak_wait : ℕ → Streak → ℕ
streak_wait now Streak.broken = 0
streak_wait now (Streak.streak n last) = rounded_up ((last + backoff n * nanos) - now)

abbrev pub ended : ℕ → AttemptResult → Streak → Streak
ended now AttemptResult.accepted s = Streak.broken
ended now AttemptResult.refused_input s = Streak.broken
ended now AttemptResult.invalid s = extended now s
ended now AttemptResult.unavailable s = s

-- A busy gate answers without a look at the throttle.
abbrev pub streak_happens : Event → Streak → Streak
streak_happens (Event.begins now true) s = s
streak_happens (Event.begins now false) s = recalled now s
streak_happens (Event.ends now result) s = ended now result s

abbrev pub streak_after : List Event → Streak
streak_after [] = Streak.broken
streak_after (e ∷ es) = streak_happens e (streak_after es)

abbrev pub streak_begins : ℕ → Bool → Streak → Begun
streak_begins now true s = Begun.throttled 1
streak_begins now false s =
    if ltb 0 (streak_wait now (recalled now s))
    then Begun.throttled (streak_wait now (recalled now s))
    else Begun.started

-- The throttle that stands for a streak.
abbrev pub throttle_of : Streak → LoginThrottle
throttle_of Streak.broken = initial_throttle
throttle_of (Streak.streak n last) = record {
  failures = min (n + 1) 6;
  retry_at = some (last + backoff n * nanos);
  last_failure = some last;
}

next_failures-streak : (n : ℕ) → next_failures (min (n + 1) 6) ≡ min (suc n + 1) 6
next_failures-streak n = omega arith

success-throttle_of : (t : LoginThrottle) → success t ≡ initial_throttle
unfolding success
success-throttle_of t = refl

failure-throttle_of :
    (now : ℕ) (s : Streak) → failure now (throttle_of s) ≡ throttle_of (extended now s)
unfolding failure
failure-throttle_of now Streak.broken = refl
failure-throttle_of now (Streak.streak n last) =
    rw (next_failures-streak n, delay-backoff (suc n)) refl

remaining-throttle_of :
    (now : ℕ) (s : Streak)
    → remaining now (throttle_of s)
      ≡ (streak_wait now (recalled now s), throttle_of (recalled now s))
unfolding remaining success
remaining-throttle_of now Streak.broken = refl
remaining-throttle_of now (Streak.streak n last) =
    elim (Bool-cases (leb (forget_after_seconds * nanos) (now - last))) [
      | inl e ↦ rw e refl
      | inr e ↦ rw e refl
    ]

answered-state : (wait : ℕ) (t : LoginThrottle) → (answered (wait, t)).1 ≡ t
answered-state wait t = elim (Bool-cases (ltb 0 wait)) [ inl e ↦ rw e refl | inr e ↦ rw e refl ]

answered-answer :
    (wait : ℕ) (t : LoginThrottle)
    → (answered (wait, t)).0 ≡ (if ltb 0 wait then Begun.throttled wait else Begun.started)
answered-answer wait t = elim (Bool-cases (ltb 0 wait)) [ inl e ↦ rw e refl | inr e ↦ rw e refl ]

happen-throttle_of :
    (e : Event) (s : Streak) → happen e (throttle_of s) ≡ throttle_of (streak_happens e s)
unfolding happen begin_attempt end_attempt
happen-throttle_of (Event.begins now true) s = refl
happen-throttle_of (Event.begins now false) s =
    ap (λ r. (answered r).1) (remaining-throttle_of now s)
    ∙ answered-state (streak_wait now (recalled now s)) (throttle_of (recalled now s))
happen-throttle_of (Event.ends now AttemptResult.accepted) s = success-throttle_of (throttle_of s)
happen-throttle_of (Event.ends now AttemptResult.refused_input) s =
    success-throttle_of (throttle_of s)
happen-throttle_of (Event.ends now AttemptResult.invalid) s = failure-throttle_of now s
happen-throttle_of (Event.ends now AttemptResult.unavailable) s = refl

after-throttle_of : (es : List Event) → after es ≡ throttle_of (streak_after es)
unfolding after
after-throttle_of [] = refl
after-throttle_of (e ∷ es) =
    ap (happen e) (after-throttle_of es) ∙ happen-throttle_of e (streak_after es)

-- Whatever attempts began and ended before, the answer to the next one is that of the streak of
-- failures: a wait that doubles with each failure up to thirty seconds, and that is forgotten five
-- minutes after the latest one, although the throttle counts no further than six.
pub begin_attempt-streak :
    (es : List Event) (now : ℕ) (is_busy : Bool)
    → (begin_attempt now is_busy (after es)).0 ≡ streak_begins now is_busy (streak_after es)
unfolding begin_attempt
begin_attempt-streak es now true = refl
begin_attempt-streak es now false =
    ap (λ t. (answered (remaining now t)).0) (after-throttle_of es)
    ∙ ap (λ r. (answered r).0) (remaining-throttle_of now (streak_after es))
    ∙ answered-answer (streak_wait now (recalled now (streak_after es)))
        (throttle_of (recalled now (streak_after es)))
