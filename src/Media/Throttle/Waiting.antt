-- ===== src/Media/Throttle/Waiting.antt =====
-- How long the throttle makes an attempt wait.
use rack_ai.Common.{
  ℕ, ◌+◌, ◌*◌, ◌-◌, ◌%◌, ◌≤◌, Bool, true, false, List, ◌∷◌, [], ◌≡◌, refl, sym, ◌∙◌, subst, ltb,
  leb, if◌then◌else◌, arith, inl, inr, Bool-cases, All,
}
use rack_ai.Media.Throttle.{
  rounded_up, AttemptResult, Begun, begin_attempt, Event, after, nanos, forget_after_seconds,
  max_backoff_seconds,
}
use rack_ai.Media.Throttle.Doubling.{backoff, backoff_bounded}
use rack_ai.Media.Throttle.Refinement.{
  Streak, extended, recalled, streak_wait, streak_happens, streak_after, streak_begins,
  begin_attempt-streak,
}

abbrev pub time_of : Event → ℕ
time_of (Event.begins now is_busy) = now
time_of (Event.ends now result) = now

-- The time of the latest failure has the property.
abbrev Latest : (ℕ → Type 0) → Streak → Type 0
Latest P Streak.broken = Unit
Latest P (Streak.streak n last) = P last

recalled-Latest : (P : ℕ → Type 0) (t : ℕ) (s : Streak) → Latest P s → Latest P (recalled t s)
recalled-Latest P t Streak.broken h = tt
recalled-Latest P t (Streak.streak n last) h =
    elim (Bool-cases (leb (forget_after_seconds * nanos) (t - last))) [
      | inl e ↦ rw e tt
      | inr e ↦ rw e h
    ]

extended-Latest : (P : ℕ → Type 0) (t : ℕ) (s : Streak) → P t → Latest P (extended t s)
extended-Latest P t Streak.broken h = h
extended-Latest P t (Streak.streak n last) h = h

streak_happens-Latest :
    (P : ℕ → Type 0) (e : Event) (s : Streak)
    → P (time_of e)
    → Latest P s
    → Latest P (streak_happens e s)
streak_happens-Latest P (Event.begins t true) s e h = h
streak_happens-Latest P (Event.begins t false) s e h = recalled-Latest P t s h
streak_happens-Latest P (Event.ends t AttemptResult.accepted) s e h = tt
streak_happens-Latest P (Event.ends t AttemptResult.refused_input) s e h = tt
streak_happens-Latest P (Event.ends t AttemptResult.invalid) s e h = extended-Latest P t s e
streak_happens-Latest P (Event.ends t AttemptResult.unavailable) s e h = h

streak_after-Latest :
    (P : ℕ → Type 0) (es : List Event) → All (λ e. P (time_of e)) es → Latest P (streak_after es)
streak_after-Latest P [] h = tt
streak_after-Latest P (e ∷ es) h =
    streak_happens-Latest P e (streak_after es) h.0 (streak_after-Latest P es h.1)

rounded_up_bounded : (d n : ℕ) → d ≤ n * nanos → rounded_up d ≤ n
rounded_up_bounded d n h = elim (Bool-cases (ltb 0 (d % nanos))) [
  | inl e ↦ ground arith
  | inr e ↦ ground arith
]

streak_wait_bounded : (now : ℕ) (s : Streak) → Latest (λ t. t ≤ now) s → streak_wait now s ≤ 30
streak_wait_bounded now Streak.broken h = omega arith
streak_wait_bounded now (Streak.streak n last) h =
    let b = backoff_bounded n in
    rounded_up_bounded (last + backoff n * nanos - now) 30 (omega arith)

streak_wait_over :
    (now : ℕ) (s : Streak)
    → Latest (λ t. t + max_backoff_seconds * nanos ≤ now) s
    → streak_wait now s ≤ 0
streak_wait_over now Streak.broken h = omega arith
streak_wait_over now (Streak.streak n last) h =
    let b = backoff_bounded n in rounded_up_bounded (last + backoff n * nanos - now) 0 (omega arith)

-- The wait that an answer names, or else zero.
abbrev told : Begun → ℕ
told (Begun.throttled wait) = wait
told Begun.started = 0

told_bounded : (w : ℕ) → told (if ltb 0 w then Begun.throttled w else Begun.started) ≤ w
told_bounded w = elim (Bool-cases (ltb 0 w)) [
  | inl e ↦ rw e (omega arith)
  | inr e ↦ rw e (omega arith)
]

streak_begins_bounded :
    (now : ℕ) (is_busy : Bool) (s : Streak)
    → Latest (λ t. t ≤ now) s
    → told (streak_begins now is_busy s) ≤ 30
streak_begins_bounded now true s h = omega arith
streak_begins_bounded now false s h =
    let w = streak_wait_bounded now (recalled now s) (recalled-Latest (λ t. t ≤ now) now s h) in
    let q = told_bounded (streak_wait now (recalled now s)) in omega arith

-- As long as the clock does not run backwards, no attempt is told to wait for more than thirty seconds.
pub begin_attempt-waits :
    (es : List Event) (now : ℕ) (is_busy : Bool) (wait : ℕ)
    → All (λ e. time_of e ≤ now) es
    → (begin_attempt now is_busy (after es)).0 ≡ Begun.throttled wait
    → wait ≤ max_backoff_seconds
begin_attempt-waits es now is_busy wait past h =
    subst (λ b. told b ≤ 30) (sym (begin_attempt-streak es now is_busy) ∙ h)
      (streak_begins_bounded now is_busy (streak_after es)
        (streak_after-Latest (λ t. t ≤ now) es past))

-- Thirty seconds after all that happened before, a free gate lets an attempt start, however many have
-- failed.
pub begin_attempt-starts :
    (es : List Event) (now : ℕ)
    → All (λ e. time_of e + max_backoff_seconds * nanos ≤ now) es
    → (begin_attempt now false (after es)).0 ≡ Begun.started
begin_attempt-starts es now past =
    let P : ℕ → Type 0 = λ t. t + max_backoff_seconds * nanos ≤ now in
    let s = streak_after es in
    let w =
      streak_wait_over now (recalled now s)
        (recalled-Latest P now s (streak_after-Latest P es past)) in
    let none_left : ltb 0 (streak_wait now (recalled now s)) ≡ false = ground arith in
    begin_attempt-streak es now false ∙ rw none_left refl
