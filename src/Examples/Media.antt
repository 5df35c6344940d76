-- ===== src/Examples/Media.antt =====
-- Attempts to sign in to the media gateway, and a change of its password.
use rack_ai.Common.{
  ◌*◌, ◌≤◌, true, false, some, none, List, ◌∷◌, [], ◌≡◌, refl, ◌⊎◌, ok, arith, length,
}
use rack_ai.Media.Throttle.{
  Event, AttemptResult, Begun, begin_attempt, after, nanos, max_backoff_seconds,
}
use rack_ai.Media.Throttle.Refinement.{streak_begins, streak_after, begin_attempt-streak}
use rack_ai.Media.Throttle.Waiting.{begin_attempt-waits, begin_attempt-starts}
use rack_ai.Media.Access.{
  Principal, HumanRecord, BrowserSession, World, AccessContext, PasswordChange, Password, principal,
  change, login, browser_sessions_limit,
}
use rack_ai.Media.Access.Revocation.{change-revokes, login-bounded}

-- Eight passwords that are not accepted, one after each wait.
abbrev eight_failures : List Event
eight_failures =
    Event.ends (200 * nanos) AttemptResult.invalid
    ∷ Event.ends (150 * nanos) AttemptResult.invalid
    ∷ Event.ends (100 * nanos) AttemptResult.invalid
    ∷ Event.ends (60 * nanos) AttemptResult.invalid
    ∷ Event.ends (40 * nanos) AttemptResult.invalid
    ∷ Event.ends (30 * nanos) AttemptResult.invalid
    ∷ Event.ends (20 * nanos) AttemptResult.invalid
    ∷ Event.begins (11 * nanos) false
    ∷ Event.ends (10 * nanos) AttemptResult.invalid
    ∷ []

eight_wait : (begin_attempt (210 * nanos) false (after eight_failures)).0 ≡ Begun.throttled 20
unfolding begin_attempt after rack_ai.Media.Throttle.remaining
eight_wait = refl

begin_attempt-streak_example :
    (begin_attempt (210 * nanos) false (after eight_failures)).0
    ≡ streak_begins (210 * nanos) false (streak_after eight_failures)
begin_attempt-streak_example = begin_attempt-streak eight_failures (210 * nanos) false

begin_attempt-waits_example : 20 ≤ max_backoff_seconds
begin_attempt-waits_example =
    begin_attempt-waits eight_failures (210 * nanos) false 20
      (
        omega arith,
        (
          omega arith,
          (
            omega arith,
            (
              omega arith,
              (omega arith, (omega arith, (omega arith, (omega arith, (omega arith, tt))))),
            ),
          ),
        ),
      )
      eight_wait

begin_attempt-starts_example :
    (begin_attempt (230 * nanos) false (after eight_failures)).0 ≡ Begun.started
begin_attempt-starts_example = begin_attempt-starts eight_failures (230 * nanos) (
  omega arith,
  (
    omega arith,
    (
      omega arith,
      (omega arith, (omega arith, (omega arith, (omega arith, (omega arith, (omega arith, tt)))))),
    ),
  ),
)

abbrev operator : Principal
operator = record { id = 1; token_sha256 = 4; operator = true }

abbrev access_context : AccessContext
access_context = record {
  at = 100;
  principals = operator ∷ [];
  token_digest = λ p. length p;
  matches = λ p encoded. ok true;
  hash = λ p. ok 7;
  generation = 2;
  token = 12;
  writes_record = true;
  writes_sessions = true;
}

abbrev signed_in : World
signed_in = record {
  record_of = record { generation = 1; owner = some 1; password_hash = some 6 };
  browsers = record { auth_generation = 1; digest = 11; owner = 1; expires = 500 } ∷ [];
}

-- Thirteen characters.
abbrev passphrase : Password
passphrase = 97 ∷ 98 ∷ 99 ∷ 100 ∷ 101 ∷ 102 ∷ 103 ∷ 104 ∷ 105 ∷ 106 ∷ 107 ∷ 108 ∷ 109 ∷ []

abbrev new_password : PasswordChange
new_password = record {
  current_password = 120 ∷ [];
  new_password = passphrase;
  confirm_password = passphrase;
}

change_succeeds : (change access_context new_password 11 signed_in).0 ≡ ok 12
unfolding change rack_ai.Media.Access.byte_length
change_succeeds = refl

old_cookie : principal 101 (operator ∷ []) signed_in 11 ≡ some operator
unfolding principal
old_cookie = refl

change-revokes_example :
    ((change access_context new_password 11 signed_in).1 ≡ signed_in)
    ⊎ (principal 101 (operator ∷ []) (change access_context new_password 11 signed_in).1 11 ≡ none)
change-revokes_example =
    change-revokes access_context new_password 11 signed_in 101 11 (operator ∷ []) (refl, tt) refl

login-bounded_example :
    (length ((login access_context passphrase signed_in).1).browsers ≤ browser_sessions_limit)
    × (length ((change access_context new_password 11 signed_in).1).browsers
        ≤ browser_sessions_limit)
login-bounded_example =
    login-bounded access_context passphrase new_password 11 signed_in (omega arith)
