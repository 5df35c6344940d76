-- ===== src/Examples/Sessions.antt =====
-- A session with the media backend.
use rack_ai.Common.{◌∷◌, ◌++◌, [], ◌≡◌, refl, ok, true, false, arith, List, none}
use rack_ai.Media.Access.{Principal}
use rack_ai.Media.Sessions.{Session, SessionContext, SessionRequest, session, new_session}
use rack_ai.Media.Sessions.Single.{Single, session-Single, session-again}

abbrev operator : Principal
operator = record { id = 1; token_sha256 = 4; operator = true }

abbrev session_context : SessionContext
session_context = record { at = 100; version = 1; text_length = λ t. 8; identity = 9 }

abbrev session_request : SessionRequest
session_request = record { schema = 1; idempotency_key = 5 }

-- A session of the same owner that has stopped.
abbrev stopped_session : Session
stopped_session = record {
  id = 8;
  owner = 1;
  request = record { schema = 1; idempotency_key = 4 };
  created_at = 50;
  release_requested = true;
  stopped = true;
  terminal_reason = none;
}

abbrev granted : List Session × Session
granted = (
  stopped_session ∷ new_session session_context 1 session_request ∷ [],
  new_session session_context 1 session_request,
)

session_succeeds :
    session session_context operator session_request (stopped_session ∷ []) ≡ ok granted
unfolding session
session_succeeds = refl

one_stopped : Single (stopped_session ∷ [])
one_stopped owner = ground arith

session-Single_example : Single granted.0
session-Single_example =
    session-Single session_context operator session_request (stopped_session ∷ []) session_succeeds
      one_stopped

-- A session of another owner.
abbrev other_session : Session
other_session = record stopped_session { id = 7; owner = 2; stopped = false }

session-again_example :
    session
      (record session_context { at = 200; identity = 10 })
      operator
      session_request
      (granted.0 ++ (other_session ∷ []))
    ≡ ok (granted.0 ++ (other_session ∷ []), granted.1)
session-again_example =
    session-again session_context 200 10 operator session_request (stopped_session ∷ [])
      (other_session ∷ []) session_succeeds refl
