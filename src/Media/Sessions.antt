-- ===== src/Media/Sessions.antt =====
-- The sessions of operators with the backend: `SessionAdmission` of
-- crates/rack_ai_media/src/admission.rs. Texts are numbers, but for the length of the key.
pub mod Single
use rack_ai.Common.{
  ℕ, Bool, true, false, not, ◌&&◌, ◌||◌, Option, some, none, List, ◌∷◌, [], ◌++◌, ltb, leb, ◌==◌,
  nat_eq, if◌then◌else◌, find, length, Outcome, ok, err, ◌>>=◌, ◌>>◌, refuse_if,
}
use rack_ai.Media.Access.{Principal}

pub record SessionRequest : Type 0 where
  pub schema : ℕ
  pub idempotency_key : ℕ

pub record Session : Type 0 where
  pub id : ℕ
  pub owner : ℕ
  pub request : SessionRequest
  pub created_at : ℕ
  pub release_requested : Bool
  pub stopped : Bool
  pub terminal_reason : Option ℕ

pub data AdmissionError : Type 0 where
  forbidden : AdmissionError
  validation : AdmissionError
  conflict : AdmissionError
  retention_full : AdmissionError

-- The clock, the version of the interface, the length of a text, and the identity that is drawn.
pub record SessionContext : Type 0 where
  pub at : ℕ
  pub version : ℕ
  pub text_length : ℕ → ℕ
  pub identity : ℕ

abbrev pub retained_records : ℕ
retained_records = 2048

abbrev pub max_key_length : ℕ
max_key_length = 128

unfoldable pub request_beq : SessionRequest → SessionRequest → Bool
request_beq a b = a.schema == b.schema && a.idempotency_key == b.idempotency_key

unfoldable pub is_valid_request : SessionContext → SessionRequest → Bool
is_valid_request k request =
    request.schema == k.version
    && (not (k.text_length request.idempotency_key == 0)
        && leb (k.text_length request.idempotency_key) max_key_length)

-- The session of the same owner under the same key.
unfoldable pub known_session : ℕ → SessionRequest → List Session → Option Session
known_session owner request =
    find (λ s. s.owner == owner && (s.request).idempotency_key == request.idempotency_key)

abbrev pub is_open : ℕ → Session → Bool
is_open owner s = s.owner == owner && not s.stopped

unfoldable pub open_session : ℕ → List Session → Option Session
open_session owner = find (is_open owner)

abbrev pub new_session : SessionContext → ℕ → SessionRequest → Session
new_session k owner request = record {
  id = k.identity;
  owner = owner;
  request = request;
  created_at = k.at;
  release_requested = false;
  stopped = false;
  terminal_reason = none;
}

unfoldable pub admit_new :
    SessionContext
    → ℕ
    → SessionRequest
    → List Session
    → Outcome AdmissionError (List Session × Session)
unfolding open_session
admit_new k owner request sessions = elim (open_session owner sessions) [
  | some s ↦ ok (sessions, s)
  | none ↦
      if leb retained_records (length sessions)
      then err AdmissionError.retention_full
      else ok (sessions ++ (new_session k owner request ∷ []), new_session k owner request)
]

-- The update of the store.
unfoldable pub admit_session :
    SessionContext
    → ℕ
    → SessionRequest
    → List Session
    → Outcome AdmissionError (List Session × Session)
unfolding known_session request_beq admit_new
admit_session k owner request sessions = elim (known_session owner request sessions) [
  | some s ↦ if request_beq s.request request then ok (sessions, s) else err AdmissionError.conflict
  | none ↦ admit_new k owner request sessions
]

unfoldable pub session :
    SessionContext
    → Principal
    → SessionRequest
    → List Session
    → Outcome AdmissionError (List Session × Session)
unfolding is_valid_request admit_session
session k p request sessions = do
  refuse_if (not p.operator) AdmissionError.forbidden
  refuse_if (not (is_valid_request k request)) AdmissionError.validation
  admit_session k p.id request sessions
