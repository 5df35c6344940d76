-- ===== src/Media/Access.antt =====
-- Signing in by a browser, and the change of its password: browser_sessions.rs, browser_access.rs,
-- `token_principal` of auth.rs and the checks of password_kdf.rs, in crates/rack_ai_media/src. A
-- password is a list of characters; digests and the password hash of argon2 are arguments.
pub mod Revocation
use rack_ai.Common.{
  ℕ, ◌+◌, ◌*◌, Bool, true, false, not, ◌&&◌, Option, some, none, List, ◌∷◌, [], ◌++◌, ltb, leb,
  ◌==◌, nat_eq, option_eq, if◌then◌else◌, is_none_or, is_some_and, find, keep, length, Outcome, ok,
  err, ok_or, ◌>>=◌, ◌>>◌, refuse_if, list_eq,
}
use mathlib.Core.Option

pub record Principal : Type 0 where
  pub id : ℕ
  pub token_sha256 : ℕ
  pub operator : Bool

pub record HumanRecord : Type 0 where
  pub generation : ℕ
  pub owner : Option ℕ
  pub password_hash : Option ℕ

pub record BrowserSession : Type 0 where
  pub auth_generation : ℕ
  pub digest : ℕ
  pub owner : ℕ
  pub expires : ℕ

pub data BrowserError : Type 0 where
  invalid : BrowserError
  input : BrowserError
  unavailable : BrowserError

abbrev pub Password : Type 0
Password = List ℕ

-- The stored record of the password, and the sessions.
pub record World : Type 0 where
  pub record_of : HumanRecord
  pub browsers : List BrowserSession

-- The clock, the principals of the configuration, the digest of a token, the verification and the
-- hash of argon2, the identities that are drawn, and whether the two stores take what is written.
pub record AccessContext : Type 0 where
  pub at : ℕ
  pub principals : List Principal
  pub token_digest : Password → ℕ
  pub matches : Password → ℕ → Outcome BrowserError Bool
  pub hash : Password → Outcome BrowserError ℕ
  pub generation : ℕ
  pub token : ℕ
  pub writes_record : Bool
  pub writes_sessions : Bool

abbrev pub browser_sessions_limit : ℕ
browser_sessions_limit = 64

abbrev pub cookie_seconds : ℕ
cookie_seconds = 2592000

abbrev pub min_password_characters : ℕ
min_password_characters = 12

abbrev pub max_password_bytes : ℕ
max_password_bytes = 1024

-- The bytes of a character in UTF-8.
abbrev pub utf8_width : ℕ → ℕ
utf8_width c = if ltb c 128 then 1 else if ltb c 2048 then 2 else if ltb c 65536 then 3 else 4

unfoldable pub byte_length : Password → ℕ
byte_length [] = 0
byte_length (c ∷ cs) = utf8_width c + byte_length cs

-- A session that is not expired and belongs to the generation of the record.
abbrev pub in_force : ℕ → HumanRecord → BrowserSession → Bool
in_force at r b = ltb at b.expires && b.auth_generation == r.generation

unfoldable pub session_of : ℕ → World → ℕ → Option BrowserSession
session_of at w hash = find (λ b. in_force at w.record_of b && b.digest == hash) w.browsers

abbrev pub owns_session : HumanRecord → BrowserSession → Principal → Bool
owns_session r session p =
    p.id == session.owner && (p.operator && is_none_or r.owner (λ owner. owner == p.id))

-- `principal` of browser_sessions.rs, where none is the error "unauthorized".
unfoldable pub principal : ℕ → List Principal → World → ℕ → Option Principal
unfolding session_of
principal at principals w hash = elim (session_of at w hash) [
  | none ↦ none
  | some session ↦ find (owns_session w.record_of session) principals
]

-- The update of `issue`: its sessions, or the refusal of one too many.
unfoldable pub issued :
    ℕ → ℕ → ℕ → HumanRecord → Bool → List BrowserSession → Option (List BrowserSession)
issued at token owner r revoke_others browsers =
    let kept = keep (in_force at r) (if revoke_others then [] else browsers) in
    if leb browser_sessions_limit (length kept)
    then none
    else some (
        kept
        ++ (record {
          auth_generation = r.generation;
          digest = token;
          owner = owner;
          expires = at + cookie_seconds;
        }
            ∷ []))

-- `issue`, whose answer is the digest of the new token; a store that fails keeps the sessions as they were.
unfoldable pub issue : AccessContext → ℕ → Bool → World → Outcome BrowserError ℕ × World
unfolding issued
issue k owner revoke_others w =
    elim (issued k.at k.token owner w.record_of revoke_others w.browsers) [
      | none ↦ (err BrowserError.unavailable, w)
      | some browsers ↦
          if k.writes_sessions
          then (ok k.token, record w { browsers = browsers })
          else (err BrowserError.unavailable, w)
    ]

unfoldable pub token_principal : AccessContext → Password → Option Principal
token_principal k password = find (λ p. p.token_sha256 == k.token_digest password) k.principals

-- `verify` of password_kdf.rs, around that of argon2. The stored hash is checked when it is read.
unfoldable pub password_matches : AccessContext → Password → ℕ → Outcome BrowserError Bool
password_matches k password encoded =
    if ltb max_password_bytes (byte_length password) then ok false else k.matches password encoded

unfoldable pub verify : AccessContext → HumanRecord → Password → Outcome BrowserError Principal
unfolding password_matches token_principal
verify k r password = elim (r.password_hash) [
  | some encoded ↦ do
    is_right ← password_matches k password encoded
    refuse_if (not is_right) BrowserError.invalid
    ok_or (find (λ p. p.operator && some p.id == r.owner) k.principals) BrowserError.unavailable
  | none ↦ elim (token_principal k password) [
    | some p ↦ if p.operator then ok p else err BrowserError.invalid
    | none ↦ err BrowserError.invalid
  ]
]

unfoldable pub login : AccessContext → Password → World → Outcome BrowserError ℕ × World
unfolding verify issue
login k password w = elim (verify k w.record_of password) [
  | ok p ↦ issue k p.id false w
  | err e ↦ (err e, w)
]

unfoldable pub validate_new : Password → Bool
validate_new password =
    leb min_password_characters (length password) && leb (byte_length password) max_password_bytes

pub record PasswordChange : Type 0 where
  pub current_password : Password
  pub new_password : Password
  pub confirm_password : Password

-- The checks of `change`, and the record that replaces the stored one.
unfoldable pub next_record :
    AccessContext → PasswordChange → ℕ → World → Outcome BrowserError (Principal × HumanRecord)
unfolding session_of verify token_principal validate_new
next_record k form session_digest w = do
  session ← ok_or (session_of k.at w session_digest) BrowserError.invalid
  p ← verify k w.record_of form.current_password
  refuse_if (not (p.id == session.owner)) BrowserError.invalid
  refuse_if (not (form.new_password == form.confirm_password)) BrowserError.input
  refuse_if (is_some_and (token_principal k form.new_password) (λ q. true)) BrowserError.input
  refuse_if (not (validate_new form.new_password)) BrowserError.input
  hashed ← k.hash form.new_password
  ok (p, record { generation = k.generation; owner = some p.id; password_hash = some hashed })

-- The record is written before the sessions are.
unfoldable pub change : AccessContext → PasswordChange → ℕ → World → Outcome BrowserError ℕ × World
unfolding next_record issue
change k form session_digest w = elim (next_record k form session_digest w) [
  | err e ↦ (err e, w)
  | ok (p, next) ↦
      if k.writes_record
      then issue k p.id true (record w { record_of = next })
      else (err BrowserError.unavailable, w)
]
