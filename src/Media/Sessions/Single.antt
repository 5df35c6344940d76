-- ===== src/Media/Sessions/Single.antt =====
-- An owner has one open session at most, and a request may be sent again.
use rack_ai.Common.{
  ℕ, ◌+◌, ◌≤◌, Bool, true, false, ◌&&◌, not, some, none, List, ◌∷◌, [], ◌++◌, ◌≡◌, refl, subst, ap,
  ◌==◌, nat_eq, leb, find, keep, length, ok, refuse_if, arith, inl, inr, Bool-cases, Option-cases,
  if◌then◌else◌, branch, >>=-eq-ok, ok-injective,
}
use rack_ai.Media.Access.{Principal}
use rack_ai.Media.Sessions.{
  Session, SessionRequest, SessionContext, AdmissionError, is_open, open_session, known_session,
  new_session, request_beq, admit_new, admit_session, session, is_valid_request, retained_records,
}

-- No owner has more than one session that has not stopped.
abbrev pub Single : List Session → Type 0
Single sessions = (owner : ℕ) → length (keep (is_open owner) sessions) ≤ 1

keep-snoc_bounded :
    (p : Session → Bool) (xs : List Session) (x : Session)
    → length (keep p (xs ++ (x ∷ []))) ≤ length (keep p xs) + (if p x then 1 else 0)
keep-snoc_bounded p [] x = elim (Bool-cases (p x)) [
  | inl e ↦ rw e (omega arith)
  | inr e ↦ rw e (omega arith)
]
keep-snoc_bounded p (y ∷ ys) x =
    let rest = keep-snoc_bounded p ys x in
    elim (Bool-cases (p y)) [ inl e ↦ rw e (omega arith) | inr e ↦ rw e rest ]

find-keep : (p : Session → Bool) (xs : List Session) → find p xs ≡ none → length (keep p xs) ≤ 0
find-keep p [] h = omega arith
find-keep p (x ∷ xs) h = elim (Bool-cases (p x)) [
  | inl e ↦ absurd (ground arith)
  | inr e ↦ rw e (find-keep p xs (ground arith))
]

admit_new-Single :
    (k : SessionContext) (owner : ℕ) (request : SessionRequest) (sessions : List Session)
    {r : List Session × Session}
    → admit_new k owner request sessions ≡ ok r
    → Single sessions
    → Single r.0
unfolding admit_new open_session
admit_new-Single k owner request sessions {r} h single =
    let P = λ (q : List Session × Session). Single q.0 in
    elim (Option-cases (open_session owner sessions)) [
      | inr (s, e) ↦ subst P {x = (sessions, s)} {y = r} (ground arith) single
      | inl e ↦
          branch (leb retained_records (length sessions)) _ _ (rw (admit_new, e) at h)
            (λ b f. absurd (ground arith))
            (λ b f. subst P (ok-injective f) (λ other.
              let new = new_session k owner request in
              let more = keep-snoc_bounded (is_open other) sessions new in
              let before = single other in
              elim (Bool-cases (owner == other)) [
                | inl same ↦
                    let none_open : length (keep (is_open other) sessions) ≤ 0 =
                      find-keep (is_open other) sessions (ground (arith, e)) in
                    ground arith
                | inr differs ↦ ground arith
              ]))
    ]

-- A session that is admitted leaves every owner with one open session at most.
pub session-Single :
    (k : SessionContext) (p : Principal) (request : SessionRequest) (sessions : List Session)
    {r : List Session × Session}
    → session k p request sessions ≡ ok r
    → Single sessions
    → Single r.0
unfolding session admit_session
session-Single k p request sessions {r} h single =
    let P = λ (q : List Session × Session). Single q.0 in
    let (u, hu, h1) = >>=-eq-ok (refuse_if (not p.operator) AdmissionError.forbidden) _ h in
    let (v, hv, h2) =
      >>=-eq-ok (refuse_if (not (is_valid_request k request)) AdmissionError.validation) _ h1 in
    elim (Option-cases (known_session p.id request sessions)) [
      | inl e ↦ admit_new-Single k p.id request sessions {r = r} (ground arith) single
      | inr (s, e) ↦ subst P {x = (sessions, s)} {y = r} (ground arith) single
    ]

find-snoc :
    (p : Session → Bool) (xs : List Session) (x : Session)
    → find p xs ≡ none
    → p x ≡ true
    → find p (xs ++ (x ∷ [])) ≡ some x
find-snoc p [] x h e = rw e refl
find-snoc p (y ∷ ys) x h e = elim (Bool-cases (p y)) [
  | inl f ↦ absurd (ground arith)
  | inr f ↦ rw f (find-snoc p ys x (ground arith) e)
]

find-append :
    (p : Session → Bool) (xs ys : List Session) {x : Session}
    → find p xs ≡ some x
    → find p (xs ++ ys) ≡ some x
find-append p [] ys h = cc
find-append p (y ∷ xs) ys {x} h = elim (Bool-cases (p y)) [
  | inl e ↦ rw e (ground arith)
  | inr e ↦ rw e (find-append p xs ys {x = x} (ground arith))
]

-- What is found by one test, where nothing passes the other, does not pass the other.
find-fails :
    (p q : Session → Bool) (xs : List Session) {x : Session}
    → find p xs ≡ none
    → find q xs ≡ some x
    → p x ≡ false
find-fails p q [] h e = cc
find-fails p q (y ∷ xs) {x} h e = elim (Bool-cases (p y)) [
  | inl f ↦ absurd (ground arith)
  | inr f ↦ elim (Bool-cases (q y)) [
    | inl g ↦ ground arith
    | inr g ↦ find-fails p q xs {x = x} (ground arith) (ground arith)
  ]
]

find-passes :
    (q : Session → Bool) (xs : List Session) {x : Session} → find q xs ≡ some x → q x ≡ true
find-passes q [] e = cc
find-passes q (y ∷ xs) {x} e = elim (Bool-cases (q y)) [
  | inl g ↦ ground arith
  | inr g ↦ find-passes q xs {x = x} (ground arith)
]

-- The session is the one that is known under the key of the request, and is for that request.
record Recorded (owner : ℕ) (request : SessionRequest) (r : List Session × Session) : Type 0 where
  known : known_session owner request r.0 ≡ some r.1
  same : request_beq (r.1).request request ≡ true

admit_new-Recorded :
    (k : SessionContext) (owner : ℕ) (request : SessionRequest) (sessions : List Session)
    {r : List Session × Session}
    → known_session owner request sessions ≡ none
    → admit_new k owner request sessions ≡ ok r
    → ((r.1).request).idempotency_key ≡ request.idempotency_key
    → Recorded owner request r
unfolding admit_new known_session open_session request_beq
admit_new-Recorded k owner request sessions {r} unknown h key =
    elim (Option-cases (open_session owner sessions)) [
      | inr (s, e) ↦
          let q : ◌≡◌ {A = List Session × Session} (sessions, s) r = ground arith in
          let same_session : s ≡ r.1 = ap (λ (x : List Session × Session). x.1) q in
          let miss =
            find-fails
              (λ s. s.owner == owner && (s.request).idempotency_key == request.idempotency_key)
              (is_open owner) sessions unknown e in
          let hit = find-passes (is_open owner) sessions e in absurd (ground arith)
      | inl e ↦
          branch (leb retained_records (length sessions)) _ _ (rw (admit_new, e) at h)
            (λ b f. absurd (ground arith))
            (λ b f.
              let new = new_session k owner request in
              subst (Recorded owner request) (ok-injective f) (record {
                known = find-snoc _ sessions new unknown (ground arith);
                same = ground arith;
              }))
    ]

-- A request that was granted a session of its own key may be sent again, under any clock, when
-- sessions have been added behind those of the first answer: the answer is the same session, and the
-- sessions stay as they are.
pub session-again :
    (k : SessionContext) (at identity : ℕ) (p : Principal) (request : SessionRequest)
    (sessions more : List Session) {r : List Session × Session}
    → session k p request sessions ≡ ok r
    → ((r.1).request).idempotency_key ≡ request.idempotency_key
    → session (record k { at = at; identity = identity }) p request (r.0 ++ more)
      ≡ ok (r.0 ++ more, r.1)
unfolding session admit_session is_valid_request known_session
session-again k at identity p request sessions more {r} h key =
    let later : SessionContext = record k { at = at; identity = identity } in
    let (u, hu, h1) = >>=-eq-ok (refuse_if (not p.operator) AdmissionError.forbidden) _ h in
    let (v, hv, h2) =
      >>=-eq-ok (refuse_if (not (is_valid_request k request)) AdmissionError.validation) _ h1 in
    let recorded : Recorded p.id request r =
      elim (Option-cases (known_session p.id request sessions)) [
        | inl e ↦ admit_new-Recorded k p.id request sessions {r = r} e (ground arith) key
        | inr (s, e) ↦ elim (Bool-cases (request_beq s.request request)) [
          | inl f ↦
              subst (Recorded p.id request) {x = (sessions, s)} {y = r} (ground arith)
                (record { known = e; same = f })
          | inr f ↦ absurd (ground arith)
        ]
      ] in
    let found : known_session p.id request (r.0 ++ more) ≡ some r.1 =
      find-append (λ s. s.owner == p.id && (s.request).idempotency_key == request.idempotency_key)
        r.0 more recorded.known in
    let again : admit_session later p.id request (r.0 ++ more) ≡ ok (r.0 ++ more, r.1) =
      rw (admit_session, found, recorded.same) refl in
    rw (hu, hv, again) refl
