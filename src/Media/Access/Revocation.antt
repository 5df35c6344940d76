-- ===== src/Media/Access/Revocation.antt =====
-- A new password ends the sessions of the old one.
use rack_ai.Common.{
  ℕ, Outcome-cases, ◌+◌, ◌≤◌, Bool, true, false, not, ◌&&◌, some, none, List, ◌∷◌, [], ◌≡◌, refl,
  sym, subst, ◌⊎◌, inl, inr, leb, ◌==◌, nat_eq, find, keep, length, ok, arith, All, Bool-cases,
  >>=-eq-ok, ok-injective, ok_or, refuse_if, is_some_and, list_eq, option_eq, ◌++◌, Option-cases,
  if◌then◌else◌,
}
use rack_ai.Media.Access.{
  World, HumanRecord, BrowserSession, Principal, AccessContext, PasswordChange, in_force,
  session_of, principal, issued, issue, next_record, change, login, verify, Password, BrowserError,
  token_principal, validate_new, browser_sessions_limit, cookie_seconds,
}

-- No session belongs to the generation.
abbrev pub Foreign : ℕ → List BrowserSession → Type 0
Foreign generation = All (λ b. (b.auth_generation == generation) ≡ false)

Foreign-find :
    (at hash : ℕ) (r : HumanRecord) (bs : List BrowserSession)
    → Foreign r.generation bs
    → find (λ b. in_force at r b && b.digest == hash) bs ≡ none
Foreign-find at hash r [] h = refl
Foreign-find at hash r (b ∷ bs) h =
    let rest = Foreign-find at hash r bs h.1 in let other = h.0 in ground arith

new_find :
    (at hash : ℕ) (r : HumanRecord) (b : BrowserSession)
    → (b.digest == hash) ≡ false
    → find (λ c. in_force at r c && c.digest == hash) (b ∷ []) ≡ none
new_find at hash r b other = elim (Bool-cases (in_force at r b)) [
  | inl e ↦ rw (e, other) refl
  | inr e ↦ rw e refl
]

issue-session_of :
    (k : AccessContext) (owner at hash : ℕ) (w : World)
    → Foreign (w.record_of).generation w.browsers
    → (k.token == hash) ≡ false
    → session_of at (issue k owner true w).1 hash ≡ none
unfolding issue issued session_of
issue-session_of k owner at hash w foreign other = elim (Bool-cases k.writes_sessions) [
  | inl e ↦ rw e (new_find at hash w.record_of _ other)
  | inr e ↦ rw e (Foreign-find at hash w.record_of w.browsers foreign)
]

next_record-generation :
    (k : AccessContext) (form : PasswordChange) (hash : ℕ) (w : World) {r : Principal × HumanRecord}
    → next_record k form hash w ≡ ok r
    → (r.1).generation ≡ k.generation
unfolding next_record
next_record-generation k form hash w {r} h =
    let (session, h0, h1) = >>=-eq-ok (ok_or (session_of k.at w hash) BrowserError.invalid) _ h in
    let (p, hp, h2) = >>=-eq-ok (verify k w.record_of form.current_password) _ h1 in
    let (u, hu, h3) =
      >>=-eq-ok (refuse_if (not (p.id == session.owner)) BrowserError.invalid) _ h2 in
    let (v, hv, h4) =
      >>=-eq-ok (refuse_if (not (form.new_password == form.confirm_password)) BrowserError.input) _
        h3 in
    let (x, hx, h5) =
      >>=-eq-ok
        (refuse_if (is_some_and (token_principal k form.new_password) (λ q. true))
          BrowserError.input)
        _ h4 in
    let (y, hy, h6) =
      >>=-eq-ok (refuse_if (not (validate_new form.new_password)) BrowserError.input) _ h5 in
    let (hashed, hh, h7) = >>=-eq-ok (k.hash form.new_password) _ h6 in
    subst (λ (q : Principal × HumanRecord). (q.1).generation ≡ k.generation) (ok-injective h7) refl

-- A change of the password either leaves the record and the sessions as they were, or no cookie but
-- the new one is accepted any more, even if the new session was not stored. The generation that is
-- drawn belongs to no session.
pub change-revokes :
    (k : AccessContext) (form : PasswordChange) (session_digest : ℕ) (w : World) (later hash : ℕ)
    (principals : List Principal)
    → Foreign k.generation w.browsers
    → (k.token == hash) ≡ false
    → ((change k form session_digest w).1 ≡ w)
      ⊎ (principal later principals (change k form session_digest w).1 hash ≡ none)
unfolding change principal
change-revokes k form session_digest w later hash principals foreign other =
    elim (Outcome-cases (next_record k form session_digest w)) [
      | inl (e, h) ↦ inl (rw (change, h) refl)
      | inr ((p, next), h) ↦ elim (Bool-cases k.writes_record) [
        | inr off ↦ inl (rw (change, h, off) refl)
        | inl on ↦
            let w' : World = record w { record_of = next } in
            let fresh : Foreign next.generation w.browsers =
              subst (λ g. Foreign g w.browsers)
                (sym (next_record-generation k form session_digest w h)) foreign in
            let closed = issue-session_of k p.id later hash w' fresh other in
            inr (rw (change, h, on) (rw (principal, closed) refl))
      ]
    ]

length-snoc : {A : Type 0} (xs : List A) (x : A) → length (xs ++ (x ∷ [])) ≡ length xs + 1
length-snoc [] x = refl
length-snoc (y ∷ ys) x = let rest = length-snoc ys x in omega arith

issued-bounded :
    (at token owner : ℕ) (r : HumanRecord) (revoke_others : Bool) (browsers : List BrowserSession)
    {bs : List BrowserSession}
    → issued at token owner r revoke_others browsers ≡ some bs
    → length bs ≤ 64
unfolding issued
issued-bounded at token owner r revoke_others browsers {bs} h =
    let kept = keep (in_force at r) (if revoke_others then [] else browsers) in
    elim (Bool-cases (leb browser_sessions_limit (length kept))) [
      | inl e ↦ absurd (ground arith)
      | inr e ↦
          let session : BrowserSession = record {
            auth_generation = r.generation;
            digest = token;
            owner = owner;
            expires = at + cookie_seconds;
          } in
          let more = length-snoc kept session in
          let same : kept ++ (session ∷ []) ≡ bs = ground arith in
          subst (λ l. length l ≤ 64) same (ground arith)
    ]

issue-bounded :
    (k : AccessContext) (owner : ℕ) (revoke_others : Bool) (w : World)
    → length w.browsers ≤ 64
    → length ((issue k owner revoke_others w).1).browsers ≤ 64
unfolding issue
issue-bounded k owner revoke_others w h =
    elim (Option-cases (issued k.at k.token owner w.record_of revoke_others w.browsers)) [
      | inl e ↦ rw (issue, e) h
      | inr (bs, e) ↦ elim (Bool-cases k.writes_sessions) [
        | inl f ↦
            rw (issue, e, f)
              (issued-bounded k.at k.token owner w.record_of revoke_others w.browsers e)
        | inr f ↦ rw (issue, e, f) h
      ]
    ]

-- Neither a login nor a change of the password makes more sessions than the limit.
pub login-bounded :
    (k : AccessContext) (password : Password) (form : PasswordChange) (session_digest : ℕ)
    (w : World)
    → length w.browsers ≤ browser_sessions_limit
    → (length ((login k password w).1).browsers ≤ browser_sessions_limit)
      × (length ((change k form session_digest w).1).browsers ≤ browser_sessions_limit)
unfolding login change
login-bounded k password form session_digest w h = (
  elim (Outcome-cases (verify k w.record_of password)) [
    | inl (e, q) ↦ rw (login, q) h
    | inr (p, q) ↦ rw (login, q) (issue-bounded k p.id false w h)
  ],
  elim (Outcome-cases (next_record k form session_digest w)) [
    | inl (e, q) ↦ rw (change, q) h
    | inr ((p, next), q) ↦ elim (Bool-cases k.writes_record) [
      | inr off ↦ rw (change, q, off) h
      | inl on ↦ rw (change, q, on) (issue-bounded k p.id true (record w { record_of = next }) h)
    ]
  ],
)
