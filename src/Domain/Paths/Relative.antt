-- ===== src/Domain/Paths/Relative.antt =====
-- An allowed path admits relative paths only.
use rack_ai.Common.{
  ℕ, Bool, true, false, ◌||◌, [], ◌∷◌, ◌++◌, ◌≡◌, refl, ◌∙◌, ◌==◌, nat_eq, list_eq, subst, arith,
  ok,
}
use rack_ai.Common.Text.{Text, trim, is_empty, starts_with, trim_end_matches, prepend_unless}
use rack_ai.Domain.Paths.{is_slash, path_allows, allowed_path}

abbrev pub is_absolute : Text → Bool
is_absolute t = starts_with t (b'/' ∷ [])

trim_end_matches-first :
    (t : Text)
    → is_empty t ≡ false
    → is_absolute t ≡ false
    → (c : ℕ) × (cs : Text) × (trim_end_matches is_slash t ≡ c ∷ cs) × (is_slash c ≡ false)
unfolding trim_end_matches
trim_end_matches-first [] e a = absurd (ground arith)
trim_end_matches-first (c ∷ cs) e a = first_of c (trim_end_matches is_slash cs) (ground arith)
  where
    first_of :
        (c : ℕ) (rest : Text)
        → is_slash c ≡ false
        → (d : ℕ) × (ds : Text) × (prepend_unless is_slash c rest ≡ d ∷ ds) × (is_slash d ≡ false)
    first_of c [] s = (c, [], ground arith, s)
    first_of c (d ∷ ds) s = (c, d ∷ ds, refl, s)

trim_end_matches-absolute :
    (t : Text) (c : ℕ) (cs : Text)
    → trim_end_matches is_slash t ≡ c ∷ cs
    → is_slash c ≡ false
    → is_absolute t ≡ false
unfolding trim_end_matches
trim_end_matches-absolute [] c cs e s = refl
trim_end_matches-absolute (d ∷ ds) c cs e s = first_of d (trim_end_matches is_slash ds) e
  where
    first_of :
        (d : ℕ) (rest : Text)
        → prepend_unless is_slash d rest ≡ c ∷ cs
        → is_absolute (d ∷ ds) ≡ false
    first_of d [] e = ground arith
    first_of d (x ∷ xs) e = ground arith

allows-first :
    (normalized : Text) (c : ℕ) (cs : Text)
    → (normalized == c ∷ cs || starts_with normalized (c ∷ cs ++ b'/' ∷ [])) ≡ true
    → (ds : Text) × (normalized ≡ c ∷ ds)
allows-first [] c cs h = absurd (ground arith)
allows-first (d ∷ ds) c cs h = (ds, ground arith)

accepted :
    (value : Text) {allowed : Text}
    → allowed_path value ≡ ok allowed
    → (allowed ≡ trim_end_matches is_slash (trim value))
      × (is_empty (trim value) ≡ false)
      × (is_absolute (trim value) ≡ false)
unfolding allowed_path
accepted value h = ground arith

-- A changed path that an accepted path allows is relative.
pub allowed_path-relative :
    (value changed : Text) {allowed : Text}
    → allowed_path value ≡ ok allowed
    → path_allows allowed changed ≡ true
    → is_absolute (trim changed) ≡ false
unfolding path_allows
allowed_path-relative value changed {allowed} h allows =
    let a = accepted value h in
    let f = trim_end_matches-first (trim value) a.1 a.2 in
    let n =
      allows-first (trim_end_matches is_slash (trim changed)) f.0 f.1
        (subst (λ p. path_allows p changed ≡ true) {x = allowed} (a.0 ∙ f.2) allows) in
    trim_end_matches-absolute (trim changed) f.0 n.0 n.1 f.3
