-- ===== src/Domain/Paths/Components.antt =====
-- The test on characters by which a path is allowed is a test on its components.
use rack_ai.Common.{
  ℕ, Bool, true, false, ◌&&◌, ◌||◌, List, [], ◌∷◌, ◌++◌, ◌≡◌, refl, sym, ◌∙◌, ◌==◌, nat_eq, list_eq,
  arith, inl, inr, Bool-cases,
}
use rack_ai.Common.Text.{Text, trim, starts_with, trim_end_matches, split, extend_first}
use rack_ai.Domain.Paths.{is_slash, path_allows}

-- The components of a path.
abbrev pub components : Text → List Text
components path = split is_slash path

-- The components of the second list begin with those of the first.
abbrev pub is_below : List Text → List Text → Bool
is_below [] parts = true
is_below (base ∷ bases) [] = false
is_below (base ∷ bases) (part ∷ parts) = base == part && is_below bases parts

-- `split` is never empty, and its first part starts with the character that was met.
first_part : (t : Text) → (part : Text) × (parts : List Text) × (components t ≡ part ∷ parts)
unfolding split
first_part [] = ([], [], refl)
first_part (c ∷ cs) = elim (Bool-cases (is_slash c)) [
  | inl e ↦ ([], components cs, rw e refl)
  | inr e ↦ let f = first_part cs in (c ∷ f.0, f.1, rw (e, f.2) refl)
]

is_below-extend :
    (c d : ℕ) (b p : Text) (bs ps : List Text)
    → is_below (extend_first c (b ∷ bs)) (extend_first d (p ∷ ps))
      ≡ (c == d && is_below (b ∷ bs) (p ∷ ps))
is_below-extend c d b p bs ps = ground arith

allowed_as_prefix : (base path : Text) → Bool
allowed_as_prefix base path = path == base || starts_with path (base ++ b'/' ∷ [])

is_below-nothing : (t : Text) → is_below ([] ∷ []) (components t) ≡ allowed_as_prefix [] t
unfolding split allowed_as_prefix
is_below-nothing [] = refl
is_below-nothing (c ∷ cs) = let f = first_part cs in rw f.2 (ground arith)

-- A path that has ended is below a base only where the base has one empty component.
is_below-ended : (b : ℕ) (bs : Text) → is_below (components (b ∷ bs)) ([] ∷ []) ≡ false
unfolding split
is_below-ended b bs =
    let f = first_part bs in
    elim (Bool-cases (is_slash b)) [ inl e ↦ rw (e, f.2) refl | inr e ↦ rw (e, f.2) refl ]

is_below-cons :
    (b c : ℕ) (bs cs : Text)
    → is_below (components (b ∷ bs)) (components (c ∷ cs))
      ≡ (b == c && is_below (components bs) (components cs))
unfolding split
is_below-cons b c bs cs =
    let f = first_part bs in
    let g = first_part cs in
    elim (Bool-cases (is_slash b)) [
      | inl e ↦ elim (Bool-cases (is_slash c)) [
        | inl d ↦ rw (e, d) (ground arith)
        | inr d ↦ rw (e, d, f.2, g.2) (ground arith)
      ]
      | inr e ↦ elim (Bool-cases (is_slash c)) [
        | inl d ↦ rw (e, d, f.2, g.2) (ground arith)
        | inr d ↦ rw (e, d, f.2, g.2) (ground arith)
      ]
    ]

prefix-is_below :
    (base path : Text) → is_below (components base) (components path) ≡ allowed_as_prefix base path
unfolding split allowed_as_prefix
prefix-is_below [] path = is_below-nothing path
prefix-is_below (b ∷ bs) [] = is_below-ended b bs
prefix-is_below (b ∷ bs) (c ∷ cs) = is_below-cons b c bs cs ∙ ground (arith, prefix-is_below bs cs)

-- A changed path is allowed exactly if its components, without the slashes and blanks at its ends,
-- begin with those of the allowed path: never by a part of a name.
pub path_allows-components :
    (allowed changed : Text)
    → path_allows allowed changed
      ≡ is_below (components allowed) (components (trim_end_matches is_slash (trim changed)))
unfolding path_allows allowed_as_prefix
path_allows-components allowed changed =
    sym (prefix-is_below allowed (trim_end_matches is_slash (trim changed)))
