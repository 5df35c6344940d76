-- ===== src/Common/Text/Trim.antt =====
-- What trimming a text leaves.
use rack_ai.Common.Lists.{all}
use rack_ai.Common.Tests.{Bool-cases}
use rack_ai.Common.Text.{
  Text, trim, trim_start_matches, trim_end_matches, prepend_unless, is_whitespace,
}
use Prim.Native.Nat.{ℕ}
use mathlib.Core.Path.{◌≡◌, refl, ap, ◌∙◌}
use mathlib.Core.Logic.{inl, inr}
use mathlib.Core.Bool.{Bool, true, false, not}
use mathlib.Core.List.{[], ◌∷◌}
use native.Mathlib.Omega.{arith}

module _ (p : ℕ → Bool) where
  prepend_unless-fixed :
      (c : ℕ) (t : Text)
      → trim_end_matches p t ≡ t
      → trim_end_matches p (prepend_unless p c t) ≡ prepend_unless p c t
  unfolding trim_end_matches
  prepend_unless-fixed c [] h = ground arith
  prepend_unless-fixed c (d ∷ ds) h = ap (prepend_unless p c) h

  pub trim_end_matches-twice :
      (t : Text) → trim_end_matches p (trim_end_matches p t) ≡ trim_end_matches p t
  unfolding trim_end_matches
  trim_end_matches-twice [] = refl
  trim_end_matches-twice (c ∷ cs) =
      prepend_unless-fixed c (trim_end_matches p cs) (trim_end_matches-twice cs)

  prepend_unless-started :
      (c : ℕ) (t : Text)
      → p c ≡ false
      → trim_start_matches p (prepend_unless p c t) ≡ prepend_unless p c t
  unfolding trim_start_matches
  prepend_unless-started c [] h = ground arith
  prepend_unless-started c (d ∷ ds) h = ground arith

  -- Trimming the end leaves a trimmed start as it is.
  pub trim_start_matches-trim_end_matches :
      (t : Text)
      → trim_start_matches p (trim_end_matches p (trim_start_matches p t))
        ≡ trim_end_matches p (trim_start_matches p t)
  unfolding trim_start_matches trim_end_matches
  trim_start_matches-trim_end_matches [] = refl
  trim_start_matches-trim_end_matches (c ∷ cs) = elim (Bool-cases (p c)) [
    | inl e ↦ rw e (trim_start_matches-trim_end_matches cs)
    | inr e ↦ rw e (prepend_unless-started c (trim_end_matches p cs) e)
  ]

  -- A text without such characters stays whole.
  pub trim_start_matches-clean :
      (t : Text) → all (λ c. not (p c)) t ≡ true → trim_start_matches p t ≡ t
  unfolding trim_start_matches
  trim_start_matches-clean [] h = refl
  trim_start_matches-clean (c ∷ cs) h = ground arith

  prepend_unless-clean : (c : ℕ) (t : Text) → p c ≡ false → prepend_unless p c t ≡ c ∷ t
  prepend_unless-clean c [] h = ground arith
  prepend_unless-clean c (d ∷ ds) h = refl

  pub trim_end_matches-clean : (t : Text) → all (λ c. not (p c)) t ≡ true → trim_end_matches p t ≡ t
  unfolding trim_end_matches
  trim_end_matches-clean [] h = refl
  trim_end_matches-clean (c ∷ cs) h =
      ap (prepend_unless p c) (trim_end_matches-clean cs (ground arith))
      ∙ prepend_unless-clean c cs (ground arith)

-- Trimming twice is trimming once.
pub trim-twice : (t : Text) → trim (trim t) ≡ trim t
unfolding trim
trim-twice t =
    ap (trim_end_matches is_whitespace) (trim_start_matches-trim_end_matches is_whitespace t)
    ∙ trim_end_matches-twice is_whitespace (trim_start_matches is_whitespace t)

pub trim-clean : (t : Text) → all (λ c. not (is_whitespace c)) t ≡ true → trim t ≡ t
unfolding trim
trim-clean t h =
    ap (trim_end_matches is_whitespace) (trim_start_matches-clean is_whitespace t h)
    ∙ trim_end_matches-clean is_whitespace t h
