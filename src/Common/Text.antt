-- ===== src/Common/Text.antt =====
-- Texts as lists of Unicode scalar values, with the operations of Rust's `str` that the code uses.
pub mod Trim
use rack_ai.Common.Lists.{any, all, length, list_eq}
use rack_ai.Common.Tests.{if◌then◌else◌, ltb, leb, ◌==◌, nat_eq}
use Prim.Native.Nat.{ℕ, ◌+◌}
use mathlib.Core.Bool.{Bool, true, false, ◌&&◌, ◌||◌}
use mathlib.Core.List.{List, [], ◌∷◌}

abbrev pub Text : Type 0
Text = List ℕ

-- The White_Space property of Unicode, which `char::is_whitespace` tests.
unfoldable pub is_whitespace : ℕ → Bool
is_whitespace c =
    (leb 9 c && leb c 13)
    || any (λ d. c == d) (32 ∷ 133 ∷ 160 ∷ 5760 ∷ 8232 ∷ 8233 ∷ 8239 ∷ 8287 ∷ 12288 ∷ [])
    || (leb 8192 c && leb c 8202)

unfoldable pub is_ascii_alphanumeric : ℕ → Bool
is_ascii_alphanumeric c =
    (leb b'0' c && leb c b'9') || (leb b'a' c && leb c b'z') || (leb b'A' c && leb c b'Z')

unfoldable pub is_ascii_hexdigit : ℕ → Bool
is_ascii_hexdigit c =
    (leb b'0' c && leb c b'9') || (leb b'a' c && leb c b'f') || (leb b'A' c && leb c b'F')

unfoldable pub to_ascii_lowercase : ℕ → ℕ
to_ascii_lowercase c = if leb b'A' c && leb c b'Z' then c + 32 else c

-- `str::len` counts the bytes of UTF-8.
unfoldable pub len_utf8 : ℕ → ℕ
len_utf8 c = if ltb c 128 then 1 else if ltb c 2048 then 2 else if ltb c 65536 then 3 else 4

unfoldable pub byte_length : Text → ℕ
byte_length [] = 0
byte_length (c ∷ cs) = len_utf8 c + byte_length cs

unfoldable pub trim_start_matches : (ℕ → Bool) → Text → Text
trim_start_matches p [] = []
trim_start_matches p (c ∷ cs) = if p c then trim_start_matches p cs else c ∷ cs

abbrev pub prepend_unless : (ℕ → Bool) → ℕ → Text → Text
prepend_unless p c [] = if p c then [] else c ∷ []
prepend_unless p c (d ∷ ds) = c ∷ d ∷ ds

unfoldable pub trim_end_matches : (ℕ → Bool) → Text → Text
trim_end_matches p [] = []
trim_end_matches p (c ∷ cs) = prepend_unless p c (trim_end_matches p cs)

unfoldable pub trim : Text → Text
trim t = trim_end_matches is_whitespace (trim_start_matches is_whitespace t)

abbrev pub is_empty : Text → Bool
is_empty [] = true
is_empty (c ∷ cs) = false

abbrev pub starts_with : Text → Text → Bool
starts_with t [] = true
starts_with [] (p ∷ ps) = false
starts_with (c ∷ cs) (p ∷ ps) = c == p && starts_with cs ps

abbrev pub ends_with_char : Text → ℕ → Bool
ends_with_char [] c = false
ends_with_char (d ∷ []) c = d == c
ends_with_char (d ∷ e ∷ es) c = ends_with_char (e ∷ es) c

-- `contains` of a text.
abbrev pub contains : Text → Text → Bool
contains [] p = is_empty p
contains (c ∷ cs) p = starts_with (c ∷ cs) p || contains cs p

abbrev pub extend_first : ℕ → List Text → List Text
extend_first c [] = (c ∷ []) ∷ []
extend_first c (part ∷ parts) = (c ∷ part) ∷ parts

-- `split` at every character that passes the test: never empty.
unfoldable pub split : (ℕ → Bool) → Text → List Text
split p [] = [] ∷ []
split p (c ∷ cs) = if p c then [] ∷ split p cs else extend_first c (split p cs)
