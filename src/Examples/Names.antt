-- ===== src/Examples/Names.antt =====
-- Checked texts and paths.
use rack_ai.Common.{ℕ, Bool, true, false, List, [], ◌∷◌, ◌++◌, ◌≡◌, refl, ok}
use rack_ai.Common.Text.{Text, trim, trim_end_matches}
use rack_ai.Domain.Names.{git_sha}
use rack_ai.Domain.Names.Canonical.{names-Canonical}
use rack_ai.Domain.Paths.{allowed_path, path_allows, is_slash}
use rack_ai.Domain.Paths.Components.{path_allows-components, is_below, components}
use rack_ai.Domain.Paths.Relative.{allowed_path-relative, is_absolute}

abbrev ten : ℕ → Text
ten c = c ∷ c ∷ c ∷ c ∷ c ∷ c ∷ c ∷ c ∷ c ∷ c ∷ []

abbrev forty : ℕ → Text
forty c = ten c ++ ten c ++ ten c ++ ten c

sha_is_lowered : git_sha (32 ∷ forty b'A') ≡ ok (forty b'a')
unfolding git_sha rack_ai.Common.Text.byte_length trim trim_end_matches
    rack_ai.Common.Text.trim_start_matches rack_ai.Common.Text.is_whitespace
    rack_ai.Common.Text.len_utf8 rack_ai.Common.Text.is_ascii_hexdigit
    rack_ai.Common.Text.to_ascii_lowercase
sha_is_lowered = refl

names-Canonical_example : git_sha (forty b'a') ≡ ok (forty b'a')
names-Canonical_example = names-Canonical.5 (32 ∷ forty b'A') (forty b'a') sha_is_lowered

-- "src/" and "src/lib".
abbrev source_directory : Text
source_directory = b's' ∷ b'r' ∷ b'c' ∷ []

abbrev source_file : Text
source_file = b's' ∷ b'r' ∷ b'c' ∷ b'/' ∷ b'l' ∷ []

path_allows-components_example :
    path_allows source_directory source_file
    ≡ is_below
        (components source_directory)
        (components (trim_end_matches is_slash (trim source_file)))
path_allows-components_example = path_allows-components source_directory source_file

directory_is_kept : allowed_path (source_directory ++ b'/' ∷ []) ≡ ok source_directory
unfolding allowed_path trim trim_end_matches rack_ai.Common.Text.trim_start_matches
    rack_ai.Common.Text.is_whitespace rack_ai.Common.Text.split
directory_is_kept = refl

file_is_allowed : path_allows source_directory source_file ≡ true
unfolding path_allows trim_end_matches trim rack_ai.Common.Text.trim_start_matches
    rack_ai.Common.Text.is_whitespace
file_is_allowed = refl

allowed_path-relative_example : is_absolute (trim source_file) ≡ false
allowed_path-relative_example =
    allowed_path-relative (source_directory ++ b'/' ∷ []) source_file directory_is_kept
      file_is_allowed
