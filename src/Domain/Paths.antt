-- ===== src/Domain/Paths.antt =====
-- The paths that a change may touch: crates/rack_ai_domain/src/allowed_path.rs and allowed_paths.rs.
pub mod Components
pub mod Relative
use rack_ai.Common.{
  ℕ, Bool, true, false, not, ◌&&◌, ◌||◌, List, [], ◌∷◌, ◌++◌, any, keep, ◌==◌, nat_eq, list_eq,
  Outcome, ok, err, ◌>>=◌, ◌>>◌, refuse_if, member,
}
use rack_ai.Common.Text.{Text, trim, is_empty, starts_with, trim_end_matches}
use rack_ai.Domain.Faults.{Fault}
use rack_ai.Domain.Names.{has_parent_component}

abbrev pub is_slash : ℕ → Bool
is_slash c = c == b'/'

unfoldable pub allowed_path : Text → Outcome Fault Text
allowed_path value =
    let trimmed = trim value in
    do
      refuse_if (is_empty trimmed) Fault.path_empty
      refuse_if (starts_with trimmed (b'/' ∷ []) || member 0 trimmed) Fault.path_not_relative
      refuse_if (has_parent_component trimmed) Fault.path_not_relative
      ok (trim_end_matches is_slash trimmed)

-- `AllowedPath::allows`.
unfoldable pub path_allows : Text → Text → Bool
path_allows allowed changed =
    let normalized = trim_end_matches is_slash (trim changed) in
    normalized == allowed || starts_with normalized (allowed ++ b'/' ∷ [])

unfoldable pub allowed_paths : List Text → Outcome Fault (List Text)
allowed_paths [] = err Fault.paths_empty
allowed_paths (path ∷ paths) = ok (path ∷ paths)

-- `AllowedPaths::allows`.
unfoldable pub paths_allow : List Text → Text → Bool
paths_allow paths changed = any (λ path. path_allows path changed) paths

unfoldable pub reject_disallowed : List Text → List Text → List Text
reject_disallowed paths changed = keep (λ path. not (paths_allow paths path)) changed
