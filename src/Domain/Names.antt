-- ===== src/Domain/Names.antt =====
-- The identifiers and other checked texts of crates/rack_ai_domain/src: each function is the `new`
-- of its type, and the type is the text that it keeps.
pub mod Canonical
use rack_ai.Common.{
  ℕ, Bool, true, false, not, ◌&&◌, ◌||◌, List, [], ◌∷◌, any, all, map, if◌then◌else◌, ◌==◌, nat_eq,
  list_eq, Outcome, ok, err, ◌>>=◌, ◌>>◌, refuse_if,
}
use rack_ai.Common.Text.{
  Text, trim, is_empty, starts_with, ends_with_char, contains, is_whitespace, is_ascii_alphanumeric,
  is_ascii_hexdigit, to_ascii_lowercase, byte_length, split,
}
use rack_ai.Domain.Faults.{Fault}

abbrev pub Checked : Type 0
Checked = Outcome Fault Text

abbrev pub punctuated : ℕ → Bool
punctuated c = is_ascii_alphanumeric c || c == b'-' || c == b'_' || c == b'.'

unfoldable pub change_id : Text → Checked
change_id value =
    let trimmed = trim value in
    do
      refuse_if (is_empty trimmed) Fault.change_id_empty
      refuse_if (not (all punctuated trimmed)) Fault.change_id_unsafe
      refuse_if (starts_with trimmed (b'.' ∷ []) || ends_with_char trimmed b'.')
          Fault.change_id_unsafe
      ok trimmed

unfoldable pub repository_id : Text → Checked
repository_id value =
    let trimmed = trim value in
    do
      refuse_if (is_empty trimmed) Fault.repository_id_empty
      refuse_if (not (all punctuated trimmed)) Fault.repository_id_unsafe
      ok trimmed

unfoldable pub work_unit_id : Text → Checked
work_unit_id value =
    let trimmed = trim value in
    do
      refuse_if (is_empty trimmed) Fault.work_unit_id_empty
      refuse_if (not (all punctuated trimmed)) Fault.work_unit_id_unsupported
      ok trimmed

unfoldable pub workload_id : Text → Checked
workload_id value =
    let trimmed = trim value in
    do
      refuse_if (is_empty trimmed) Fault.workload_id_empty
      refuse_if (not (all punctuated trimmed)) Fault.workload_id_unsupported
      ok trimmed

unfoldable pub git_ref : Text → Checked
git_ref value =
    let trimmed = trim value in
    do
      refuse_if (is_empty trimmed) Fault.git_ref_empty
      refuse_if (any is_whitespace trimmed || contains trimmed (b'.' ∷ b'.' ∷ []))
          Fault.git_ref_invalid
      ok trimmed

unfoldable pub git_sha : Text → Checked
git_sha value =
    let trimmed = trim value in
    do
      refuse_if (not (byte_length trimmed == 40) && not (byte_length trimmed == 64))
          Fault.git_sha_not_full
      refuse_if (not (all is_ascii_hexdigit trimmed)) Fault.git_sha_not_full
      ok (map to_ascii_lowercase trimmed)

unfoldable pub change_task : Text → Checked
change_task value =
    let trimmed = trim value in do refuse_if (is_empty trimmed) Fault.change_task_empty; ok trimmed

-- `Path::components` of a Unix path has a parent component for each `..` between slashes.
abbrev pub has_parent_component : Text → Bool
has_parent_component path = any (λ part. part == b'.' ∷ b'.' ∷ []) (split (λ c. c == b'/') path)

unfoldable pub required_artifact : Text → Checked
required_artifact value =
    let trimmed = trim value in
    do
      refuse_if (is_empty trimmed) Fault.artifact_empty
      refuse_if (starts_with trimmed (b'/' ∷ []) || has_parent_component trimmed)
          Fault.artifact_not_relative
      ok trimmed

-- These two keep the text as it is given.
unfoldable pub task_id : Text → Checked
task_id value = do refuse_if (is_empty (trim value)) Fault.task_id_empty; ok value

unfoldable pub active_node_id : Text → Checked
active_node_id value = do refuse_if (is_empty (trim value)) Fault.active_node_id_empty; ok value

-- `contains_parent_traversal` of the executable of an acceptance command.
abbrev pub contains_parent_traversal : Text → Bool
contains_parent_traversal program =
    any (λ part. part == b'.' ∷ b'.' ∷ []) (split (λ c. c == b'/' || c == 92) program)

unfoldable pub acceptance_command : List Text → Outcome Fault (List Text)
acceptance_command [] = err Fault.command_empty
acceptance_command (program ∷ arguments) = do
  refuse_if (any is_empty (program ∷ arguments)) Fault.command_empty
  refuse_if (contains_parent_traversal program) Fault.executable_traversal
  ok (program ∷ arguments)
