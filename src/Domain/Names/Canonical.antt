-- ===== src/Domain/Names/Canonical.antt =====
-- A checked text is accepted again as it is, the allowed paths of a unit of work apart.
use rack_ai.Common.{
  ℕ, true, false, not, ◌&&◌, [], ◌∷◌, ◌≡◌, refl, sym, ap, subst, ◌∙◌, all, map, ◌==◌, nat_eq, ok,
  arith,
}
use rack_ai.Common.Text.{
  Text, trim, is_whitespace, is_ascii_hexdigit, to_ascii_lowercase, byte_length, len_utf8,
}
use rack_ai.Common.Text.Trim.{trim-twice, trim-clean}
use rack_ai.Domain.Names.{
  Checked, change_id, repository_id, work_unit_id, workload_id, git_ref, git_sha, change_task,
  required_artifact, task_id, active_node_id,
}

abbrev pub Canonical : (Text → Checked) → Type 0
Canonical construct = (value kept : Text) → construct value ≡ ok kept → construct kept ≡ ok kept

module _ (construct : Text → Checked) (value kept : Text) where
  -- A constructor that keeps the trimmed text and looks at nothing else.
  kept_again :
      kept ≡ trim value
      → construct (trim value) ≡ construct value
      → construct value ≡ ok kept
      → construct kept ≡ ok kept
  kept_again same trimmed h = (ap construct same ∙ trimmed) ∙ h

change_id-Canonical : Canonical change_id
unfolding change_id
change_id-Canonical value kept h =
    kept_again change_id value kept (ground arith) (rw trim-twice refl) h

repository_id-Canonical : Canonical repository_id
unfolding repository_id
repository_id-Canonical value kept h =
    kept_again repository_id value kept (ground arith) (rw trim-twice refl) h

work_unit_id-Canonical : Canonical work_unit_id
unfolding work_unit_id
work_unit_id-Canonical value kept h =
    kept_again work_unit_id value kept (ground arith) (rw trim-twice refl) h

workload_id-Canonical : Canonical workload_id
unfolding workload_id
workload_id-Canonical value kept h =
    kept_again workload_id value kept (ground arith) (rw trim-twice refl) h

git_ref-Canonical : Canonical git_ref
unfolding git_ref
git_ref-Canonical value kept h = kept_again git_ref value kept (ground arith) (rw trim-twice refl) h

change_task-Canonical : Canonical change_task
unfolding change_task
change_task-Canonical value kept h =
    kept_again change_task value kept (ground arith) (rw trim-twice refl) h

required_artifact-Canonical : Canonical required_artifact
unfolding required_artifact
required_artifact-Canonical value kept h =
    kept_again required_artifact value kept (ground arith) (rw trim-twice refl) h

task_id-Canonical : Canonical task_id
unfolding task_id
task_id-Canonical value kept h =
    subst (λ t. task_id t ≡ ok t) {x = value} (ground arith) (ground arith)

active_node_id-Canonical : Canonical active_node_id
unfolding active_node_id
active_node_id-Canonical value kept h =
    subst (λ t. active_node_id t ≡ ok t) {x = value} (ground arith) (ground arith)

-- Lower case changes neither the digits nor their number.
hexdigit-lowercase :
    (c : ℕ) → is_ascii_hexdigit c ≡ true → is_ascii_hexdigit (to_ascii_lowercase c) ≡ true
unfolding is_ascii_hexdigit to_ascii_lowercase
hexdigit-lowercase c h = ground arith

len_utf8-lowercase :
    (c : ℕ) → is_ascii_hexdigit c ≡ true → len_utf8 (to_ascii_lowercase c) ≡ len_utf8 c
unfolding is_ascii_hexdigit to_ascii_lowercase len_utf8
len_utf8-lowercase c h = ground arith

to_ascii_lowercase-twice :
    (c : ℕ) → to_ascii_lowercase (to_ascii_lowercase c) ≡ to_ascii_lowercase c
unfolding to_ascii_lowercase
to_ascii_lowercase-twice c = ground arith

hexdigit-not-whitespace : (c : ℕ) → is_ascii_hexdigit c ≡ true → is_whitespace c ≡ false
unfolding is_ascii_hexdigit is_whitespace
hexdigit-not-whitespace c h = ground arith

lowercase_digits :
    (t : Text)
    → all is_ascii_hexdigit t ≡ true
    → all is_ascii_hexdigit (map to_ascii_lowercase t) ≡ true
lowercase_digits [] h = refl
lowercase_digits (c ∷ cs) h = ground (arith, hexdigit-lowercase c, lowercase_digits cs)

lowercase_length :
    (t : Text)
    → all is_ascii_hexdigit t ≡ true
    → byte_length (map to_ascii_lowercase t) ≡ byte_length t
unfolding byte_length
lowercase_length [] h = refl
lowercase_length (c ∷ cs) h = ground (arith, len_utf8-lowercase c, lowercase_length cs)

lowercase_twice :
    (t : Text) → map to_ascii_lowercase (map to_ascii_lowercase t) ≡ map to_ascii_lowercase t
lowercase_twice [] = refl
lowercase_twice (c ∷ cs) = ground (arith, to_ascii_lowercase-twice c, lowercase_twice cs)

digits_clean :
    (t : Text) → all is_ascii_hexdigit t ≡ true → all (λ c. not (is_whitespace c)) t ≡ true
digits_clean [] h = refl
digits_clean (c ∷ cs) h = ground (arith, hexdigit-not-whitespace c, digits_clean cs)

git_sha-lower :
    (t : Text) (value : Text) {kept : Text}
    → t ≡ trim value
    → git_sha value ≡ ok kept
    → (kept ≡ map to_ascii_lowercase t)
      × (all is_ascii_hexdigit t ≡ true)
      × ((not (byte_length t == 40) && not (byte_length t == 64)) ≡ false)
unfolding git_sha
git_sha-lower t value e h = ground arith

git_sha-accepts :
    (t : Text)
    → all is_ascii_hexdigit t ≡ true
    → (not (byte_length t == 40) && not (byte_length t == 64)) ≡ false
    → git_sha t ≡ ok (map to_ascii_lowercase t)
unfolding git_sha
git_sha-accepts t digits full = rw (trim-clean t (digits_clean t digits)) (rw (full, digits) refl)

git_sha-Canonical : Canonical git_sha
git_sha-Canonical value kept h =
    let f = git_sha-lower (trim value) value refl h in
    subst (λ k. git_sha k ≡ ok k) {x = map to_ascii_lowercase (trim value)} (sym f.0)
      (git_sha-accepts (map to_ascii_lowercase (trim value)) (lowercase_digits (trim value) f.1)
          (rw (lowercase_length (trim value) f.1) f.2)
        ∙ ap ok (lowercase_twice (trim value)))

-- Each checked text of the domain other than an allowed path is accepted again, and unchanged, by the
-- constructor that made it. (An allowed path need not be: 'a /' is kept as 'a ', and then as 'a'.)
pub names-Canonical :
    Canonical change_id
    × Canonical repository_id
    × Canonical work_unit_id
    × Canonical workload_id
    × Canonical git_ref
    × Canonical git_sha
    × Canonical change_task
    × Canonical required_artifact
    × Canonical task_id
    × Canonical active_node_id
names-Canonical = (
  change_id-Canonical, repository_id-Canonical, work_unit_id-Canonical, workload_id-Canonical,
  git_ref-Canonical, git_sha-Canonical, change_task-Canonical, required_artifact-Canonical,
  task_id-Canonical, active_node_id-Canonical,
)
