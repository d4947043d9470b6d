-- ===== src/Tests/Policy.antt =====
-- The policy at a proposal that changes one line.
use safepatch.Base.{◌+◌, ◌≤◌, true, false, some, [], ◌∷◌, ◌≡◌, refl, map, filter, All, length}
use safepatch.Text.{Text, codes, elem, has_duplicate}
use safepatch.Patching.Diff.{split_file_diffs, parse_diff_files}
use safepatch.Patching.Diff.Agreement.{targets, not_dev_null, split_file_diffs-targets}
use safepatch.Patching.Policy.Paths.{normalize_patch_path}
use safepatch.Patching.Policy.Validate.{ValidationResult, is_ok, is_revision, validate_proposal}
use safepatch.Patching.Policy.Validate.Allowed.{IsAllowed, validate_proposal-IsAllowed}
use safepatch.Patching.Policy.Validate.Limits.{validate_proposal-limits}
use safepatch.Tests.World.{diff, path, platform, tree, scanner, proposal}

split_file_diffs-targets_example :
    map (λ c. c.0) (split_file_diffs diff) ≡ filter not_dev_null (targets (parse_diff_files diff))
split_file_diffs-targets_example = split_file_diffs-targets diff

abbrev pub valid : ValidationResult
valid = record {
  errors = [];
  files = path ∷ [];
  added_lines = 1;
  deleted_lines = 1;
  new_test_files = [];
  modified_test_files = [];
  test_integrity_warnings = [];
  high_risk = false;
}

pub validates : validate_proposal platform tree scanner false true proposal ≡ some valid
unfolding validate_proposal parse_diff_files safepatch.Text.splitlines
    safepatch.Patching.Diff.classify safepatch.Text.starts_with safepatch.Text.ends_with
    safepatch.Text.text_eq safepatch.Text.strip
    safepatch.Patching.Policy.Paths.is_pytest_config_path elem safepatch.Text.split_char
    safepatch.Text.replace_char safepatch.Workspace.Tree.is_file
    safepatch.Patching.Policy.Paths.is_test_path safepatch.Text.contains
    safepatch.Patching.Policy.Paths.is_root_test_name normalize_patch_path safepatch.Text.sorted_set
    safepatch.Patching.Policy.Integrity.merge safepatch.Text.join
    safepatch.Patching.Policy.Paths.escapes safepatch.Patching.Policy.Paths.is_forbidden_path
    safepatch.Text.has_duplicate safepatch.Text.without safepatch.Workspace.Tree.exists
    safepatch.Text.remove_prefix
validates = refl

validate_proposal-IsAllowed_example :
    All (λ c. IsAllowed platform tree (normalize_patch_path c.0)) (split_file_diffs diff)
unfolding is_ok
validate_proposal-IsAllowed_example =
    validate_proposal-IsAllowed platform tree scanner false true proposal valid validates refl

validate_proposal-limits_example :
    let touched = map normalize_patch_path (targets (parse_diff_files proposal.unified_diff)) in
    let declared = map normalize_patch_path proposal.affected_files in
    (has_duplicate touched ≡ false)
    × (length valid.files ≤ 5)
    × (valid.added_lines + valid.deleted_lines ≤ 300)
    × ((t : Text) → elem t declared ≡ elem t touched)
    × All
        (λ b. (elem (normalize_patch_path b.0) touched ≡ true) × (is_revision b.1 ≡ true))
        proposal.base_revisions
unfolding is_ok
validate_proposal-limits_example =
    validate_proposal-limits platform tree scanner false true proposal valid validates refl
