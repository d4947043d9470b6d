-- ===== src/Patching/Policy/Validate.antt =====
-- validate_proposal of code_agent/patching/validator.py.
pub mod Allowed
pub mod Limits
use safepatch.Base.{
  ℕ, ◌+◌, Bool, true, false, not, ◌&&◌, ◌||◌, Option, none, some, List, [], ◌∷◌, ◌++◌, map, all,
  filter, length, drop, ltb, leb, ◌==◌, if◌then◌else◌,
}
use safepatch.Text.{
  Text, codes, text_eq, starts_with, ends_with, splitlines, elem, sorted_set, has_duplicate,
  without,
}
use safepatch.Workspace.Tree.{Node, Tree, absent, exists}
use safepatch.Workspace.Platform.{Platform}
use safepatch.Patching.Diff.{parse_diff_files, split_file_diffs}
use safepatch.Patching.Policy.Paths.{normalize_patch_path, escapes, is_forbidden_path}
use safepatch.Patching.Policy.Proposal.{PatchProposal}
use safepatch.Patching.Policy.Integrity.{
  PolicyError, no_headers, invalid_header_pair, duplicate_files, too_many_files, duplicate_affected,
  deleting, path_escapes, forbidden_path, not_python, new_outside_tests, new_exists, missing_file,
  revision_not_in_diff, invalid_revision, renaming, too_many_lines, undeclared, untouched, Scanner,
  Findings, error_if, check_integrity_pairs,
}

abbrev pub max_files : ℕ
max_files = 5

abbrev pub max_changed_lines : ℕ
max_changed_lines = 300

pub record ValidationResult : Type 0 where
  pub errors : List PolicyError
  pub files : List Text
  pub added_lines : ℕ
  pub deleted_lines : ℕ
  pub new_test_files : List Text
  pub modified_test_files : List Text
  pub test_integrity_warnings : List Text
  pub high_risk : Bool

unfoldable pub is_empty {ℓ} : {A : Type ℓ} → List A → Bool
is_empty [] = true
is_empty (x ∷ xs) = false

-- The field `ok` of ValidationResult.
unfoldable pub is_ok : ValidationResult → Bool
unfolding is_empty
is_ok r = is_empty r.errors

unfoldable pub is_hex : ℕ → Bool
is_hex c = (leb b'0' c && leb c b'9') || (leb b'a' c && leb c b'f')

-- re.fullmatch(r"sha256:[0-9a-f]{64}", revision)
unfoldable pub is_revision : Text → Bool
unfolding is_hex
is_revision revision =
    starts_with revision (codes "sha256:")
    && (length (drop 7 revision) == 64 && all is_hex (drop 7 revision))

unfoldable pub is_added : Text → Bool
is_added line = starts_with line (codes "+") && not (starts_with line (codes "+++"))

unfoldable pub is_deleted : Text → Bool
is_deleted line = starts_with line (codes "-") && not (starts_with line (codes "---"))

unfoldable pub count_lines : (Text → Bool) → Text → ℕ
count_lines p diff = length (filter p (splitlines diff))

-- What one pair of headers adds to `touched` and to `errors`.
abbrev pub Checked : Type 0
Checked = List Text × List PolicyError

unfoldable pub error_unless_empty : List Text → PolicyError → List PolicyError
unfolding is_empty
error_unless_empty ts e = error_if (not (is_empty ts)) e

unfoldable pub revision_errors : List Text → List (Text × Text) → List PolicyError
unfolding is_revision
revision_errors touched [] = []
revision_errors touched ((path, revision) ∷ rs) =
    error_if (not (elem (normalize_patch_path path) touched)) (revision_not_in_diff path)
    ++ (error_if (not (is_revision revision)) (invalid_revision path) ++ revision_errors touched rs)

-- The checks behind the loop, up to those of the tests.
unfoldable pub set_errors : List Text → PatchProposal → List PolicyError
unfolding error_unless_empty count_lines is_added is_deleted revision_errors
set_errors touched proposal =
    let diff = proposal.unified_diff in
    let changed = count_lines is_added diff + count_lines is_deleted diff in
    let declared = map normalize_patch_path proposal.affected_files in
    let extra = sorted_set (without touched declared) in
    let idle = sorted_set (without declared touched) in
    error_if (has_duplicate touched) duplicate_files
    ++ (error_if (ltb max_files (length (sorted_set touched))) too_many_files
        ++ (error_if (ltb max_changed_lines changed) (too_many_lines changed)
            ++ (error_if (has_duplicate declared) duplicate_affected
                ++ (error_unless_empty extra (undeclared extra)
                    ++ (error_unless_empty idle (untouched idle)
                        ++ revision_errors touched proposal.base_revisions)))))

unfoldable pub result_of : PatchProposal → Checked → Findings → ValidationResult
unfolding set_errors is_empty
result_of proposal (touched, errors) found = record {
  errors =
      error_if (is_empty (parse_diff_files proposal.unified_diff)) no_headers
      ++ (errors ++ (set_errors touched proposal ++ found.errors));
  files = sorted_set touched;
  added_lines = count_lines is_added proposal.unified_diff;
  deleted_lines = count_lines is_deleted proposal.unified_diff;
  new_test_files = sorted_set found.new_test_files;
  modified_test_files = sorted_set found.modified_test_files;
  test_integrity_warnings = found.warnings;
  high_risk = found.high_risk;
}

unfoldable pub with_findings : PatchProposal → Checked → Option Findings → Option ValidationResult
unfolding result_of
with_findings proposal checked none = none
with_findings proposal checked (some found) = some (result_of proposal checked found)

module _ (platform : Platform) (tree : Tree) where
  -- The node at workspace_root / path; a path outside the root is met with no file.
  unfoldable pub node_at : Text → Node
  node_at path = elim (platform.resolve path) [ none ↦ absent | some key ↦ tree key ]

  -- The errors for a touched path, from the test of its form to that of its existence.
  unfoldable pub path_errors : Bool → Text → List PolicyError
  path_errors is_new path =
      if escapes path
      then path_escapes path ∷ []
      else if is_forbidden_path platform.lower path
      then forbidden_path path ∷ []
      else if not (ends_with path (codes ".py"))
      then not_python path ∷ []
      else elim (platform.resolve path) [
        | none ↦ path_escapes path ∷ []
        | some key ↦
            if is_new
            then error_if (not (starts_with path (codes "tests/"))) (new_outside_tests path)
              ++ error_if (exists (tree key)) (new_exists path)
            else error_if (not (exists (tree key))) (missing_file path)
      ]

  unfoldable pub check_pair : Option Text × Option Text → Checked
  unfolding path_errors
  check_pair (none, none) = ([], invalid_header_pair ∷ [])
  check_pair (some old, none) = ([], deleting old ∷ [])
  check_pair (none, some new) =
      let path = normalize_patch_path new in (path ∷ [], path_errors true path)
  check_pair (some old, some new) =
      let path = normalize_patch_path new in
      if text_eq (normalize_patch_path old) path
      then (path ∷ [], path_errors false path)
      else ([], renaming old new ∷ [])

  -- The loop over the pairs.
  unfoldable pub check_pairs : List (Option Text × Option Text) → Checked
  unfolding check_pair
  check_pairs [] = ([], [])
  check_pairs (p ∷ ps) =
      let (touched, errors) = check_pair p in
      let (more, later) = check_pairs ps in (touched ++ more, errors ++ later)

  module _ (scan : Scanner) (allow_test_changes allow_new_tests : Bool) where
    -- `none` where reading a changed test raises UnicodeDecodeError
    unfoldable pub validate_proposal : PatchProposal → Option ValidationResult
    unfolding check_pairs with_findings check_integrity_pairs node_at
    validate_proposal proposal =
        let pairs = parse_diff_files proposal.unified_diff in
        with_findings proposal (check_pairs pairs) (
          check_integrity_pairs scan platform.lower node_at (split_file_diffs proposal.unified_diff)
            allow_test_changes allow_new_tests pairs)
