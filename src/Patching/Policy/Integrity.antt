-- ===== src/Patching/Policy/Integrity.antt =====
-- code_agent/patching/test_integrity.py. The regular expressions and `ast.parse` that look into
-- the text of a test file are the functions of a `Scanner`.
use safepatch.Base.{
  ℕ, Bool, true, false, not, ◌&&◌, ◌||◌, Option, none, some, List, [], ◌∷◌, ◌++◌, any, filter,
  length, drop, reverse, ltb, ◌==◌, if◌then◌else◌, ok, err,
}
use safepatch.Text.{Text, codes, text_eq, starts_with, splitlines, join}
use safepatch.Workspace.Tree.{Node, file, is_file}
use safepatch.Patching.Hunks.{apply_hunks_to_text}
use safepatch.Patching.Policy.Paths.{
  slashes, name, is_test_path, is_allowed_new_test_path, is_pytest_config_path, is_root_test_name,
}
use safepatch.Patching.Policy.Proposal.{get}

-- What the policy holds against a proposal: one constructor for each message.
pub data PolicyError : Type 0 where
  no_headers invalid_header_pair duplicate_files too_many_files duplicate_affected : PolicyError
  deleting path_escapes forbidden_path not_python new_outside_tests new_exists : Text → PolicyError
  missing_file revision_not_in_diff invalid_revision deleting_test config_modified :
      Text → PolicyError
  new_tests_disabled new_test_name root_test test_modified unanalyzable : Text → PolicyError
  skip_in_test assert_true_in_test no_test_function no_assertion : Text → PolicyError
  assertions_removed : Text → PolicyError
  renaming : Text → Text → PolicyError
  too_many_lines : ℕ → PolicyError
  undeclared untouched : List Text → PolicyError

pub record Scanner : Type 0 where
  -- SKIP_CALL_RE or SKIP_MARK_RE found in a text
  pub skips : Text → Bool
  -- ASSERT_TRUE_RE found in a line
  pub asserts_true : Text → Bool
  -- ASSERT_RE or RAISES_RE found in a text
  pub asserts : Text → Bool
  -- ast.parse: `none` for a SyntaxError, or whether the module defines a test
  pub parsed_tests : Text → Option Bool
  -- the two patterns for a text that does not parse
  pub matched_tests : Text → Bool

-- TestIntegrityResult; a warning is the path that it is about.
pub record Findings : Type 0 where
  pub errors : List PolicyError
  pub warnings : List Text
  pub new_test_files : List Text
  pub modified_test_files : List Text
  pub high_risk : Bool

abbrev pub no_findings : Findings
no_findings = record {
  errors = [];
  warnings = [];
  new_test_files = [];
  modified_test_files = [];
  high_risk = false;
}

abbrev pub only_errors : List PolicyError → Findings
only_errors es = record no_findings { errors = es }

unfoldable pub merge : Findings → Findings → Findings
merge a b = record {
  errors = a.errors ++ b.errors;
  warnings = a.warnings ++ b.warnings;
  new_test_files = a.new_test_files ++ b.new_test_files;
  modified_test_files = a.modified_test_files ++ b.modified_test_files;
  high_risk = a.high_risk || b.high_risk;
}

-- Reading with universal newlines, as Path.read_text does.
unfoldable pub universal_newlines : Text → Text
universal_newlines [] = []
universal_newlines (c ∷ s) =
    let rest = universal_newlines s in
    if c == 0x0d then (if starts_with s (codes "\n") then rest else 0x0a ∷ rest) else c ∷ rest

-- The loop of _content_from_new_diff, which skips deletions.
unfoldable pub new_diff_out : Bool → List Text → List Text
new_diff_out in_hunk [] = []
new_diff_out in_hunk (line ∷ rest) =
    let later = new_diff_out (in_hunk || starts_with line (codes "@@")) rest in
    if starts_with line (codes "@@") || not in_hunk
    then later
    else if starts_with line (codes "+") || starts_with line (codes " ")
    then drop 1 line ∷ later
    else later

unfoldable pub content_from_new_diff : Text → Text
unfolding new_diff_out
content_from_new_diff body =
    let out = new_diff_out false (splitlines body) in
    if ltb 0 (length out) then join (codes "\n") out ++ codes "\n" else []

abbrev pub error_if : Bool → PolicyError → List PolicyError
error_if b e = if b then e ∷ [] else []

module _ (scan : Scanner) where
  -- _count_assertions
  unfoldable pub count_assertions : Text → ℕ
  count_assertions content = length (filter scan.asserts (splitlines content))

  -- _check_evasion_in_text
  unfoldable pub check_evasion_in_text : Text → Text → List PolicyError
  check_evasion_in_text path content =
      error_if (scan.skips content) (skip_in_test path)
      ++ error_if (any scan.asserts_true (splitlines content)) (assert_true_in_test path)

  -- _check_new_test_has_tests_and_asserts
  unfoldable pub check_new_test_has_tests_and_asserts : Text → Text → List PolicyError
  unfolding count_assertions
  check_new_test_has_tests_and_asserts path content = elim (scan.parsed_tests content) [
    | none ↦
        error_if (not (scan.matched_tests content)) (no_test_function path)
        ++ error_if (not (scan.asserts content)) (no_assertion path)
    | some defines ↦
        error_if (not defines) (no_test_function path)
        ++ error_if (not (ltb 0 (count_assertions content))) (no_assertion path)
  ]

  -- _check_new_file
  unfoldable pub check_new_file : Bool → Text → Text → Findings
  unfolding slashes check_evasion_in_text check_new_test_has_tests_and_asserts content_from_new_diff
  check_new_file allow_new_tests path body =
      let in_tests = starts_with (slashes path) (codes "tests/") in
      let content = content_from_new_diff body in
      if not allow_new_tests
      then only_errors (error_if (is_test_path path || in_tests) (new_tests_disabled path))
      else if in_tests
      then (if not (is_allowed_new_test_path path)
          then only_errors (new_test_name path ∷ [])
          else record {
            errors =
                check_evasion_in_text path content
                ++ check_new_test_has_tests_and_asserts path content;
            warnings = path ∷ [];
            new_test_files = path ∷ [];
            modified_test_files = [];
            high_risk = true;
          })
      else only_errors (error_if (is_root_test_name path) (root_test path))

  -- The errors for the added lines of a changed test.
  unfoldable pub check_added_lines : Text → List Text → List PolicyError
  check_added_lines path [] = []
  check_added_lines path (line ∷ rest) =
      let later = check_added_lines path rest in
      if starts_with line (codes "+") && not (starts_with line (codes "+++"))
      then error_if (scan.skips (drop 1 line)) (skip_in_test path)
        ++ (error_if (scan.asserts_true (drop 1 line)) (assert_true_in_test path) ++ later)
      else later

  unfoldable pub check_updated : Text → Text → Text → Text → List PolicyError
  unfolding check_evasion_in_text check_added_lines count_assertions
  check_updated path body original updated =
      check_evasion_in_text path updated
      ++ (check_added_lines path (splitlines body)
          ++ error_if (ltb 0 (count_assertions original) && not (ltb 0 (count_assertions updated)))
              (assertions_removed path))

  -- _check_modified_existing_test; `none` where the file is not UTF-8 and read_text raises
  unfoldable pub check_modified_existing_test : Text → Text → Node → Option (List PolicyError)
  unfolding check_updated universal_newlines
  check_modified_existing_test path body (file content) =
      let original = universal_newlines content in
      some (elim (apply_hunks_to_text original body path) [
        | ok r ↦ check_updated path body original r.0
        | err e ↦ unanalyzable path ∷ []
      ])
  check_modified_existing_test path body _ = none

  unfoldable pub existing_test : Text → Option (List PolicyError) → Option Findings
  existing_test path none = none
  existing_test path (some es) = some (record {
    errors = es;
    warnings = path ∷ [];
    new_test_files = [];
    modified_test_files = path ∷ [];
    high_risk = true;
  })

  module _ (lower : Text → Text) (at : Text → Node) (bodies : List (Text × Text))
      (allow_test_changes allow_new_tests : Bool) where
    -- bodies.get(path, ""): the last entry of a path counts
    unfoldable pub body_of : Text → Text
    body_of path = elim (get (reverse bodies) path) [ none ↦ [] | some body ↦ body ]

    unfoldable pub check_existing : Text → Option Findings
    unfolding existing_test body_of
    check_existing path =
        if not (is_file (at path))
        then some no_findings
        else if is_test_path path || is_root_test_name path
        then (if not allow_test_changes
            then some (only_errors (test_modified path ∷ []))
            else existing_test path (check_modified_existing_test path (body_of path) (at path)))
        else some no_findings

    -- The round of the loop for one pair of headers; `at` is the node at workspace_root / path.
    unfoldable pub check_integrity_pair : Option Text × Option Text → Option Findings
    unfolding check_existing check_new_file
    check_integrity_pair (none, none) = some no_findings
    check_integrity_pair (some old, none) = some (
        only_errors
          (error_if (is_test_path old || is_pytest_config_path lower old) (deleting_test old)))
    check_integrity_pair (old, some new) =
        let path = slashes new in
        if is_pytest_config_path lower path || text_eq (name path) (codes "conftest.py")
        then some (only_errors (config_modified path ∷ []))
        else elim old [
          | none ↦ some (check_new_file allow_new_tests path (body_of path))
          | some o ↦ check_existing path
        ]

    unfoldable pub merge_option : Option Findings → Option Findings → Option Findings
    merge_option none b = none
    merge_option (some a) none = none
    merge_option (some a) (some b) = some (merge a b)

    unfoldable pub check_integrity_pairs : List (Option Text × Option Text) → Option Findings
    unfolding check_integrity_pair merge_option
    check_integrity_pairs [] = some no_findings
    check_integrity_pairs (p ∷ ps) =
        merge_option (check_integrity_pair p) (check_integrity_pairs ps)
