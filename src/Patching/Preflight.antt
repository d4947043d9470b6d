-- ===== src/Patching/Preflight.antt =====
-- PatchPreflight of code_agent/patching/preflight.py: the same matching, with no writes. The
-- excerpt and the texts of the messages are left out.
pub mod Clear
pub mod Applies
use safepatch.Base.{
  ℕ, ◌+◌, ◌-◌, Bool, true, false, not, Option, none, some, List, [], ◌∷◌, ◌++◌, map, length, min,
  max, ◌==◌, if◌then◌else◌, Result, ok, err, ◌>>=◌,
}
use safepatch.Text.{Text, text_eq, splitlines}
use safepatch.Workspace.Tree.{Node, Tree, absent, directory, file, opaque, exists}
use safepatch.Workspace.Platform.{Platform}
use safepatch.Patching.Hunks.{ErrorKind, HunkMatchError, Relocation, apply_hunks_to_text}
use safepatch.Patching.Diff.{split_file_diffs, is_new_file, content_from_new_file_diff}
use safepatch.Patching.Policy.Proposal.{PatchProposal, get}
use safepatch.Patching.Applier.{FileRelocation, file_revision}
use safepatch.Patching.Hashes.{patch_hash, working_tree_hash}

-- EXCERPT_RADIUS
abbrev pub excerpt_radius : ℕ
excerpt_radius = 8

pub data PreflightErrorKind : Type 0 where
  empty_diff refuse_overwrite missing_file stale_file_revision preflight_error : PreflightErrorKind
  of_hunk : ErrorKind → PreflightErrorKind

pub record PreflightFailure : Type 0 where
  pub error_kind : PreflightErrorKind
  pub target_file : Text
  pub requested_line : Option ℕ
  pub suggested_read : Option (ℕ × ℕ)

pub record PreflightSuccess : Type 0 where
  pub patch_hash : Text
  pub working_tree_hash : Text
  pub files : List Text
  pub relocations : List FileRelocation

abbrev pub failure : PreflightErrorKind → Text → PreflightFailure
failure kind path = record {
  error_kind = kind;
  target_file = path;
  requested_line = none;
  suggested_read = none;
}

-- _suggested_read_range
unfoldable pub suggested_read_range : Node → Option ℕ → Option (ℕ × ℕ)
suggested_read_range (file content) (some line) =
    let count = length (splitlines content) in
    if count == 0
    then some (1, 1)
    else some (max 1 (line - excerpt_radius), min count (line + excerpt_radius))
suggested_read_range _ _ = none

-- The handler of HunkMatchError.
unfoldable pub hunk_failure : Node → HunkMatchError → PreflightFailure
unfolding suggested_read_range
hunk_failure n e = record {
  error_kind = of_hunk e.error_kind;
  target_file = e.target_file;
  requested_line = e.line_no;
  suggested_read = suggested_read_range n e.line_no;
}

-- A stale file: the first 120 lines are to be read again; a file that is not UTF-8 raises.
unfoldable pub stale_failure : Text → Node → PreflightFailure
stale_failure path (file content) = record {
  error_kind = stale_file_revision;
  target_file = path;
  requested_line = some 1;
  suggested_read = some (1, min (max (length (splitlines content)) 1) 120);
}
stale_failure path _ = failure preflight_error []

-- An existing file where a new one is wanted; the excerpt of a file that is not UTF-8 raises.
unfoldable pub overwrite_failure : Text → Node → PreflightFailure
overwrite_failure path (opaque bytes) = failure preflight_error []
overwrite_failure path _ = failure refuse_overwrite path

unfoldable pub check_new : Text → Text → Node → Result PreflightFailure (List FileRelocation)
unfolding overwrite_failure
check_new path body n =
    if exists n then err (overwrite_failure path n) else elim (content_from_new_file_diff body) [
      | none ↦ err (failure preflight_error [])
      | some content ↦ ok []
    ]

-- The simulated application to the text of a file.
unfoldable pub check_hunks : Text → Text → Node → Result PreflightFailure (List FileRelocation)
unfolding hunk_failure
check_hunks path body (file original) = elim (apply_hunks_to_text original body path) [
  | err e ↦ err (hunk_failure (file original) e)
  | ok r ↦ ok (map (λ m. record { file = path; relocation = m }) r.1)
]
check_hunks path body _ = err (failure preflight_error [])

module _ (platform : Platform) (tree : Tree) (revisions : List (Text × Text)) where
  unfoldable pub check_existing : Text → Text → Node → Result PreflightFailure (List FileRelocation)
  unfolding check_hunks stale_failure
  check_existing path body n =
      if not (exists n) then err (failure missing_file path) else elim (get revisions path) [
        | none ↦ check_hunks path body n
        | some expected ↦ elim (file_revision platform n) [
          | none ↦ err (failure preflight_error [])
          | some current ↦
              if text_eq current expected
              then check_hunks path body n
              else err (stale_failure path n)
        ]
      ]

  -- The round of the loop for one file.
  unfoldable pub check_file : Text × Text → Result PreflightFailure (List FileRelocation)
  unfolding check_new check_existing
  check_file (path, body) = elim (platform.resolve path) [
    | none ↦ err (failure preflight_error [])
    | some key ↦
        if is_new_file body
        then check_new path body (tree key)
        else check_existing path body (tree key)
  ]

  unfoldable pub check_files : List (Text × Text) → Result PreflightFailure (List FileRelocation)
  unfolding check_file
  check_files [] = ok []
  check_files (f ∷ fs) = check_file f >>= λ moved. check_files fs >>= λ later. ok (moved ++ later)

unfoldable pub run_files :
    Platform → Tree → PatchProposal → List (Text × Text) → Result PreflightFailure PreflightSuccess
unfolding check_files
run_files platform tree proposal [] = err (failure empty_diff [])
run_files platform tree proposal (f ∷ fs) =
    check_files platform tree proposal.base_revisions (f ∷ fs) >>= λ moved. ok (record {
      patch_hash = patch_hash platform proposal.unified_diff;
      working_tree_hash = working_tree_hash platform tree;
      files = map (λ c. c.0) (f ∷ fs);
      relocations = moved;
    })

-- PatchPreflight.run
unfoldable pub run : Platform → Tree → PatchProposal → Result PreflightFailure PreflightSuccess
unfolding run_files
run platform tree proposal =
    run_files platform tree proposal (split_file_diffs proposal.unified_diff)
