-- ===== src/Tests/Creation.antt =====
-- Application and rollback of a patch with a new file in a directory that is not there.
use safepatch.Base.{true, false, none, some, [], ◌∷◌, ◌++◌, ◌≡◌, ◌⊎◌, refl, all, arith}
use safepatch.Text.{Text, codes, text_eq, has_duplicate}
use safepatch.Workspace.Tree.{Tree, is_file, as_file}
use safepatch.Workspace.Disk.{OsFault, torn}
use safepatch.Patching.Diff.{split_file_diffs}
use safepatch.Patching.Policy.Paths.{normalize_patch_path}
use safepatch.Patching.Policy.Proposal.{PatchProposal}
use safepatch.Patching.Policy.Validate.Allowed.{IsAllowed}
use safepatch.Patching.Applier.{applied, failed, permission_error, apply_proposal}
use safepatch.Patching.Applier.Allowed.{apply_proposal-only-IsAllowed}
use safepatch.Patching.Applier.Effect.{Patches, apply_proposal-Patches}
use safepatch.Patching.Applier.Restores.{resolved, apply_proposal-restores}
use safepatch.Tests.World.{line, second, platform, tree, scanner, proposal, disk, disk_that_refuses}

abbrev new_path : Text
new_path = codes "tests/test_c.py"

abbrev new_diff : Text
new_diff = line (
    codes "--- /dev/null"
    ∷ codes "+++ b/tests/test_c.py"
    ∷ codes "@@ -0,0 +1,2 @@"
    ∷ codes "+def test_c():"
    ∷ codes "+    assert f() == 1"
    ∷ [])

abbrev diff_of_second : Text
diff_of_second =
    line
      (codes "--- a/b.py" ∷ codes "+++ b/b.py" ∷ codes "@@ -2 +2 @@" ∷ codes "-y" ∷ codes "+w" ∷ [])

abbrev creating : PatchProposal
creating = record proposal { affected_files = new_path ∷ []; unified_diff = new_diff }

abbrev creating_then_refused : PatchProposal
creating_then_refused = record proposal {
  affected_files = new_path ∷ second ∷ [];
  unified_diff = new_diff ++ diff_of_second;
}

creates :
    (t' : Tree) × (apply_proposal platform disk scanner false true creating tree
      ≡ some (applied (new_path ∷ []) [], t'))
unfolding apply_proposal safepatch.Patching.Policy.Validate.validate_proposal
    safepatch.Patching.Diff.parse_diff_files safepatch.Text.splitlines
    safepatch.Patching.Diff.classify safepatch.Text.starts_with safepatch.Text.ends_with text_eq
    safepatch.Text.strip safepatch.Patching.Policy.Paths.is_pytest_config_path safepatch.Text.elem
    safepatch.Text.split_char safepatch.Text.replace_char safepatch.Workspace.Tree.is_file
    safepatch.Patching.Policy.Paths.is_test_path safepatch.Text.contains
    safepatch.Patching.Policy.Paths.is_root_test_name
    safepatch.Patching.Policy.Paths.normalize_patch_path safepatch.Text.sorted_set
    safepatch.Patching.Policy.Integrity.merge safepatch.Text.join
    safepatch.Patching.Policy.Paths.escapes safepatch.Patching.Policy.Paths.is_forbidden_path
    has_duplicate safepatch.Text.without safepatch.Workspace.Tree.exists
    safepatch.Text.remove_prefix split_file_diffs safepatch.Patching.Hunks.apply_hunks_to_text
    safepatch.Patching.Hunks.parse_hunks safepatch.Text.digit_value
    safepatch.Patching.Hunks.hunk_old_lines safepatch.Patching.Hunks.exact_block_matches
    safepatch.Text.splitlines_keep safepatch.Text.rstrip_newlines safepatch.Text.concat
    safepatch.Patching.Diff.is_new_file safepatch.Patching.Diff.content_from_new_file_diff
    safepatch.Patching.Policy.Validate.is_ok safepatch.Workspace.Tree.put
    safepatch.Patching.Policy.Proposal.get safepatch.Workspace.Directories.parents resolved
    safepatch.Workspace.Directories.make_parents
    safepatch.Patching.Policy.Paths.is_allowed_new_test_path
creates = (_, refl)

apply_proposal-Patches_example :
    Patches platform (split_file_diffs creating.unified_diff) tree creates.0
apply_proposal-Patches_example =
    apply_proposal-Patches platform disk scanner false true creating (new_path ∷ []) [] tree
      creates.0 creates.1

spelled :
    all (λ f. text_eq (normalize_patch_path f.0) f.0) (split_file_diffs creating.unified_diff)
    ≡ true
unfolding split_file_diffs safepatch.Text.splitlines safepatch.Patching.Diff.classify
    safepatch.Text.starts_with safepatch.Text.strip text_eq normalize_patch_path
    safepatch.Text.replace_char safepatch.Text.join safepatch.Text.split_char
spelled = refl

apply_proposal-only-IsAllowed_example :
    (as_file (creates.0 new_path) ≡ as_file (tree new_path))
    ⊎ ((path : Text) × IsAllowed platform tree path × (platform.resolve path ≡ some new_path))
apply_proposal-only-IsAllowed_example =
    apply_proposal-only-IsAllowed platform disk scanner false true creating (new_path ∷ []) [] tree
      creates.0 new_path spelled creates.1

rolls_back :
    (t' : Tree) × (apply_proposal platform disk_that_refuses scanner false true
        creating_then_refused tree
      ≡ some (failed permission_error (some second) true none, t'))
unfolding apply_proposal safepatch.Patching.Policy.Validate.validate_proposal
    safepatch.Patching.Diff.parse_diff_files safepatch.Text.splitlines
    safepatch.Patching.Diff.classify safepatch.Text.starts_with safepatch.Text.ends_with text_eq
    safepatch.Text.strip safepatch.Patching.Policy.Paths.is_pytest_config_path safepatch.Text.elem
    safepatch.Text.split_char safepatch.Text.replace_char safepatch.Workspace.Tree.is_file
    safepatch.Patching.Policy.Paths.is_test_path safepatch.Text.contains
    safepatch.Patching.Policy.Paths.is_root_test_name
    safepatch.Patching.Policy.Paths.normalize_patch_path safepatch.Text.sorted_set
    safepatch.Patching.Policy.Integrity.merge safepatch.Text.join
    safepatch.Patching.Policy.Paths.escapes safepatch.Patching.Policy.Paths.is_forbidden_path
    has_duplicate safepatch.Text.without safepatch.Workspace.Tree.exists
    safepatch.Text.remove_prefix split_file_diffs safepatch.Patching.Hunks.apply_hunks_to_text
    safepatch.Patching.Hunks.parse_hunks safepatch.Text.digit_value
    safepatch.Patching.Hunks.hunk_old_lines safepatch.Patching.Hunks.exact_block_matches
    safepatch.Text.splitlines_keep safepatch.Text.rstrip_newlines safepatch.Text.concat
    safepatch.Patching.Diff.is_new_file safepatch.Patching.Diff.content_from_new_file_diff
    safepatch.Patching.Policy.Validate.is_ok safepatch.Workspace.Tree.put
    safepatch.Patching.Policy.Proposal.get safepatch.Workspace.Directories.parents resolved
    safepatch.Workspace.Directories.make_parents
    safepatch.Patching.Policy.Paths.is_allowed_new_test_path
    safepatch.Workspace.Directories.clean_parent
rolls_back = (_, refl)

once :
    has_duplicate (resolved platform (split_file_diffs creating_then_refused.unified_diff)) ≡ false
unfolding split_file_diffs resolved safepatch.Text.splitlines safepatch.Patching.Diff.classify
    safepatch.Text.starts_with safepatch.Text.strip has_duplicate text_eq safepatch.Text.elem
once = refl

never_torn :
    (key content partial : Text) (f : OsFault)
    → disk_that_refuses.write key content ≡ torn f partial
    → is_file (tree key) ≡ true
never_torn key content partial f e = absurd (ground arith)

apply_proposal-restores_example : as_file (rolls_back.0 new_path) ≡ as_file (tree new_path)
apply_proposal-restores_example =
    apply_proposal-restores platform disk_that_refuses tree never_torn scanner false true
      creating_then_refused permission_error (some second) none rolls_back.0 once rolls_back.1
      new_path
