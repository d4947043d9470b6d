-- ===== src/Tests/Applier.antt =====
-- Application and rollback at one working copy.
use safepatch.Base.{true, false, none, some, [], ◌∷◌, ◌≡◌, refl, ok, all}
use safepatch.Text.{Text, codes, text_eq, has_duplicate}
use safepatch.Workspace.Tree.{Tree, file, put, is_file, as_file}
use safepatch.Workspace.Directories.{parents}
use safepatch.Patching.Diff.{split_file_diffs}
use safepatch.Patching.Policy.Proposal.{PatchProposal}
use safepatch.Patching.Policy.Validate.{is_ok}
use safepatch.Patching.Hashes.{patch_hash, working_tree_hash}
use safepatch.Patching.Preflight.{PreflightSuccess, run}
use safepatch.Patching.Preflight.Applies.{preflight_applies}
use safepatch.Patching.Preflight.Clear.{is_clear}
use safepatch.Patching.Applier.{applied, failed, permission_error, apply_proposal}
use safepatch.Patching.Applier.Restores.{resolved}
use safepatch.Tests.World.{
  original, patched, diff, path, second, platform, tree, scanner, proposal, disk, disk_that_refuses,
  proposal_for_two,
}
use safepatch.Tests.Policy.{valid, validates}

once : has_duplicate (resolved platform (split_file_diffs proposal.unified_diff)) ≡ false
unfolding split_file_diffs resolved safepatch.Text.splitlines safepatch.Patching.Diff.classify
    safepatch.Text.starts_with safepatch.Text.strip has_duplicate text_eq safepatch.Text.elem
once = refl

clear :
    all
      (is_clear tree (resolved platform (split_file_diffs proposal.unified_diff)))
      (resolved platform (split_file_diffs proposal.unified_diff))
    ≡ true
unfolding split_file_diffs resolved safepatch.Text.splitlines safepatch.Patching.Diff.classify
    safepatch.Text.starts_with safepatch.Text.strip parents text_eq
clear = refl

abbrev pub checked : PreflightSuccess
checked = record {
  patch_hash = patch_hash platform diff;
  working_tree_hash = working_tree_hash platform tree;
  files = path ∷ [];
  relocations = [];
}

pub preflight_passes : run platform tree proposal ≡ ok checked
unfolding run safepatch.Patching.Diff.parse_diff_files safepatch.Text.splitlines
    safepatch.Patching.Diff.classify safepatch.Text.starts_with safepatch.Text.ends_with text_eq
    safepatch.Text.strip safepatch.Patching.Policy.Paths.is_pytest_config_path safepatch.Text.elem
    safepatch.Text.split_char safepatch.Text.replace_char safepatch.Workspace.Tree.is_file
    safepatch.Patching.Policy.Paths.is_test_path safepatch.Text.contains
    safepatch.Patching.Policy.Paths.is_root_test_name
    safepatch.Patching.Policy.Paths.normalize_patch_path safepatch.Text.sorted_set
    safepatch.Patching.Policy.Integrity.merge safepatch.Text.join
    safepatch.Patching.Policy.Paths.escapes safepatch.Patching.Policy.Paths.is_forbidden_path
    has_duplicate safepatch.Text.without safepatch.Workspace.Tree.exists
    safepatch.Text.remove_prefix split_file_diffs safepatch.Patching.Hunks.apply_hunks_to_text
    safepatch.Patching.Hunks.parse_hunks safepatch.Text.digit_value
    safepatch.Patching.Hunks.hunk_old_lines safepatch.Patching.Hunks.exact_block_matches
    safepatch.Text.splitlines_keep safepatch.Text.rstrip_newlines safepatch.Text.concat
    safepatch.Patching.Diff.is_new_file safepatch.Patching.Diff.content_from_new_file_diff is_ok put
    safepatch.Patching.Policy.Proposal.get patch_hash working_tree_hash
preflight_passes = refl

pub applies :
    (t' : Tree) × (apply_proposal platform disk scanner false true proposal tree
      ≡ some (applied valid.files checked.relocations, t'))
unfolding is_ok
applies =
    preflight_applies platform disk (λ k. refl) (λ k c. refl) scanner false true tree proposal valid
      checked once clear validates refl preflight_passes

preflight_applies_example :
    (t' : Tree) × (apply_proposal platform disk scanner false true proposal tree
      ≡ some (applied valid.files checked.relocations, t'))
unfolding is_ok
preflight_applies_example =
    preflight_applies platform disk (λ k. refl) (λ k c. refl) scanner false true tree proposal valid
      checked once clear validates refl preflight_passes

abbrev rolled_back : Tree
rolled_back = put (put (put tree path (file patched)) path (file original)) second (file original)

write_refused :
    apply_proposal platform disk_that_refuses scanner false true proposal_for_two tree
    ≡ some (failed permission_error (some second) true none, rolled_back)
unfolding apply_proposal safepatch.Patching.Policy.Validate.validate_proposal
    safepatch.Patching.Diff.parse_diff_files safepatch.Text.splitlines
    safepatch.Patching.Diff.classify safepatch.Text.starts_with safepatch.Text.ends_with text_eq
    safepatch.Text.strip safepatch.Patching.Policy.Paths.is_pytest_config_path safepatch.Text.elem
    safepatch.Text.split_char safepatch.Text.replace_char safepatch.Workspace.Tree.is_file
    safepatch.Patching.Policy.Paths.is_test_path safepatch.Text.contains
    safepatch.Patching.Policy.Paths.is_root_test_name
    safepatch.Patching.Policy.Paths.normalize_patch_path safepatch.Text.sorted_set
    safepatch.Patching.Policy.Integrity.merge safepatch.Text.join
    safepatch.Patching.Policy.Paths.escapes safepatch.Patching.Policy.Paths.is_forbidden_path
    has_duplicate safepatch.Text.without safepatch.Workspace.Tree.exists
    safepatch.Text.remove_prefix split_file_diffs safepatch.Patching.Hunks.apply_hunks_to_text
    safepatch.Patching.Hunks.parse_hunks safepatch.Text.digit_value
    safepatch.Patching.Hunks.hunk_old_lines safepatch.Patching.Hunks.exact_block_matches
    safepatch.Text.splitlines_keep safepatch.Text.rstrip_newlines safepatch.Text.concat
    safepatch.Patching.Diff.is_new_file safepatch.Patching.Diff.content_from_new_file_diff is_ok put
    safepatch.Patching.Policy.Proposal.get
write_refused = refl
