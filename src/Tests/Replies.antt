-- ===== src/Tests/Replies.antt =====
-- A text that proposes a patch of the small working copy.
use safepatch.Base.{◌≡◌, refl, true, some, [], ok}
use safepatch.Text.{Text, codes}
use safepatch.Patching.Policy.Validate.{is_empty}
use safepatch.Session.State.{TaskSession, ApprovalBinding}
use safepatch.Session.Analyze.{bound, step}
use safepatch.Session.Replies.{reply_of}
use safepatch.Session.Replies.Binds.{Proposes, reply_of-IsChecked}
use safepatch.Session.Analyze.Checked.{IsChecked}
use safepatch.Model.Json.{text, object, no_members, member, Library}
use safepatch.Model.ToolCall.{ToolCall, parse_tool_call}
use safepatch.Model.Proposals.{to_dict}
use safepatch.Tests.World.{platform, scanner, tree}
use safepatch.Tests.Model.{described, differ}
use safepatch.Tests.Session.{start, options}

abbrev loaded : Library
loaded = record {
  loads = λ t. some (
      object (
        member (codes "tool") (text (codes "propose_patch"))
          (member (codes "args") (object (to_dict described)) no_members)));
  repr = λ j. [];
}

binding_step :
    (b : ApprovalBinding) × (s' : TaskSession) × (step platform scanner options tree
        (reply_of loaded platform differ (λ tool args. true) tree (codes "{}"))
        start
      ≡ bound b s')
unfolding step safepatch.Session.Replies.reply_of parse_tool_call
    safepatch.Model.Proposals.parse_proposal to_dict
    safepatch.Patching.Policy.Validate.validate_proposal safepatch.Patching.Applier.apply_proposal
    safepatch.Patching.Preflight.run safepatch.Patching.Hashes.patch_hash
    safepatch.Patching.Hashes.working_tree_hash safepatch.Patching.Diff.parse_diff_files
    safepatch.Text.splitlines safepatch.Patching.Diff.classify safepatch.Text.starts_with
    safepatch.Text.ends_with safepatch.Text.text_eq safepatch.Text.strip
    safepatch.Patching.Policy.Paths.is_pytest_config_path safepatch.Text.elem
    safepatch.Text.split_char safepatch.Text.replace_char safepatch.Workspace.Tree.is_file
    safepatch.Patching.Policy.Paths.is_test_path safepatch.Text.contains
    safepatch.Patching.Policy.Paths.is_root_test_name
    safepatch.Patching.Policy.Paths.normalize_patch_path safepatch.Text.sorted_set
    safepatch.Patching.Policy.Integrity.merge safepatch.Text.join
    safepatch.Patching.Policy.Paths.escapes safepatch.Patching.Policy.Paths.is_forbidden_path
    safepatch.Text.has_duplicate safepatch.Text.without safepatch.Workspace.Tree.exists
    safepatch.Text.remove_prefix safepatch.Patching.Diff.split_file_diffs
    safepatch.Patching.Hunks.apply_hunks_to_text safepatch.Patching.Hunks.parse_hunks
    safepatch.Text.digit_value safepatch.Patching.Hunks.hunk_old_lines
    safepatch.Patching.Hunks.exact_block_matches safepatch.Text.splitlines_keep
    safepatch.Text.rstrip_newlines safepatch.Text.concat safepatch.Patching.Diff.is_new_file
    safepatch.Patching.Diff.content_from_new_file_diff safepatch.Patching.Policy.Validate.is_ok
    safepatch.Workspace.Tree.put safepatch.Patching.Policy.Proposal.get
binding_step = (_, _, refl)

reply_of-IsChecked_example :
    ((call : ToolCall) × (parse_tool_call loaded (codes "{}") ≡ ok call)
      × Proposes loaded platform differ
          (λ tool args. true)
          tree
          call.tool
          call.args
          binding_step.0.proposal)
    × (is_empty start.required_reads ≡ true)
    × IsChecked platform scanner options tree binding_step.0
reply_of-IsChecked_example =
    reply_of-IsChecked loaded platform differ (λ tool args. true) tree scanner options (codes "{}")
      start binding_step.1 binding_step.0 binding_step.2
