-- ===== src/Tests/Model.antt =====
-- Replies of the model, proposals and structured edits at the small working copy.
use safepatch.Base.{
  true, none, some, [], ◌∷◌, ◌++◌, ◌≡◌, ◌≢◌, ◌⊎◌, refl, ok, err, arith, if◌then◌else◌, ℕ, zero, suc,
  All,
}
use safepatch.Text.{Text, codes, text_eq}
use safepatch.Workspace.Platform.{Platform}
use safepatch.Patching.Policy.Proposal.{PatchProposal}
use safepatch.Model.Json.{
  Json, text, number, array, object, no_items, item, Members, no_members, member, Library,
}
use safepatch.Model.ToolCall.{ToolCall, parse_tool_call, invalid_proposal_schema}
use safepatch.Model.ToolCall.Checked.{IsChecked, parse_tool_call-IsChecked}
use safepatch.Model.Proposals.{looks_like_diff, parse_proposal, to_dict, model_output}
use safepatch.Model.Proposals.RoundTrip.{parse_proposal-to_dict, parse_proposal_total}
use safepatch.Model.Edits.{Edit, Differ, replace_in, build_structured_proposal, with_file_newlines}
use safepatch.Model.Edits.Unique.{ReplacedOnce, replace_in-once}
use safepatch.Model.Edits.Current.{IsCurrent, build_structured_proposal-IsCurrent}
use safepatch.Tests.World.{original, patched, path, platform, tree, proposal}

abbrev reply : Text
reply =
    codes "go: {\"tool\": \"read_file\", \"args\": {\"path\": \"a.py\", \"start_line\": \"12\"}}"

abbrev blob : Text
blob = codes "{\"tool\": \"read_file\", \"args\": {\"path\": \"a.py\", \"start_line\": \"12\"}}"

abbrev with_start : Json → Members
with_start start = member (codes "path") (text path) (member (codes "start_line") start no_members)

abbrev library : Library
library = record {
  loads = λ t.
      if text_eq t blob
      then some (
          object (
            member (codes "tool") (text (codes "read_file"))
              (member (codes "args") (object (with_start (text (codes "12")))) no_members)))
      else none;
  repr = λ j. codes "?";
}

abbrev call : ToolCall
call = record { tool = codes "read_file"; args = with_start (number 12) }

parses : parse_tool_call library reply ≡ ok call
unfolding parse_tool_call safepatch.Text.starts_with safepatch.Text.strip text_eq
parses = refl

parse_tool_call-IsChecked_example : IsChecked call
parse_tool_call-IsChecked_example = parse_tool_call-IsChecked library reply call parses

abbrev pub described : PatchProposal
described = record proposal {
  diagnosis = codes "wrong line";
  expected_behavior = codes "z";
  risk_notes = codes "none";
}

looks : looks_like_diff described.unified_diff ≡ true
unfolding looks_like_diff safepatch.Text.contains safepatch.Text.starts_with
looks = refl

parse_proposal-to_dict_example : parse_proposal library (object (to_dict described)) ≡ ok described
parse_proposal-to_dict_example =
    parse_proposal-to_dict library described (λ e. absurd (ground arith))
      (λ e. absurd (ground arith)) (λ e. absurd (ground arith)) (λ e. absurd (ground arith)) looks

parse_proposal_total_example :
    (parse_proposal library (text []) ≡ err (model_output invalid_proposal_schema))
    ⊎ ((p : PatchProposal) × (parse_proposal library (text []) ≡ ok p)
        × (looks_like_diff p.unified_diff ≡ true))
parse_proposal_total_example = parse_proposal_total library (text [])

abbrev zeros : ℕ → Text
zeros zero = []
zeros (suc n) = codes "0" ++ zeros n

abbrev hashing : Platform
hashing = record platform { sha256 = λ t. zeros 64 }

abbrev edit : Edit
edit = record {
  path = path;
  old_text = codes "y\n";
  new_text = codes "z\n";
  base_revision = codes "sha256:" ++ zeros 64;
}

replaces : replace_in edit original ≡ some patched
unfolding replace_in safepatch.Text.starts_with
    safepatch.Patching.Policy.Integrity.universal_newlines safepatch.Text.contains
replaces = refl

replace_in-once_example :
    ReplacedOnce original
      (with_file_newlines (codes "y\n") original)
      (with_file_newlines (codes "z\n") original)
      patched
replace_in-once_example = replace_in-once edit original patched replaces

abbrev members : Members
members = member (codes "diagnosis") (text (codes "wrong line")) (
    member (codes "expected_behavior") (text (codes "z")) (
      member (codes "risk_notes") (text (codes "none")) (
        member (codes "tests_to_run") (array no_items) (
          member (codes "edits")
            (array (
              item
                (object (
                  member (codes "path") (text path) (
                    member (codes "old_text") (text edit.old_text) (
                      member (codes "new_text") (text edit.new_text)
                        (member (codes "base_revision") (text edit.base_revision) no_members)))))
                no_items))
            no_members))))

-- A function in the place of difflib.unified_diff, which names the file.
abbrev pub differ : Differ
differ = λ old new from to. from ∷ to ∷ new

abbrev built : PatchProposal
built = record described {
  unified_diff = codes "a/a.py" ++ (codes "b/a.py" ++ patched);
  base_revisions = (path, edit.base_revision) ∷ [];
}

builds : build_structured_proposal library hashing differ tree (object members) ≡ ok built
unfolding build_structured_proposal text_eq safepatch.Text.remove_prefix safepatch.Text.replace_char
    safepatch.Patching.Policy.Validate.is_revision safepatch.Session.Reads.safe_resolve
    safepatch.Text.strip safepatch.Text.elem safepatch.Text.split_char safepatch.Text.ends_with
    safepatch.Patching.Policy.Paths.name safepatch.Patching.Applier.file_revision
    safepatch.Patching.Policy.Integrity.universal_newlines safepatch.Text.contains
    safepatch.Text.splitlines_keep
builds = refl

build_structured_proposal-IsCurrent_example :
    All (IsCurrent hashing tree) built.base_revisions × (built.unified_diff ≢ [])
build_structured_proposal-IsCurrent_example =
    build_structured_proposal-IsCurrent library hashing differ tree (object members) built builds
