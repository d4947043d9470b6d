-- ===== src/Session/Replies.antt =====
-- What the text of a reply is to the analysis: parse_tool_call of code_agent/llm.py, and the choice
-- among the tools in _analyze_phase of code_agent/controller.py and execute_tool of
-- code_agent/tools/registry.py.
pub mod Binds
use safepatch.Base.{
  ℕ, Bool, true, false, ◌||◌, Option, none, some, List, [], ◌∷◌, if◌then◌else◌, Result, ok, err,
}
use safepatch.Text.{Text, codes, text_eq, elem}
use safepatch.Workspace.Tree.{Tree}
use safepatch.Workspace.Platform.{Platform}
use safepatch.Patching.Policy.Proposal.{PatchProposal}
use safepatch.Session.State.{Range}
use safepatch.Session.Reads.{EvidenceRequest, Inspection, of_file, general}
use safepatch.Session.Analyze.{
  Proposed, bad_arguments, edit_rejected, other_exception, parsed, Reply, malformed, finish_call,
  other_tool, evidence, proposed, inspect,
}
use safepatch.Model.Json.{Json, null, number, object, Members, Library, lookup}
use safepatch.Model.ToolCall.{FormatErrorKind, ToolCall, parse_tool_call}
use safepatch.Model.Proposals.{ParseError, model_output, type_error, str_field, parse_proposal}
use safepatch.Model.Edits.{
  Differ, EditError, bad_schema, rejected, uncaught, build_structured_proposal,
}

-- int(arguments[field]): parse_tool_call has left a natural number, null or nothing there.
unfoldable pub number_of : Option Json → Option ℕ
number_of (some (number n)) = some n
number_of _ = none

-- int(arguments.get("start_line", 1))
unfoldable pub start_of : Option Json → Option ℕ
unfolding number_of
start_of none = some 1
start_of (some j) = number_of (some j)

unfoldable pub bounds_of : Option ℕ → Option ℕ → Option Range
bounds_of (some start) (some end) = some (start, end)
bounds_of _ _ = none

unfoldable pub numbers_of : Option ℕ → Option ℕ → Option (ℕ × Option ℕ)
numbers_of none end = none
numbers_of (some start) end = some (start, end)

unfoldable pub of_parse : Result ParseError PatchProposal → Proposed
of_parse (ok proposal) = parsed proposal
of_parse (err (model_output kind)) = bad_arguments
of_parse (err type_error) = other_exception

unfoldable pub of_edit : Result EditError PatchProposal → Proposed
of_edit (ok proposal) = parsed proposal
of_edit (err bad_schema) = bad_arguments
of_edit (err rejected) = edit_rejected
of_edit (err uncaught) = other_exception

-- READ_TOOLS without read_file
abbrev pub general_tools : List Text
general_tools =
    codes "list_tree" ∷ codes "search_text" ∷ codes "search_symbol" ∷ codes "get_repo_map" ∷ []

-- `returns` tells whether the handler of another tool of READ_TOOLS returns.
module _ (library : Library) (platform : Platform) (differ : Differ)
    (returns : Text → Members → Bool) (tree : Tree) where
  unfoldable pub evidence_request : Members → EvidenceRequest
  unfolding str_field lookup bounds_of number_of
  evidence_request args = record {
    path = str_field library (lookup (codes "path") args);
    bounds =
        bounds_of (number_of (lookup (codes "start_line") args))
          (number_of (lookup (codes "end_line") args));
    unanswered_requirement = str_field library (lookup (codes "unanswered_requirement") args);
    reason = str_field library (lookup (codes "reason") args);
  }

  unfoldable pub file_inspection : Members → Inspection
  unfolding str_field lookup numbers_of start_of number_of
  file_inspection args = of_file (str_field library (lookup (codes "path") args)) (
      numbers_of (start_of (lookup (codes "start_line") args))
        (number_of (lookup (codes "end_line") args)))

  unfoldable pub inspection_of : Text → Members → Reply
  unfolding file_inspection elem
  inspection_of tool args =
      if text_eq tool (codes "read_file")
      then inspect (file_inspection args)
      else if elem tool general_tools
      then inspect (general (returns tool args))
      else other_tool

  -- The branches of _analyze_phase.
  unfoldable pub reply_of_call : Text → Members → Reply
  unfolding evidence_request of_edit of_parse inspection_of
  reply_of_call tool args =
      if text_eq tool (codes "request_evidence")
      then evidence (evidence_request args)
      else if text_eq tool (codes "propose_edit")
      then proposed (of_edit (build_structured_proposal library platform differ tree (object args)))
      else if text_eq tool (codes "propose_patch")
      then proposed (of_parse (parse_proposal library (object args)))
      else if text_eq tool (codes "finish")
      then finish_call
      else inspection_of tool args

  -- The reply that the controller takes a text for.
  unfoldable pub reply_of : Text → Reply
  unfolding reply_of_call
  reply_of reply = elim (parse_tool_call library reply) [
    | err kind ↦ malformed
    | ok call ↦ reply_of_call call.tool call.args
  ]
