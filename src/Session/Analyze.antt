-- ===== src/Session/Analyze.antt =====
-- The analysis phase of code_agent/controller.py: _analyze_phase with the methods that it calls.
-- The model's reply to a step is a value of `Reply`, whatever the messages were.
pub mod Budgets
pub mod Steps
pub mod Checked
use safepatch.Base.{
  ℕ, suc, zero, ◌+◌, ◌-◌, Bool, true, false, not, ◌&&◌, ◌||◌, Option, none, some, List, [], ◌∷◌,
  length, min, max, ltb, leb, if◌then◌else◌, Result, ok, err,
}
use safepatch.Text.{Text, splitlines}
use safepatch.Workspace.Tree.{Node, Tree, file}
use safepatch.Workspace.Platform.{Platform}
use safepatch.Patching.Hashes.{patch_hash, working_tree_hash}
use safepatch.Patching.Policy.Proposal.{PatchProposal}
use safepatch.Patching.Policy.Integrity.{Scanner}
use safepatch.Patching.Policy.Validate.{ValidationResult, is_ok, is_empty, validate_proposal}
use safepatch.Patching.Preflight.{PreflightFailure, PreflightSuccess, run}
use safepatch.Session.Status.{
  SessionStatus, analyzing, patch_proposed, patch_not_applicable, model_output_invalid,
  read_budget_exhausted, error, is_terminal, AnalysisPhase, explore, synthesize, propose, finish,
  not_applicable, output_invalid, synthesis_no_progress, evidence_hard_violation,
  synthesis_step_limit, analysis_step_limit, llm_error, agent_finished_without_patch,
}
use safepatch.Session.State.{TaskSession, ApprovalBinding, Options}
use safepatch.Session.Reads.{
  normalized_path, set_range, is_explore, is_synthesize, record_required_read_if_satisfied,
  EvidenceRequest, EvidenceErrorKind, parameter_error, no_progress, hard_violation,
  execute_request_evidence, Inspection, of_file, general, charge, handle,
}

-- What parse_proposal or build_structured_proposal makes of the arguments: ModelOutputError,
-- StructuredEditError, an exception that is neither, or a proposal.
pub data Proposed : Type 0 where
  bad_arguments edit_rejected other_exception : Proposed
  parsed : PatchProposal → Proposed

-- A reply of the model: an answer that is no tool call, a failed call, or a tool call.
pub data Reply : Type 0 where
  malformed failed_call finish_call other_tool : Reply
  evidence : EvidenceRequest → Reply
  proposed : Proposed → Reply
  inspect : Inspection → Reply

-- How a step of the analysis ends; `raised` is an exception that _analyze_phase lets pass.
pub data Next : Type 0 where
  go_on stop raised : TaskSession → Next
  bound : ApprovalBinding → TaskSession → Next

-- _handle_format_error
unfoldable pub handle_format_error : TaskSession → Next
handle_format_error s =
    if leb s.max_format_retries s.consecutive_format_retries
    then stop (record s { status = model_output_invalid; stop_reason = output_invalid })
    else go_on (record s {
      consecutive_format_retries = suc s.consecutive_format_retries;
      total_format_retries_used = suc s.total_format_retries_used;
    })

-- An action that makes no progress; the second in a row ends the analysis.
unfoldable pub note_no_progress : TaskSession → Next
note_no_progress s =
    let count = suc s.consecutive_no_progress_actions in
    let s' = record s {
      consecutive_no_progress_actions = count;
      total_no_progress_actions = suc s.total_no_progress_actions;
      consecutive_read_budget_violations = count;
      total_read_budget_violations = suc s.total_read_budget_violations;
    } in
    if ltb count 2
    then go_on s'
    else stop (record s' { status = read_budget_exhausted; stop_reason = synthesis_no_progress })

-- _handle_evidence_error
unfoldable pub handle_evidence_error : EvidenceErrorKind → TaskSession → Next
unfolding note_no_progress
handle_evidence_error parameter_error s =
    if ltb s.evidence_parameter_corrections_used s.max_evidence_parameter_corrections
    then go_on (record s {
      evidence_parameter_corrections_used = suc s.evidence_parameter_corrections_used;
    })
    else note_no_progress s
handle_evidence_error no_progress s = note_no_progress s
handle_evidence_error hard_violation s = stop (record s {
  hard_policy_violations = suc s.hard_policy_violations;
  status = read_budget_exhausted;
  stop_reason = evidence_hard_violation;
})

-- _regeneration_exhausted
unfoldable pub regeneration_exhausted : TaskSession → Bool
regeneration_exhausted s =
    leb s.max_patch_regeneration_retries s.consecutive_patch_regeneration_retries

-- _consume_regeneration
unfoldable pub consume_regeneration : TaskSession → TaskSession
consume_regeneration s = record s {
  consecutive_patch_regeneration_retries = suc s.consecutive_patch_regeneration_retries;
  total_patch_regeneration_retries = suc s.total_patch_regeneration_retries;
}

-- _require_failure_region_read
unfoldable pub require_failure_region_read : PreflightFailure → TaskSession → TaskSession
unfolding is_empty normalized_path set_range
require_failure_region_read failure s =
    if is_empty failure.target_file then s else elim failure.suggested_read [
      | none ↦ s
      | some range ↦ record s {
        required_reads = set_range s.required_reads (normalized_path failure.target_file) range;
      }
    ]

unfoldable pub first : Option Bool → Bool → Option Bool
first none b = some b
first (some a) b = some a

-- The part of _run_preflight for a failure, and the caller's check of the status.
unfoldable pub preflight_failed : PreflightFailure → TaskSession → Next
unfolding first regeneration_exhausted require_failure_region_read consume_regeneration
preflight_failed failure s =
    let s' = record s {
      patch_preflight_failures = suc s.patch_preflight_failures;
      first_patch_applicable = first s.first_patch_applicable false;
    } in
    if regeneration_exhausted s'
    then stop (record s' { status = patch_not_applicable; stop_reason = not_applicable })
    else go_on (record (consume_regeneration (require_failure_region_read failure s')) {
      status = analyzing;
      analysis_phase = synthesize;
    })

module _ (platform : Platform) (scan : Scanner) (options : Options) (tree : Tree) where
  -- _run_preflight
  unfoldable pub run_preflight : PatchProposal → ValidationResult → TaskSession → Next
  unfolding preflight_failed first
  run_preflight proposal validation s =
      if not options.preflight_enabled
      then bound
          (record {
            patch_hash = patch_hash platform proposal.unified_diff;
            working_tree_hash = working_tree_hash platform tree;
            proposal = proposal;
            validation = validation;
          })
          s
      else elim (run platform tree proposal) [
        | err failure ↦ preflight_failed failure s
        | ok success ↦
            bound
              (record {
                patch_hash = success.patch_hash;
                working_tree_hash = success.working_tree_hash;
                proposal = proposal;
                validation = validation;
              })
              (record s {
                patch_preflight_successes = suc s.patch_preflight_successes;
                first_patch_applicable = first s.first_patch_applicable true;
              })
      ]

  unfoldable pub consider : PatchProposal → TaskSession → Next
  unfolding run_preflight
  consider proposal s =
      elim (validate_proposal platform tree scan options.allow_test_changes options.allow_new_tests
        proposal) [
          | none ↦ raised s
          | some validation ↦
              if is_ok validation
              then run_preflight proposal validation (record s { status = patch_proposed })
              else go_on (record s { analysis_phase = synthesize })
        ]

  -- propose_patch and propose_edit
  unfoldable pub handle_proposal : Proposed → TaskSession → Next
  unfolding consider handle_format_error is_empty
  handle_proposal p s =
      let s' = record s { analysis_phase = propose; consecutive_no_progress_actions = 0 } in
      if not (is_empty s'.required_reads) then go_on s' else elim p [
        | bad_arguments ↦ handle_format_error (record s' { analysis_phase = synthesize })
        | edit_rejected ↦ go_on (record s' { analysis_phase = synthesize })
        | other_exception ↦ raised s'
        | parsed proposal ↦ consider proposal s'
      ]

  unfoldable pub handle_evidence : EvidenceRequest → TaskSession → Next
  unfolding handle_evidence_error
  handle_evidence q s = elim (execute_request_evidence platform tree q s) [
    | err kind ↦ handle_evidence_error kind s
    | ok s' ↦
        go_on (record s' {
          consecutive_no_progress_actions = 0;
          consecutive_read_budget_violations = 0;
        })
  ]

  -- read_file may satisfy a required read.
  unfoldable pub note_read : Inspection → TaskSession → TaskSession
  unfolding record_required_read_if_satisfied
  note_read (of_file path (some (start, end))) s =
      record_required_read_if_satisfied path start end s
  note_read _ s = s

  unfoldable pub close_exploration : TaskSession → TaskSession
  unfolding is_explore
  close_exploration s =
      if leb s.max_read_actions s.exploration_read_actions_used && is_explore s.analysis_phase
      then record s { analysis_phase = synthesize }
      else s

  -- A tool of READ_TOOLS.
  unfoldable pub handle_inspection : Inspection → TaskSession → Next
  unfolding note_read close_exploration note_no_progress
  handle_inspection tool s = elim (charge tool s) [
    | none ↦ note_no_progress s
    | some s' ↦ elim (handle platform tree tool s') [
      | none ↦ go_on (record s' { consecutive_read_budget_violations = 0 })
      | some s2 ↦ go_on (
          close_exploration (note_read tool (record s2 { consecutive_read_budget_violations = 0 })))
    ]
  ]

  -- A round of the loop of _analyze_phase.
  unfoldable pub step : Reply → TaskSession → Next
  unfolding handle_format_error handle_evidence handle_proposal handle_inspection
  step malformed s = handle_format_error s
  step failed_call s = stop (record s { status = error; stop_reason = llm_error })
  step (evidence q) s =
      handle_evidence q
        (record s { consecutive_format_retries = 0; consecutive_read_budget_violations = 0 })
  step (proposed p) s =
      handle_proposal p
        (record s { consecutive_format_retries = 0; consecutive_read_budget_violations = 0 })
  step finish_call s = stop (record s {
    consecutive_format_retries = 0;
    consecutive_read_budget_violations = 0;
    analysis_phase = finish;
    status = error;
    stop_reason = agent_finished_without_patch;
  })
  step other_tool s =
      go_on (record s { consecutive_format_retries = 0; consecutive_read_budget_violations = 0 })
  step (inspect tool) s = handle_inspection tool (record s { consecutive_format_retries = 0 })

  -- The end of the loop.
  unfoldable pub step_limit : TaskSession → TaskSession
  unfolding is_synthesize
  step_limit s =
      if is_synthesize s.analysis_phase
      then record s { status = read_budget_exhausted; stop_reason = synthesis_step_limit }
      else record s { stop_reason = analysis_step_limit }

  -- The loop, with the number of rounds left and that of the next one.
  unfoldable pub analysis_loop : (ℕ → Reply) → ℕ → ℕ → TaskSession → Next
  unfolding step step_limit
  analysis_loop replies zero i s = stop (step_limit s)
  analysis_loop replies (suc n) i s = elim (step (replies i) s) [
    | go_on s' ↦ analysis_loop replies n (suc i) s'
    | stop s' ↦ stop s'
    | raised s' ↦ raised s'
    | bound b s' ↦ bound b s'
  ]

  unfoldable pub start_phase : TaskSession → AnalysisPhase
  start_phase s = elim s.analysis_phase [
    | propose ↦ synthesize
    | finish ↦ finish
    | synthesize ↦ synthesize
    | explore ↦
        if leb s.max_read_actions s.exploration_read_actions_used then synthesize else explore
  ]

  -- _analyze_phase
  unfoldable pub analyze_phase : (ℕ → Reply) → TaskSession → Next
  unfolding analysis_loop start_phase
  analyze_phase replies s = analysis_loop replies options.max_analysis_steps 0 (record s {
    status = analyzing;
    consecutive_format_retries = 0;
    analysis_phase = start_phase s;
  })
