-- ===== src/Session/State.antt =====
-- TaskSession and AttemptRecord of code_agent/state.py, and the options of TaskController. Paths,
-- texts for the user and the counters of code_agent/state.py's observability are left out.
use safepatch.Base.{ℕ, Bool, Option, List}
use safepatch.Text.{Text}
use safepatch.Patching.Policy.Proposal.{PatchProposal}
use safepatch.Patching.Policy.Validate.{ValidationResult}
use safepatch.Session.Status.{SessionStatus, AnalysisPhase, StopReason, TestResult}

-- A line range of a file, both ends included.
abbrev pub Range : Type 0
Range = ℕ × ℕ

pub record AttemptRecord : Type 0 where
  pub attempt : ℕ
  pub proposal : PatchProposal
  pub approved : Bool
  pub apply_ok : Option Bool
  pub test_result : Option TestResult

-- ApprovalBinding
pub record ApprovalBinding : Type 0 where
  pub patch_hash : Text
  pub working_tree_hash : Text
  pub proposal : PatchProposal
  pub validation : ValidationResult

-- The dict of lists `successful_read_ranges` is the list of its ranges with their paths.
pub record TaskSession : Type 0 where
  pub status : SessionStatus
  pub stop_reason : StopReason
  pub max_attempts : ℕ
  pub attempts_used : ℕ
  pub read_actions_used : ℕ
  pub exploration_read_actions_used : ℕ
  pub max_read_actions : ℕ
  pub analysis_phase : AnalysisPhase
  pub evidence_requests_used : ℕ
  pub max_evidence_requests : ℕ
  pub evidence_parameter_corrections_used : ℕ
  pub max_evidence_parameter_corrections : ℕ
  pub consecutive_no_progress_actions : ℕ
  pub total_no_progress_actions : ℕ
  pub hard_policy_violations : ℕ
  pub required_recovery_reads_used : ℕ
  pub successful_read_ranges : List (Text × Range)
  pub baseline : Option TestResult
  pub attempts : List AttemptRecord
  pub changed_files : List Text
  pub max_format_retries : ℕ
  pub consecutive_format_retries : ℕ
  pub total_format_retries_used : ℕ
  pub max_patch_regeneration_retries : ℕ
  pub consecutive_patch_regeneration_retries : ℕ
  pub total_patch_regeneration_retries : ℕ
  pub patch_preflight_failures : ℕ
  pub patch_preflight_successes : ℕ
  pub patch_apply_failures_after_preflight : ℕ
  pub patch_apply_failures_without_preflight : ℕ
  pub first_patch_applicable : Option Bool
  pub required_reads : List (Text × Range)
  pub consecutive_read_budget_violations : ℕ
  pub total_read_budget_violations : ℕ

-- The options of TaskController.
pub record Options : Type 0 where
  pub max_analysis_steps : ℕ
  pub allow_test_changes : Bool
  pub allow_new_tests : Bool
  pub preflight_enabled : Bool
