-- ===== src/Session/Status.antt =====
-- The enumerations of code_agent/state.py, the result of a test run, and the policies of
-- code_agent/workflow.py.
use safepatch.Base.{ℕ, Bool, true, false, not, ◌&&◌, Option, none, some, if◌then◌else◌}

-- SessionStatus
pub data SessionStatus : Type 0 where
  created imported baseline_tested analyzing patch_proposed awaiting_approval : SessionStatus
  patch_applied testing succeeded tests_passed_unverified failed_max_attempts : SessionStatus
  patch_not_applicable patch_base_changed rejected test_environment_error : SessionStatus
  test_timeout model_output_invalid read_budget_exhausted error : SessionStatus

-- AnalysisPhase
pub data AnalysisPhase : Type 0 where
  explore synthesize propose finish : AnalysisPhase

-- TERMINAL_STATUSES
unfoldable pub is_terminal : SessionStatus → Bool
is_terminal created = false
is_terminal imported = false
is_terminal baseline_tested = false
is_terminal analyzing = false
is_terminal patch_proposed = false
is_terminal awaiting_approval = false
is_terminal patch_applied = false
is_terminal testing = false
is_terminal _ = true

-- The status of a session whose tests passed.
abbrev pub is_verdict : SessionStatus → Bool
is_verdict succeeded = true
is_verdict tests_passed_unverified = true
is_verdict _ = false

-- The values of `stop_reason` that the controller writes: `changed_base` is "patch_base_changed",
-- `internal_failure` is "internal_error", and `patch_apply_error` stands for "patch_apply_" with the
-- kind of the error.
pub data StopReason : Type 0 where
  no_reason all_tests_passed passed_unverified max_patch_attempts_reached : StopReason
  not_applicable changed_base user_rejected_patch approval_handler_missing : StopReason
  environment_error pytest_timeout output_invalid synthesis_no_progress : StopReason
  evidence_hard_violation synthesis_step_limit analysis_step_limit llm_error : StopReason
  agent_finished_without_patch patch_apply_error internal_failure : StopReason

-- TestResult: the texts that only reach the prompt are left out; `environment_failure` tells
-- whether `environment_error` is set, and `timed_out` whether `error_kind` is "timeout".
pub record TestResult : Type 0 where
  pub exit_ok : Bool
  pub environment_failure : Bool
  pub timed_out : Bool

-- TestResult.passed
unfoldable pub passed : TestResult → Bool
passed r = not r.environment_failure && r.exit_ok

unfoldable pub baseline_passed : Option TestResult → Bool
unfolding passed
baseline_passed none = false
baseline_passed (some r) = passed r

-- VerificationPolicy.passing_status
unfoldable pub passing_status : Option TestResult → SessionStatus × StopReason
unfolding baseline_passed
passing_status baseline =
    if baseline_passed baseline
    then (tests_passed_unverified, passed_unverified)
    else (succeeded, all_tests_passed)

-- The status and reason for a run that the environment broke.
unfoldable pub environment_status : TestResult → SessionStatus × StopReason
environment_status r =
    if r.timed_out
    then (test_timeout, pytest_timeout)
    else (test_environment_error, environment_error)

-- ApprovalDecision.decision
pub data Decision : Type 0 where
  handler_missing approve reject : Decision

-- ApprovalGate.decide
unfoldable pub decide : {B : Type 0} → Option (B → ℕ → Bool) → B → ℕ → Decision
decide none binding attempt = handler_missing
decide (some callback) binding attempt = if callback binding attempt then approve else reject
