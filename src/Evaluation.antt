-- ===== src/Evaluation.antt =====
-- code_agent/eval/hidden.py and status.py: the run of the hidden tests behind a session. The copy of
-- the workspace, the files of metrics and traces are left out; the run of pytest is any function.
pub mod Verdict
use safepatch.Base.{
  ℕ, ◌+◌, Bool, true, false, not, ◌||◌, Option, none, some, List, [], ◌∷◌, if◌then◌else◌, ◌==◌,
}
use safepatch.Text.{Text}
use safepatch.Session.Status.{SessionStatus, succeeded}
use safepatch.Runtime.Config.{DockerRunConfig, make_run_config, for_hidden_tests}
use safepatch.Runtime.Cleanup.{ExitCode, exited, is_zero}
use safepatch.Runtime.Docker.{PytestResult, TestErrorKind, environment, timeout, is_set, is_timeout}

-- EvalStatus
pub data EvalStatus : Type 0 where
  public_tests_failed hidden_tests_failed hidden_succeeded : EvalStatus
  hidden_test_environment_error hidden_test_timeout : EvalStatus

-- The metrics; `hidden_pass` and `hidden_exit_code` are `none` for None.
pub record Metrics : Type 0 where
  pub public_pass : Bool
  pub hidden_pass : Option Bool
  pub eval_status : EvalStatus
  pub hidden_test_count : ℕ
  pub hidden_exit_code : Option ExitCode
  pub hidden_failed_tests : List Text
  pub hidden_pytest_runs : ℕ

unfoldable pub is_environment : Option TestErrorKind → Bool
is_environment (some environment) = true
is_environment _ = false

-- A suite that does not pass.
unfoldable pub hidden_failure : EvalStatus → PytestResult → ℕ → Metrics
hidden_failure status r count = record {
  public_pass = true;
  hidden_pass = some false;
  eval_status = status;
  hidden_test_count = count;
  hidden_exit_code = some r.exit_code;
  hidden_failed_tests = r.failed_tests;
  hidden_pytest_runs = 1;
}

-- _status_from_hidden_result, with the number of runs
unfoldable pub status_from_hidden_result : PytestResult → ℕ → Metrics
unfolding hidden_failure is_environment is_timeout is_set is_zero
status_from_hidden_result r count =
    if is_timeout r.error_kind
    then hidden_failure hidden_test_timeout r count
    else if is_environment r.error_kind || is_set r.environment_error
    then hidden_failure hidden_test_environment_error r count
    else if is_zero r.exit_code
    then record {
      public_pass = true;
      hidden_pass = some true;
      eval_status = hidden_succeeded;
      hidden_test_count = count;
      hidden_exit_code = some (exited 0);
      hidden_failed_tests = [];
      hidden_pytest_runs = 1;
    }
    else hidden_failure hidden_tests_failed r count

-- The metrics if no hidden test is run.
unfoldable pub skipped : Bool → EvalStatus → Metrics
skipped public_pass status = record {
  public_pass = public_pass;
  hidden_pass = none;
  eval_status = status;
  hidden_test_count = 0;
  hidden_exit_code = none;
  hidden_failed_tests = [];
  hidden_pytest_runs = 0;
}

unfoldable pub is_succeeded : SessionStatus → Bool
is_succeeded succeeded = true
is_succeeded _ = false

-- sum(item["test_count"] for item in injected)
unfoldable pub sum_counts : List ℕ → ℕ
sum_counts [] = 0
sum_counts (n ∷ ns) = n + sum_counts ns

-- The runner, as its attributes show it: run_pytest of an object that has make_run_config too, a
-- callable, or something else. A call gives `none` where it raises.
pub data HiddenRunner : Type 0 where
  product : (DockerRunConfig → Option PytestResult) → HiddenRunner
  custom : Option PytestResult → HiddenRunner
  unknown : HiddenRunner

-- The result of the runner on the copy with the hidden tests; TypeError for an unknown runner.
unfoldable pub call_runner : Text → HiddenRunner → Option PytestResult
unfolding make_run_config for_hidden_tests
call_runner image (product run) = run (for_hidden_tests (make_run_config image))
call_runner image (custom result) = result
call_runner image unknown = none

-- run_hidden_tests on the injected files, each with its number of tests.
unfoldable pub run_hidden_tests : Text → HiddenRunner → List ℕ → Option Metrics
unfolding call_runner status_from_hidden_result sum_counts
run_hidden_tests image runner injected = elim (call_runner image runner) [
  | none ↦ none
  | some r ↦ some (status_from_hidden_result r (sum_counts injected))
]

-- evaluate_after_product; the hidden suite is `none` if there is no hidden directory
unfoldable pub evaluate_after_product :
    SessionStatus → Option (List ℕ) → Text → HiddenRunner → Option Metrics
unfolding is_succeeded skipped run_hidden_tests
evaluate_after_product status hidden image runner =
    if not (is_succeeded status) then some (skipped false public_tests_failed) else elim hidden [
      | none ↦ some (skipped true hidden_succeeded)
      | some injected ↦ run_hidden_tests image runner injected
    ]
