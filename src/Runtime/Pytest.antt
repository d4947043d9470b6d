-- ===== src/Runtime/Pytest.antt =====
-- DockerPytestRunner.run_pytest of code_agent/runtime/docker_pytest.py. The clock and the log file
-- are left out.
pub mod Passes
use safepatch.Base.{
  ℕ, Bool, true, false, not, ◌&&◌, ◌||◌, Option, none, some, List, [], ◌∷◌, ◌++◌, if◌then◌else◌,
}
use safepatch.Text.{Text, codes, text_eq, contains, str_nat}
use safepatch.Session.Status.{TestResult}
use safepatch.Runtime.Config.{DockerRunConfig, make_run_config, build_docker_cmd}
use safepatch.Runtime.Names.{allocate_container_name}
use safepatch.Runtime.Output.{extract_failed_tests, extract_traceback_summary}
use safepatch.Runtime.Cleanup.{
  ExitCode, exited, minus, is_zero, Command, ran, expired, raises, Disposable, Cleaner, Site,
  first_line, remove_disposable_test_copy,
}
use safepatch.Runtime.Docker.{
  CliOutcome, Communicated, Machine, PytestResult, Runner, TestErrorKind, broke, candidates,
  cli_error, completed, docker_image, environment, failed_run, finished, first_image, image_reason,
  info_reason, is_given, is_set, is_timeout, late, local_pytest_image, or_text, outcome_of,
  preflight, ran_out, resolve_image, run_docker_cmd, succeeds, text_of, timeout, verdict,
}

-- "No module named pytest" in the output, with or without quotes
unfoldable pub is_pytest_missing : Text → Bool
unfolding contains
is_pytest_missing combined =
    contains combined (codes "No module named pytest")
    || contains combined (codes "No module named 'pytest'")

-- The result of a run that ended; `none` where the reading of the failed tests raises.
unfoldable pub result_of_run : Text → Text → ExitCode → Option PytestResult
unfolding is_pytest_missing extract_failed_tests extract_traceback_summary
result_of_run stdout stderr code =
    let combined = stdout ++ (0x0a ∷ stderr) in
    let missing = is_pytest_missing combined in
    elim (extract_failed_tests combined) [
      | none ↦ none
      | some names ↦ some (record {
        exit_code = code;
        stdout = stdout;
        stderr = stderr;
        failed_tests = names;
        traceback_summary = extract_traceback_summary combined;
        environment_error =
            if missing
            then some (codes "TEST_ENVIRONMENT_ERROR: pytest missing in container")
            else none;
        error_kind = if missing then some environment else none;
      })
    ]

-- _force_remove_container; whether it returns
unfoldable pub force_remove_container : Machine → Option Text → Bool
force_remove_container machine none = true
force_remove_container machine (some []) = true
force_remove_container machine (some (c ∷ s)) = machine.force_remove (c ∷ s)

unfoldable pub timeout_message : DockerRunConfig → Text
unfolding str_nat
timeout_message config =
    codes "TEST_TIMEOUT: pytest exceeded " ++ (str_nat config.timeout_seconds ++ codes "s")

unfoldable pub result_of_cli : Machine → DockerRunConfig → CliOutcome → Option PytestResult
unfolding result_of_run force_remove_container failed_run timeout_message
result_of_cli machine config (finished stdout stderr code) = result_of_run stdout stderr code
result_of_cli machine config (ran_out stdout) =
    if force_remove_container machine config.container_name
    then some
        (failed_run timeout stdout (codes "pytest timed out in Docker") (timeout_message config))
    else none
result_of_cli machine config (cli_error why) =
    if force_remove_container machine config.container_name
    then some (failed_run environment [] why (codes "TEST_ENVIRONMENT_ERROR: " ++ why))
    else none

-- The outer try, without its `finally`.
unfoldable pub run_copy : Machine → DockerRunConfig → Text → Option PytestResult
unfolding failed_run build_docker_cmd run_docker_cmd result_of_cli
run_copy machine config parent = elim (machine.copy parent) [
  | some why ↦ some (
      failed_run environment [] why
        (codes "TEST_ENVIRONMENT_ERROR: could not create test copy: " ++ why))
  | none ↦
      result_of_cli machine config
        (run_docker_cmd machine (build_docker_cmd config (parent ++ codes "/working_copy")))
]

-- _with_cleanup_failure
unfoldable pub cleanup_note : Text → Text
cleanup_note why = codes "TEST_ENVIRONMENT_ERROR: disposable test copy cleanup failed: " ++ why

unfoldable pub with_note : Option Text → Text → Text
with_note none note = note
with_note (some []) note = note
with_note (some (c ∷ s)) note = (c ∷ s) ++ (codes "; " ++ note)

unfoldable pub stderr_with : Text → Text → Text
unfolding contains
stderr_with stderr note =
    if contains stderr note
    then stderr
    else if text_eq stderr []
    then note
    else stderr ++ (0x0a ∷ note)

unfoldable pub with_cleanup_failure : PytestResult → Text → PytestResult
unfolding cleanup_note with_note stderr_with is_timeout is_zero
with_cleanup_failure r why = record r {
  stderr = stderr_with r.stderr (cleanup_note why);
  environment_error = some (with_note r.environment_error (cleanup_note why));
  error_kind = if is_timeout r.error_kind then some timeout else some environment;
  exit_code = if is_zero r.exit_code then minus 1 else r.exit_code;
}

-- The `finally`: an exception that is under way goes on, whatever the cleanup returns.
unfoldable pub after_cleanup : Option PytestResult → Option Text → Option PytestResult
unfolding with_cleanup_failure
after_cleanup none cleanup_error = none
after_cleanup (some r) none = some r
after_cleanup (some r) (some why) = some (with_cleanup_failure r why)

-- The image and the name of the container are set for each run.
unfoldable pub config_for : Machine → Text → Option DockerRunConfig → DockerRunConfig
unfolding make_run_config allocate_container_name
config_for machine image given =
    let config : DockerRunConfig = elim given [
      | none ↦ make_run_config image
      | some c ↦ record c { image = image }
    ] in
    record config {
      container_name = some (allocate_container_name machine.container_uuid config.container_name);
    }

-- From the directory of the test copy on.
unfoldable pub run_in :
    Machine → Runner → DockerRunConfig → Text → Text → Option PytestResult × Runner
unfolding run_copy after_cleanup remove_disposable_test_copy
run_in machine runner config image parent =
    let cleanup =
      remove_disposable_test_copy machine.cleaner
        (record { parent = parent; image = image; uuid = machine.cleanup_uuid }) machine.left in
    (
      after_cleanup (run_copy machine config parent) cleanup.1,
      record runner {
        last_run_config = some config;
        last_test_copy_parent = some parent;
        last_cleanup_error = cleanup.1;
      },
    )

-- Behind the preflight; the assertion fails where no image is found any more.
unfoldable pub run_checked :
    Machine → Runner → Option DockerRunConfig → Option (Option Text) → Option PytestResult × Runner
unfolding config_for run_in
run_checked machine runner given (some (some image)) =
    let config = config_for machine image given in
    elim machine.make_directory [
      | none ↦ (none, record runner { last_run_config = some config })
      | some parent ↦ run_in machine runner config image parent
    ]
run_checked machine runner given _ = (none, runner)

-- run_pytest: the result, `none` for an exception, and the runner behind it
unfoldable pub run_pytest : Machine → Runner → Option DockerRunConfig → Option PytestResult × Runner
unfolding preflight failed_run run_checked resolve_image
run_pytest machine runner given =
    let fresh : Runner = record runner {
      last_run_config = none;
      last_test_copy_parent = none;
      last_cleanup_error = none;
    } in
    elim (preflight machine runner.image) [
      | none ↦ (none, fresh)
      | some (some why) ↦
          (some (failed_run environment [] why (codes "TEST_ENVIRONMENT_ERROR: " ++ why)), fresh)
      | some none ↦
          run_checked machine fresh given (resolve_image (machine.inspect false) runner.image)
    ]
