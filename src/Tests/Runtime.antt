-- ===== src/Tests/Runtime.antt =====
-- A run of pytest on a machine where all goes well, and one where docker is too slow.
use safepatch.Base.{
  ℕ, zero, suc, true, false, none, some, List, [], ◌∷◌, ◌++◌, ◌≡◌, refl, Option, take,
}
use safepatch.Text.{Text, codes, has_duplicate, elem}
use safepatch.Session.Status.{succeeded, passed}
use safepatch.Runtime.Config.{
  DockerRunConfig, make_run_config, for_hidden_tests, build_docker_cmd, hidden_pytest_argv,
}
use safepatch.Runtime.Config.Sandbox.{for_hidden_tests-build_docker_cmd}
use safepatch.Runtime.Names.{allocate_container_name}
use safepatch.Runtime.Names.Valid.{IsName, allocate_container_name_valid}
use safepatch.Runtime.Output.{failed_names, extract_failed_tests}
use safepatch.Runtime.Output.Distinct.{extract_failed_tests_distinct}
use safepatch.Runtime.Cleanup.{exited, ran, Disposable, Cleaner, remove_disposable_test_copy}
use safepatch.Runtime.Cleanup.Gone.{is_reported, remove_disposable_test_copy_exact}
use safepatch.Runtime.Docker.{
  PytestResult, Machine, Runner, completed, late, ran_out, timeout, failed_run, verdict, is_timeout,
}
use safepatch.Runtime.Pytest.{run_in, run_pytest}
use safepatch.Runtime.Pytest.Passes.{IsTested, run_pytest-IsTested, run_in_late}
use safepatch.Evaluation.{Metrics, product, evaluate_after_product}
use safepatch.Evaluation.Verdict.{IsHiddenPass, evaluate_after_product-IsHiddenPass}

abbrev both : Disposable
both = record { parent_there = true; copy_there = true }

abbrev gone : Disposable
gone = record { parent_there = false; copy_there = false }

abbrev cleaner : Cleaner
cleaner = record {
  remove_parent = λ d. (gone, true);
  wipe = λ cmd d. (d, ran (exited 0) [] []);
  remove_container = λ c. none;
  remove_copy = λ d. (d, none);
  remove_directory = λ d. (gone, none);
  redact_paths = λ t. t;
}

abbrev hex : ℕ → Text
hex zero = []
hex (suc n) = codes "a" ++ hex n

abbrev image : Text
image = codes "safepatch-pytest:local"

abbrev machine : Machine
machine = record {
  has_docker = true;
  docker_info = ran (exited 0) [] [];
  inspect = λ first candidate. ran (exited 0) [] [];
  make_directory = some (codes "/tmp/copy");
  copy = λ parent. none;
  start = λ cmd. none;
  communicate = λ cmd. completed (codes "1 passed") [] (exited 0);
  communicate_killed = none;
  force_remove = λ c. true;
  left = both;
  cleaner = cleaner;
  container_uuid = hex 32;
  cleanup_uuid = hex 32;
}

abbrev runner : Runner
runner = record {
  image = image;
  last_run_config = none;
  last_test_copy_parent = none;
  last_cleanup_error = none;
}

abbrev green : PytestResult
green = record {
  exit_code = exited 0;
  stdout = codes "1 passed";
  stderr = [];
  failed_tests = [];
  traceback_summary = codes "1 passed";
  environment_error = none;
  error_kind = none;
}

runs : (run_pytest machine runner none).0 ≡ some green
unfolding run_pytest
runs = refl

passes : passed (verdict green) ≡ true
unfolding passed verdict
passes = refl

run_pytest-IsTested_example : IsTested machine none green
run_pytest-IsTested_example = run_pytest-IsTested machine runner none green runs passes

abbrev slow_machine : Machine
slow_machine = record machine {
  communicate = λ cmd. late none;
  cleaner = record cleaner { remove_parent = λ d. (d, false); remove_directory = λ d. (d, none) };
}

abbrev config : DockerRunConfig
config = make_run_config image

late_result :
    (r : PytestResult) × ((run_in slow_machine runner config image (codes "/tmp/copy")).0 ≡ some r)
unfolding run_in make_run_config
late_result = (_, refl)

run_in_late_example :
    (is_timeout late_result.0.error_kind ≡ true) × (passed (verdict late_result.0) ≡ false)
unfolding safepatch.Runtime.Docker.run_docker_cmd
run_in_late_example =
    run_in_late slow_machine runner config image (codes "/tmp/copy") [] late_result.0 refl refl
      late_result.1

remove_disposable_test_copy_exact_example :
    is_reported
      (remove_disposable_test_copy cleaner (record { parent = []; image = []; uuid = [] }) both).1
    ≡ (remove_disposable_test_copy cleaner
        (record { parent = []; image = []; uuid = [] })
        both).0.parent_there
remove_disposable_test_copy_exact_example =
    remove_disposable_test_copy_exact cleaner (record { parent = []; image = []; uuid = [] }) both

for_hidden_tests-build_docker_cmd_example :
    (options : List Text) × (build_docker_cmd config (codes "/w") ≡ options ++ config.pytest_argv)
    × (build_docker_cmd (for_hidden_tests config) (codes "/w") ≡ options ++ hidden_pytest_argv)
for_hidden_tests-build_docker_cmd_example = for_hidden_tests-build_docker_cmd config (codes "/w")

allocate_container_name_valid_example :
    IsName (allocate_container_name (hex 32) (some (codes "-x")))
allocate_container_name_valid_example =
    allocate_container_name_valid (hex 32) (some (codes "-x")) refl refl

abbrev output : Text
output = codes "FAILED t.py::a - x\nERROR t.py::b\nFAILED t.py::a"

abbrev found_names : List Text
found_names = codes "t.py::a" ∷ codes "t.py::b" ∷ codes "t.py::a" ∷ []

finds : failed_names output ≡ some found_names
unfolding failed_names
finds = refl

extracts : extract_failed_tests output ≡ some (codes "t.py::a" ∷ codes "t.py::b" ∷ [])
unfolding extract_failed_tests
extracts = refl

-- A line with nothing behind "FAILED ", where the expression finds no name, raises.
raises_on_empty : extract_failed_tests (codes "FAILED ") ≡ none
unfolding extract_failed_tests
raises_on_empty = refl

extract_failed_tests_distinct_example :
    (has_duplicate (take 2 found_names) ≡ false)
    × ((n : Text) → elem n (take 2 found_names) ≡ elem n found_names)
extract_failed_tests_distinct_example =
    extract_failed_tests_distinct output found_names (take 2 found_names) finds extracts

abbrev hidden_run : DockerRunConfig → Option PytestResult
hidden_run given = (run_pytest machine runner (some given)).0

hidden_passes :
    (m : Metrics) × (evaluate_after_product succeeded (some (2 ∷ [])) image (product hidden_run)
      ≡ some m)
    × (m.hidden_pass ≡ some true)
unfolding evaluate_after_product run_pytest
hidden_passes = (_, refl, refl)

evaluate_after_product-IsHiddenPass_example : IsHiddenPass succeeded image (product hidden_run)
evaluate_after_product-IsHiddenPass_example =
    evaluate_after_product-IsHiddenPass succeeded (some (2 ∷ [])) image (product hidden_run)
      hidden_passes.0 hidden_passes.1 hidden_passes.2
