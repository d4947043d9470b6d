-- ===== src/Runtime/Pytest/Passes.antt =====
-- When a result of run_pytest passes, and what a timeout or a failed cleanup make of it.
use safepatch.Base.{
  true, false, Option, none, some, ◌∷◌, ◌++◌, ◌≡◌, ◌≢◌, refl, sym, ap, subst, ◌∙◌, inl, inr, arith,
  Bool-cases, Option-cases, some_inj,
}
use safepatch.Text.{Text, codes}
use safepatch.Session.Status.{passed}
use safepatch.Runtime.Config.{DockerRunConfig, build_docker_cmd}
use safepatch.Runtime.Cleanup.{ExitCode, is_zero, Site, remove_disposable_test_copy}
use safepatch.Runtime.Cleanup.Gone.{is_reported, remove_disposable_test_copy_exact}
use safepatch.Runtime.Docker.{
  PytestResult, TestErrorKind, verdict, Machine, Runner, CliOutcome, finished, ran_out, cli_error,
  failed_run, run_docker_cmd, is_timeout, is_given, preflight,
}
use safepatch.Runtime.Pytest.{
  extract_failed_tests, is_pytest_missing, result_of_run, result_of_cli, run_copy,
  with_cleanup_failure, after_cleanup, config_for, run_in, run_checked, run_pytest,
  force_remove_container,
}

-- The run in the container that a passing result stands for: the tests ended with exit code 0, by
-- the command line of the configuration on a copy of the working copy, pytest was there, and the
-- copy is gone.
pub record IsTested (machine : Machine) (given : Option DockerRunConfig) (r : PytestResult)
    : Type 0 where
  pub image : Text
  pub parent : Text
  pub made : machine.make_directory ≡ some parent
  pub copied : machine.copy parent ≡ none
  pub code : ExitCode
  pub ended :
      run_docker_cmd machine
        (build_docker_cmd (config_for machine image given) (parent ++ codes "/working_copy"))
      ≡ finished r.stdout r.stderr code
  pub zero_code : is_zero code ≡ true
  pub found : is_pytest_missing (r.stdout ++ (0x0a ∷ r.stderr)) ≡ false
  pub gone :
      (remove_disposable_test_copy machine.cleaner
        (record { parent = parent; image = image; uuid = machine.cleanup_uuid })
        machine.left).0.parent_there
      ≡ false

-- A failure never passes.
failure_fails :
    (kind : TestErrorKind) (stdout stderr message : Text)
    → passed (verdict (failed_run kind stdout stderr message)) ≡ false
unfolding passed verdict failed_run
failure_fails kind stdout stderr message = refl

with_cleanup_failure_fails :
    (r : PytestResult) (why : Text) → passed (verdict (with_cleanup_failure r why)) ≡ false
unfolding passed verdict with_cleanup_failure
with_cleanup_failure_fails r why = refl

-- A failed cleanup keeps a timeout, and makes no other result one.
pub with_cleanup_failure-is_timeout :
    (r : PytestResult) (why : Text)
    → is_timeout (with_cleanup_failure r why).error_kind ≡ is_timeout r.error_kind
unfolding with_cleanup_failure
with_cleanup_failure-is_timeout r why = elim (Bool-cases (is_timeout r.error_kind)) [
  | inl late ↦ simp (late)
  | inr other ↦ simp (other)
]

-- What a passing result of a run says of the run.
record Ended (stdout stderr : Text) (code : ExitCode) (r : PytestResult) : Type 0 where
  same_stdout : r.stdout ≡ stdout
  same_stderr : r.stderr ≡ stderr
  zero_code : is_zero code ≡ true
  found : is_pytest_missing (stdout ++ (0x0a ∷ stderr)) ≡ false

result_of_run-Ended :
    (stdout stderr : Text) (code : ExitCode) (r : PytestResult)
    → result_of_run stdout stderr code ≡ some r
    → passed (verdict r) ≡ true
    → Ended stdout stderr code r
unfolding result_of_run passed verdict is_given
result_of_run-Ended stdout stderr code r e good =
    elim (Option-cases (extract_failed_tests (stdout ++ (0x0a ∷ stderr)))) [
      | inl bad ↦ absurd (let e' = rw (result_of_run, bad) at e in ground arith)
      | inr (names, read) ↦ elim (Bool-cases (is_pytest_missing (stdout ++ (0x0a ∷ stderr)))) [
        | inl missing ↦ absurd (
            let same = some_inj (rw (result_of_run, read, missing) at e) in
            let bad = subst (λ x. passed (verdict x) ≡ true) (sym same) good in ground arith)
        | inr there ↦
            let same = some_inj (rw (result_of_run, read, there) at e) in
            record {
              same_stdout = sym (ap (λ x. x.stdout) same);
              same_stderr = sym (ap (λ x. x.stderr) same);
              zero_code = subst (λ x. passed (verdict x) ≡ true) (sym same) good;
              found = there;
            }
      ]
    ]

-- A result that is returned and does not pass is none that passes.
no_pass :
    (q r : PytestResult)
    → passed (verdict q) ≡ false
    → ◌≡◌ {A = Option PytestResult} (some q) (some r)
    → passed (verdict r) ≢ true
no_pass q r bad e good =
    let clash = sym good ∙ ap (λ x. passed (verdict x)) (sym (some_inj e)) ∙ bad in ground arith

module _ (machine : Machine) where
  result_of_cli-Ended :
      (config : DockerRunConfig) (outcome : CliOutcome) (r : PytestResult)
      → result_of_cli machine config outcome ≡ some r
      → passed (verdict r) ≡ true
      → (stdout stderr : Text) × (code : ExitCode) × (outcome ≡ finished stdout stderr code)
        × Ended stdout stderr code r
  unfolding result_of_cli
  result_of_cli-Ended config (finished stdout stderr code) r e good =
      (stdout, stderr, code, refl, result_of_run-Ended stdout stderr code r e good)
  result_of_cli-Ended config (ran_out stdout) r e good =
      elim (Bool-cases (force_remove_container machine config.container_name)) [
        | inl returns ↦
            absurd (no_pass _ r (failure_fails _ _ _ _) (rw (result_of_cli, returns) at e) good)
        | inr bad ↦ absurd (let e' = rw (result_of_cli, bad) at e in ground arith)
      ]
  result_of_cli-Ended config (cli_error why) r e good =
      elim (Bool-cases (force_remove_container machine config.container_name)) [
        | inl returns ↦
            absurd (no_pass _ r (failure_fails _ _ _ _) (rw (result_of_cli, returns) at e) good)
        | inr bad ↦ absurd (let e' = rw (result_of_cli, bad) at e in ground arith)
      ]

  run_copy-Ended :
      (config : DockerRunConfig) (parent : Text) (r : PytestResult)
      → run_copy machine config parent ≡ some r
      → passed (verdict r) ≡ true
      → (machine.copy parent ≡ none)
        × (stdout stderr : Text) × (code : ExitCode) × (run_docker_cmd machine
              (build_docker_cmd config (parent ++ codes "/working_copy"))
            ≡ finished stdout stderr code)
        × Ended stdout stderr code r
  unfolding run_copy
  run_copy-Ended config parent r e good = elim (Option-cases (machine.copy parent)) [
    | inr (why, bad) ↦ absurd (no_pass _ r (failure_fails _ _ _ _) (rw (run_copy, bad) at e) good)
    | inl copied ↦
        let (stdout, stderr, code, ends, t) =
          result_of_cli-Ended config _ r (rw (run_copy, copied) at e) good in
        (copied, stdout, stderr, code, ends, t)
  ]

  after_cleanup-passed :
      (result : Option PytestResult) (cleanup_error : Option Text) (r : PytestResult)
      → after_cleanup result cleanup_error ≡ some r
      → passed (verdict r) ≡ true
      → (result ≡ some r) × (cleanup_error ≡ none)
  unfolding after_cleanup
  after_cleanup-passed none cleanup_error r e good = absurd (ground arith)
  after_cleanup-passed (some q) none r e good = (e, refl)
  after_cleanup-passed (some q) (some why) r e good =
      absurd (no_pass _ r (with_cleanup_failure_fails q why) e good)

  run_in-IsTested :
      (runner : Runner) (given : Option DockerRunConfig) (image parent : Text) (r : PytestResult)
      → machine.make_directory ≡ some parent
      → (run_in machine runner (config_for machine image given) image parent).0 ≡ some r
      → passed (verdict r) ≡ true
      → IsTested machine given r
  unfolding run_in
  run_in-IsTested runner given image parent r made e good =
      let config = config_for machine image given in
      let site : Site = record { parent = parent; image = image; uuid = machine.cleanup_uuid } in
      let (e', clean) =
        after_cleanup-passed (run_copy machine config parent)
          (remove_disposable_test_copy machine.cleaner site machine.left).1 r e good in
      let (copied, stdout, stderr, code, ends, t) = run_copy-Ended config parent r e' good in
      record {
        image = image;
        parent = parent;
        made = made;
        copied = copied;
        code = code;
        ended =
            ends
            ∙ ap (λ x. finished x stderr code) (sym t.same_stdout)
            ∙ ap (λ x. finished r.stdout x code) (sym t.same_stderr);
        zero_code = t.zero_code;
        found =
            ap (λ x. is_pytest_missing (x ++ (0x0a ∷ r.stderr))) t.same_stdout
            ∙ ap (λ x. is_pytest_missing (stdout ++ (0x0a ∷ x))) t.same_stderr
            ∙ t.found;
        gone =
            sym (remove_disposable_test_copy_exact machine.cleaner site machine.left)
            ∙ ap is_reported clean;
      }

  run_checked-IsTested :
      (runner : Runner) (given : Option DockerRunConfig) (found : Option (Option Text))
      (r : PytestResult)
      → (run_checked machine runner given found).0 ≡ some r
      → passed (verdict r) ≡ true
      → IsTested machine given r
  unfolding run_checked
  run_checked-IsTested runner given none r e good = absurd (ground arith)
  run_checked-IsTested runner given (some none) r e good = absurd (ground arith)
  run_checked-IsTested runner given (some (some image)) r e good =
      elim (Option-cases machine.make_directory) [
        | inl bad ↦ absurd (let e' = rw (run_checked, bad) at e in ground arith)
        | inr (parent, made) ↦
            run_in-IsTested runner given image parent r made (rw (run_checked, made) at e) good
      ]

  -- A result of run_pytest passes only if pytest ran in the container, by the command line of the
  -- configuration, on a copy of the working copy that was made without an error, ended with exit
  -- code 0 and was not reported missing, and the directory of that copy is gone afterwards.
  pub run_pytest-IsTested :
      (runner : Runner) (given : Option DockerRunConfig) (r : PytestResult)
      → (run_pytest machine runner given).0 ≡ some r
      → passed (verdict r) ≡ true
      → IsTested machine given r
  unfolding run_pytest
  run_pytest-IsTested runner given r e good = elim (Option-cases (preflight machine runner.image)) [
    | inl raised ↦ absurd (let e' = rw (run_pytest, raised) at e in ground arith)
    | inr (reason, checked) ↦ elim (Option-cases reason) [
      | inr (why, bad) ↦
          absurd (no_pass _ r (failure_fails _ _ _ _) (rw (run_pytest, checked, bad) at e) good)
      | inl fine ↦ run_checked-IsTested _ given _ r (rw (run_pytest, checked, fine) at e) good
    ]
  ]

  after_cleanup-late :
      (q r : PytestResult) (cleanup_error : Option Text)
      → is_timeout q.error_kind ≡ true
      → passed (verdict q) ≡ false
      → after_cleanup (some q) cleanup_error ≡ some r
      → (is_timeout r.error_kind ≡ true) × (passed (verdict r) ≡ false)
  unfolding after_cleanup
  after_cleanup-late q r none late bad e =
      subst (λ x. (is_timeout x.error_kind ≡ true) × (passed (verdict x) ≡ false)) (some_inj e)
        (late, bad)
  after_cleanup-late q r (some why) late bad e =
      subst (λ x. (is_timeout x.error_kind ≡ true) × (passed (verdict x) ≡ false)) (some_inj e)
        (with_cleanup_failure-is_timeout q why ∙ late, with_cleanup_failure_fails q why)

  -- If docker exceeds the time limit, a result that is returned is a timeout and does not pass,
  -- whether the copy of the working copy could be removed or not.
  pub run_in_late :
      (runner : Runner) (config : DockerRunConfig) (image parent stdout : Text) (r : PytestResult)
      → machine.copy parent ≡ none
      → run_docker_cmd machine (build_docker_cmd config (parent ++ codes "/working_copy"))
        ≡ ran_out stdout
      → (run_in machine runner config image parent).0 ≡ some r
      → (is_timeout r.error_kind ≡ true) × (passed (verdict r) ≡ false)
  unfolding run_in run_copy result_of_cli after_cleanup failed_run
  run_in_late runner config image parent stdout r copied ends e =
      let site : Site = record { parent = parent; image = image; uuid = machine.cleanup_uuid } in
      let cleanup = (remove_disposable_test_copy machine.cleaner site machine.left).1 in
      elim (Bool-cases (force_remove_container machine config.container_name)) [
        | inr bad ↦ absurd (
            let e' : after_cleanup none cleanup ≡ some r =
              rw (after_cleanup, run_copy, copied, ends, result_of_cli, bad) at e in
            ground arith)
        | inl returns ↦
            after_cleanup-late _ r cleanup refl (failure_fails _ _ _ _)
              (rw (after_cleanup, run_copy, copied, ends, result_of_cli, returns) at e)
      ]
