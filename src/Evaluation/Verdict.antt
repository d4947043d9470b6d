-- ===== src/Evaluation/Verdict.antt =====
-- What the verdict on the hidden tests says of the session and of the run.
use safepatch.Base.{
  ℕ, true, false, ◌||◌, Option, some, List, ◌≡◌, refl, ap, ◌∙◌, inl, inr, arith, Bool-cases,
  Option-cases, some_inj,
}
use safepatch.Text.{Text}
use safepatch.Session.Status.{SessionStatus, succeeded}
use safepatch.Runtime.Config.{DockerRunConfig, make_run_config, for_hidden_tests}
use safepatch.Runtime.Cleanup.{is_zero}
use safepatch.Runtime.Docker.{PytestResult, environment, timeout, is_set, is_timeout}
use safepatch.Evaluation.{
  Metrics, HiddenRunner, product, custom, unknown, call_runner, is_environment, is_succeeded,
  sum_counts, status_from_hidden_result, run_hidden_tests, evaluate_after_product,
}

-- The run of the hidden suite that gave the result: in its container, or by a custom runner.
pub data Ran (image : Text) : HiddenRunner → PytestResult → Type 0 where
  in_container :
      {run : DockerRunConfig → Option PytestResult} {r : PytestResult}
      → run (for_hidden_tests (make_run_config image)) ≡ some r
      → Ran image (product run) r
  by_call : {c : Option PytestResult} {r : PytestResult} → c ≡ some r → Ran image (custom c) r

-- The hidden tests ran and passed.
pub record IsHiddenPass (status : SessionStatus) (image : Text) (runner : HiddenRunner)
    : Type 0 where
  pub public : status ≡ succeeded
  pub result : PytestResult
  pub ran_hidden : Ran image runner result
  pub zero_code : is_zero result.exit_code ≡ true
  pub no_error : is_set result.environment_error ≡ false
  pub no_environment : ¬ (result.error_kind ≡ some environment)
  pub no_timeout : ¬ (result.error_kind ≡ some timeout)

is_succeeded→eq : (status : SessionStatus) → is_succeeded status ≡ true → status ≡ succeeded
unfolding is_succeeded
is_succeeded→eq succeeded h = refl
is_succeeded→eq _ h = absurd (ground arith)

-- status_from_hidden_result passes exactly on a zero exit code without an error.
hidden_pass-cases :
    (r : PytestResult) (count : ℕ)
    → (status_from_hidden_result r count).hidden_pass ≡ some true
    → (is_zero r.exit_code ≡ true)
      × (is_set r.environment_error ≡ false)
      × (is_environment r.error_kind ≡ false)
      × (is_timeout r.error_kind ≡ false)
unfolding status_from_hidden_result
hidden_pass-cases r count e = elim (Bool-cases (is_timeout r.error_kind)) [
  | inl late ↦ absurd (let e' = simp (late) at e in ground arith)
  | inr no_timeout ↦ elim (Bool-cases (is_environment r.error_kind || is_set r.environment_error)) [
    | inl broken ↦ absurd (let e' = simp (no_timeout, broken) at e in ground arith)
    | inr no_error ↦ elim (Bool-cases (is_zero r.exit_code)) [
      | inr red ↦ absurd (let e' = simp (no_timeout, no_error, red) at e in ground arith)
      | inl green ↦ (green, ground arith, ground arith, no_timeout)
    ]
  ]
]

call_runner-Ran :
    (image : Text) (runner : HiddenRunner) (r : PytestResult)
    → call_runner image runner ≡ some r
    → Ran image runner r
unfolding call_runner
call_runner-Ran image (product run) r e = in_container e
call_runner-Ran image (custom c) r e = by_call e
call_runner-Ran image unknown r e = absurd (ground arith)

-- The hidden tests are reported as passed only if the session succeeded and the hidden suite was
-- run with exit code 0, no error of the environment and neither a timeout nor an environment error
-- as its kind of error. DockerPytestRunner runs it by the configuration of the public run but for
-- the tests; a callable runner is called with no configuration.
pub evaluate_after_product-IsHiddenPass :
    (status : SessionStatus) (hidden : Option (List ℕ)) (image : Text) (runner : HiddenRunner)
    (m : Metrics)
    → evaluate_after_product status hidden image runner ≡ some m
    → m.hidden_pass ≡ some true
    → IsHiddenPass status image runner
unfolding evaluate_after_product run_hidden_tests
evaluate_after_product-IsHiddenPass status hidden image runner m e good =
    elim (Bool-cases (is_succeeded status)) [
      | inr other ↦ absurd (
          let e' = some_inj (rw (evaluate_after_product, other) at e) in
          let clash = ap (λ x. x.hidden_pass) e' ∙ good in ground arith)
      | inl public ↦ elim (Option-cases hidden) [
        | inl empty ↦ absurd (
            let e' = some_inj (rw (evaluate_after_product, public, empty) at e) in
            let clash = ap (λ x. x.hidden_pass) e' ∙ good in ground arith)
        | inr (injected, there) ↦
            let e1 = rw (evaluate_after_product, public, there) at e in
            elim (Option-cases (call_runner image runner)) [
              | inl raised ↦ absurd (let e' = rw (run_hidden_tests, raised) at e1 in ground arith)
              | inr (result, ran) ↦
                  let e2 = some_inj (rw (run_hidden_tests, ran) at e1) in
                  let (zero_code, no_error, no_environment, no_timeout) =
                    hidden_pass-cases result (sum_counts injected)
                      (ap (λ x. x.hidden_pass) e2 ∙ good) in
                  record {
                    public = is_succeeded→eq status public;
                    result = result;
                    ran_hidden = call_runner-Ran image runner result ran;
                    zero_code = zero_code;
                    no_error = no_error;
                    no_environment =
                        λ k. unfold is_environment in ground (arith, ap is_environment k);
                    no_timeout = λ k. unfold is_timeout in ground (arith, ap is_timeout k);
                  }
            ]
      ]
    ]
