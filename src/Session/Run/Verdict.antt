-- ===== src/Session/Run/Verdict.antt =====
-- When a session succeeds.
use safepatch.Base.{
  ℕ, zero, suc, ◌≡◌, inl, inr, refl, subst, ◌∙◌, true, false, ◌||◌, Option, none, some, List, ◌++◌,
  leb, Bool-cases, Option-cases, arith, some_inj,
}
use safepatch.Text.{Text, sorted_set}
use safepatch.Workspace.Tree.{Tree}
use safepatch.Workspace.Platform.{Platform}
use safepatch.Workspace.Disk.{Disk}
use safepatch.Patching.Policy.Integrity.{Scanner}
use safepatch.Patching.Applier.{
  ApplyResult, ApplyErrorKind, FileRelocation, applied, failed, apply_proposal,
  is_recoverable_apply_error,
}
use safepatch.Session.Status.{
  SessionStatus, is_verdict, is_terminal, TestResult, passed, passing_status, environment_status,
  decide, awaiting_approval, baseline_tested, succeeded, baseline_passed, testing,
}
use safepatch.Session.State.{TaskSession, Options, ApprovalBinding}
use safepatch.Session.Analyze.{
  Next, go_on, stop, raised, bound, analyze_phase, regeneration_exhausted, consume_regeneration,
}
use safepatch.Session.Analyze.Budgets.{Kept, session_of}
use safepatch.Session.Analyze.Steps.{analyze_phase-Kept}
use safepatch.Session.Run.{
  Environment, Turn, again, ended, crashed, set_stop, add_attempt, judge, test_patch,
  count_apply_failure, is_base_changed, apply_failed, apply_approved, is_bound, execute, ask,
  without_patch, round, rounds, run_session,
}
use safepatch.Session.Run.Ends.{noted-Kept, require_apply_failure_region_read-Kept}
use safepatch.Session.Run.Consent.{Decision-cases}

module _ (platform : Platform) (disk : Disk) (scan : Scanner) (options : Options)
    (env : Environment) where
  -- A session that ended with this status and this tree after a patch was applied and the tests,
  -- run on the result, passed; if the status is `succeeded`, they had not passed before.
  pub record IsVerified (baseline : Option TestResult) (status : SessionStatus) (tree : Tree)
      : Type 0 where
    pub number : ℕ
    pub binding : ApprovalBinding
    pub before : Tree
    pub after : Tree
    pub files : List Text
    pub moved : List FileRelocation
    pub patched :
        apply_proposal platform disk scan options.allow_test_changes options.allow_new_tests
          binding.proposal before
        ≡ some (applied files moved, after)
    pub tests_pass : passed (env.run_pytest number after).0 ≡ true
    pub left : (env.run_pytest number after).1 ≡ tree
    pub failed_before : status ≡ succeeded → baseline_passed baseline ≡ false

  -- A turn keeps the baseline, and tells of success only if the session is verified.
  Sound : Option TestResult → Turn → Type 0
  Sound baseline (again s t) = (is_verdict s.status ≡ false) × (s.baseline ≡ baseline)
  Sound baseline (ended s t) = is_verdict s.status ≡ true → IsVerified baseline s.status t
  Sound baseline (crashed s t) = is_verdict s.status ≡ true → IsVerified baseline s.status t

  passing_status-succeeded :
      (baseline : Option TestResult)
      → (passing_status baseline).0 ≡ succeeded
      → baseline_passed baseline ≡ false
  unfolding passing_status
  passing_status-succeeded baseline e = ground arith

  environment_status-no_verdict : (r : TestResult) → is_verdict (environment_status r).0 ≡ false
  unfolding environment_status
  environment_status-no_verdict r = ground arith

  -- The verdict on a test run, if a pass of the run verifies the session.
  judge-Sound :
      (result : TestResult) (s : TaskSession) (t : Tree)
      → ((status : SessionStatus)
          → passed result ≡ true
          → (status ≡ succeeded → baseline_passed s.baseline ≡ false)
          → IsVerified s.baseline status t)
      → Sound s.baseline (judge platform disk scan options env result s t)
  unfolding judge set_stop Sound passed
  judge-Sound result s t verified = elim (Bool-cases result.environment_failure) [
    | inl broken ↦
        simp (broken) (λ h. absurd (let e = environment_status-no_verdict result in ground arith))
    | inr whole ↦ elim (Bool-cases result.exit_ok) [
      | inl green ↦
          simp (whole, green) (λ h. verified _ (ground arith) (passing_status-succeeded s.baseline))
      | inr red ↦ elim (Bool-cases (leb s.max_attempts s.attempts_used)) [
        | inl spent ↦ simp (whole, red, spent) (λ h. absurd (ground arith))
        | inr left ↦ simp (whole, red, left) (refl, refl)
      ]
    ]
  ]

  test_patch-Sound :
      (n : ℕ) (b : ApprovalBinding) (files : List Text) (moved : List FileRelocation)
      (s : TaskSession) (t t' : Tree)
      → apply_proposal platform disk scan options.allow_test_changes options.allow_new_tests
          b.proposal t
        ≡ some (applied files moved, t')
      → Sound s.baseline (test_patch platform disk scan options env n b files s t')
  unfolding test_patch add_attempt
  test_patch-Sound n b files moved s t t' e =
      judge-Sound (env.run_pytest n t').0
        (record (add_attempt b true (some true) (some (env.run_pytest n t').0) s) {
          attempts_used = suc s.attempts_used;
          consecutive_patch_regeneration_retries = 0;
          changed_files = sorted_set (s.changed_files ++ files);
          status = testing;
        })
        (env.run_pytest n t').1
        λ status green first. record {
          number = n;
          binding = b;
          before = t;
          after = t';
          files = files;
          moved = moved;
          patched = e;
          tests_pass = green;
          left = refl;
          failed_before = first;
        }

  -- A turn that ends in a status which is none of success.
  unsuccessful :
      (baseline : Option TestResult) (status : SessionStatus) (t : Tree)
      → is_verdict status ≡ false
      → is_verdict status ≡ true
      → IsVerified baseline status t
  unsuccessful baseline status t bad good = absurd (ground arith)

  apply_failed-Sound :
      (b : ApprovalBinding) (kind : ApplyErrorKind) (target : Option Text) (line : Option ℕ)
      (s : TaskSession) (t : Tree)
      → Sound s.baseline (apply_failed platform disk scan options env b kind target line s t)
  unfolding apply_failed set_stop Sound add_attempt count_apply_failure consume_regeneration
  apply_failed-Sound b kind target line s t =
      let s1 =
        add_attempt b true (some false) none
          (count_apply_failure platform disk scan options env s) in
      elim (Bool-cases (is_base_changed platform disk scan options env kind)) [
        | inl e ↦ rw (e) (unsuccessful _ _ t refl)
        | inr e ↦ elim (Bool-cases (is_recoverable_apply_error kind)) [
          | inr e2 ↦ rw (e, e2) (unsuccessful _ _ t refl)
          | inl e2 ↦ elim (Bool-cases (regeneration_exhausted s1)) [
            | inl e3 ↦ rw (e, e2, e3) (unsuccessful _ _ t refl)
            | inr e3 ↦
                let (k, same) =
                  require_apply_failure_region_read-Kept platform disk scan options env t target
                    line s1 in
                rw (e, e2, e3)
                  (refl, k.baseline ∙ (noted-Kept platform disk scan options env b s).baseline)
          ]
        ]
      ]

  apply_approved-Sound-from :
      (n : ℕ) (b : ApprovalBinding) (s : TaskSession) (t t' : Tree) (result : ApplyResult)
      → apply_proposal platform disk scan options.allow_test_changes options.allow_new_tests
          b.proposal t
        ≡ some (result, t')
      → Sound s.baseline (apply_approved platform disk scan options env n b s t)
  unfolding apply_approved
  apply_approved-Sound-from n b s t t' (applied files moved) e =
      rw (apply_approved, e) (test_patch-Sound n b files moved s t t' e)
  apply_approved-Sound-from n b s t t' (failed kind target rolled_back line) e =
      rw (apply_approved, e) (apply_failed-Sound b kind target line s t')

  apply_approved-Sound :
      (n : ℕ) (b : ApprovalBinding) (s : TaskSession) (t : Tree)
      → Sound s.baseline (apply_approved platform disk scan options env n b s t)
  unfolding apply_approved Sound set_stop
  apply_approved-Sound n b s t =
      elim (Option-cases (
        apply_proposal platform disk scan options.allow_test_changes options.allow_new_tests
          b.proposal t)) [
            | inl raises ↦ rw (apply_approved, raises) (unsuccessful _ _ t refl)
            | inr ((result, t'), e) ↦ apply_approved-Sound-from n b s t t' result e
          ]

  execute-Sound :
      (n : ℕ) (b : ApprovalBinding) (s : TaskSession) (t : Tree)
      → Sound s.baseline (execute platform disk scan options env n b s t)
  unfolding execute Sound set_stop
  execute-Sound n b s t = elim (Bool-cases (is_bound platform disk scan options env b t)) [
    | inl same ↦ rw (same) (apply_approved-Sound n b s t)
    | inr changed ↦ rw (changed) (unsuccessful _ _ t refl)
  ]

  ask-Sound :
      (n : ℕ) (b : ApprovalBinding) (s : TaskSession) (t : Tree)
      → Sound s.baseline (ask platform disk scan options env n b s t)
  unfolding ask Sound set_stop
  ask-Sound n b s t = elim (Decision-cases (decide env.callback b (suc s.attempts_used))) [
    | inl missing ↦ rw (ask, missing) (unsuccessful _ _ t refl)
    | inr (inl denied) ↦ rw (ask, denied) (unsuccessful _ _ (env.meanwhile n t) refl)
    | inr (inr agreed) ↦
        rw (ask, agreed)
          (execute-Sound n b (record s { status = awaiting_approval }) (env.meanwhile n t))
  ]

  without_patch-no_verdict :
      (s : TaskSession)
      → is_verdict s.status ≡ false
      → is_verdict (without_patch platform disk scan options env s).status ≡ false
  unfolding without_patch set_stop
  without_patch-no_verdict s h = elim (Bool-cases (is_terminal s.status)) [
    | inl over ↦ rw (over) h
    | inr free ↦ rw (free) refl
  ]

  round-Sound-from :
      (n : ℕ) (s : TaskSession) (t : Tree) (next : Next)
      → is_verdict s.status ≡ false
      → analyze_phase platform scan options t (env.replies n) s ≡ next
      → Kept s (session_of next)
      → Sound s.baseline (round platform disk scan options env n s t)
  unfolding round session_of Sound set_stop
  round-Sound-from n s t (go_on s') h e k =
      rw (round, e) (unsuccessful _ _ t (without_patch-no_verdict s' (k.no_verdict h)))
  round-Sound-from n s t (stop s') h e k =
      rw (round, e) (unsuccessful _ _ t (without_patch-no_verdict s' (k.no_verdict h)))
  round-Sound-from n s t (raised s') h e k = rw (round, e) (unsuccessful _ _ t refl)
  round-Sound-from n s t (bound b s') h e k =
      rw (round, e)
        (subst (λ baseline. Sound baseline (ask platform disk scan options env n b s' t)) k.baseline
          (ask-Sound n b s' t))

  round-Sound :
      (n : ℕ) (s : TaskSession) (t : Tree)
      → is_verdict s.status ≡ false
      → Sound s.baseline (round platform disk scan options env n s t)
  round-Sound n s t h =
      round-Sound-from n s t (analyze_phase platform scan options t (env.replies n) s) h refl
        (analyze_phase-Kept platform scan options t (env.replies n) s)

  rounds-Sound-from :
      (fuel n : ℕ) (s : TaskSession) (t : Tree) (turn last : Turn)
      → (is_terminal s.status || leb s.max_attempts s.attempts_used) ≡ false
      → round platform disk scan options env n s t ≡ turn
      → Sound s.baseline turn
      → ((s' : TaskSession) (t' : Tree)
          → is_verdict s'.status ≡ false
          → rounds platform disk scan options env fuel (suc n) s' t' ≡ some last
          → Sound s'.baseline last)
      → rounds platform disk scan options env (suc fuel) n s t ≡ some last
      → Sound s.baseline last
  unfolding rounds Sound
  rounds-Sound-from fuel n s t (again s' t') last more e g rest done =
      subst (λ baseline. Sound baseline last) g.1 (rest s' t' g.0 (rw (rounds, more, e) at done))
  rounds-Sound-from fuel n s t (ended s' t') last more e g rest done =
      subst (Sound s.baseline) (some_inj (rw (rounds, more, e) at done)) g
  rounds-Sound-from fuel n s t (crashed s' t') last more e g rest done =
      subst (Sound s.baseline) (some_inj (rw (rounds, more, e) at done)) g

  rounds-Sound :
      (fuel n : ℕ) (s : TaskSession) (t : Tree) (last : Turn)
      → is_verdict s.status ≡ false
      → rounds platform disk scan options env fuel n s t ≡ some last
      → Sound s.baseline last
  unfolding rounds Sound
  rounds-Sound zero n s t last h done = absurd (ground arith)
  rounds-Sound (suc fuel) n s t last h done =
      elim (Bool-cases (is_terminal s.status || leb s.max_attempts s.attempts_used)) [
        | inl over ↦
            subst (Sound s.baseline) (some_inj (rw (rounds, over) at done)) (unsuccessful _ _ t h)
        | inr more ↦
            rounds-Sound-from fuel n s t (round platform disk scan options env n s t) last more refl
              (round-Sound n s t h) (λ s' t' h'. rounds-Sound fuel (suc n) s' t' last h') done
      ]

  -- A session ends with a status of success only if the patch of a binding was applied and the
  -- tests, run on the result, passed, and its last working copy is the one that this run left; with
  -- the status SUCCEEDED only if, besides, the tests had not passed before the session.
  pub run_session-IsVerified :
      (fuel : ℕ) (baseline : TestResult) (s s' : TaskSession) (t t' : Tree)
      → run_session platform disk scan options env fuel baseline s t ≡ some (ended s' t')
      → is_verdict s'.status ≡ true
      → IsVerified (some baseline) s'.status t'
  unfolding run_session Sound set_stop
  run_session-IsVerified fuel baseline s s' t t' e good =
      elim (Bool-cases baseline.environment_failure) [
        | inl broken ↦
            subst (Sound (some baseline)) (some_inj (simp (broken) at e))
              (unsuccessful _ _ t (environment_status-no_verdict baseline)) good
        | inr whole ↦
            rounds-Sound fuel 0 (record s { baseline = some baseline; status = baseline_tested }) t
              (ended s' t') refl (simp (whole) at e) good
      ]
