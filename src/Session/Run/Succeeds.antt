-- ===== src/Session/Run/Succeeds.antt =====
-- A session whose first reply is a patch that works.
use safepatch.Base.{
  ℕ, suc, ◌≡◌, ◌<◌, refl, sym, ap, ◌∙◌, Bool, true, false, some, List, [], ◌∷◌, ◌++◌, leb, arith,
  if◌then◌else◌, ok, ok_inj, >>=-eq-ok,
}
use safepatch.Text.{Text, sorted_set}
use safepatch.Text.Laws.{eq→text_eq}
use safepatch.Workspace.Tree.{Tree}
use safepatch.Workspace.Platform.{Platform}
use safepatch.Workspace.Disk.{Disk}
use safepatch.Patching.Hashes.{patch_hash, working_tree_hash}
use safepatch.Patching.Policy.Proposal.{PatchProposal}
use safepatch.Patching.Policy.Integrity.{Scanner}
use safepatch.Patching.Policy.Validate.{ValidationResult, is_ok, is_empty, validate_proposal}
use safepatch.Patching.Preflight.{PreflightSuccess, run, run_files, check_files}
use safepatch.Patching.Diff.{split_file_diffs}
use safepatch.Patching.Applier.{FileRelocation, applied, apply_proposal}
use safepatch.Session.Status.{
  is_terminal, TestResult, passed, passing_status, baseline_passed, decide, baseline_tested,
  succeeded, tests_passed_unverified, analyzing, propose, testing, awaiting_approval,
}
use safepatch.Session.State.{TaskSession, Options, ApprovalBinding}
use safepatch.Session.Analyze.{
  Next, bound, Reply, proposed, parsed, analyze_phase, start_phase, analysis_loop, step,
  handle_proposal, consider, run_preflight,
}
use safepatch.Session.Run.{
  Environment, ended, judge, test_patch, apply_approved, is_bound, execute, ask, round, rounds,
  run_session, set_stop, add_attempt,
}

-- The hashes that the preflight returns are those of the diff and of the working copy.
run_files-hashes :
    (platform : Platform) (t : Tree) (p : PatchProposal) (fs : List (Text × Text))
    (success : PreflightSuccess)
    → run_files platform t p fs ≡ ok success
    → (success.patch_hash ≡ patch_hash platform p.unified_diff)
      × (success.working_tree_hash ≡ working_tree_hash platform t)
unfolding run_files
run_files-hashes platform t p [] success e = absurd (ground arith)
run_files-hashes platform t p (f ∷ fs) success e =
    let (moved, e1, e2) = (>>=-eq-ok (check_files platform t p.base_revisions (f ∷ fs)) _ e) in
    (sym (ap (λ x. x.patch_hash) (ok_inj e2)), sym (ap (λ x. x.working_tree_hash) (ok_inj e2)))

-- A baseline that the environment did not break decides by its exit code.
passing_status-whole :
    (r : TestResult)
    → r.environment_failure ≡ false
    → (passing_status (some r)).0 ≡ (if r.exit_ok then tests_passed_unverified else succeeded)
unfolding passing_status passed baseline_passed
passing_status-whole r whole = ground arith

-- The end of an analysis that binds this proposal, with the hashes of its preflight.
record Binds (p : PatchProposal) (success : PreflightSuccess) (s : TaskSession) (next : Next)
    : Type 0 where
  binding : ApprovalBinding
  session : TaskSession
  binds : next ≡ bound binding session
  same_proposal : binding.proposal ≡ p
  same_patch : binding.patch_hash ≡ success.patch_hash
  same_tree : binding.working_tree_hash ≡ success.working_tree_hash
  same_attempts : session.attempts_used ≡ s.attempts_used
  same_baseline : session.baseline ≡ s.baseline

module _ (platform : Platform) (disk : Disk) (scan : Scanner) (options : Options)
    (env : Environment) where
  judge_passes :
      (r : TestResult) (s : TaskSession) (t : Tree)
      → passed r ≡ true
      → (s' : TaskSession) × (judge platform disk scan options env r s t ≡ ended s' t)
        × (s'.status ≡ (passing_status s.baseline).0)
  unfolding judge set_stop passed
  judge_passes r s t good =
      let whole : r.environment_failure ≡ false = ground arith in
      let green : r.exit_ok ≡ true = ground arith in simp (whole, green) (_, refl, refl)

  -- A binding that the user has agreed to, for a patch that applies and whose tests pass.
  execute_passes :
      (n : ℕ) (b : ApprovalBinding) (s : TaskSession) (t t' : Tree) (files : List Text)
      (moved : List FileRelocation)
      → b.patch_hash ≡ patch_hash platform b.proposal.unified_diff
      → b.working_tree_hash ≡ working_tree_hash platform t
      → apply_proposal platform disk scan options.allow_test_changes options.allow_new_tests
          b.proposal t
        ≡ some (applied files moved, t')
      → passed (env.run_pytest n t').0 ≡ true
      → (s' : TaskSession) × (execute platform disk scan options env n b s t
          ≡ ended s' (env.run_pytest n t').1)
        × (s'.status ≡ (passing_status s.baseline).0)
  unfolding execute apply_approved is_bound test_patch add_attempt
  execute_passes n b s t t' files moved h1 h2 applies good =
      let e1 = eq→text_eq _ _ (sym h1) in
      let e2 = eq→text_eq _ _ (sym h2) in
      rw (execute, is_bound, e2, e1, apply_approved, applies)
        (judge_passes (env.run_pytest n t').0
          (record (add_attempt b true (some true) (some (env.run_pytest n t').0) s) {
            attempts_used = suc s.attempts_used;
            consecutive_patch_regeneration_retries = 0;
            changed_files = sorted_set (s.changed_files ++ files);
            status = testing;
          })
          (env.run_pytest n t').1 good)

  ask_passes :
      (n : ℕ) (b : ApprovalBinding) (s : TaskSession) (t t' : Tree) (files : List Text)
      (moved : List FileRelocation) (callback : ApprovalBinding → ℕ → Bool)
      → env.callback ≡ some callback
      → callback b (suc s.attempts_used) ≡ true
      → env.meanwhile n t ≡ t
      → b.patch_hash ≡ patch_hash platform b.proposal.unified_diff
      → b.working_tree_hash ≡ working_tree_hash platform t
      → apply_proposal platform disk scan options.allow_test_changes options.allow_new_tests
          b.proposal t
        ≡ some (applied files moved, t')
      → passed (env.run_pytest n t').0 ≡ true
      → (s' : TaskSession) × (ask platform disk scan options env n b s t
          ≡ ended s' (env.run_pytest n t').1)
        × (s'.status ≡ (passing_status s.baseline).0)
  unfolding ask decide
  ask_passes n b s t t' files moved callback there agrees still h1 h2 applies good =
      rw (ask, decide, there, agrees, still)
        (execute_passes n b (record s { status = awaiting_approval }) t t' files moved h1 h2 applies
          good)

  consider-Binds :
      (p : PatchProposal) (v : ValidationResult) (success : PreflightSuccess) (s : TaskSession)
      (t : Tree)
      → options.preflight_enabled ≡ true
      → validate_proposal platform t scan options.allow_test_changes options.allow_new_tests p
        ≡ some v
      → is_ok v ≡ true
      → run platform t p ≡ ok success
      → Binds p success s (consider platform scan options t p s)
  unfolding consider run_preflight
  consider-Binds p v success s t on valid fine passes =
      rw (consider, valid, fine, run_preflight, on, passes)
        (record {
          binding = _;
          session = _;
          binds = refl;
          same_proposal = refl;
          same_patch = refl;
          same_tree = refl;
          same_attempts = refl;
          same_baseline = refl;
        })

  analyze_phase-Binds :
      (steps : ℕ) (replies : ℕ → Reply) (p : PatchProposal) (v : ValidationResult)
      (success : PreflightSuccess) (s : TaskSession) (t : Tree)
      → options.max_analysis_steps ≡ suc steps
      → replies 0 ≡ proposed (parsed p)
      → s.required_reads ≡ []
      → options.preflight_enabled ≡ true
      → validate_proposal platform t scan options.allow_test_changes options.allow_new_tests p
        ≡ some v
      → is_ok v ≡ true
      → run platform t p ≡ ok success
      → Binds p success s (analyze_phase platform scan options t replies s)
  unfolding analyze_phase analysis_loop step handle_proposal is_empty
  analyze_phase-Binds steps replies p v success s t some_steps first none_required on valid fine
        passes =
      let s0 : TaskSession = record s {
        status = analyzing;
        consecutive_format_retries = 0;
        analysis_phase = start_phase platform scan options t s;
      } in
      let s2 : TaskSession = record s {
        status = analyzing;
        consecutive_format_retries = 0;
        analysis_phase = propose;
        consecutive_read_budget_violations = 0;
        consecutive_no_progress_actions = 0;
      } in
      let c = consider-Binds p v success s2 t on valid fine passes in
      let free : is_empty s.required_reads ≡ true = ap is_empty none_required in
      record {
        binding = c.binding;
        session = c.session;
        binds =
            ap (λ n. analysis_loop platform scan options t replies n 0 s0) some_steps
            ∙ rw (analysis_loop, step, first, handle_proposal, free, c.binds) refl;
        same_proposal = c.same_proposal;
        same_patch = c.same_patch;
        same_tree = c.same_tree;
        same_attempts = c.same_attempts;
        same_baseline = c.same_baseline;
      }

  -- A session ends with `succeeded`, or with `tests_passed_unverified` if the tests passed at the
  -- baseline already, if its first reply is a proposal that is valid and passes the preflight, the
  -- user agrees to whatever is asked and the working copy stays as it is meanwhile, the patch
  -- applies, and the tests pass on the result. The session has a repair attempt, an analysis step
  -- and no required read at its start, the preflight is enabled, and the baseline run was not broken
  -- by the environment.
  pub run_session_succeeds :
      (fuel steps : ℕ) (baseline : TestResult) (s : TaskSession) (t t' : Tree)
      (callback : ApprovalBinding → ℕ → Bool) (p : PatchProposal) (v : ValidationResult)
      (success : PreflightSuccess) (files : List Text) (moved : List FileRelocation)
      → baseline.environment_failure ≡ false
      → s.attempts_used < s.max_attempts
      → s.required_reads ≡ []
      → options.max_analysis_steps ≡ suc steps
      → options.preflight_enabled ≡ true
      → env.replies 0 0 ≡ proposed (parsed p)
      → validate_proposal platform t scan options.allow_test_changes options.allow_new_tests p
        ≡ some v
      → is_ok v ≡ true
      → run platform t p ≡ ok success
      → env.callback ≡ some callback
      → ((b : ApprovalBinding) (n : ℕ) → callback b n ≡ true)
      → env.meanwhile 0 t ≡ t
      → apply_proposal platform disk scan options.allow_test_changes options.allow_new_tests p t
        ≡ some (applied files moved, t')
      → passed (env.run_pytest 0 t').0 ≡ true
      → (s' : TaskSession) × (run_session platform disk scan options env (suc fuel) baseline s t
          ≡ some (ended s' (env.run_pytest 0 t').1))
        × (s'.status ≡ (if baseline.exit_ok then tests_passed_unverified else succeeded))
  unfolding run_session rounds round set_stop is_terminal run
  run_session_succeeds fuel steps baseline s t t' callback p v success files moved whole left
        none_required some_steps on first valid fine passes there agrees still applies good =
      let s1 : TaskSession = record s { baseline = some baseline; status = baseline_tested } in
      let c =
        analyze_phase-Binds steps (env.replies 0) p v success s1 t some_steps first none_required on
          valid fine passes in
      let (h1, h2) =
        run_files-hashes platform t p (split_file_diffs p.unified_diff) success passes in
      let more : leb s.max_attempts s.attempts_used ≡ false = ground arith in
      let (s', e, verdict) =
        ask_passes 0 c.binding c.session t t' files moved callback there (agrees _ _) still
          (c.same_patch ∙ h1 ∙ ap (λ x. patch_hash platform x.unified_diff) (sym c.same_proposal))
          (c.same_tree ∙ h2)
          (ap
              (λ x.
                apply_proposal platform disk scan options.allow_test_changes options.allow_new_tests
                  x t)
              c.same_proposal
            ∙ applies)
          good in
      (
        s',
        simp (whole) (rw (rounds, more, round, c.binds, e) refl),
        verdict
            ∙ ap (λ b. (passing_status b).0) c.same_baseline
            ∙ passing_status-whole baseline whole,
      )
