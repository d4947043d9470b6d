-- ===== src/Tests/Session.antt =====
-- Sessions on the small working copy: the model proposes a patch at once.
use safepatch.Base.{◌<◌, ◌≡◌, ◌⊎◌, refl, ap, true, false, none, some, [], arith}
use safepatch.Text.{codes}
use safepatch.Patching.Hashes.{patch_hash, working_tree_hash}
use safepatch.Session.Status.{
  passed, succeeded, is_verdict, created, no_reason, explore, TestResult, decide, approve,
}
use safepatch.Session.State.{TaskSession, Options, ApprovalBinding}
use safepatch.Session.Analyze.{proposed, parsed, analyze_phase}
use safepatch.Session.Analyze.Budgets.{IsWithin, Kept, session_of}
use safepatch.Session.Analyze.Steps.{analyze_phase-Kept}
use safepatch.Session.Run.{ended, Environment, run_session, ask}
use safepatch.Session.Run.Consent.{tree_of, ask_consent, run_session_fail_closed}
use safepatch.Session.Run.Terminates.{Over, rounds_left, run_session-Over}
use safepatch.Session.Run.Verdict.{IsVerified, run_session-IsVerified}
use safepatch.Workspace.Tree.{Tree}
use safepatch.Tests.World.{diff, platform, disk, scanner, tree, proposal}
use safepatch.Tests.Policy.{valid, validates}
use safepatch.Tests.Applier.{applies, checked, preflight_passes}
use safepatch.Patching.Policy.Validate.{is_ok}
use safepatch.Session.Run.Succeeds.{run_session_succeeds}

abbrev pub start : TaskSession
start = record {
  status = created;
  stop_reason = no_reason;
  max_attempts = 3;
  attempts_used = 0;
  read_actions_used = 0;
  exploration_read_actions_used = 0;
  max_read_actions = 12;
  analysis_phase = explore;
  evidence_requests_used = 0;
  max_evidence_requests = 2;
  evidence_parameter_corrections_used = 0;
  max_evidence_parameter_corrections = 1;
  consecutive_no_progress_actions = 0;
  total_no_progress_actions = 0;
  hard_policy_violations = 0;
  required_recovery_reads_used = 0;
  successful_read_ranges = [];
  baseline = none;
  attempts = [];
  changed_files = [];
  max_format_retries = 2;
  consecutive_format_retries = 0;
  total_format_retries_used = 0;
  max_patch_regeneration_retries = 2;
  consecutive_patch_regeneration_retries = 0;
  total_patch_regeneration_retries = 0;
  patch_preflight_failures = 0;
  patch_preflight_successes = 0;
  patch_apply_failures_after_preflight = 0;
  patch_apply_failures_without_preflight = 0;
  first_patch_applicable = none;
  required_reads = [];
  consecutive_read_budget_violations = 0;
  total_read_budget_violations = 0;
}

abbrev pub options : Options
options = record {
  max_analysis_steps = 20;
  allow_test_changes = false;
  allow_new_tests = true;
  preflight_enabled = true;
}

abbrev red : TestResult
red = record { exit_ok = false; environment_failure = false; timed_out = false }

abbrev broken : TestResult
broken = record { exit_ok = false; environment_failure = true; timed_out = true }

abbrev green : TestResult
green = record { exit_ok = true; environment_failure = false; timed_out = false }

abbrev closed : Environment
closed = record {
  replies = λ n i. proposed (parsed proposal);
  callback = none;
  meanwhile = λ n t. t;
  run_pytest = λ n t. (red, t);
}

abbrev approving : Environment
approving = record closed { callback = some (λ b n. true) }

within : IsWithin start
within = ground arith

enough : rounds_left start < 12
unfolding rounds_left
enough = ground arith

run_session-Over_example :
    Over 3 (run_session platform disk scanner options approving 12 red start tree)
run_session-Over_example =
    run_session-Over platform disk scanner options approving 12 red start tree within (ground arith)
      enough

analyze_phase-Kept_example :
    Kept start (session_of (analyze_phase platform scanner options tree (closed.replies 0) start))
analyze_phase-Kept_example =
    analyze_phase-Kept platform scanner options tree (closed.replies 0) start

abbrev binding : ApprovalBinding
binding = record {
  patch_hash = codes "p";
  working_tree_hash = codes "w";
  proposal = proposal;
  validation = valid;
}

ask_consent_example :
    (tree_of (ask platform disk scanner options approving 0 binding start tree) ≡ tree)
    ⊎ ((tree_of (ask platform disk scanner options approving 0 binding start tree) ≡ tree)
        ⊎ ((decide approving.callback binding 1 ≡ approve)
            × (working_tree_hash platform tree ≡ binding.working_tree_hash)
            × (patch_hash platform diff ≡ binding.patch_hash)))
ask_consent_example = ask_consent platform disk scanner options approving 0 binding start tree

closed_run : Over 3 (run_session platform disk scanner options closed 12 red start tree)
closed_run =
    run_session-Over platform disk scanner options closed 12 red start tree within (ground arith)
      enough

run_session_fail_closed_example : tree_of closed_run.0 ≡ tree
run_session_fail_closed_example =
    run_session_fail_closed platform disk scanner options closed 12 red start tree closed_run.0 refl
      closed_run.1

-- The tests fail on the working copy as it was, and pass on the patched one.
abbrev repairing : Environment
repairing = record approving { run_pytest = λ n t. (green, t) }

succeeding :
    (s' : TaskSession) × (t' : Tree) × (run_session platform disk scanner options repairing 12 red
        start tree
      ≡ some (ended s' t'))
    × (s'.status ≡ succeeded)
unfolding run_session safepatch.Session.Status.is_terminal analyze_phase
    safepatch.Patching.Policy.Validate.validate_proposal safepatch.Patching.Applier.apply_proposal
    safepatch.Patching.Preflight.run patch_hash working_tree_hash decide
    safepatch.Patching.Diff.parse_diff_files safepatch.Text.splitlines
    safepatch.Patching.Diff.classify safepatch.Text.starts_with safepatch.Text.ends_with
    safepatch.Text.text_eq safepatch.Text.strip
    safepatch.Patching.Policy.Paths.is_pytest_config_path safepatch.Text.elem
    safepatch.Text.split_char safepatch.Text.replace_char safepatch.Workspace.Tree.is_file
    safepatch.Patching.Policy.Paths.is_test_path safepatch.Text.contains
    safepatch.Patching.Policy.Paths.is_root_test_name
    safepatch.Patching.Policy.Paths.normalize_patch_path safepatch.Text.sorted_set
    safepatch.Patching.Policy.Integrity.merge safepatch.Text.join
    safepatch.Patching.Policy.Paths.escapes safepatch.Patching.Policy.Paths.is_forbidden_path
    safepatch.Text.has_duplicate safepatch.Text.without safepatch.Workspace.Tree.exists
    safepatch.Text.remove_prefix safepatch.Patching.Diff.split_file_diffs
    safepatch.Patching.Hunks.apply_hunks_to_text safepatch.Patching.Hunks.parse_hunks
    safepatch.Text.digit_value safepatch.Patching.Hunks.hunk_old_lines
    safepatch.Patching.Hunks.exact_block_matches safepatch.Text.splitlines_keep
    safepatch.Text.rstrip_newlines safepatch.Text.concat safepatch.Patching.Diff.is_new_file
    safepatch.Patching.Diff.content_from_new_file_diff safepatch.Patching.Policy.Validate.is_ok
    safepatch.Workspace.Tree.put safepatch.Patching.Policy.Proposal.get
succeeding = (_, _, refl, refl)

run_session-IsVerified_example :
    IsVerified platform disk scanner options repairing (some red) succeeding.0.status succeeding.1
run_session-IsVerified_example =
    run_session-IsVerified platform disk scanner options repairing 12 red start succeeding.0 tree
      succeeding.1 succeeding.2 (ap is_verdict succeeding.3)

run_session_succeeds_example :
    (s' : TaskSession) × (run_session platform disk scanner options repairing 1 red start tree
      ≡ some (ended s' applies.0))
    × (s'.status ≡ succeeded)
unfolding is_ok passed
run_session_succeeds_example =
    run_session_succeeds platform disk scanner options repairing 0 19 red start tree applies.0
      (λ b n. true) proposal valid checked valid.files checked.relocations refl (ground arith) refl
      refl refl refl validates refl preflight_passes refl (λ b n. refl) refl applies.1 refl
