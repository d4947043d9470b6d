-- ===== src/Session/Run.antt =====
-- TaskController.run of code_agent/controller.py, from the baseline on, with the approval and the
-- execution of a patch. What others do is an `Environment`; rounds are numbered from 0.
pub mod Ends
pub mod Consent
pub mod Terminates
pub mod Verdict
pub mod Succeeds
use safepatch.Base.{
  ℕ, suc, zero, ◌+◌, ◌-◌, Bool, true, false, not, ◌&&◌, ◌||◌, Option, none, some, List, [], ◌∷◌,
  ◌++◌, length, min, max, leb, if◌then◌else◌,
}
use safepatch.Text.{Text, text_eq, splitlines, sorted_set}
use safepatch.Workspace.Tree.{Node, Tree, file}
use safepatch.Workspace.Platform.{Platform}
use safepatch.Workspace.Disk.{Disk}
use safepatch.Patching.Hashes.{patch_hash, working_tree_hash}
use safepatch.Patching.Policy.Integrity.{Scanner}
use safepatch.Patching.Policy.Validate.{is_empty}
use safepatch.Patching.Applier.{
  applied, failed, ApplyErrorKind, base_changed, is_recoverable_apply_error, apply_proposal,
}
use safepatch.Session.Status.{
  SessionStatus, baseline_tested, analyzing, awaiting_approval, testing, failed_max_attempts,
  patch_not_applicable, patch_base_changed, rejected, error, is_terminal, StopReason,
  max_patch_attempts_reached, not_applicable, changed_base, user_rejected_patch,
  approval_handler_missing, agent_finished_without_patch, patch_apply_error, internal_failure,
  TestResult, passed, passing_status, environment_status, decide, handler_missing, approve, reject,
}
use safepatch.Session.State.{TaskSession, ApprovalBinding, Options}
use safepatch.Session.Reads.{normalized_path, set_range}
use safepatch.Session.Analyze.{
  Reply, go_on, stop, raised, bound, regeneration_exhausted, consume_regeneration, analyze_phase,
}

pub record Environment : Type 0 where
  -- the model's replies in a round
  pub replies : ℕ → ℕ → Reply
  -- the approval callback, if there is one
  pub callback : Option (ApprovalBinding → ℕ → Bool)
  -- what happens to the working copy while the callback runs
  pub meanwhile : ℕ → Tree → Tree
  -- the pytest run on the working copy, and what it leaves
  pub run_pytest : ℕ → Tree → TestResult × Tree

-- How a round of the loop ends; `crashed` is an exception that `run` re-raises.
pub data Turn : Type 0 where
  again ended crashed : TaskSession → Tree → Turn

unfoldable pub set_stop : SessionStatus × StopReason → TaskSession → TaskSession
set_stop (st, reason) s = record s { status = st; stop_reason = reason }

unfoldable pub add_attempt :
    ApprovalBinding → Bool → Option Bool → Option TestResult → TaskSession → TaskSession
add_attempt b consent apply_ok result s = record s {
  attempts =
      s.attempts
      ++ record {
        attempt = suc s.attempts_used;
        proposal = b.proposal;
        approved = consent;
        apply_ok = apply_ok;
        test_result = result;
      }
        ∷ [];
}

abbrev line_or_first : Option ℕ → ℕ
line_or_first none = 1
line_or_first (some line) = max line 1

-- _require_apply_failure_region_read, once the path is resolved
unfoldable pub require_region : Text → Option ℕ → Node → TaskSession → TaskSession
unfolding set_range
require_region path line (file content) s =
    let line_count = max (length (splitlines content)) 1 in
    let center = min (line_or_first line) line_count in
    record s {
      required_reads =
          set_range s.required_reads path (max 1 (center - 8), min line_count (center + 8));
    }
require_region path line _ s = s

module _ (platform : Platform) (disk : Disk) (scan : Scanner) (options : Options)
    (env : Environment) where
  unfoldable pub require_apply_failure_region_read :
      Tree → Option Text → Option ℕ → TaskSession → TaskSession
  unfolding require_region normalized_path is_empty
  require_apply_failure_region_read t none line s = s
  require_apply_failure_region_read t (some target) line s =
      if is_empty target then s else elim (platform.resolve (normalized_path target)) [
        | none ↦ s
        | some key ↦ require_region (normalized_path target) line (t key) s
      ]

  unfoldable pub count_apply_failure : TaskSession → TaskSession
  count_apply_failure s =
      if options.preflight_enabled
      then record s {
        patch_apply_failures_after_preflight = suc s.patch_apply_failures_after_preflight;
      }
      else record s {
        patch_apply_failures_without_preflight = suc s.patch_apply_failures_without_preflight;
      }

  unfoldable pub is_base_changed : ApplyErrorKind → Bool
  is_base_changed base_changed = true
  is_base_changed _ = false

  -- `if not apply_result.ok`
  unfoldable pub apply_failed :
      ApprovalBinding → ApplyErrorKind → Option Text → Option ℕ → TaskSession → Tree → Turn
  unfolding count_apply_failure add_attempt set_stop is_base_changed is_recoverable_apply_error
      regeneration_exhausted consume_regeneration require_apply_failure_region_read
  apply_failed b kind target line s t =
      let s' = add_attempt b true (some false) none (count_apply_failure s) in
      if is_base_changed kind
      then ended (set_stop (patch_base_changed, changed_base) s') t
      else if not (is_recoverable_apply_error kind)
      then ended (set_stop (error, patch_apply_error) s') t
      else if regeneration_exhausted s'
      then ended (set_stop (patch_not_applicable, not_applicable) s') t
      else again
          (record (consume_regeneration (require_apply_failure_region_read t target line s')) {
            status = analyzing;
          })
          t

  -- The classification of a test run.
  unfoldable pub judge : TestResult → TaskSession → Tree → Turn
  unfolding environment_status passing_status passed set_stop
  judge result s t =
      if result.environment_failure
      then ended (set_stop (environment_status result) s) t
      else if passed result
      then ended (set_stop (passing_status s.baseline) s) t
      else if leb s.max_attempts s.attempts_used
      then ended (set_stop (failed_max_attempts, max_patch_attempts_reached) s) t
      else again (record s { status = analyzing }) t

  -- From `session.attempts_used += 1` to the end of the round.
  unfoldable pub test_patch : ℕ → ApprovalBinding → List Text → TaskSession → Tree → Turn
  unfolding judge add_attempt
  test_patch n b files s t =
      let outcome = env.run_pytest n t in
      let s' = add_attempt b true (some true) (some outcome.0) s in
      judge outcome.0
        (record s' {
          attempts_used = suc s.attempts_used;
          consecutive_patch_regeneration_retries = 0;
          changed_files = sorted_set (s.changed_files ++ files);
          status = testing;
        })
        outcome.1

  unfoldable pub apply_approved : ℕ → ApprovalBinding → TaskSession → Tree → Turn
  unfolding test_patch apply_failed set_stop
  apply_approved n b s t =
      elim (apply_proposal platform disk scan options.allow_test_changes options.allow_new_tests
        b.proposal t) [
          | none ↦ crashed (set_stop (error, internal_failure) s) t
          | some (applied files moved, t') ↦ test_patch n b files s t'
          | some (failed kind target rolled_back line, t') ↦ apply_failed b kind target line s t'
        ]

  -- The approval is bound to the two hashes.
  unfoldable pub is_bound : ApprovalBinding → Tree → Bool
  is_bound b t =
      text_eq (working_tree_hash platform t) b.working_tree_hash
      && text_eq (patch_hash platform b.proposal.unified_diff) b.patch_hash

  unfoldable pub execute : ℕ → ApprovalBinding → TaskSession → Tree → Turn
  unfolding is_bound apply_approved add_attempt set_stop
  execute n b s t =
      if is_bound b t
      then apply_approved n b s t
      else ended
          (set_stop (patch_base_changed, changed_base) (add_attempt b true (some false) none s)) t

  unfoldable pub ask : ℕ → ApprovalBinding → TaskSession → Tree → Turn
  unfolding decide execute add_attempt set_stop
  ask n b s t = elim (decide env.callback b (suc s.attempts_used)) [
    | handler_missing ↦ ended (set_stop (rejected, approval_handler_missing) s) t
    | reject ↦
        ended (set_stop (rejected, user_rejected_patch) (add_attempt b false none none s))
          (env.meanwhile n t)
    | approve ↦ execute n b (record s { status = awaiting_approval }) (env.meanwhile n t)
  ]

  -- The analysis ended without a patch.
  unfoldable pub without_patch : TaskSession → TaskSession
  unfolding set_stop
  without_patch s =
      if is_terminal s.status then s else set_stop (error, agent_finished_without_patch) s

  -- The body of the loop.
  unfoldable pub round : ℕ → TaskSession → Tree → Turn
  unfolding ask without_patch set_stop
  round n s t = elim (analyze_phase platform scan options t (env.replies n) s) [
    | go_on s' ↦ ended (without_patch s') t
    | stop s' ↦ ended (without_patch s') t
    | raised s' ↦ crashed (set_stop (error, internal_failure) s') t
    | bound b s' ↦ ask n b s' t
  ]

  -- The loop on fuel; `none` is that the fuel is spent.
  unfoldable pub rounds : ℕ → ℕ → TaskSession → Tree → Option Turn
  unfolding round
  rounds zero n s t = none
  rounds (suc fuel) n s t = elim (is_terminal s.status || leb s.max_attempts s.attempts_used) [
    | true ↦ some (ended s t)
    | false ↦ elim (round n s t) [
      | again s' t' ↦ rounds fuel (suc n) s' t'
      | ended s' t' ↦ some (ended s' t')
      | crashed s' t' ↦ some (crashed s' t')
    ]
  ]

  -- _baseline_phase, and the loop unless the environment is broken
  unfoldable pub run_session : ℕ → TestResult → TaskSession → Tree → Option Turn
  unfolding environment_status set_stop rounds
  run_session fuel result s t =
      let s' = record s { baseline = some result } in
      if result.environment_failure
      then some (ended (set_stop (environment_status result) s') t)
      else rounds fuel 0 (record s' { status = baseline_tested }) t
