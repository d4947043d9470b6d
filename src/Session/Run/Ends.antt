-- ===== src/Session/Run/Ends.antt =====
-- A session ends.
use safepatch.Base.{
  ℕ, suc, ◌≤◌, ◌<◌, ◌≡◌, ◌⊎◌, inl, inr, refl, ◌∙◌, true, false, Option, none, some, List, ◌++◌,
  Bool-cases, Option-cases, arith,
}
use safepatch.Text.{Text, sorted_set}
use safepatch.Patching.Policy.Validate.{is_empty}
use safepatch.Workspace.Tree.{Tree, Node, absent, directory, file, opaque}
use safepatch.Workspace.Platform.{Platform}
use safepatch.Workspace.Disk.{Disk}
use safepatch.Patching.Policy.Integrity.{Scanner}
use safepatch.Patching.Applier.{ApplyErrorKind, is_recoverable_apply_error}
use safepatch.Session.Status.{
  SessionStatus, StopReason, is_terminal, TestResult, passing_status, environment_status, analyzing,
  testing,
}
use safepatch.Session.Reads.{normalized_path}
use safepatch.Session.State.{TaskSession, Options, ApprovalBinding}
use safepatch.Session.Analyze.{regeneration_exhausted, consume_regeneration}
use safepatch.Session.Analyze.Budgets.{IsWithin, Kept, Kept-trans, unmoved-Kept}
use safepatch.Session.Run.{
  Environment, Turn, again, ended, crashed, set_stop, add_attempt, apply_failed, judge, test_patch,
  require_apply_failure_region_read, count_apply_failure, is_base_changed, require_region,
}

-- A round after which the loop goes on: it used up a repair attempt or a regeneration.
pub record Advances (s s' : TaskSession) : Type 0 where
  pub within : IsWithin s → IsWithin s'
  pub max_attempts : s'.max_attempts ≡ s.max_attempts
  pub max_regenerations : s'.max_patch_regeneration_retries ≡ s.max_patch_regeneration_retries
  pub used :
      ((s'.attempts_used ≡ s.attempts_used)
        × (s.consecutive_patch_regeneration_retries < s'.consecutive_patch_regeneration_retries))
      ⊎ ((s'.attempts_used ≡ suc s.attempts_used) × (s'.consecutive_patch_regeneration_retries ≡ 0))
  pub still_open : s.attempts_used < s.max_attempts → s'.attempts_used < s'.max_attempts

-- A round that ends the session.
pub record Settled (s s' : TaskSession) : Type 0 where
  pub terminal : is_terminal s'.status ≡ true
  pub attempts : s.attempts_used < s.max_attempts → s'.attempts_used ≤ s'.max_attempts
  pub max_attempts : s'.max_attempts ≡ s.max_attempts

abbrev pub Good : TaskSession → Turn → Type 0
Good s (again s' t) = Advances s s'
Good s (ended s' t) = Settled s s'
Good s (crashed s' t) = Settled s s'

module _ (platform : Platform) (disk : Disk) (scan : Scanner) (options : Options)
    (env : Environment) where
  judge-Good :
      (r : TestResult) (s0 s : TaskSession) (t : Tree)
      → (IsWithin s0 → IsWithin s)
      → s.max_attempts ≡ s0.max_attempts
      → s.max_patch_regeneration_retries ≡ s0.max_patch_regeneration_retries
      → s.attempts_used ≡ suc s0.attempts_used
      → s.consecutive_patch_regeneration_retries ≡ 0
      → Good s0 (judge platform disk scan options env r s t)
  unfolding judge environment_status passing_status set_stop is_terminal
  judge-Good r s0 s t w a b c d = ground arith

  pub test_patch-Good :
      (n : ℕ) (b : ApprovalBinding) (files : List Text) (s : TaskSession) (t : Tree)
      → Good s (test_patch platform disk scan options env n b files s t)
  unfolding test_patch add_attempt
  test_patch-Good n b files s t =
      let outcome = env.run_pytest n t in
      judge-Good outcome.0 s
        (record (add_attempt b true (some true) (some outcome.0) s) {
          attempts_used = suc s.attempts_used;
          consecutive_patch_regeneration_retries = 0;
          changed_files = sorted_set (s.changed_files ++ files);
          status = testing;
        })
        outcome.1 (λ w. ground arith) refl refl refl refl

  require_region-Kept :
      (path : Text) (line : Option ℕ) (node : Node) (s : TaskSession)
      → Kept s (require_region path line node s)
        × (regeneration_exhausted (require_region path line node s) ≡ regeneration_exhausted s)
  unfolding require_region regeneration_exhausted
  require_region-Kept path line absent s = (unmoved-Kept s, refl)
  require_region-Kept path line directory s = (unmoved-Kept s, refl)
  require_region-Kept path line (file content) s = (ground arith, refl)
  require_region-Kept path line (opaque bytes) s = (unmoved-Kept s, refl)

  pub require_apply_failure_region_read-Kept :
      (t : Tree) (target : Option Text) (line : Option ℕ) (s : TaskSession)
      → let s' = require_apply_failure_region_read platform disk scan options env t target line s in
        Kept s s' × (regeneration_exhausted s' ≡ regeneration_exhausted s)
  unfolding require_apply_failure_region_read
  require_apply_failure_region_read-Kept t none line s = (unmoved-Kept s, refl)
  require_apply_failure_region_read-Kept t (some target) line s =
      elim (Bool-cases (is_empty target)) [
        | inl e ↦ rw (e) (unmoved-Kept s, refl)
        | inr e ↦ elim (Option-cases (platform.resolve (normalized_path target))) [
          | inl outside ↦ rw (require_apply_failure_region_read, e, outside) (unmoved-Kept s, refl)
          | inr (key, inside) ↦
              rw (require_apply_failure_region_read, e, inside)
                (require_region-Kept (normalized_path target) line (t key) s)
        ]
      ]

  pub noted-Kept :
      (b : ApprovalBinding) (s : TaskSession)
      → Kept s (
          add_attempt b true
            (some false)
            none
            (count_apply_failure platform disk scan options env s))
  unfolding add_attempt count_apply_failure
  noted-Kept b s = ground arith

  consumed-Advances :
      (r s : TaskSession)
      → Kept r s
      → regeneration_exhausted s ≡ false
      → Advances r (record (consume_regeneration s) { status = analyzing })
  unfolding consume_regeneration regeneration_exhausted
  consumed-Advances r s k free = record {
    within = λ w. let w' = k.within w in ground arith;
    max_attempts = k.max_attempts;
    max_regenerations = k.max_regenerations;
    used = inl (k.attempts_used, (let le = k.regenerations in omega arith));
    still_open = (λ h. let e1 = k.attempts_used in let e2 = k.max_attempts in omega arith);
  }

  pub Kept-Settled :
      (r s : TaskSession) (st : SessionStatus) (why : StopReason)
      → Kept r s
      → is_terminal st ≡ true
      → Settled r (set_stop (st, why) s)
  unfolding set_stop
  Kept-Settled r s st why k e = record {
    terminal = e;
    attempts = (λ h. let e1 = k.attempts_used in let e2 = k.max_attempts in omega arith);
    max_attempts = k.max_attempts;
  }

  pub apply_failed-Good :
      (b : ApprovalBinding) (kind : ApplyErrorKind) (target : Option Text) (line : Option ℕ)
      (s : TaskSession) (t : Tree)
      → Good s (apply_failed platform disk scan options env b kind target line s t)
  unfolding apply_failed
  apply_failed-Good b kind target line s t =
      let s1 =
        add_attempt b true (some false) none
          (count_apply_failure platform disk scan options env s) in
      let k = noted-Kept b s in
      elim (Bool-cases (is_base_changed platform disk scan options env kind)) [
        | inl e ↦ rw (e) (Kept-Settled s s1 _ _ k (unfold is_terminal in refl))
        | inr e ↦ elim (Bool-cases (is_recoverable_apply_error kind)) [
          | inr e2 ↦ rw (e, e2) (Kept-Settled s s1 _ _ k (unfold is_terminal in refl))
          | inl e2 ↦ elim (Bool-cases (regeneration_exhausted s1)) [
            | inl e3 ↦ rw (e, e2, e3) (Kept-Settled s s1 _ _ k (unfold is_terminal in refl))
            | inr e3 ↦
                let (k2, same) = require_apply_failure_region_read-Kept t target line s1 in
                rw (e, e2, e3) (consumed-Advances s _ (Kept-trans s s1 _ k k2) (same ∙ e3))
          ]
        ]
      ]
