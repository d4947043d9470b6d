-- ===== src/Session/Analyze/Budgets.antt =====
-- No reply of the model takes the session over its budgets.
use safepatch.Base.{
  ℕ, suc, ◌≤◌, ◌≡◌, inl, inr, refl, ◌∙◌, Bool, false, Option, some, Bool-cases, Option-cases, arith,
}
use safepatch.Text.{Text}
use safepatch.Patching.Policy.Validate.{is_empty}
use safepatch.Patching.Preflight.{PreflightFailure}
use safepatch.Session.State.{TaskSession}
use safepatch.Session.Status.{
  is_verdict, SessionStatus, StopReason, analyzing, AnalysisPhase, synthesize,
}
use safepatch.Session.Reads.{
  EvidenceErrorKind, parameter_error, no_progress, hard_violation, record_successful_read_range,
  record_required_read_if_satisfied, Inspection, charge, get_range, normalized_path,
}
use safepatch.Session.Analyze.{
  Next, go_on, stop, raised, bound, handle_format_error, note_no_progress, handle_evidence_error,
  preflight_failed, regeneration_exhausted, require_failure_region_read, consume_regeneration,
  first,
}

-- The session is within its budgets.
pub record IsWithin (s : TaskSession) : Type 0 where
  pub explored : s.exploration_read_actions_used ≤ s.max_read_actions
  pub requested : s.evidence_requests_used ≤ s.max_evidence_requests
  pub corrected : s.evidence_parameter_corrections_used ≤ s.max_evidence_parameter_corrections
  pub retried : s.consecutive_format_retries ≤ s.max_format_retries
  pub regenerated : s.consecutive_patch_regeneration_retries ≤ s.max_patch_regeneration_retries

-- What the analysis keeps.
pub record Kept (s s' : TaskSession) : Type 0 where
  pub within : IsWithin s → IsWithin s'
  pub attempts_used : s'.attempts_used ≡ s.attempts_used
  pub max_attempts : s'.max_attempts ≡ s.max_attempts
  pub max_regenerations : s'.max_patch_regeneration_retries ≡ s.max_patch_regeneration_retries
  pub regenerations :
      s.consecutive_patch_regeneration_retries ≤ s'.consecutive_patch_regeneration_retries
  pub baseline : s'.baseline ≡ s.baseline
  pub no_verdict : is_verdict s.status ≡ false → is_verdict s'.status ≡ false

-- The session behind a step.
unfoldable pub session_of : Next → TaskSession
session_of (go_on s) = s
session_of (stop s) = s
session_of (raised s) = s
session_of (bound b s) = s

pub Kept-trans : (r s t : TaskSession) → Kept r s → Kept s t → Kept r t
Kept-trans r s t a b = record {
  within = λ h. b.within (a.within h);
  attempts_used = omega arith;
  max_attempts = omega arith;
  max_regenerations = omega arith;
  regenerations = omega arith;
  baseline = b.baseline ∙ a.baseline;
  no_verdict = λ h. b.no_verdict (a.no_verdict h);
}

pub unmoved-Kept : (s : TaskSession) → Kept s s
unmoved-Kept s = ground arith

pub handle_format_error-Kept : (s : TaskSession) → Kept s (session_of (handle_format_error s))
unfolding handle_format_error session_of
handle_format_error-Kept s = ground arith

pub note_no_progress-Kept : (s : TaskSession) → Kept s (session_of (note_no_progress s))
unfolding note_no_progress session_of
note_no_progress-Kept s = ground arith

pub handle_evidence_error-Kept :
    (k : EvidenceErrorKind) (s : TaskSession) → Kept s (session_of (handle_evidence_error k s))
unfolding handle_evidence_error session_of note_no_progress
handle_evidence_error-Kept parameter_error s = ground arith
handle_evidence_error-Kept no_progress s = note_no_progress-Kept s
handle_evidence_error-Kept hard_violation s = ground arith

require_failure_region_read-Kept :
    (failure : PreflightFailure) (s : TaskSession) → Kept s (require_failure_region_read failure s)
unfolding require_failure_region_read
require_failure_region_read-Kept failure s = elim (Bool-cases (is_empty failure.target_file)) [
  | inl e ↦ rw (e) (ground arith)
  | inr e ↦ elim (Option-cases failure.suggested_read) [
    | inl e2 ↦ rw (e, e2) (ground arith)
    | inr (r, e2) ↦ rw (e, e2) (ground arith)
  ]
]

pub record_successful_read_range-Kept :
    (path : Text) (start : ℕ) (end : Option ℕ) (s : TaskSession)
    → Kept s (record_successful_read_range path start end s)
unfolding record_successful_read_range
record_successful_read_range-Kept path start end s = ground arith

pub record_required_read_if_satisfied-Kept :
    (path : Text) (start : ℕ) (end : Option ℕ) (s : TaskSession)
    → Kept s (record_required_read_if_satisfied path start end s)
unfolding record_required_read_if_satisfied
record_required_read_if_satisfied-Kept path start end s =
    elim (Option-cases (get_range s.required_reads (normalized_path path))) [
      | inl e ↦ rw (record_required_read_if_satisfied, e) (ground arith)
      | inr (r, e) ↦ rw (record_required_read_if_satisfied, e) (ground arith)
    ]

pub charge-Kept : (tool : Inspection) (s s' : TaskSession) → charge tool s ≡ some s' → Kept s s'
unfolding charge
charge-Kept tool s s' e = ground arith

require_failure_region_read-exhausted :
    (failure : PreflightFailure) (s : TaskSession)
    → regeneration_exhausted (require_failure_region_read failure s) ≡ regeneration_exhausted s
unfolding require_failure_region_read regeneration_exhausted
require_failure_region_read-exhausted failure s = elim (Bool-cases (is_empty failure.target_file)) [
  | inl e ↦ rw (e) refl
  | inr e ↦ elim (Option-cases failure.suggested_read) [
    | inl e2 ↦ rw (e, e2) refl
    | inr (r, e2) ↦ rw (e, e2) refl
  ]
]

pub consume_regeneration-Kept :
    (s : TaskSession) → regeneration_exhausted s ≡ false → Kept s (consume_regeneration s)
unfolding consume_regeneration regeneration_exhausted
consume_regeneration-Kept s e = ground arith

pub moved_on-Kept :
    (s : TaskSession) (st : SessionStatus) (phase : AnalysisPhase)
    → (is_verdict s.status ≡ false → is_verdict st ≡ false)
    → Kept s (record s { status = st; analysis_phase = phase })
moved_on-Kept s st phase h = ground arith

pub stopped-Kept :
    (s : TaskSession) (st : SessionStatus) (why : StopReason)
    → (is_verdict s.status ≡ false → is_verdict st ≡ false)
    → Kept s (record s { status = st; stop_reason = why })
stopped-Kept s st why h = ground arith

preflight_failed_from-Kept :
    (failure : PreflightFailure) (s : TaskSession)
    → regeneration_exhausted s ≡ false
    → Kept s (record (consume_regeneration (require_failure_region_read failure s)) {
      status = analyzing;
      analysis_phase = synthesize;
    })
preflight_failed_from-Kept failure s e =
    let s1 = require_failure_region_read failure s in
    Kept-trans s s1 _ (require_failure_region_read-Kept failure s) (
      Kept-trans s1 (consume_regeneration s1) _
        (consume_regeneration-Kept s1 (require_failure_region_read-exhausted failure s ∙ e))
        (moved_on-Kept _ analyzing synthesize (λ h. refl)))

pub counted-Kept :
    (s : TaskSession) (n m : ℕ) (f : Option Bool)
    → Kept s (record s {
      patch_preflight_failures = n;
      patch_preflight_successes = m;
      first_patch_applicable = f;
    })
counted-Kept s n m f = ground arith

pub preflight_failed-Kept :
    (failure : PreflightFailure) (s : TaskSession)
    → Kept s (session_of (preflight_failed failure s))
unfolding preflight_failed session_of
preflight_failed-Kept failure s =
    let s1 = record s {
      patch_preflight_failures = suc s.patch_preflight_failures;
      first_patch_applicable = first s.first_patch_applicable false;
    } in
    elim (Bool-cases (regeneration_exhausted s1)) [
      | inl e ↦ rw (e) (Kept-trans s s1 _ (counted-Kept s _ _ _) (stopped-Kept s1 _ _ (λ h. refl)))
      | inr e ↦
          rw (e)
            (Kept-trans s s1 _ (counted-Kept s _ _ _) (preflight_failed_from-Kept failure s1 e))
    ]
