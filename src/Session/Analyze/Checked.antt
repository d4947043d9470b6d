-- ===== src/Session/Analyze/Checked.antt =====
-- What a step of the analysis has checked when it binds a patch for approval.
use safepatch.Base.{
  ◌≡◌, refl, sym, ap, subst, ◌∙◌, inl, inr, Bool, true, false, some, ok, arith, Bool-cases,
  Option-cases, Result-cases,
}
use safepatch.Workspace.Tree.{Tree}
use safepatch.Workspace.Platform.{Platform}
use safepatch.Patching.Policy.Proposal.{PatchProposal}
use safepatch.Patching.Policy.Integrity.{Scanner}
use safepatch.Patching.Policy.Validate.{ValidationResult, is_ok, is_empty, validate_proposal}
use safepatch.Patching.Preflight.{PreflightFailure, PreflightSuccess, run}
use safepatch.Session.State.{TaskSession, Options, ApprovalBinding}
use safepatch.Session.Reads.{
  EvidenceRequest, EvidenceErrorKind, parameter_error, no_progress, hard_violation, Inspection,
  charge, handle, execute_request_evidence,
}
use safepatch.Session.Analyze.{
  Next, bound, Proposed, bad_arguments, edit_rejected, other_exception, parsed, Reply, malformed,
  failed_call, finish_call, other_tool, evidence, proposed, inspect, handle_format_error,
  note_no_progress, handle_evidence_error, preflight_failed, run_preflight, consider,
  handle_proposal, handle_evidence, handle_inspection, step,
}

-- The step goes on without a binding.
abbrev binds_nothing : Next → Bool
binds_nothing (bound b s) = false
binds_nothing _ = true

no_bind :
    (next : Next) (b : ApprovalBinding) (s : TaskSession)
    → binds_nothing next ≡ true
    → next ≡ bound b s
    → true ≡ false
no_bind next b s h e = sym h ∙ ap binds_nothing e

handle_format_error_free : (s : TaskSession) → binds_nothing (handle_format_error s) ≡ true
unfolding handle_format_error
handle_format_error_free s = ground arith

note_no_progress_free : (s : TaskSession) → binds_nothing (note_no_progress s) ≡ true
unfolding note_no_progress
note_no_progress_free s = ground arith

handle_evidence_error_free :
    (k : EvidenceErrorKind) (s : TaskSession) → binds_nothing (handle_evidence_error k s) ≡ true
unfolding handle_evidence_error
handle_evidence_error_free parameter_error s = ground arith
handle_evidence_error_free no_progress s = note_no_progress_free s
handle_evidence_error_free hard_violation s = ground arith

preflight_failed_free :
    (failure : PreflightFailure) (s : TaskSession)
    → binds_nothing (preflight_failed failure s) ≡ true
unfolding preflight_failed
preflight_failed_free failure s = ground arith

-- The binding of a step, if it has one.
abbrev binding_or : ApprovalBinding → Next → ApprovalBinding
binding_or other (bound b s) = b
binding_or other _ = other

module _ (platform : Platform) (scan : Scanner) (options : Options) (tree : Tree) where
  -- A proposal that is bound is valid, and passed the preflight if that is enabled.
  pub record IsChecked (b : ApprovalBinding) : Type 0 where
    pub valid :
        validate_proposal platform tree scan options.allow_test_changes options.allow_new_tests
          b.proposal
        ≡ some b.validation
    pub fine : is_ok b.validation ≡ true
    pub passes :
        options.preflight_enabled ≡ true
        → (success : PreflightSuccess) × (run platform tree b.proposal ≡ ok success)

  run_preflight-bound :
      (p : PatchProposal) (v : ValidationResult) (s s' : TaskSession) (b : ApprovalBinding)
      → run_preflight platform scan options tree p v s ≡ bound b s'
      → (b.proposal ≡ p)
        × (b.validation ≡ v)
        × (options.preflight_enabled ≡ true
            → (success : PreflightSuccess) × (run platform tree p ≡ ok success))
  unfolding run_preflight
  run_preflight-bound p v s s' b e = elim (Bool-cases options.preflight_enabled) [
    | inr off ↦
        let same = ap (binding_or b) (simp (off) at e) in
        (
          sym (ap (λ x. x.proposal) same),
          sym (ap (λ x. x.validation) same),
          λ on. absurd (ground arith),
        )
    | inl on ↦ elim (Result-cases (run platform tree p)) [
      | inr (failure, bad) ↦ absurd (
          let clash =
            no_bind _ b s' (preflight_failed_free failure s) (rw (run_preflight, on, bad) at e) in
          ground arith)
      | inl (success, good) ↦
          let same = ap (binding_or b) (rw (run_preflight, on, good) at e) in
          (sym (ap (λ x. x.proposal) same), sym (ap (λ x. x.validation) same), λ h. (success, good))
    ]
  ]

  consider-IsChecked :
      (p : PatchProposal) (s s' : TaskSession) (b : ApprovalBinding)
      → consider platform scan options tree p s ≡ bound b s'
      → (b.proposal ≡ p) × IsChecked b
  unfolding consider
  consider-IsChecked p s s' b e =
      elim (Option-cases (
        validate_proposal platform tree scan options.allow_test_changes options.allow_new_tests
          p)) [
            | inl raises ↦ absurd (let e' = rw (consider, raises) at e in ground arith)
            | inr (v, valid) ↦ elim (Bool-cases (is_ok v)) [
              | inr bad ↦ absurd (let e' = rw (consider, valid, bad) at e in ground arith)
              | inl fine ↦
                  let (same, same_v, passes) =
                    run_preflight-bound p v _ s' b (rw (consider, valid, fine) at e) in
                  (
                    same,
                    record {
                      valid =
                          ap
                            (λ x.
                              validate_proposal platform tree scan options.allow_test_changes
                                options.allow_new_tests x)
                            same
                          ∙ valid
                          ∙ ap some (sym same_v);
                      fine = ap is_ok same_v ∙ fine;
                      passes =
                          subst
                            (λ x.
                              options.preflight_enabled ≡ true
                              → (success : PreflightSuccess) × (run platform tree x ≡ ok success))
                            (sym same) passes;
                    },
                  )
            ]
          ]

  handle_proposal-IsChecked :
      (q : Proposed) (s s' : TaskSession) (b : ApprovalBinding)
      → handle_proposal platform scan options tree q s ≡ bound b s'
      → (q ≡ parsed b.proposal) × (is_empty s.required_reads ≡ true) × IsChecked b
  unfolding handle_proposal
  handle_proposal-IsChecked bad_arguments s s' b e = elim (Bool-cases (is_empty s.required_reads)) [
    | inr open_reads ↦ absurd (let e' = rw (open_reads) at e in ground arith)
    | inl free ↦
        absurd
          (let clash = no_bind _ b s' (handle_format_error_free _) (rw (free) at e) in ground arith)
  ]
  handle_proposal-IsChecked edit_rejected s s' b e = elim (Bool-cases (is_empty s.required_reads)) [
    | inr open_reads ↦ absurd (let e' = rw (open_reads) at e in ground arith)
    | inl free ↦ absurd (let e' = rw (free) at e in ground arith)
  ]
  handle_proposal-IsChecked other_exception s s' b e =
      elim (Bool-cases (is_empty s.required_reads)) [
        | inr open_reads ↦ absurd (let e' = rw (open_reads) at e in ground arith)
        | inl free ↦ absurd (let e' = rw (free) at e in ground arith)
      ]
  handle_proposal-IsChecked (parsed p) s s' b e = elim (Bool-cases (is_empty s.required_reads)) [
    | inr open_reads ↦ absurd (let e' = rw (open_reads) at e in ground arith)
    | inl free ↦
        let (same, checked) = consider-IsChecked p _ s' b (rw (free) at e) in
        (ap parsed (sym same), free, checked)
  ]

  handle_inspection_free :
      (tool : Inspection) (s : TaskSession)
      → binds_nothing (handle_inspection platform scan options tree tool s) ≡ true
  unfolding handle_inspection
  handle_inspection_free tool s = elim (Option-cases (charge tool s)) [
    | inl spent ↦ rw (handle_inspection, spent) (note_no_progress_free s)
    | inr (s1, paid) ↦ elim (Option-cases (handle platform tree tool s1)) [
      | inl failed ↦ rw (handle_inspection, paid, failed) refl
      | inr (s2, done) ↦ rw (handle_inspection, paid, done) refl
    ]
  ]

  handle_evidence_free :
      (q : EvidenceRequest) (s : TaskSession)
      → binds_nothing (handle_evidence platform scan options tree q s) ≡ true
  unfolding handle_evidence
  handle_evidence_free q s = elim (Result-cases (execute_request_evidence platform tree q s)) [
    | inl (s', good) ↦ rw (handle_evidence, good) refl
    | inr (kind, bad) ↦ rw (handle_evidence, bad) (handle_evidence_error_free kind s)
  ]

  -- A step that binds a patch had a proposal for a reply, with no required read open.
  pub step-IsChecked :
      (r : Reply) (s s' : TaskSession) (b : ApprovalBinding)
      → step platform scan options tree r s ≡ bound b s'
      → (r ≡ proposed (parsed b.proposal)) × (is_empty s.required_reads ≡ true) × IsChecked b
  unfolding step
  step-IsChecked malformed s s' b e =
      absurd (let clash = no_bind _ b s' (handle_format_error_free s) e in ground arith)
  step-IsChecked failed_call s s' b e = absurd (ground arith)
  step-IsChecked finish_call s s' b e = absurd (ground arith)
  step-IsChecked other_tool s s' b e = absurd (ground arith)
  step-IsChecked (evidence q) s s' b e =
      absurd (let clash = no_bind _ b s' (handle_evidence_free q _) e in ground arith)
  step-IsChecked (inspect tool) s s' b e =
      absurd (let clash = no_bind _ b s' (handle_inspection_free tool _) e in ground arith)
  step-IsChecked (proposed q) s s' b e =
      let (same, free, checked) =
        handle_proposal-IsChecked q
          (record s { consecutive_format_retries = 0; consecutive_read_budget_violations = 0 }) s' b
          e in
      (ap proposed same, free, checked)
