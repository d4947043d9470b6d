-- ===== src/Session/Analyze/Steps.antt =====
-- The handlers of the analysis keep the budgets.
use safepatch.Base.{
  ℕ, suc, zero, ◌+◌, ◌-◌, ◌≡◌, inl, inr, refl, subst, true, false, ◌||◌, none, some, ltb, leb, ok,
  ok_inj, some_inj, Bool-cases, Option-cases, Result-cases, arith,
}
use safepatch.Text.{Text, strip}
use safepatch.Workspace.Tree.{Tree}
use safepatch.Workspace.Platform.{Platform}
use safepatch.Patching.Policy.Proposal.{PatchProposal}
use safepatch.Patching.Policy.Integrity.{Scanner}
use safepatch.Patching.Policy.Validate.{ValidationResult, is_ok, is_empty, validate_proposal}
use safepatch.Patching.Preflight.{run}
use safepatch.Session.State.{TaskSession, Options, Range}
use safepatch.Session.Status.{analyzing, AnalysisPhase, patch_proposed, synthesize, propose, finish}
use safepatch.Session.Reads.{
  EvidenceRequest, execute_request_evidence, request_range, Inspection, of_file, general, charge,
  handle, normalized_path, is_covered, read_file, is_synthesize,
}
use safepatch.Session.Analyze.{
  Next, go_on, stop, raised, bound, run_preflight, consider, handle_proposal, Proposed,
  bad_arguments, edit_rejected, other_exception, parsed, handle_evidence, handle_inspection,
  note_read, close_exploration, step, Reply, malformed, failed_call, finish_call, other_tool,
  evidence, proposed, inspect, step_limit, analysis_loop, start_phase, analyze_phase,
}
use safepatch.Session.Analyze.Budgets.{
  Kept, session_of, Kept-trans, handle_format_error-Kept, note_no_progress-Kept,
  handle_evidence_error-Kept, record_successful_read_range-Kept,
  record_required_read_if_satisfied-Kept, charge-Kept, stopped-Kept, unmoved-Kept, counted-Kept,
  preflight_failed-Kept,
}

set_phase-Kept :
    (s : TaskSession) (phase : AnalysisPhase) → Kept s (record s { analysis_phase = phase })
set_phase-Kept s phase = ground arith

set_proposed-Kept : (s : TaskSession) → Kept s (record s { status = patch_proposed })
set_proposed-Kept s = ground arith

reset-Kept :
    (s : TaskSession) (n m : ℕ)
    → Kept s
        (record s { consecutive_no_progress_actions = n; consecutive_read_budget_violations = m })
reset-Kept s n m = ground arith

reset_format-Kept :
    (s : TaskSession) (n : ℕ)
    → Kept s (record s { consecutive_format_retries = 0; consecutive_read_budget_violations = n })
reset_format-Kept s n = ground arith

granted-Kept :
    (s : TaskSession)
    → leb s.max_evidence_requests s.evidence_requests_used ≡ false
    → Kept s (record s {
      evidence_requests_used = suc s.evidence_requests_used;
      read_actions_used = suc s.read_actions_used;
    })
granted-Kept s e = ground arith

close_exploration-Kept :
    (platform : Platform) (scan : Scanner) (options : Options) (tree : Tree) (s : TaskSession)
    → Kept s (close_exploration platform scan options tree s)
unfolding close_exploration
close_exploration-Kept platform scan options tree s = ground arith

module _ (platform : Platform) (scan : Scanner) (options : Options) (tree : Tree) where
  request_range-Kept :
      (path : Text) (r : Range) (s s' : TaskSession)
      → leb s.max_evidence_requests s.evidence_requests_used ≡ false
      → request_range platform tree path r s ≡ ok s'
      → Kept s s'
  unfolding request_range
  request_range-Kept path r s s' free e = elim (Bool-cases (ltb r.0 1 || ltb r.1 r.0)) [
    | inl e1 ↦ absurd (let e' = rw (e1) at e in ground arith)
    | inr e1 ↦ elim (Bool-cases (ltb 120 (r.1 - r.0 + 1))) [
      | inl e2 ↦ absurd (let e' = rw (e1, e2) at e in ground arith)
      | inr e2 ↦ elim (Bool-cases (is_covered s.successful_read_ranges path r)) [
        | inl e3 ↦ absurd (let e' = rw (e1, e2, e3) at e in ground arith)
        | inr e3 ↦ elim (Option-cases (read_file platform tree path r.0 (some r.1))) [
          | inl e4 ↦ absurd (let e' = rw (e1, e2, e3, e4) at e in ground arith)
          | inr (shown, e4) ↦ subst (Kept s) (ok_inj (rw (e1, e2, e3, e4) at e)) (
              Kept-trans s _ _ (granted-Kept s free)
                (record_successful_read_range-Kept path r.0 (some r.1) _))
        ]
      ]
    ]
  ]

  execute_request_evidence-Kept :
      (q : EvidenceRequest) (s s' : TaskSession)
      → execute_request_evidence platform tree q s ≡ ok s'
      → Kept s s'
  unfolding execute_request_evidence
  execute_request_evidence-Kept q s s' e = elim (Bool-cases (is_synthesize s.analysis_phase)) [
    | inr e1 ↦ absurd (let e' = rw (e1) at e in ground arith)
    | inl e1 ↦ elim (Bool-cases (leb s.max_evidence_requests s.evidence_requests_used)) [
      | inl e2 ↦ absurd (let e' = rw (e1, e2) at e in ground arith)
      | inr e2 ↦ elim (Option-cases q.bounds) [
        | inl e3 ↦ absurd (let e' = rw (e1, e2, e3) at e in ground arith)
        | inr (r, e3) ↦
            elim (Bool-cases (
              is_empty (normalized_path q.path)
              || (is_empty (strip q.unanswered_requirement) || is_empty (strip q.reason)))) [
                | inl e4 ↦ absurd (let e' = rw (e1, e2, e3, e4) at e in ground arith)
                | inr e4 ↦
                    request_range-Kept (normalized_path q.path) r s s' e2 (rw (e1, e2, e3, e4) at e)
              ]
      ]
    ]
  ]

  proposing-Kept :
      (s : TaskSession) (phase : AnalysisPhase)
      → Kept s (record s { analysis_phase = phase; consecutive_no_progress_actions = 0 })
  proposing-Kept s phase = ground arith

  handle_evidence-Kept :
      (q : EvidenceRequest) (s : TaskSession)
      → Kept s (session_of (handle_evidence platform scan options tree q s))
  unfolding handle_evidence session_of
  handle_evidence-Kept q s = elim (Result-cases (execute_request_evidence platform tree q s)) [
    | inl (s', e) ↦
        rw (session_of, handle_evidence, e)
          (Kept-trans s s' _ (execute_request_evidence-Kept q s s' e) (reset-Kept s' 0 0))
    | inr (kind, e) ↦ rw (session_of, handle_evidence, e) (handle_evidence_error-Kept kind s)
  ]

  handle-Kept :
      (tool : Inspection) (s s' : TaskSession) → handle platform tree tool s ≡ some s' → Kept s s'
  unfolding handle
  handle-Kept (of_file path none) s s' e = absurd (ground arith)
  handle-Kept (of_file path (some (start, end))) s s' e =
      elim (Option-cases (read_file platform tree path start end)) [
        | inl e1 ↦ absurd (let e' = rw (handle, e1) at e in ground arith)
        | inr (shown, e1) ↦
            subst (Kept s) (some_inj (rw (handle, e1) at e))
              (record_successful_read_range-Kept path start end s)
      ]
  handle-Kept (general false) s s' e = absurd (ground arith)
  handle-Kept (general true) s s' e = subst (Kept s) (some_inj e) (unmoved-Kept s)

  note_read-Kept :
      (tool : Inspection) (s : TaskSession) → Kept s (note_read platform scan options tree tool s)
  unfolding note_read
  note_read-Kept (of_file path none) s = unmoved-Kept s
  note_read-Kept (of_file path (some (start, end))) s =
      record_required_read_if_satisfied-Kept path start end s
  note_read-Kept (general b) s = unmoved-Kept s

  handle_inspection-Kept :
      (tool : Inspection) (s : TaskSession)
      → Kept s (session_of (handle_inspection platform scan options tree tool s))
  unfolding handle_inspection session_of
  handle_inspection-Kept tool s = elim (Option-cases (charge tool s)) [
    | inl e ↦ rw (session_of, handle_inspection, e) (note_no_progress-Kept s)
    | inr (s1, e) ↦
        let paid = charge-Kept tool s s1 e in
        elim (Option-cases (handle platform tree tool s1)) [
          | inl e1 ↦
              rw (session_of, handle_inspection, e, e1)
                (Kept-trans s s1 _ paid (reset-Kept s1 s1.consecutive_no_progress_actions 0))
          | inr (s2, e1) ↦
              let s3 = record s2 { consecutive_read_budget_violations = 0 } in
              let s4 = note_read platform scan options tree tool s3 in
              rw (session_of, handle_inspection, e, e1)
                (Kept-trans s s1 _ paid (
                  Kept-trans s1 s2 _ (handle-Kept tool s1 s2 e1) (
                    Kept-trans s2 s3 _ (reset-Kept s2 s2.consecutive_no_progress_actions 0) (
                      Kept-trans s3 s4 _ (note_read-Kept tool s3)
                        (close_exploration-Kept platform scan options tree s4)))))
        ]
  ]

  run_preflight-Kept :
      (proposal : PatchProposal) (v : ValidationResult) (s : TaskSession)
      → Kept s (session_of (run_preflight platform scan options tree proposal v s))
  unfolding run_preflight session_of
  run_preflight-Kept proposal v s = elim (Bool-cases options.preflight_enabled) [
    | inr off ↦ rw (off) (unmoved-Kept s)
    | inl on ↦ elim (Result-cases (run platform tree proposal)) [
      | inl (success, e) ↦ rw (on, session_of, e) (counted-Kept s s.patch_preflight_failures _ _)
      | inr (failure, e) ↦ rw (on, session_of, e) (preflight_failed-Kept failure s)
    ]
  ]

  consider-Kept :
      (proposal : PatchProposal) (s : TaskSession)
      → Kept s (session_of (consider platform scan options tree proposal s))
  unfolding consider session_of
  consider-Kept proposal s =
      elim (Option-cases (
        validate_proposal platform tree scan options.allow_test_changes options.allow_new_tests
          proposal)) [
            | inl e ↦ rw (session_of, consider, e) (unmoved-Kept s)
            | inr (v, e) ↦ elim (Bool-cases (is_ok v)) [
              | inl fine ↦
                  rw (session_of, consider, e, fine)
                    (Kept-trans s (record s { status = patch_proposed }) _ (set_proposed-Kept s)
                      (run_preflight-Kept proposal v (record s { status = patch_proposed })))
              | inr bad ↦ rw (session_of, consider, e, bad) (set_phase-Kept s synthesize)
            ]
          ]

  handle_proposal-Kept :
      (p : Proposed) (s : TaskSession)
      → Kept s (session_of (handle_proposal platform scan options tree p s))
  unfolding handle_proposal session_of
  handle_proposal-Kept bad_arguments s = elim (Bool-cases (is_empty s.required_reads)) [
    | inr missing ↦ rw (missing) (proposing-Kept s propose)
    | inl free ↦
        rw (free) (Kept-trans s _ _ (proposing-Kept s synthesize) (handle_format_error-Kept _))
  ]
  handle_proposal-Kept edit_rejected s = elim (Bool-cases (is_empty s.required_reads)) [
    | inr missing ↦ rw (missing) (proposing-Kept s propose)
    | inl free ↦ rw (free) (proposing-Kept s synthesize)
  ]
  handle_proposal-Kept other_exception s = elim (Bool-cases (is_empty s.required_reads)) [
    | inr missing ↦ rw (missing) (proposing-Kept s propose)
    | inl free ↦ rw (free) (proposing-Kept s propose)
  ]
  handle_proposal-Kept (parsed proposal) s = elim (Bool-cases (is_empty s.required_reads)) [
    | inr missing ↦ rw (missing) (proposing-Kept s propose)
    | inl free ↦ rw (free) (Kept-trans s _ _ (proposing-Kept s propose) (consider-Kept proposal _))
  ]

  step-Kept :
      (r : Reply) (s : TaskSession) → Kept s (session_of (step platform scan options tree r s))
  unfolding step session_of
  step-Kept malformed s = handle_format_error-Kept s
  step-Kept failed_call s = stopped-Kept s _ _ (λ h. refl)
  step-Kept (evidence q) s = Kept-trans s _ _ (reset_format-Kept s 0) (handle_evidence-Kept q _)
  step-Kept (proposed p) s = Kept-trans s _ _ (reset_format-Kept s 0) (handle_proposal-Kept p _)
  step-Kept finish_call s =
      Kept-trans s _ _ (reset_format-Kept s 0)
        (Kept-trans _ _ _ (set_phase-Kept _ finish) (stopped-Kept _ _ _ (λ h. refl)))
  step-Kept other_tool s = reset_format-Kept s 0
  step-Kept (inspect tool) s =
      Kept-trans s _ _ (reset_format-Kept s s.consecutive_read_budget_violations)
        (handle_inspection-Kept tool _)

  step_limit-Kept : (s : TaskSession) → Kept s (step_limit platform scan options tree s)
  unfolding step_limit
  step_limit-Kept s = elim (Bool-cases (is_synthesize s.analysis_phase)) [
    | inl e ↦ rw (e) (stopped-Kept s _ _ (λ h. refl))
    | inr e ↦ rw (e) (stopped-Kept s s.status _ (λ h. h))
  ]

  analysis_loop-Kept-step :
      (replies : ℕ → Reply) (n i : ℕ) (s : TaskSession) (next : Next)
      → step platform scan options tree (replies i) s ≡ next
      → Kept s (session_of next)
      → ((s' : TaskSession)
          → Kept s' (session_of (analysis_loop platform scan options tree replies n (suc i) s')))
      → Kept s (session_of (analysis_loop platform scan options tree replies (suc n) i s))
  unfolding analysis_loop session_of
  analysis_loop-Kept-step replies n i s (go_on s') e k rest =
      rw (session_of, analysis_loop, e) (Kept-trans s s' _ k (rest s'))
  analysis_loop-Kept-step replies n i s (stop s') e k rest = rw (session_of, analysis_loop, e) k
  analysis_loop-Kept-step replies n i s (raised s') e k rest = rw (session_of, analysis_loop, e) k
  analysis_loop-Kept-step replies n i s (bound b s') e k rest = rw (session_of, analysis_loop, e) k

  analysis_loop-Kept :
      (replies : ℕ → Reply) (n i : ℕ) (s : TaskSession)
      → Kept s (session_of (analysis_loop platform scan options tree replies n i s))
  unfolding analysis_loop session_of
  analysis_loop-Kept replies zero i s = step_limit-Kept s
  analysis_loop-Kept replies (suc n) i s =
      analysis_loop-Kept-step replies n i s (step platform scan options tree (replies i) s) refl
        (step-Kept (replies i) s) (analysis_loop-Kept replies n (suc i))

  begun-Kept :
      (s : TaskSession) (phase : AnalysisPhase)
      → Kept s
          (record s { status = analyzing; consecutive_format_retries = 0; analysis_phase = phase })
  begun-Kept s phase = ground arith

  -- Whatever the model replies, an analysis phase uses up no repair attempt and keeps the session
  -- within its budgets: explorations, evidence requests, corrections of their parameters, format
  -- retries and regenerations of a patch. It changes neither the limits on attempts and
  -- regenerations nor the baseline, does not lower the count of regenerations, and ends in no status
  -- of success unless it began in one.
  pub analyze_phase-Kept :
      (replies : ℕ → Reply) (s : TaskSession)
      → Kept s (session_of (analyze_phase platform scan options tree replies s))
  unfolding analyze_phase
  analyze_phase-Kept replies s =
      Kept-trans s _ _ (begun-Kept s (start_phase platform scan options tree s))
        (analysis_loop-Kept replies options.max_analysis_steps 0 _)
