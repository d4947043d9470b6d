-- ===== src/Session/Run/Terminates.antt =====
-- The loop of a session ends, and how.
use safepatch.Base.{
  ℕ, suc, zero, ◌+◌, ◌-◌, ◌≤◌, ◌<◌, ◌≡◌, inl, inr, refl, ap, subst, ◌∙◌, Bool, true, false, ◌||◌,
  Option, none, some, leb, Bool-cases, Option-cases, arith,
}
use safepatch.Workspace.Tree.{Tree}
use safepatch.Workspace.Platform.{Platform}
use safepatch.Workspace.Disk.{Disk}
use safepatch.Patching.Policy.Integrity.{Scanner}
use safepatch.Patching.Applier.{ApplyResult, applied, failed, apply_proposal}
use safepatch.Session.Status.{
  is_terminal, TestResult, decide, environment_status, awaiting_approval, baseline_tested,
}
use safepatch.Session.State.{TaskSession, Options, ApprovalBinding}
use safepatch.Session.Analyze.{Next, go_on, stop, raised, bound, analyze_phase}
use safepatch.Session.Analyze.Budgets.{IsWithin, Kept, session_of, stopped-Kept, unmoved-Kept}
use safepatch.Session.Analyze.Steps.{analyze_phase-Kept}
use safepatch.Session.Run.{
  Environment, Turn, again, ended, crashed, set_stop, add_attempt, apply_approved, is_bound,
  execute, ask, without_patch, round, rounds, run_session,
}
use safepatch.Session.Run.Consent.{Decision-cases}
use safepatch.Session.Run.Ends.{
  Advances, Settled, Good, test_patch-Good, apply_failed-Good, Kept-Settled,
}

-- How many rounds may still begin: for each repair attempt that is left, the regenerations of a
-- patch and one; and the regenerations that are left.
unfoldable pub rounds_for : ℕ → ℕ → ℕ → ℕ
rounds_for zero limit left = left
rounds_for (suc attempts) limit left = suc limit + rounds_for attempts limit left

unfoldable pub rounds_left : TaskSession → ℕ
unfolding rounds_for
rounds_left s =
    rounds_for (s.max_attempts - s.attempts_used) s.max_patch_regeneration_retries
      (s.max_patch_regeneration_retries - s.consecutive_patch_regeneration_retries)

rounds_for_mono : (k limit x y : ℕ) → x < y → rounds_for k limit x < rounds_for k limit y
unfolding rounds_for
rounds_for_mono zero limit x y h = h
rounds_for_mono (suc k) limit x y h = let ih = rounds_for_mono k limit x y h in omega arith

rounds_for_more : (k limit x : ℕ) → rounds_for k limit (limit - 0) < rounds_for (suc k) limit x
unfolding rounds_for
rounds_for_more zero limit x = omega arith
rounds_for_more (suc k) limit x = let ih = rounds_for_more k limit x in omega arith

Advances-rounds_left :
    (s s' : TaskSession)
    → IsWithin s
    → s.attempts_used < s.max_attempts
    → Advances s s'
    → rounds_left s' < rounds_left s
unfolding rounds_left
Advances-rounds_left s s' w h a =
    let w' = a.within w in
    let r' = w'.regenerated in
    elim a.used [
      | inl (same, more) ↦
          rw (same, a.max_attempts, a.max_regenerations)
            (rounds_for_mono (s.max_attempts - s.attempts_used) s.max_patch_regeneration_retries _ _
              (let e = a.max_regenerations in omega arith))
      | inr (next, none_used) ↦
          let split : s.max_attempts - s.attempts_used
              ≡ suc (s.max_attempts - suc s.attempts_used) =
            omega arith in
          rw (next, none_used, a.max_attempts, a.max_regenerations, split)
            (rounds_for_more (s.max_attempts - suc s.attempts_used) s.max_patch_regeneration_retries
              _)
    ]

Good-from : (r s : TaskSession) (turn : Turn) → Kept r s → Good s turn → Good r turn
Good-from r s (again s' t) k g = record {
  within = λ w. g.within (k.within w);
  max_attempts = g.max_attempts ∙ k.max_attempts;
  max_regenerations = g.max_regenerations ∙ k.max_regenerations;
  used = elim g.used [
    | inl (same, more) ↦ inl (same ∙ k.attempts_used, (let le = k.regenerations in omega arith))
    | inr (next, none_used) ↦ inr (next ∙ ap suc k.attempts_used, none_used)
  ];
  still_open =
      λ h. g.still_open (let e1 = k.attempts_used in let e2 = k.max_attempts in omega arith);
}
Good-from r s (ended s' t) k g = record {
  terminal = g.terminal;
  attempts = λ h. g.attempts (let e1 = k.attempts_used in let e2 = k.max_attempts in omega arith);
  max_attempts = g.max_attempts ∙ k.max_attempts;
}
Good-from r s (crashed s' t) k g = record {
  terminal = g.terminal;
  attempts = λ h. g.attempts (let e1 = k.attempts_used in let e2 = k.max_attempts in omega arith);
  max_attempts = g.max_attempts ∙ k.max_attempts;
}

-- The session that a round leaves.
unfoldable pub last_session : Turn → TaskSession
last_session (again s t) = s
last_session (ended s t) = s
last_session (crashed s t) = s

-- A run that came to an end in a terminal status, with at most `limit` repair attempts.
abbrev pub Over : ℕ → Option Turn → Type 0
Over limit run =
    (last : Turn) × (run ≡ some last)
    × (is_terminal (last_session last).status ≡ true)
    × ((last_session last).attempts_used ≤ limit)

environment_status-terminal : (r : TestResult) → is_terminal (environment_status r).0 ≡ true
unfolding environment_status is_terminal
environment_status-terminal r = ground arith

module _ (platform : Platform) (disk : Disk) (scan : Scanner) (options : Options)
    (env : Environment) where
  apply_approved-Good-from :
      (n : ℕ) (b : ApprovalBinding) (s : TaskSession) (t t' : Tree) (result : ApplyResult)
      → apply_proposal platform disk scan options.allow_test_changes options.allow_new_tests
          b.proposal t
        ≡ some (result, t')
      → Good s (apply_approved platform disk scan options env n b s t)
  unfolding apply_approved
  apply_approved-Good-from n b s t t' (applied files moved) e =
      rw (apply_approved, e) (test_patch-Good platform disk scan options env n b files s t')
  apply_approved-Good-from n b s t t' (failed kind target rolled_back line) e =
      rw (apply_approved, e)
        (apply_failed-Good platform disk scan options env b kind target line s t')

  apply_approved-Good :
      (n : ℕ) (b : ApprovalBinding) (s : TaskSession) (t : Tree)
      → Good s (apply_approved platform disk scan options env n b s t)
  unfolding apply_approved
  apply_approved-Good n b s t =
      elim (Option-cases (
        apply_proposal platform disk scan options.allow_test_changes options.allow_new_tests
          b.proposal t)) [
            | inl raises ↦
                rw (apply_approved, raises)
                  (Kept-Settled platform disk scan options env s s _ _ (unmoved-Kept s)
                    (unfold is_terminal in refl))
            | inr ((result, t'), e) ↦ apply_approved-Good-from n b s t t' result e
          ]

  attempted-Kept :
      (b : ApprovalBinding) (consent : Bool) (o : Option Bool) (s : TaskSession)
      → Kept s (add_attempt b consent o none s)
  unfolding add_attempt
  attempted-Kept b consent o s = ground arith

  execute-Good :
      (n : ℕ) (b : ApprovalBinding) (s : TaskSession) (t : Tree)
      → Good s (execute platform disk scan options env n b s t)
  unfolding execute
  execute-Good n b s t = elim (Bool-cases (is_bound platform disk scan options env b t)) [
    | inl same ↦ rw (same) (apply_approved-Good n b s t)
    | inr moved ↦ rw (moved) (
        Kept-Settled platform disk scan options env s _ _ _ (attempted-Kept b true (some false) s)
          (unfold is_terminal in refl))
  ]

  ask-Good :
      (n : ℕ) (b : ApprovalBinding) (s : TaskSession) (t : Tree)
      → Good s (ask platform disk scan options env n b s t)
  unfolding ask
  ask-Good n b s t = elim (Decision-cases (decide env.callback b (suc s.attempts_used))) [
    | inl missing ↦
        rw (ask, missing)
          (Kept-Settled platform disk scan options env s s _ _ (unmoved-Kept s)
            (unfold is_terminal in refl))
    | inr (inl denied) ↦
        rw (ask, denied)
          (Kept-Settled platform disk scan options env s _ _ _ (attempted-Kept b false none s)
            (unfold is_terminal in refl))
    | inr (inr agreed) ↦
        rw (ask, agreed)
          (Good-from s (record s { status = awaiting_approval }) _
            (stopped-Kept s awaiting_approval s.stop_reason (λ h. refl))
            (execute-Good n b (record s { status = awaiting_approval }) (env.meanwhile n t)))
  ]

  without_patch-Settled :
      (s s' : TaskSession) → Kept s s' → Settled s (without_patch platform disk scan options env s')
  unfolding without_patch set_stop
  without_patch-Settled s s' k = elim (Bool-cases (is_terminal s'.status)) [
    | inl over ↦
        rw (over) (Kept-Settled platform disk scan options env s s' s'.status s'.stop_reason k over)
    | inr open_still ↦
        rw (open_still)
          (Kept-Settled platform disk scan options env s s' _ _ k (unfold is_terminal in refl))
  ]

  round-Good-from :
      (n : ℕ) (s : TaskSession) (t : Tree) (next : Next)
      → analyze_phase platform scan options t (env.replies n) s ≡ next
      → Kept s (session_of next)
      → Good s (round platform disk scan options env n s t)
  unfolding round session_of
  round-Good-from n s t (go_on s') e k = rw (round, e) (without_patch-Settled s s' k)
  round-Good-from n s t (stop s') e k = rw (round, e) (without_patch-Settled s s' k)
  round-Good-from n s t (raised s') e k =
      rw (round, e)
        (Kept-Settled platform disk scan options env s s' _ _ k (unfold is_terminal in refl))
  round-Good-from n s t (bound b s') e k = rw (round, e) (Good-from s s' _ k (ask-Good n b s' t))

  round-Good :
      (n : ℕ) (s : TaskSession) (t : Tree) → Good s (round platform disk scan options env n s t)
  round-Good n s t =
      round-Good-from n s t (analyze_phase platform scan options t (env.replies n) s) refl
        (analyze_phase-Kept platform scan options t (env.replies n) s)

  rounds-Good-from :
      (fuel n : ℕ) (s : TaskSession) (t : Tree) (turn : Turn)
      → (is_terminal s.status || leb s.max_attempts s.attempts_used) ≡ false
      → round platform disk scan options env n s t ≡ turn
      → Good s turn
      → ((s' : TaskSession) (t' : Tree)
          → Advances s s'
          → Over s'.max_attempts (rounds platform disk scan options env fuel (suc n) s' t'))
      → s.attempts_used < s.max_attempts
      → Over s.max_attempts (rounds platform disk scan options env (suc fuel) n s t)
  unfolding rounds
  rounds-Good-from fuel n s t (again s' t') more e g rest h =
      rw (rounds, more, e)
        (subst (λ m. Over m (rounds platform disk scan options env fuel (suc n) s' t'))
          g.max_attempts (rest s' t' g))
  rounds-Good-from fuel n s t (ended s' t') more e g rest h =
      rw (rounds, more, e)
        (
          ended s' t',
          refl,
          unfold last_session in g.terminal,
          unfold last_session in subst (λ m. s'.attempts_used ≤ m) g.max_attempts (g.attempts h),
        )
  rounds-Good-from fuel n s t (crashed s' t') more e g rest h =
      rw (rounds, more, e)
        (
          crashed s' t',
          refl,
          unfold last_session in g.terminal,
          unfold last_session in subst (λ m. s'.attempts_used ≤ m) g.max_attempts (g.attempts h),
        )

  rounds-Over :
      (fuel n : ℕ) (s : TaskSession) (t : Tree)
      → IsWithin s
      → s.attempts_used < s.max_attempts
      → rounds_left s < fuel
      → Over s.max_attempts (rounds platform disk scan options env fuel n s t)
  unfolding rounds
  rounds-Over zero n s t w h enough = absurd (omega arith)
  rounds-Over (suc fuel) n s t w h enough =
      elim (Bool-cases (is_terminal s.status || leb s.max_attempts s.attempts_used)) [
        | inl over ↦
            rw (rounds, over)
              (
                ended s t,
                refl,
                unfold last_session in (ground arith),
                unfold last_session in (ground arith),
              )
        | inr more ↦
            rounds-Good-from fuel n s t (round platform disk scan options env n s t) more refl
              (round-Good n s t)
              (λ s' t' a.
                rounds-Over fuel (suc n) s' t' (a.within w) (a.still_open h)
                  (let less = Advances-rounds_left s s' w h a in omega arith))
              h
      ]

  -- A session that starts within its budgets, with a repair attempt left, ends: if the fuel is more
  -- than the rounds that may still begin, it is not spent, whatever the model, the user, the disk
  -- and the tests do. Then the status of the session is a terminal one, and no more repair attempts
  -- were used than the limit allows.
  pub run_session-Over :
      (fuel : ℕ) (baseline : TestResult) (s : TaskSession) (t : Tree)
      → IsWithin s
      → s.attempts_used < s.max_attempts
      → rounds_left s < fuel
      → Over s.max_attempts (run_session platform disk scan options env fuel baseline s t)
  unfolding run_session rounds_left
  run_session-Over fuel baseline s t w h enough = elim (Bool-cases baseline.environment_failure) [
    | inl broken ↦ simp (broken) (
      ended _ t,
      refl,
      unfold last_session in environment_status-terminal baseline,
      unfold last_session in (omega arith),
    )
    | inr whole ↦ simp (whole) (
        rounds-Over fuel 0 (record s { baseline = some baseline; status = baseline_tested }) t
          (ground arith) h enough)
  ]
