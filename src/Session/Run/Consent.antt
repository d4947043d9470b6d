-- ===== src/Session/Run/Consent.antt =====
-- The working copy changes only with the approval of the user.
use safepatch.Base.{
  &&_true, ℕ, suc, zero, ◌≡◌, ◌⊎◌, inl, inr, refl, sym, ap, ◌∙◌, true, false, ◌||◌, none, some, leb,
  some_inj, Bool-cases, arith,
}
use safepatch.Workspace.Tree.{Tree}
use safepatch.Workspace.Platform.{Platform}
use safepatch.Workspace.Disk.{Disk}
use safepatch.Patching.Policy.Integrity.{Scanner}
use safepatch.Text.Laws.{text_eq→eq}
use safepatch.Patching.Hashes.{patch_hash, working_tree_hash}
use safepatch.Session.Status.{
  is_terminal, TestResult, Decision, decide, handler_missing, approve, reject,
}
use safepatch.Session.State.{TaskSession, Options, ApprovalBinding}
use safepatch.Session.Analyze.{Next, go_on, stop, raised, bound, analyze_phase}
use safepatch.Session.Run.{
  Environment, Turn, again, ended, crashed, is_bound, execute, ask, round, rounds, run_session,
}

-- The working copy behind a round.
unfoldable pub tree_of : Turn → Tree
tree_of (again s t) = t
tree_of (ended s t) = t
tree_of (crashed s t) = t

pub Decision-cases : (d : Decision) → (d ≡ handler_missing) ⊎ ((d ≡ reject) ⊎ (d ≡ approve))
Decision-cases handler_missing = inl refl
Decision-cases reject = inr (inl refl)
Decision-cases approve = inr (inr refl)

-- The round ends the session and leaves the working copy.
abbrev Halts : Tree → Turn → Type 0
Halts t (again s' t') = ⊥
Halts t (ended s' t') = t' ≡ t
Halts t (crashed s' t') = t' ≡ t

module _ (platform : Platform) (disk : Disk) (scan : Scanner) (options : Options)
    (env : Environment) where
  is_bound-hashes :
      (b : ApprovalBinding) (t : Tree)
      → is_bound platform disk scan options env b t ≡ true
      → (working_tree_hash platform t ≡ b.working_tree_hash)
        × (patch_hash platform b.proposal.unified_diff ≡ b.patch_hash)
  unfolding is_bound
  is_bound-hashes b t h = (text_eq→eq _ _ (&&_true _ _ h).0, text_eq→eq _ _ (&&_true _ _ h).1)

  -- A patch is applied or tested only if the approval callback answered yes to this very binding,
  -- and the working copy and the diff, hashed again after the answer, still have the hashes of the
  -- binding. Otherwise the round leaves the working copy as it was, or, once the callback has run,
  -- as it was found behind it.
  pub ask_consent :
      (n : ℕ) (b : ApprovalBinding) (s : TaskSession) (t : Tree)
      → (tree_of (ask platform disk scan options env n b s t) ≡ t)
        ⊎ ((tree_of (ask platform disk scan options env n b s t) ≡ env.meanwhile n t)
            ⊎ ((decide env.callback b (suc s.attempts_used) ≡ approve)
                × (working_tree_hash platform (env.meanwhile n t) ≡ b.working_tree_hash)
                × (patch_hash platform b.proposal.unified_diff ≡ b.patch_hash)))
  unfolding ask tree_of execute
  ask_consent n b s t = elim (Decision-cases (decide env.callback b (suc s.attempts_used))) [
    | inl missing ↦ inl (rw (tree_of, ask, missing) refl)
    | inr (inl denied) ↦ inr (inl (rw (tree_of, ask, denied) refl))
    | inr (inr agreed) ↦
        elim (Bool-cases (is_bound platform disk scan options env b (env.meanwhile n t))) [
          | inl same ↦
              let hashes = is_bound-hashes b (env.meanwhile n t) same in
              inr (inr (agreed, hashes.0, hashes.1))
          | inr moved ↦ inr (inl (rw (tree_of, ask, agreed, execute, moved) refl))
        ]
  ]

  ask-Halts :
      (n : ℕ) (b : ApprovalBinding) (s : TaskSession) (t : Tree)
      → env.callback ≡ none
      → Halts t (ask platform disk scan options env n b s t)
  unfolding ask decide
  ask-Halts n b s t closed = rw (ask, decide, closed) refl

  round-Halts_from :
      (n : ℕ) (s : TaskSession) (t : Tree) (next : Next)
      → env.callback ≡ none
      → analyze_phase platform scan options t (env.replies n) s ≡ next
      → Halts t (round platform disk scan options env n s t)
  unfolding round
  round-Halts_from n s t (go_on s') closed e = rw (round, e) refl
  round-Halts_from n s t (stop s') closed e = rw (round, e) refl
  round-Halts_from n s t (raised s') closed e = rw (round, e) refl
  round-Halts_from n s t (bound b s') closed e = rw (round, e) (ask-Halts n b s' t closed)

  rounds-same_from :
      (fuel n : ℕ) (s : TaskSession) (t : Tree) (turn last : Turn)
      → (is_terminal s.status || leb s.max_attempts s.attempts_used) ≡ false
      → round platform disk scan options env n s t ≡ turn
      → Halts t turn
      → rounds platform disk scan options env (suc fuel) n s t ≡ some last
      → tree_of last ≡ t
  unfolding rounds tree_of
  rounds-same_from fuel n s t (again s' t') last more e h r = absurd h
  rounds-same_from fuel n s t (ended s' t') last more e h r =
      sym (ap tree_of (some_inj (rw (rounds, more, e) at r))) ∙ h
  rounds-same_from fuel n s t (crashed s' t') last more e h r =
      sym (ap tree_of (some_inj (rw (rounds, more, e) at r))) ∙ h

  rounds-same :
      (fuel n : ℕ) (s : TaskSession) (t : Tree) (last : Turn)
      → env.callback ≡ none
      → rounds platform disk scan options env fuel n s t ≡ some last
      → tree_of last ≡ t
  unfolding rounds tree_of
  rounds-same zero n s t last closed r = absurd (ground arith)
  rounds-same (suc fuel) n s t last closed r =
      elim (Bool-cases (is_terminal s.status || leb s.max_attempts s.attempts_used)) [
        | inl over ↦ sym (ap tree_of (some_inj (rw (rounds, over) at r)))
        | inr more ↦
            rounds-same_from fuel n s t (round platform disk scan options env n s t) last more refl
              (round-Halts_from n s t _ closed refl) r
      ]

  -- Without an approval callback, a session leaves the working copy as it was, whatever the model
  -- replies: nothing is written, and no test runs on a changed copy.
  pub run_session_fail_closed :
      (fuel : ℕ) (baseline : TestResult) (s : TaskSession) (t : Tree) (last : Turn)
      → env.callback ≡ none
      → run_session platform disk scan options env fuel baseline s t ≡ some last
      → tree_of last ≡ t
  unfolding run_session tree_of
  run_session_fail_closed fuel baseline s t last closed r =
      elim (Bool-cases baseline.environment_failure) [
        | inl broken ↦ sym (ap tree_of (some_inj (rw (run_session, broken) at r)))
        | inr whole ↦ rounds-same fuel 0 _ t last closed (rw (run_session, whole) at r)
      ]
