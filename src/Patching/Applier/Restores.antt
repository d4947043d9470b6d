-- ===== src/Patching/Applier/Restores.antt =====
-- A patch that fails leaves the working copy as it was.
use safepatch.Base.{
  ℕ, Bool, true, false, Option, none, some, List, [], ◌∷◌, ◌≡◌, refl, sym, ap, subst, ◌⊎◌, inl, inr,
  arith, Bool-cases, Option-cases, some_inj,
}
use safepatch.Text.{Text, text_eq, elem, has_duplicate}
use safepatch.Text.Laws.{text_eq→eq, text_eq_refl}
use safepatch.Workspace.Tree.{Tree, is_file, as_file}
use safepatch.Workspace.Platform.{Platform}
use safepatch.Workspace.Disk.{OsFault, torn, Disk}
use safepatch.Patching.Diff.{split_file_diffs}
use safepatch.Patching.Applier.{Progress, Round, done, stopped, Raised, apply_file, apply_files}
use safepatch.Patching.Applier.Rollback.{Kept, safe_rollback-restores}
use safepatch.Patching.Policy.Proposal.{PatchProposal}
use safepatch.Patching.Policy.Integrity.{Scanner}
use safepatch.Patching.Policy.Validate.{ValidationResult, is_ok, validate_proposal}
use safepatch.Patching.Applier.{
  failed, ApplyErrorKind, finish, find_stale, apply_valid, apply_proposal,
}
use safepatch.Patching.Applier.Safety.{state_of, IsFresh, or_false, apply_file-Steps}

-- The resolved paths of the files of a diff.
unfoldable pub resolved : Platform → List (Text × Text) → List Text
resolved platform [] = []
resolved platform (f ∷ fs) = elim (platform.resolve f.0) [
  | none ↦ resolved platform fs
  | some key ↦ key ∷ resolved platform fs
]

pub apart :
    (j key : Text) (ks : List Text) → elem key ks ≡ false → elem j ks ≡ true → text_eq j key ≡ false
apart j key ks alone m = elim (Bool-cases (text_eq j key)) [
  | inl same ↦
      absurd (let m' = subst (λ x. elem x ks ≡ true) (text_eq→eq j key same) m in ground arith)
  | inr other ↦ other
]

module _ (platform : Platform) (path body : Text) (fs : List (Text × Text)) (key : Text) where
  resolved_cons :
      platform.resolve path ≡ some key
      → resolved platform ((path, body) ∷ fs) ≡ key ∷ resolved platform fs
  unfolding resolved
  resolved_cons at = rw (at, resolved)

  pub distinct_cons :
      platform.resolve path ≡ some key
      → has_duplicate (resolved platform ((path, body) ∷ fs)) ≡ false
      → (elem key (resolved platform fs) ≡ false) × (has_duplicate (resolved platform fs) ≡ false)
  distinct_cons at once =
      or_false _ _
        (unfold has_duplicate in subst (λ ks. has_duplicate ks ≡ false) (resolved_cons at) once)

  pub resolved_head :
      platform.resolve path ≡ some key → elem key (resolved platform ((path, body) ∷ fs)) ≡ true
  resolved_head at = rw (resolved_cons at) (unfold elem in ground (arith, text_eq_refl key))

  pub resolved_tail :
      (j : Text)
      → platform.resolve path ≡ some key
      → elem j (resolved platform fs) ≡ true
      → elem j (resolved platform ((path, body) ∷ fs)) ≡ true
  resolved_tail j at m = rw (resolved_cons at) (unfold elem in ground arith)

Round-cases :
    (r : Round)
    → ((q : Progress) × (r ≡ done q)) ⊎ ((e : Raised) × (q : Progress) × (r ≡ stopped e q))
Round-cases (done q) = inl (q, refl)
Round-cases (stopped e q) = inr (e, q, refl)

module _ (platform : Platform) (disk : Disk) (t0 : Tree)
    (whole : (key content partial : Text) (f : OsFault)
      → disk.write key content ≡ torn f partial
      → is_file (t0 key) ≡ true) where
  -- The loop over files that resolve to different paths keeps the invariant.
  apply_files-Kept :
      (fs : List (Text × Text)) (p : Progress)
      → has_duplicate (resolved platform fs) ≡ false
      → ((j : Text) → elem j (resolved platform fs) ≡ true → IsFresh p j)
      → Kept t0 p
      → Kept t0 (state_of (apply_files platform disk fs p).0)
  unfolding apply_files
  apply_files-Kept [] p once fr k = k
  apply_files-Kept ((path, body) ∷ fs) p once fr k = elim (Option-cases (platform.resolve path)) [
    | inl outside ↦ rw (apply_files, apply_file, outside) k
    | inr (key, at) ↦
        let (alone, once') = distinct_cons platform path body fs key at once in
        let s =
          apply_file-Steps platform disk t0 whole path body key p at
            (fr key (resolved_head platform path body fs key at)) k in
        elim (Round-cases (apply_file platform disk (path, body) p)) [
          | inr (e, q, r) ↦ rw (apply_files, r) (subst (λ x. Kept t0 (state_of x)) r s.kept)
          | inl (q, r) ↦
              rw (apply_files, r)
                (apply_files-Kept fs q once'
                  (λ j m.
                    subst (λ x. IsFresh (state_of x) j) r
                      (s.fresh j (apart j key (resolved platform fs) alone m)
                        (fr j (resolved_tail platform path body fs key j at m))))
                  (subst (λ x. Kept t0 (state_of x)) r s.kept))
        ]
  ]

  finish-restores :
      (files : List Text) (r : Round) (current : Option Text) (kind : ApplyErrorKind)
      (target : Option Text) (line : Option ℕ) (t' : Tree)
      → Kept t0 (state_of r)
      → finish platform disk files (r, current) ≡ (failed kind target true line, t')
      → (j : Text) → as_file (t' j) ≡ as_file (t0 j)
  unfolding finish
  finish-restores files (done p) current kind target line t' k e j = absurd (ground arith)
  finish-restores files (stopped x p) current kind target line t' k e j =
      safe_rollback-restores platform disk t0 t' p k (ground arith) j

  apply_valid-restores :
      (proposal : PatchProposal) (r : ValidationResult) (kind : ApplyErrorKind)
      (target : Option Text) (line : Option ℕ) (t' : Tree)
      → has_duplicate (resolved platform (split_file_diffs proposal.unified_diff)) ≡ false
      → apply_valid platform disk proposal r t0 ≡ (failed kind target true line, t')
      → (j : Text) → as_file (t' j) ≡ as_file (t0 j)
  unfolding apply_valid
  apply_valid-restores proposal r kind target line t' once e j =
      let fs = split_file_diffs proposal.unified_diff in
      let start : Progress = record { tree = t0; backups = []; created = []; relocations = [] } in
      elim (Option-cases (find_stale platform disk t0 proposal.base_revisions fs)) [
        | inr (path, stale) ↦ sym (ap (λ x. as_file (x.1 j)) (rw (apply_valid, stale) at e))
        | inl current ↦
            finish-restores r.files (apply_files platform disk fs start).0
              (apply_files platform disk fs start).1 kind target line t'
              (apply_files-Kept fs start once
                (λ i m. record {
                  no_backup = unfold elem in refl;
                  not_created = unfold elem in refl;
                })
                (record { originals = tt; new = tt; outside = λ i b c. refl }))
              (rw (apply_valid, current) at e) j
      ]

  -- If a proposal is not applied and the rollback is reported as successful, the working copy has
  -- the same files with the same content as before. This covers each way to fail: the policy, a
  -- stale revision, a hunk that does not match, a directory that cannot be made, a refused or broken
  -- write in the middle of the files. It asks that the files of the diff resolve to different paths,
  -- and that a write which breaks off was to an existing file. Nothing is said of directories: those
  -- made for a new file may stay, and one that was empty before may be gone.
  pub apply_proposal-restores :
      (scan : Scanner) (allow_test_changes allow_new_tests : Bool) (proposal : PatchProposal)
      (kind : ApplyErrorKind) (target : Option Text) (line : Option ℕ) (t' : Tree)
      → has_duplicate (resolved platform (split_file_diffs proposal.unified_diff)) ≡ false
      → apply_proposal platform disk scan allow_test_changes allow_new_tests proposal t0
        ≡ some (failed kind target true line, t')
      → (j : Text) → as_file (t' j) ≡ as_file (t0 j)
  unfolding apply_proposal
  apply_proposal-restores scan allow_test_changes allow_new_tests proposal kind target line t' once
        e j =
      elim (Option-cases
        (validate_proposal platform t0 scan allow_test_changes allow_new_tests proposal)) [
          | inl raises ↦ absurd (let e' = rw (apply_proposal, raises) at e in ground arith)
          | inr (r, valid) ↦ elim (Bool-cases (is_ok r)) [
            | inl fine ↦
                apply_valid-restores proposal r kind target line t' once
                  (some_inj (rw (apply_proposal, valid, fine) at e)) j
            | inr invalid ↦
                sym
                  (ap (λ x. as_file (x.1 j)) (some_inj (rw (apply_proposal, valid, invalid) at e)))
          ]
        ]
