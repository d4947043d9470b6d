-- ===== src/Patching/Policy/Validate/Limits.antt =====
-- The size of a proposal that passes validation, and what it declares.
use safepatch.Base.{
  ℕ, ◌+◌, ◌≤◌, Bool, true, false, some, List, [], ◌∷◌, ◌≡◌, refl, sym, subst, ◌⊎◌, inl, inr, map,
  length, ltb, All, arith, Bool-cases,
}
use safepatch.Text.{Text, text_eq, elem, insert_sorted, sorted_set, has_duplicate, without}
use safepatch.Text.Laws.{text_eq→eq}
use safepatch.Workspace.Tree.{Tree}
use safepatch.Workspace.Platform.{Platform}
use safepatch.Patching.Diff.{parse_diff_files}
use safepatch.Patching.Diff.Agreement.{targets}
use safepatch.Patching.Policy.Paths.{normalize_patch_path}
use safepatch.Patching.Policy.Proposal.{PatchProposal}
use safepatch.Patching.Policy.Integrity.{PolicyError, Scanner}
use safepatch.Patching.Policy.Validate.{
  ValidationResult, is_ok, is_empty, is_revision, set_errors, error_unless_empty, revision_errors,
  count_lines, is_added, is_deleted, validate_proposal, max_files, max_changed_lines,
}
use safepatch.Patching.Policy.Validate.Allowed.{
  append-nil_left, error_if-nil, error_if-not-nil, validated,
}

insert_sorted-ne-nil : (s : Text) (ts : List Text) → is_empty (insert_sorted s ts) ≡ false
unfolding insert_sorted is_empty
insert_sorted-ne-nil s [] = refl
insert_sorted-ne-nil s (t ∷ ts) = ground arith

sorted_set-nil : (ts : List Text) → is_empty (sorted_set ts) ≡ true → ts ≡ []
unfolding sorted_set
sorted_set-nil [] h = refl
sorted_set-nil (t ∷ ts) h = absurd (ground (arith, insert_sorted-ne-nil t (sorted_set ts)))

elem-cons : (t s : Text) (ss : List Text) → elem t (s ∷ ss) ≡ true → (t ≡ s) ⊎ (elem t ss ≡ true)
unfolding elem
elem-cons t s ss h = elim (Bool-cases (text_eq t s)) [
  | inl same ↦ inl (text_eq→eq t s same)
  | inr other ↦ inr (ground arith)
]

without-nil :
    (ss ts : List Text) → without ss ts ≡ [] → (t : Text) → elem t ss ≡ true → elem t ts ≡ true
unfolding without
without-nil [] ts h t m = absurd (unfold elem in ground arith)
without-nil (s ∷ ss) ts h t m = elim (Bool-cases (elem s ts)) [
  | inl there ↦ elim (elem-cons t s ss m) [
    | inl same ↦ rw same there
    | inr later ↦ without-nil ss ts (rw there at h) t later
  ]
  | inr missing ↦ absurd (ground arith)
]

revisions_fine :
    (touched : List Text) (rs : List (Text × Text))
    → revision_errors touched rs ≡ []
    → All (λ r. (elem (normalize_patch_path r.0) touched ≡ true) × (is_revision r.1 ≡ true)) rs
unfolding revision_errors
revisions_fine touched [] h = tt
revisions_fine touched ((path, revision) ∷ rs) h =
    let (a, b) = append-nil_left _ _ h in
    let (c, d) = append-nil_left _ _ b in
    ((error_if-not-nil _ _ a, error_if-not-nil _ _ c), revisions_fine touched rs d)

ltb-false : (a b : ℕ) → ltb a b ≡ false → b ≤ a
ltb-false a b h = ground arith

same_truth : (a b : Bool) → (a ≡ true → b ≡ true) → (b ≡ true → a ≡ true) → a ≡ b
same_truth true b f g = sym (f refl)
same_truth false true f g = g refl
same_truth false false f g = refl

-- What the checks of the sets and sizes leave.
record SetsFine (touched : List Text) (proposal : PatchProposal) : Type 0 where
  distinct : has_duplicate touched ≡ false
  few : length (sorted_set touched) ≤ max_files
  short :
      count_lines is_added proposal.unified_diff + count_lines is_deleted proposal.unified_diff
      ≤ max_changed_lines
  extra : without touched (map normalize_patch_path proposal.affected_files) ≡ []
  idle : without (map normalize_patch_path proposal.affected_files) touched ≡ []
  revisions : revision_errors touched proposal.base_revisions ≡ []

unless_empty :
    (ts : List Text) (e : PolicyError) → error_unless_empty (sorted_set ts) e ≡ [] → ts ≡ []
unfolding error_unless_empty
unless_empty ts e h = sorted_set-nil ts (error_if-not-nil _ e h)

sets_fine :
    (touched : List Text) (proposal : PatchProposal)
    → set_errors touched proposal ≡ []
    → SetsFine touched proposal
unfolding set_errors
sets_fine touched proposal h =
    let (h1, t1) = append-nil_left _ _ h in
    let (h2, t2) = append-nil_left _ _ t1 in
    let (h3, t3) = append-nil_left _ _ t2 in
    let (h4, t4) = append-nil_left _ _ t3 in
    let (h5, t5) = append-nil_left _ _ t4 in
    let (h6, t6) = append-nil_left _ _ t5 in
    record {
      distinct = error_if-nil _ _ h1;
      few = ltb-false _ _ (error_if-nil _ _ h2);
      short = ltb-false _ _ (error_if-nil _ _ h3);
      extra = unless_empty _ _ h5;
      idle = unless_empty _ _ h6;
      revisions = t6;
    }

module _ (platform : Platform) (tree : Tree) (scan : Scanner)
    (allow_test_changes allow_new_tests : Bool) (proposal : PatchProposal) where
  -- A valid proposal names no target twice (as normalized), has at most five files and at most 300
  -- added and deleted lines; the files that it declares and those in its diff are the same set;
  -- and each of its base revisions is a well-formed digest for a file of the diff.
  pub validate_proposal-limits :
      (r : ValidationResult)
      → validate_proposal platform tree scan allow_test_changes allow_new_tests proposal ≡ some r
      → is_ok r ≡ true
      → let touched = map normalize_patch_path (targets (parse_diff_files proposal.unified_diff)) in
        let declared = map normalize_patch_path proposal.affected_files in
        (has_duplicate touched ≡ false)
        × (length r.files ≤ 5)
        × (r.added_lines + r.deleted_lines ≤ 300)
        × ((t : Text) → elem t declared ≡ elem t touched)
        × All
            (λ b. (elem (normalize_patch_path b.0) touched ≡ true) × (is_revision b.1 ≡ true))
            proposal.base_revisions
  validate_proposal-limits r e fine =
      let v = validated platform tree scan allow_test_changes allow_new_tests proposal r e fine in
      let s = sets_fine _ proposal v.sets in
      (
        s.distinct,
        subst (λ l. length l ≤ 5) (sym v.touched) s.few,
        subst (λ n. n ≤ 300) (sym v.changed) s.short,
        (λ t. same_truth _ _ (without-nil _ _ s.idle t) (without-nil _ _ s.extra t)),
        revisions_fine _ proposal.base_revisions s.revisions,
      )
