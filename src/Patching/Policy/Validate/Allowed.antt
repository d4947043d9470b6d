-- ===== src/Patching/Policy/Validate/Allowed.antt =====
-- What a proposal that passes validation may touch.
use safepatch.Base.{
  ◌+◌, Bool, true, false, not, Option, none, some, List, [], ◌∷◌, ◌++◌, ◌≡◌, refl, sym, ap, subst,
  ◌∙◌, ◌⊎◌, inl, inr, map, filter, All, All-append, arith, Bool-cases, Option-cases,
}
use mathlib.Core.Path.{ap₂}
use mathlib.Core.List.{map-append}
use safepatch.Text.{Text, sorted_set, codes, starts_with, ends_with, text_eq, elem}
use safepatch.Workspace.Tree.{Tree, exists}
use safepatch.Workspace.Platform.{Platform}
use safepatch.Patching.Diff.{split_file_diffs, parse_diff_files}
use safepatch.Patching.Diff.Agreement.{targets, not_dev_null, split_file_diffs-targets}
use safepatch.Patching.Policy.Paths.{parts, normalize_patch_path, escapes, is_forbidden_path}
use safepatch.Patching.Policy.Proposal.{PatchProposal}
use safepatch.Patching.Policy.Integrity.{
  PolicyError, Scanner, Findings, error_if, check_integrity_pairs,
}
use safepatch.Patching.Policy.Validate.{
  ValidationResult, is_ok, is_empty, path_errors, check_pair, check_pairs, result_of, count_lines,
  is_added, is_deleted, set_errors, with_findings, validate_proposal, node_at,
}

-- A path that a patch may change: relative, with no "..", not forbidden, a Python file that the
-- workspace holds, or that is new under tests/.
pub record IsAllowed (platform : Platform) (tree : Tree) (path : Text) : Type 0 where
  pub relative : starts_with path (codes "/") ≡ false
  pub no_parent : elem (codes "..") (parts path) ≡ false
  pub permitted : is_forbidden_path platform.lower path ≡ false
  pub python : ends_with path (codes ".py") ≡ true
  pub key : Text
  pub inside : platform.resolve path ≡ some key
  pub present :
      (exists (tree key) ≡ true)
      ⊎ ((exists (tree key) ≡ false) × (starts_with path (codes "tests/") ≡ true))

pub append-nil_left : {A : Type 0} (xs ys : List A) → xs ++ ys ≡ [] → (xs ≡ []) × (ys ≡ [])
append-nil_left [] ys h = (refl, h)
append-nil_left (x ∷ xs) ys h = absurd (ground arith)

pub error_if-nil : (b : Bool) (e : PolicyError) → error_if b e ≡ [] → b ≡ false
error_if-nil true e h = absurd (ground arith)
error_if-nil false e h = refl

escapes-false :
    (path : Text)
    → escapes path ≡ false
    → (starts_with path (codes "/") ≡ false) × (elem (codes "..") (parts path) ≡ false)
unfolding escapes
escapes-false path h = (ground arith, ground arith)

module _ (platform : Platform) (tree : Tree) where
  path_errors-nil :
      (is_new : Bool) (path : Text)
      → path_errors platform tree is_new path ≡ []
      → IsAllowed platform tree path
  unfolding path_errors
  path_errors-nil is_new path h = elim (Bool-cases (escapes path)) [
    | inl bad ↦ absurd (ground arith)
    | inr fine ↦ elim (Option-cases (platform.resolve path)) [
      | inl outside ↦ absurd (ground arith)
      | inr (key, inside) ↦ record {
        relative = (escapes-false path fine).0;
        no_parent = (escapes-false path fine).1;
        permitted = ground arith;
        python = ground arith;
        key = key;
        inside = inside;
        present = elim (Bool-cases (exists (tree key))) [
          | inl there ↦ inl there
          | inr new ↦ inr (new, ground arith)
        ];
      }
    ]
  ]

  -- What the loop finds when it finds no error: the touched paths are the targets, and allowed.
  check_pair-nil :
      (p : Option Text × Option Text)
      → (check_pair platform tree p).1 ≡ []
      → ((check_pair platform tree p).0 ≡ map normalize_patch_path (targets (p ∷ [])))
        × All (λ t. IsAllowed platform tree (normalize_patch_path t)) (targets (p ∷ []))
  unfolding check_pair
  check_pair-nil (none, none) h = absurd (ground arith)
  check_pair-nil (some old, none) h = absurd (ground arith)
  check_pair-nil (none, some new) h =
      (refl, (path_errors-nil true (normalize_patch_path new) h, tt))
  check_pair-nil (some old, some new) h =
      elim (Bool-cases (text_eq (normalize_patch_path old) (normalize_patch_path new))) [
        | inl same ↦
            (rw same, (path_errors-nil false (normalize_patch_path new) (rw same at h), tt))
        | inr other ↦ absurd (ground arith)
      ]

  targets-cons :
      (p : Option Text × Option Text) (ps : List (Option Text × Option Text))
      → targets (p ∷ ps) ≡ targets (p ∷ []) ++ targets ps
  targets-cons (old, none) ps = refl
  targets-cons (old, some new) ps = refl

  check_pairs-nil :
      (ps : List (Option Text × Option Text))
      → (check_pairs platform tree ps).1 ≡ []
      → ((check_pairs platform tree ps).0 ≡ map normalize_patch_path (targets ps))
        × All (λ t. IsAllowed platform tree (normalize_patch_path t)) (targets ps)
  unfolding check_pairs
  check_pairs-nil [] h = (refl, tt)
  check_pairs-nil (p ∷ ps) h =
      let (first, later) =
        append-nil_left (check_pair platform tree p).1 (check_pairs platform tree ps).1 h in
      let (touched, allowed) = check_pair-nil p first in
      let (more, rest) = check_pairs-nil ps later in
      rw (targets-cons p ps) (
        ap₂ (λ l m. l ++ m) touched more
            ∙ sym (map-append normalize_patch_path (targets (p ∷ [])) (targets ps)),
        All-append _ (targets (p ∷ [])) (targets ps) allowed rest,
      )

All-filter {ℓ} :
    {A : Type 0} (P : A → Type ℓ) (p : A → Bool) (xs : List A) → All P xs → All P (filter p xs)
All-filter P p [] h = tt
All-filter P p (x ∷ xs) h = elim (Bool-cases (p x)) [
  | inl keeps ↦ rw keeps (h.0, All-filter P p xs h.1)
  | inr drops ↦ rw drops (All-filter P p xs h.1)
]

All-map {ℓ} :
    {A B : Type 0} (P : B → Type ℓ) (f : A → B) (xs : List A)
    → All P (map f xs)
    → All (λ x. P (f x)) xs
All-map P f [] h = tt
All-map P f (x ∷ xs) h = (h.0, All-map P f xs h.1)

with_findings-some :
    (proposal : PatchProposal) (touched : List Text) (errors : List PolicyError)
    (o : Option Findings) (r : ValidationResult)
    → with_findings proposal (touched, errors) o ≡ some r
    → (found : Findings) × (o ≡ some found) × (r ≡ result_of proposal (touched, errors) found)
unfolding with_findings
with_findings-some proposal touched errors none r e = absurd (ground arith)
with_findings-some proposal touched errors (some found) r e = (found, refl, cc)

pub error_if-not-nil : (b : Bool) (e : PolicyError) → error_if (not b) e ≡ [] → b ≡ true
error_if-not-nil true e h = refl
error_if-not-nil false e h = absurd (ground arith)

pub is_empty-nil : {A : Type 0} (xs : List A) → is_empty xs ≡ true → xs ≡ []
unfolding is_empty
is_empty-nil [] h = refl
is_empty-nil (x ∷ xs) h = absurd (ground arith)

result_of-ok :
    (proposal : PatchProposal) (touched : List Text) (errors : List PolicyError) (found : Findings)
    → is_ok (result_of proposal (touched, errors) found) ≡ true
    → (errors ≡ []) × (set_errors touched proposal ≡ []) × (found.errors ≡ [])
unfolding is_ok result_of
result_of-ok proposal touched errors found h =
    let (_, behind) = append-nil_left _ _ (is_empty-nil _ h) in
    let (no_errors, behind') = append-nil_left errors _ behind in
    let (no_set, no_found) = append-nil_left _ found.errors behind' in (no_errors, no_set, no_found)

module _ (platform : Platform) (tree : Tree) (scan : Scanner)
    (allow_test_changes allow_new_tests : Bool) (proposal : PatchProposal) where
  -- The parts of a successful validation.
  pub record Validated (r : ValidationResult) : Type 0 where
    pub touched :
        r.files
        ≡ sorted_set (map normalize_patch_path (targets (parse_diff_files proposal.unified_diff)))
    pub allowed :
        All
          (λ t. IsAllowed platform tree (normalize_patch_path t))
          (targets (parse_diff_files proposal.unified_diff))
    pub sets :
        set_errors
          (map normalize_patch_path (targets (parse_diff_files proposal.unified_diff)))
          proposal
        ≡ []
    pub changed :
        r.added_lines + r.deleted_lines
        ≡ count_lines is_added proposal.unified_diff + count_lines is_deleted proposal.unified_diff
    pub found : Findings
    pub integrity :
        check_integrity_pairs scan platform.lower
          (node_at platform tree)
          (split_file_diffs proposal.unified_diff)
          allow_test_changes
          allow_new_tests
          (parse_diff_files proposal.unified_diff)
        ≡ some found
    pub no_findings : found.errors ≡ []

  pub validated :
      (r : ValidationResult)
      → validate_proposal platform tree scan allow_test_changes allow_new_tests proposal ≡ some r
      → is_ok r ≡ true
      → Validated r
  unfolding validate_proposal
  validated r e fine =
      let pairs = parse_diff_files proposal.unified_diff in
      let (found, scanned, same) = with_findings-some proposal _ _ _ r e in
      let (no_errors, no_set, no_found) =
        result_of-ok proposal _ _ found (subst (λ x. is_ok x ≡ true) same fine) in
      let (touched, allowed) = check_pairs-nil platform tree pairs no_errors in
      record {
        touched = unfold result_of in ap (λ x. x.files) same ∙ ap sorted_set touched;
        allowed = allowed;
        sets = rw touched at no_set;
        changed = unfold result_of in ap (λ x. x.added_lines + x.deleted_lines) same;
        found = found;
        integrity = scanned;
        no_findings = no_found;
      }

  -- Every file that the applier cuts out of the diff of a valid proposal has a path whose
  -- normalized form (normalize_patch_path) is allowed: relative to the workspace root and inside it,
  -- with no "..", no forbidden name, the suffix .py, and a file that exists or is new under tests/.
  -- The applier takes the path as the diff spells it; a path that is not its own normalized form is
  -- not covered.
  pub validate_proposal-IsAllowed :
      (r : ValidationResult)
      → validate_proposal platform tree scan allow_test_changes allow_new_tests proposal ≡ some r
      → is_ok r ≡ true
      → All
          (λ c. IsAllowed platform tree (normalize_patch_path c.0))
          (split_file_diffs proposal.unified_diff)
  validate_proposal-IsAllowed r e fine =
      All-map (λ t. IsAllowed platform tree (normalize_patch_path t)) (λ c. c.0)
        (split_file_diffs proposal.unified_diff)
        (subst (All (λ t. IsAllowed platform tree (normalize_patch_path t)))
          (sym (split_file_diffs-targets proposal.unified_diff))
          (All-filter _ not_dev_null _ (validated r e fine).allowed))
