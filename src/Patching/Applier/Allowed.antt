-- ===== src/Patching/Applier/Allowed.antt =====
-- Which files an applied patch may change: the policy and the applier together.
use safepatch.Base.{
  Bool, true, false, not, ◌&&◌, some, List, [], ◌∷◌, ◌≡◌, refl, sym, ap, subst, ◌∙◌, ◌⊎◌, inl, inr,
  All, all, arith, if◌then◌else◌, Bool-cases, Option-cases,
}
use safepatch.Text.{Text, text_eq, elem}
use safepatch.Text.Laws.{text_eq→eq}
use safepatch.Workspace.Tree.{Node, Tree, absent, directory, file, opaque, exists, as_file}
use safepatch.Workspace.Directories.{parents}
use safepatch.Workspace.Platform.{Platform}
use safepatch.Workspace.Disk.{Disk}
use safepatch.Patching.Diff.{split_file_diffs}
use safepatch.Patching.Policy.Paths.{normalize_patch_path}
use safepatch.Patching.Policy.Proposal.{PatchProposal}
use safepatch.Patching.Policy.Integrity.{Scanner}
use safepatch.Patching.Policy.Validate.{is_ok, validate_proposal}
use safepatch.Patching.Policy.Validate.Allowed.{IsAllowed, validate_proposal-IsAllowed}
use safepatch.Patching.Applier.{FileRelocation, applied, apply_proposal}
use safepatch.Patching.Applier.Restores.{resolved}
use safepatch.Patching.Applier.Effect.{
  Becomes, created, patched, Patches, nothing, next, apply_proposal-Patches,
}

-- A directory that is made where nothing was is no file.
as_file-made :
    (above : Bool) (n : Node)
    → as_file (if above && not (exists n) then directory else n) ≡ as_file n
unfolding as_file exists
as_file-made true absent = refl
as_file-made true directory = refl
as_file-made true (file c) = refl
as_file-made true (opaque c) = refl
as_file-made false n = refl

Becomes-others :
    {path body key : Text} {t t' : Tree} (j : Text)
    → Becomes path body key t t'
    → text_eq j key ≡ false
    → as_file (t' j) ≡ as_file (t j)
Becomes-others {key} {t} j (created lines new free adds here others) h =
    ap as_file (others j h) ∙ as_file-made (elem j (parents key)) (t j)
Becomes-others j (patched original result moved old there good here others) h =
    ap as_file (others j h)

-- A path at which no file of the diff stands has the file that it had.
Patches-others :
    {platform : Platform} {fs : List (Text × Text)} {t t' : Tree} (j : Text)
    → Patches platform fs t t'
    → elem j (resolved platform fs) ≡ false
    → as_file (t' j) ≡ as_file (t j)
unfolding resolved elem
Patches-others j nothing out = refl
Patches-others j (next inside becomes rest) out =
    let out' = rw (resolved, inside) at out in
    Patches-others j rest (ground arith) ∙ Becomes-others j becomes (ground arith)

module _ (platform : Platform) (t : Tree) where
  -- The path of the diff that stands at a resolved path.
  path_of :
      (fs : List (Text × Text)) (j : Text)
      → All (λ f. IsAllowed platform t f.0) fs
      → elem j (resolved platform fs) ≡ true
      → (path : Text) × IsAllowed platform t path × (platform.resolve path ≡ some j)
  unfolding resolved elem
  path_of [] j allowed m = absurd (ground arith)
  path_of ((path, body) ∷ fs) j allowed m = elim (Option-cases (platform.resolve path)) [
    | inl outside ↦ path_of fs j allowed.1 (rw (resolved, outside) at m)
    | inr (key, inside) ↦
        let m' = rw (resolved, inside) at m in
        elim (Bool-cases (text_eq j key)) [
          | inl same ↦ (path, allowed.0, inside ∙ ap some (sym (text_eq→eq j key same)))
          | inr other ↦ path_of fs j allowed.1 (ground arith)
        ]
  ]

  as_spelled :
      (fs : List (Text × Text))
      → all (λ f. text_eq (normalize_patch_path f.0) f.0) fs ≡ true
      → All (λ f. IsAllowed platform t (normalize_patch_path f.0)) fs
      → All (λ f. IsAllowed platform t f.0) fs
  as_spelled [] same allowed = tt
  as_spelled ((path, body) ∷ fs) same allowed = (
    subst (IsAllowed platform t) (text_eq→eq (normalize_patch_path path) path (ground arith))
        allowed.0,
    as_spelled fs (ground arith) allowed.1,
  )

-- A proposal that is applied, and whose diff spells each path in its normalized form, changes the
-- files at allowed paths only: whatever path is asked for, it has the file that it had, or it is the
-- resolved form of a path that the policy allows in the working copy as it was.
pub apply_proposal-only-IsAllowed :
    (platform : Platform) (disk : Disk) (scan : Scanner) (allow_test_changes allow_new_tests : Bool)
    (proposal : PatchProposal) (files : List Text) (moved : List FileRelocation) (t t' : Tree)
    (j : Text)
    → all (λ f. text_eq (normalize_patch_path f.0) f.0) (split_file_diffs proposal.unified_diff)
      ≡ true
    → apply_proposal platform disk scan allow_test_changes allow_new_tests proposal t
      ≡ some (applied files moved, t')
    → (as_file (t' j) ≡ as_file (t j))
      ⊎ ((path : Text) × IsAllowed platform t path × (platform.resolve path ≡ some j))
unfolding apply_proposal
apply_proposal-only-IsAllowed platform disk scan allow_test_changes allow_new_tests proposal files
      moved t t' j spelled e =
    let fs = split_file_diffs proposal.unified_diff in
    elim (Bool-cases (elem j (resolved platform fs))) [
      | inr outside ↦ inl (
          Patches-others j
            (apply_proposal-Patches platform disk scan allow_test_changes allow_new_tests proposal
              files moved t t' e)
            outside)
      | inl within ↦
          elim (Option-cases
            (validate_proposal platform t scan allow_test_changes allow_new_tests proposal)) [
              | inl raises ↦ absurd (let e' = rw (apply_proposal, raises) at e in ground arith)
              | inr (r, valid) ↦ elim (Bool-cases (is_ok r)) [
                | inr invalid ↦
                    absurd (let e' = rw (apply_proposal, valid, invalid) at e in ground arith)
                | inl fine ↦ inr (
                    path_of platform t fs j
                      (as_spelled platform t fs spelled (
                        validate_proposal-IsAllowed platform t scan allow_test_changes
                          allow_new_tests proposal r valid fine))
                      within)
              ]
            ]
    ]
