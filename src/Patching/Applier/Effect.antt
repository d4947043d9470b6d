-- ===== src/Patching/Applier/Effect.antt =====
-- What an applied patch has done to the working copy, without the disk, the backups or the rounds.
use safepatch.Base.{
  Bool, true, false, not, ◌&&◌, Option, none, some, List, [], ◌∷◌, ◌≡◌, refl, sym, ap, subst, ◌∙◌,
  ◌⊎◌, inl, inr, arith, if◌then◌else◌, Bool-cases, Option-cases, Result-cases, some_inj, ok, ok_inj,
}
use safepatch.Text.{Text, text_eq, elem, splitlines}
use safepatch.Workspace.Tree.{Node, Tree, directory, file, exists, put, put_self, put_ne}
use safepatch.Workspace.Directories.{parents, make_parents, make_parents-made}
use safepatch.Workspace.Platform.{Platform}
use safepatch.Workspace.Disk.{OsFault, Disk, outcome_cases}
use safepatch.Patching.Hunks.{Relocation, apply_hunks_to_text}
use safepatch.Patching.Diff.{split_file_diffs, is_new_file, content_from_new_file_diff}
use safepatch.Patching.Diff.Added.{Adds, with_newlines, content_from_new_file_diff-Adds}
use safepatch.Patching.Policy.Proposal.{PatchProposal}
use safepatch.Patching.Policy.Integrity.{Scanner}
use safepatch.Patching.Policy.Validate.{is_ok, validate_proposal}
use safepatch.Patching.Applier.{
  Progress, Round, done, stopped, Raised, FileRelocation, applied, read_text_raw, write_new,
  after_mkdir, create_file, write_patched, patch_text, patch_file, apply_file, apply_files,
  find_stale, finish, apply_valid, apply_proposal,
}

-- What one file of a diff makes of the working copy: a new file has the lines that its part of the
-- diff adds, and the directories above it are there; an existing file is patched. No other path is
-- changed.
pub data Becomes (path body key : Text) : Tree → Tree → Type 0 where
  created :
      {t t' : Tree} (lines : List Text)
      → is_new_file body ≡ true
      → exists (t key) ≡ false
      → Adds false (splitlines body) lines
      → t' key ≡ file (with_newlines lines)
      → ((j : Text)
          → text_eq j key ≡ false
          → t' j ≡ (if elem j (parents key) && not (exists (t j)) then directory else t j))
      → Becomes path body key t t'
  patched :
      {t t' : Tree} (original result : Text) (moved : List Relocation)
      → is_new_file body ≡ false
      → t key ≡ file original
      → apply_hunks_to_text original body path ≡ ok (result, moved)
      → t' key ≡ file result
      → ((j : Text) → text_eq j key ≡ false → t' j ≡ t j)
      → Becomes path body key t t'

-- The files of a diff, one after the other, turn the first tree into the second.
pub data Patches (platform : Platform) : List (Text × Text) → Tree → Tree → Type 0 where
  nothing : {t : Tree} → Patches platform [] t t
  next :
      {path body key : Text} {fs : List (Text × Text)} {t t1 t' : Tree}
      → platform.resolve path ≡ some key
      → Becomes path body key t t1
      → Patches platform fs t1 t'
      → Patches platform ((path, body) ∷ fs) t t'

-- The effect of one round that ends normally.
record Did (platform : Platform) (f : Text × Text) (p q : Progress) : Type 0 where
  key : Text
  inside : platform.resolve f.0 ≡ some key
  becomes : Becomes f.0 f.1 key p.tree q.tree

-- The tree behind a round.
abbrev tree_of : Round → Tree
tree_of (done p) = p.tree
tree_of (stopped x p) = p.tree

module _ (platform : Platform) (disk : Disk) where
  write_new-done :
      (key content : Text) (p q : Progress)
      → write_new platform disk key content p ≡ done q
      → q.tree ≡ put p.tree key (file content)
  unfolding write_new
  write_new-done key content p q e = elim (outcome_cases (disk.write key content)) [
    | inl w ↦ sym (ap tree_of (rw (write_new, w) at e))
    | inr (inl (f, w)) ↦ absurd (let e' = rw (write_new, w) at e in ground arith)
    | inr (inr (f, part, w)) ↦ absurd (let e' = rw (write_new, w) at e in ground arith)
  ]

  after_mkdir-done :
      (key content : Text) (p q : Progress) (made : Option OsFault × Tree)
      → after_mkdir platform disk key content p made ≡ done q
      → (made.0 ≡ none) × (q.tree ≡ put made.1 key (file content))
  unfolding after_mkdir
  after_mkdir-done key content p q (some f, t) e = absurd (ground arith)
  after_mkdir-done key content p q (none, t) e =
      (refl, write_new-done key content (record p { tree = t }) q e)

  create_file-Did :
      (path body key : Text) (p q : Progress)
      → platform.resolve path ≡ some key
      → is_new_file body ≡ true
      → create_file platform disk key body p ≡ done q
      → Did platform (path, body) p q
  unfolding create_file
  create_file-Did path body key p q r new e = elim (Bool-cases (exists (p.tree key))) [
    | inl there ↦ absurd (let e' = rw (create_file, there) at e in ground arith)
    | inr free ↦ elim (Option-cases (content_from_new_file_diff body)) [
      | inl bad ↦ absurd (let e' = rw (create_file, free, bad) at e in ground arith)
      | inr (content, good) ↦
          let (made, tree) =
            after_mkdir-done key content p q (make_parents platform disk p.tree (parents key))
              (rw (create_file, free, good) at e) in
          let (lines, adds, whole) = content_from_new_file_diff-Adds body content good in
          record {
            key = key;
            inside = r;
            becomes =
                created lines new free adds
                  (ap (λ t. t key) tree
                    ∙ put_self (make_parents platform disk p.tree (parents key)).1 key
                        (file content)
                    ∙ ap file whole)
                  (λ j other.
                    ap (λ t. t j) tree
                    ∙ put_ne (make_parents platform disk p.tree (parents key)).1 key j
                        (file content) other
                    ∙ make_parents-made platform disk p.tree (parents key) j made);
          }
    ]
  ]

  patch_text-Did :
      (path body key original : Text) (p0 p q : Progress)
      → platform.resolve path ≡ some key
      → is_new_file body ≡ false
      → p0.tree key ≡ file original
      → p.tree ≡ p0.tree
      → patch_text platform disk path body key original p ≡ done q
      → Did platform (path, body) p0 q
  unfolding patch_text write_patched
  patch_text-Did path body key original p0 p q r old there same e =
      elim (Result-cases (apply_hunks_to_text original body path)) [
        | inr (x, bad) ↦ absurd (let e' = rw (patch_text, bad) at e in ground arith)
        | inl ((result, moved), good) ↦ elim (outcome_cases (disk.write key result)) [
          | inr (inl (f, w)) ↦
              absurd (let e' = rw (patch_text, good, write_patched, w) at e in ground arith)
          | inr (inr (f, part, w)) ↦
              absurd (let e' = rw (patch_text, good, write_patched, w) at e in ground arith)
          | inl w ↦
              let tree : q.tree ≡ put p0.tree key (file result) =
                sym (ap tree_of (rw (patch_text, good, write_patched, w) at e))
                ∙ ap (λ t. put t key (file result)) same in
              record {
                key = key;
                inside = r;
                becomes =
                    patched original result moved old there good
                      (ap (λ t. t key) tree ∙ put_self p0.tree key (file result))
                      (λ j other. ap (λ t. t j) tree ∙ put_ne p0.tree key j (file result) other);
              }
        ]
      ]

  read_text_raw-ok :
      (n : Node) (original : Text) → read_text_raw n ≡ ok original → n ≡ file original
  unfolding read_text_raw
  read_text_raw-ok (file c) original e = ap file (ok_inj e)
  read_text_raw-ok _ original e = absurd (ground arith)

  patch_file-Did :
      (path body key : Text) (p q : Progress)
      → platform.resolve path ≡ some key
      → is_new_file body ≡ false
      → patch_file platform disk path body key p ≡ done q
      → Did platform (path, body) p q
  unfolding patch_file
  patch_file-Did path body key p q r old e = elim (Bool-cases (exists (p.tree key))) [
    | inr gone ↦ absurd (let e' = rw (patch_file, gone) at e in ground arith)
    | inl there ↦ elim (Result-cases (read_text_raw (p.tree key))) [
      | inr (x, bad) ↦ absurd (let e' = rw (patch_file, there, bad) at e in ground arith)
      | inl (original, good) ↦
          patch_text-Did path body key original p _ q r old
            (read_text_raw-ok (p.tree key) original good) refl (rw (patch_file, there, good) at e)
    ]
  ]

  apply_file-Did :
      (f : Text × Text) (p q : Progress)
      → apply_file platform disk f p ≡ done q
      → Did platform f p q
  unfolding apply_file
  apply_file-Did (path, body) p q e = elim (Option-cases (platform.resolve path)) [
    | inl outside ↦ absurd (let e' = rw (apply_file, outside) at e in ground arith)
    | inr (key, inside) ↦ elim (Bool-cases (is_new_file body)) [
      | inl new ↦ create_file-Did path body key p q inside new (rw (apply_file, inside, new) at e)
      | inr old ↦ patch_file-Did path body key p q inside old (rw (apply_file, inside, old) at e)
    ]
  ]

  round_cases :
      (r : Round)
      → ((q : Progress) × (r ≡ done q)) ⊎ ((x : Raised) × (q : Progress) × (r ≡ stopped x q))
  round_cases (done q) = inl (q, refl)
  round_cases (stopped x q) = inr (x, q, refl)

  apply_files-Patches :
      (fs : List (Text × Text)) (p q : Progress)
      → (apply_files platform disk fs p).0 ≡ done q
      → Patches platform fs p.tree q.tree
  unfolding apply_files
  apply_files-Patches [] p q e = subst (λ t. Patches platform [] p.tree t) (ap tree_of e) nothing
  apply_files-Patches (f ∷ fs) p q e = elim (round_cases (apply_file platform disk f p)) [
    | inr (x, s, bad) ↦ absurd (let e' = rw (apply_files, bad) at e in ground arith)
    | inl (s, good) ↦
        let d = apply_file-Did f p s good in
        next d.inside d.becomes (apply_files-Patches fs s q (rw (apply_files, good) at e))
  ]

  finish-applied :
      (files : List Text) (r : Round) (current : Option Text) (gone : List Text)
      (moved : List FileRelocation) (t' : Tree)
      → finish platform disk files (r, current) ≡ (applied gone moved, t')
      → (q : Progress) × (r ≡ done q) × (q.tree ≡ t')
  unfolding finish
  finish-applied files (done q) current gone moved t' e = (q, refl, ap (λ x. x.1) e)
  finish-applied files (stopped x q) current gone moved t' e = absurd (ground arith)

  -- A proposal that is applied turns the working copy into the one that its diff describes: file by
  -- file, in the order of the diff, a new file stands at a place where nothing was and has the lines
  -- that its part of the diff adds, in directories that are made where they were not there; an
  -- existing file has the result of the hunk engine on its text; and nothing else changes.
  pub apply_proposal-Patches :
      (scan : Scanner) (allow_test_changes allow_new_tests : Bool) (proposal : PatchProposal)
      (files : List Text) (moved : List FileRelocation) (t t' : Tree)
      → apply_proposal platform disk scan allow_test_changes allow_new_tests proposal t
        ≡ some (applied files moved, t')
      → Patches platform (split_file_diffs proposal.unified_diff) t t'
  unfolding apply_proposal apply_valid
  apply_proposal-Patches scan allow_test_changes allow_new_tests proposal files moved t t' e =
      let fs = split_file_diffs proposal.unified_diff in
      let start : Progress = record { tree = t; backups = []; created = []; relocations = [] } in
      elim (Option-cases
        (validate_proposal platform t scan allow_test_changes allow_new_tests proposal)) [
          | inl raises ↦ absurd (let e' = rw (apply_proposal, raises) at e in ground arith)
          | inr (r, valid) ↦ elim (Bool-cases (is_ok r)) [
            | inr invalid ↦
                absurd (let e' = rw (apply_proposal, valid, invalid) at e in ground arith)
            | inl fine ↦
                let e1 = some_inj (rw (apply_proposal, valid, fine) at e) in
                elim (Option-cases (find_stale platform disk t proposal.base_revisions fs)) [
                  | inr (path, stale) ↦
                      absurd (let e' = rw (apply_valid, stale) at e1 in ground arith)
                  | inl current ↦
                      let (q, ends, same) =
                        finish-applied r.files (apply_files platform disk fs start).0
                          (apply_files platform disk fs start).1 files moved t'
                          (rw (apply_valid, current) at e1) in
                      subst (λ u. Patches platform fs t u) same
                        (apply_files-Patches fs start q ends)
                ]
          ]
        ]
