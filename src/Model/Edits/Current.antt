-- ===== src/Model/Edits/Current.antt =====
-- The proposal of propose_edit is about the files as they are.
use safepatch.Base.{
  true, some, List, [], ◌∷◌, ◌≡◌, ◌≢◌, sym, ap, subst, ◌∙◌, inl, inr, All, ok, ok_inj, >>=-eq-ok,
  arith, Bool-cases, Option-cases,
}
use safepatch.Text.{Text, text_eq, concat}
use safepatch.Text.Laws.{text_eq→eq}
use safepatch.Workspace.Tree.{Node, Tree, file, is_file}
use safepatch.Workspace.Platform.{Platform}
use safepatch.Patching.Policy.Paths.{name}
use safepatch.Patching.Policy.Proposal.{PatchProposal, get}
use safepatch.Patching.Applier.{set_item, file_revision}
use safepatch.Model.ToolCall.Checked.{not_empty}
use safepatch.Session.Reads.{safe_resolve}
use safepatch.Model.Json.{Json, object, Members, Library}
use safepatch.Model.Edits.{
  Differ, Edit, EditState, replace_in, read_new, load_file, edit_loaded, is_inconsistent,
  has_py_suffix, edit_node, edit_one, edit_all, diff_parts, proposal_of, validate_args,
  build_structured_proposal,
}

-- A path with the revision that its file has: a Python file inside the workspace.
pub record IsCurrent (platform : Platform) (tree : Tree) (b : Text × Text) : Type 0 where
  pub key : Text
  pub inside : safe_resolve platform b.0 ≡ some key
  pub regular : is_file (tree key) ≡ true
  pub python : has_py_suffix (name key) ≡ true
  pub current : file_revision platform (tree key) ≡ some b.1

pub All-set_item {κ} :
    (P : Text × Text → Type κ) (d : List (Text × Text)) (k v : Text)
    → All P d
    → P (k, v)
    → All P (set_item d k v)
unfolding set_item
All-set_item P [] k v h p = (p, tt)
All-set_item P ((j, w) ∷ d) k v h p = elim (Bool-cases (text_eq j k)) [
  | inl same ↦ rw same (subst (λ x. P (x, v)) (sym (text_eq→eq j k same)) p, h.1)
  | inr other ↦ rw other (h.0, All-set_item P d k v h.1 p)
]

read_new-revisions :
    (path : Text) (n : Node) (s s' : EditState)
    → read_new path n s ≡ ok s'
    → s'.base_revisions ≡ s.base_revisions
unfolding read_new
read_new-revisions path (file c) s s' e = ap (λ x. x.base_revisions) (sym (ok_inj e))
read_new-revisions path _ s s' e = absurd (ground arith)

load_file-revisions :
    (path : Text) (n : Node) (s s' : EditState)
    → load_file path n s ≡ ok s'
    → s'.base_revisions ≡ s.base_revisions
unfolding load_file
load_file-revisions path n s s' e = elim (Option-cases (get s.originals path)) [
  | inr (c, seen) ↦ ap (λ x. x.base_revisions) (sym (ok_inj (rw (load_file, seen) at e)))
  | inl unseen ↦ read_new-revisions path n s s' (rw (load_file, unseen) at e)
]

edit_loaded-revisions :
    (e : Edit) (s s' : EditState) → edit_loaded e s ≡ ok s' → s'.base_revisions ≡ s.base_revisions
unfolding edit_loaded
edit_loaded-revisions e s s' h = elim (Option-cases (get s.modified e.path)) [
  | inl lost ↦ absurd (let h' = rw (edit_loaded, lost) at h in ground arith)
  | inr (current, there) ↦ elim (Option-cases (replace_in e current)) [
    | inl bad ↦ absurd (let h' = rw (edit_loaded, there, bad) at h in ground arith)
    | inr (changed, good) ↦
        ap (λ x. x.base_revisions) (sym (ok_inj (rw (edit_loaded, there, good) at h)))
  ]
]

module _ (platform : Platform) (tree : Tree) where
  edit_node-revisions :
      (e : Edit) (n : Node) (s s' : EditState)
      → edit_node platform tree e n s ≡ ok s'
      → (file_revision platform n ≡ some e.base_revision)
        × (s'.base_revisions ≡ set_item s.base_revisions e.path e.base_revision)
  unfolding edit_node
  edit_node-revisions e n s s' h = elim (Option-cases (file_revision platform n)) [
    | inl bad ↦ absurd (let h' = rw (edit_node, bad) at h in ground arith)
    | inr (current, known) ↦ elim (Bool-cases (text_eq current e.base_revision)) [
      | inr stale ↦ absurd (let h' = rw (edit_node, known, stale) at h in ground arith)
      | inl same ↦
          elim (Bool-cases (is_inconsistent (get s.base_revisions e.path) e.base_revision)) [
            | inl clash ↦ absurd (let h' = rw (edit_node, known, same, clash) at h in ground arith)
            | inr fine ↦
                let (s1, e1, e2) =
                  >>=-eq-ok
                    (load_file e.path n (record s {
                      base_revisions = set_item s.base_revisions e.path e.base_revision;
                    }))
                    _ (rw (edit_node, known, same, fine) at h) in
                (
                  known ∙ ap some (text_eq→eq current e.base_revision same),
                  edit_loaded-revisions e s1 s' e2 ∙ load_file-revisions e.path n _ s1 e1,
                )
          ]
    ]
  ]

  edit_one-IsCurrent :
      (e : Edit) (s s' : EditState)
      → All (IsCurrent platform tree) s.base_revisions
      → edit_one platform tree e s ≡ ok s'
      → All (IsCurrent platform tree) s'.base_revisions
  unfolding edit_one
  edit_one-IsCurrent e s s' h r = elim (Option-cases (safe_resolve platform e.path)) [
    | inl outside ↦ absurd (let r' = rw (edit_one, outside) at r in ground arith)
    | inr (key, inside) ↦ elim (Bool-cases (is_file (tree key))) [
      | inr missing ↦ absurd (let r' = rw (edit_one, inside, missing) at r in ground arith)
      | inl there ↦ elim (Bool-cases (has_py_suffix (name key))) [
        | inr other ↦ absurd (let r' = rw (edit_one, inside, there, other) at r in ground arith)
        | inl python ↦
            let (known, set) =
              edit_node-revisions e (tree key) s s' (rw (edit_one, inside, there, python) at r) in
            subst (All (IsCurrent platform tree)) (sym set) (
              All-set_item (IsCurrent platform tree) s.base_revisions e.path e.base_revision h
                (record {
                  key = key;
                  inside = inside;
                  regular = there;
                  python = python;
                  current = known;
                }))
      ]
    ]
  ]

  edit_all-IsCurrent :
      (es : List Edit) (s s' : EditState)
      → All (IsCurrent platform tree) s.base_revisions
      → edit_all platform tree es s ≡ ok s'
      → All (IsCurrent platform tree) s'.base_revisions
  unfolding edit_all
  edit_all-IsCurrent [] s s' h r =
      subst (λ x. All (IsCurrent platform tree) x.base_revisions) (ok_inj r) h
  edit_all-IsCurrent (e ∷ es) s s' h r =
      let (s1, r1, r2) = >>=-eq-ok (edit_one platform tree e s) _ r in
      edit_all-IsCurrent es s1 s' (edit_one-IsCurrent e s s1 h r1) r2

module _ (library : Library) (platform : Platform) (differ : Differ) (tree : Tree) where
  proposal_of-ok :
      (d : Members) (s : EditState) (p : PatchProposal)
      → proposal_of library platform differ tree d s ≡ ok p
      → (p.base_revisions ≡ s.base_revisions) × (p.unified_diff ≢ [])
  unfolding proposal_of
  proposal_of-ok d s p e =
      elim (Bool-cases (text_eq (concat (diff_parts differ s.originals s.modified)) [])) [
        | inl nothing ↦ absurd (let e' = rw (nothing) at e in ground arith)
        | inr changes ↦
            let made = ok_inj (rw (changes) at e) in
            (
              ap (λ x. x.base_revisions) (sym made),
              subst (λ x. x.unified_diff ≢ []) made (not_empty _ changes),
            )
      ]

  -- A proposal made from exact replacements has a diff that is not empty; each file that its base
  -- revisions name is a Python file inside the workspace, and the revision is that of the file as it
  -- is.
  pub build_structured_proposal-IsCurrent :
      (j : Json) (p : PatchProposal)
      → build_structured_proposal library platform differ tree j ≡ ok p
      → All (IsCurrent platform tree) p.base_revisions × (p.unified_diff ≢ [])
  unfolding build_structured_proposal
  build_structured_proposal-IsCurrent (object d) p e = elim (Option-cases (validate_args d)) [
    | inl bad ↦ absurd (let e' = rw (build_structured_proposal, bad) at e in ground arith)
    | inr (edits, good) ↦
        let (s, e1, e2) =
          >>=-eq-ok
            (edit_all platform tree edits
              (record { originals = []; modified = []; base_revisions = [] }))
            _ (rw (build_structured_proposal, good) at e) in
        let (same, some_diff) = proposal_of-ok d s p e2 in
        (
          subst (All (IsCurrent platform tree)) (sym same)
              (edit_all-IsCurrent platform tree edits _ s tt e1),
          some_diff,
        )
  ]
  build_structured_proposal-IsCurrent _ p e = absurd (ground arith)
