-- ===== src/Patching/Preflight/Applies.antt =====
-- A patch that passes the preflight is applied.
use safepatch.Base.{
  Bool, true, false, not, all, Option, none, some, List, [], ◌∷◌, ◌++◌, ◌≡◌, refl, sym, ap, subst,
  ◌∙◌, inl, inr, map, arith, if◌then◌else◌, Bool-cases, Option-cases, some_inj, Result-cases, ok,
  >>=-eq-ok, ok_inj, append-nil, append_assoc,
}
use mathlib.Core.Path.{ap₂}
use safepatch.Text.{Text, text_eq, elem, has_duplicate}
use safepatch.Workspace.Tree.{Node, Tree, file, exists, is_file, put, put_ne, as_file}
use safepatch.Workspace.Directories.{
  parents, make_parents, make_parents-others, make_parents_succeeds, as_file-make_parents,
}
use safepatch.Workspace.Platform.{Platform}
use safepatch.Workspace.Disk.{OsFault, written, Disk}
use safepatch.Patching.Hunks.{apply_hunks_to_text}
use safepatch.Patching.Diff.{split_file_diffs, is_new_file, content_from_new_file_diff}
use safepatch.Patching.Policy.Proposal.{PatchProposal, get}
use safepatch.Patching.Policy.Integrity.{Scanner}
use safepatch.Patching.Policy.Validate.{ValidationResult, is_ok, validate_proposal}
use safepatch.Patching.Applier.{
  Progress, Round, done, FileRelocation, applied, set_item, file_revision, read_text_raw, write_new,
  after_mkdir, create_file, write_patched, patch_text, patch_file, apply_file, apply_files,
  is_stale, find_stale, finish, apply_valid, apply_proposal,
}
use safepatch.Patching.Applier.Restores.{
  resolved, distinct_cons, resolved_head, resolved_tail, apart,
}
use safepatch.Patching.Preflight.Clear.{
  is_clear, all-elem, clear_above, not_above, same_files, elem_apart, all_later,
}
use safepatch.Patching.Preflight.{
  PreflightSuccess, check_new, check_hunks, check_existing, check_file, check_files, run_files, run,
}

if_same : (b : Bool) → (if b then false else false) ≡ false
if_same true = refl
if_same false = refl

module _ (platform : Platform) (disk : Disk) (makes : (d : Text) → disk.make_directory d ≡ none)
    (writes : (key content : Text) → disk.write key content ≡ written) where
  -- A round that ends normally has recorded the relocations and changed no other path.
  record Advances (key : Text) (p : Progress) (moved : List FileRelocation) (r : Round)
      : Type 0 where
    next : Progress
    ends : r ≡ done next
    recorded : next.relocations ≡ p.relocations ++ moved
    others :
        (j : Text) → text_eq j key ≡ false → elem j (parents key) ≡ false → next.tree j ≡ p.tree j
    files : (j : Text) → text_eq j key ≡ false → as_file (next.tree j) ≡ as_file (p.tree j)

  after_mkdir-done :
      (key content : Text) (p : Progress) (made : Option OsFault × Tree)
      → made.0 ≡ none
      → after_mkdir platform disk key content p made
        ≡ done (record p { tree = put made.1 key (file content); created = p.created ++ key ∷ [] })
  unfolding after_mkdir write_new
  after_mkdir-done key content p (some f, t) h = absurd (ground arith)
  after_mkdir-done key content p (none, t) h = rw (write_new, writes key content)

  create_file-Advances :
      (path body key : Text) (n : Node) (p : Progress) (moved : List FileRelocation)
      → check_new path body n ≡ ok moved
      → p.tree key ≡ n
      → ((d : Text) → elem d (parents key) ≡ true → is_file (p.tree d) ≡ false)
      → Advances key p moved (create_file platform disk key body p)
  unfolding create_file check_new
  create_file-Advances path body key n p moved e at free = elim (Bool-cases (exists n)) [
    | inl there ↦ absurd (ground arith)
    | inr gone ↦ elim (Option-cases (content_from_new_file_diff body)) [
      | inl bad ↦ absurd (ground arith)
      | inr (content, good) ↦
          let t = (make_parents platform disk p.tree (parents key)).1 in
          record {
            next = record p { tree = put t key (file content); created = p.created ++ key ∷ [] };
            ends =
                rw (at, gone, good)
                  (after_mkdir-done key content p (make_parents platform disk p.tree (parents key))
                    (make_parents_succeeds platform disk p.tree (parents key) makes free));
            recorded =
                sym (append-nil p.relocations)
                ∙ ap (λ l. p.relocations ++ l) (ok_inj (rw (check_new, gone, good) at e));
            others = λ j other outside.
                put_ne t key j (file content) other
                ∙ make_parents-others platform disk p.tree (parents key) j outside;
            files = λ j other.
                ap as_file (put_ne t key j (file content) other)
                ∙ as_file-make_parents platform disk p.tree (parents key) j;
          }
    ]
  ]

  patch_text-Advances :
      (path body key original : Text) (p : Progress) (moved : List FileRelocation)
      → check_hunks path body (file original) ≡ ok moved
      → Advances key p moved (patch_text platform disk path body key original p)
  unfolding patch_text check_hunks write_patched
  patch_text-Advances path body key original p moved e =
      elim (Result-cases (apply_hunks_to_text original body path)) [
        | inr (x, bad) ↦ absurd (let e' = rw (bad, check_hunks) at e in ground arith)
        | inl (r, good) ↦ record {
          next = record p {
            tree = put p.tree key (file r.0);
            relocations = p.relocations ++ map (λ m. record { file = path; relocation = m }) r.1;
          };
          ends = rw (patch_text, good, write_patched, writes key r.0);
          recorded = ap (λ l. p.relocations ++ l) (ok_inj (rw (good, check_hunks) at e));
          others = λ j other _. put_ne p.tree key j (file r.0) other;
          files = λ j other. ap as_file (put_ne p.tree key j (file r.0) other);
        }
      ]

  -- What the existing-file branch of the preflight has established.
  check_existing-ok :
      (t : Tree) (revisions : List (Text × Text)) (path body : Text) (n : Node)
      (moved : List FileRelocation)
      → check_existing platform t revisions path body n ≡ ok moved
      → (exists n ≡ true)
        × (check_hunks path body n ≡ ok moved)
        × ((expected current : Text)
            → get revisions path ≡ some expected
            → file_revision platform n ≡ some current
            → text_eq current expected ≡ true)
  unfolding check_existing
  check_existing-ok t revisions path body n moved e = elim (Bool-cases (exists n)) [
    | inr gone ↦ absurd (let e' = rw (check_existing, gone) at e in ground arith)
    | inl there ↦ elim (Option-cases (get revisions path)) [
      | inl unbound ↦
          (there, rw (check_existing, there, unbound) at e, λ x c g f. absurd (ground arith))
      | inr (expected, bound) ↦ elim (Option-cases (file_revision platform n)) [
        | inl bad ↦ absurd (let e' = rw (check_existing, there, bound, bad) at e in ground arith)
        | inr (current, good) ↦ elim (Bool-cases (text_eq current expected)) [
          | inr stale ↦
              absurd (let e' = rw (check_existing, there, bound, good, stale) at e in ground arith)
          | inl same ↦ (
            there,
            rw (check_existing, there, bound, good, same) at e,
            λ x c g f.
                let gx : expected ≡ x = some_inj (sym bound ∙ g) in
                let fc : current ≡ c = some_inj (sym good ∙ f) in ground (arith, ap₂ text_eq fc gx),
          )
        ]
      ]
    ]
  ]

  check_hunks-file :
      (path body : Text) (n : Node) (moved : List FileRelocation)
      → check_hunks path body n ≡ ok moved
      → (original : Text) × (n ≡ file original)
  unfolding check_hunks
  check_hunks-file path body (file original) moved e = (original, refl)
  check_hunks-file path body _ moved e = absurd (ground arith)

  patch_file-Advances :
      (t : Tree) (revisions : List (Text × Text)) (path body key : Text) (p : Progress)
      (moved : List FileRelocation)
      → check_existing platform t revisions path body (t key) ≡ ok moved
      → p.tree key ≡ t key
      → Advances key p moved (patch_file platform disk path body key p)
  unfolding patch_file
  patch_file-Advances t revisions path body key p moved e at =
      let (there, hunks, _) = check_existing-ok t revisions path body (t key) moved e in
      let (original, node) = check_hunks-file path body (t key) moved hunks in
      let here : p.tree key ≡ file original = at ∙ node in
      let a =
        patch_text-Advances path body key original
          (record p { backups = set_item p.backups key original }) moved
          (subst (λ n. check_hunks path body n ≡ ok moved) node hunks) in
      record {
        next = a.next;
        ends = rw (patch_file, here) (unfold exists read_text_raw in a.ends);
        recorded = a.recorded;
        others = a.others;
        files = a.files;
      }

  apply_file-Advances :
      (t : Tree) (revisions : List (Text × Text)) (path body key : Text) (p : Progress)
      (moved : List FileRelocation)
      → platform.resolve path ≡ some key
      → check_file platform t revisions (path, body) ≡ ok moved
      → p.tree key ≡ t key
      → ((d : Text) → elem d (parents key) ≡ true → is_file (p.tree d) ≡ false)
      → Advances key p moved (apply_file platform disk (path, body) p)
  unfolding apply_file check_file
  apply_file-Advances t revisions path body key p moved found e at free =
      elim (Bool-cases (is_new_file body)) [
        | inl new ↦
            rw (apply_file, found, new)
              (create_file-Advances path body key (t key) p moved (rw (check_file, found, new) at e)
                at free)
        | inr old ↦
            rw (apply_file, found, old)
              (patch_file-Advances t revisions path body key p moved
                (rw (check_file, found, old) at e) at)
      ]

  check_file-resolves :
      (t : Tree) (revisions : List (Text × Text)) (path body : Text) (moved : List FileRelocation)
      → check_file platform t revisions (path, body) ≡ ok moved
      → (key : Text) × (platform.resolve path ≡ some key)
  unfolding check_file
  check_file-resolves t revisions path body moved e = elim (Option-cases (platform.resolve path)) [
    | inl outside ↦ absurd (let e' = rw (check_file, outside) at e in ground arith)
    | inr found ↦ found
  ]

  -- `keys` are the paths of the whole diff.
  apply_files-Advances :
      (keys : List Text) (t : Tree) (revisions : List (Text × Text)) (fs : List (Text × Text))
      (p : Progress) (moved : List FileRelocation)
      → has_duplicate (resolved platform fs) ≡ false
      → check_files platform t revisions fs ≡ ok moved
      → all (is_clear t keys) (resolved platform fs) ≡ true
      → ((j : Text) → elem j (resolved platform fs) ≡ true → elem j keys ≡ true)
      → ((j : Text) → elem j (resolved platform fs) ≡ true → p.tree j ≡ t j)
      → ((d : Text) → elem d keys ≡ false → is_file (p.tree d) ≡ is_file (t d))
      → (q : Progress) × (apply_files platform disk fs p ≡ (done q, none))
        × (q.relocations ≡ p.relocations ++ moved)
  unfolding apply_files check_files
  apply_files-Advances keys t revisions [] p moved once e clear part same seen =
      (p, refl, sym (append-nil p.relocations) ∙ ap (λ l. p.relocations ++ l) (ok_inj e))
  apply_files-Advances keys t revisions ((path, body) ∷ fs) p moved once e clear part same seen =
      let (first, e1, e2) = >>=-eq-ok (check_file platform t revisions (path, body)) _ e in
      let (later, e3, e4) = >>=-eq-ok (check_files platform t revisions fs) _ e2 in
      let (key, found) = check_file-resolves t revisions path body first e1 in
      let (alone, once') = distinct_cons platform path body fs key found once in
      let head = resolved_head platform path body fs key found in
      let tail = λ (j : Text). resolved_tail platform path body fs key j found in
      let here =
        all-elem (is_clear t keys) (resolved platform ((path, body) ∷ fs)) key clear head in
      let a =
        apply_file-Advances t revisions path body key p first found e1 (same key head)
          (λ d m. let (free, outside) = clear_above t keys key d here m in seen d outside ∙ free) in
      let (q, run, rec) =
        apply_files-Advances keys t revisions fs a.next later once' e3
          (all_later (is_clear t keys) platform path body fs key found clear)
          (λ j m. part j (tail j m))
          (λ j m.
            a.others j (apart j key (resolved platform fs) alone m)
              (not_above t keys key j here (part j (tail j m)))
            ∙ same j (tail j m))
          (λ d outside.
            same_files (a.next.tree d) (p.tree d)
              (a.files d (elem_apart d key keys outside (part key head)))
            ∙ seen d outside) in
      (
        q,
        rw (apply_files, a.ends) run,
        rec
            ∙ ap (λ l. l ++ later) a.recorded
            ∙ append_assoc p.relocations first later
            ∙ ap (λ l. p.relocations ++ l) (ok_inj e4),
      )

  not_stale :
      (t : Tree) (revisions : List (Text × Text)) (path body : Text) (moved : List FileRelocation)
      → check_file platform t revisions (path, body) ≡ ok moved
      → is_stale platform disk t revisions (path, body) ≡ false
  unfolding is_stale check_file
  not_stale t revisions path body moved e = elim (Bool-cases (is_new_file body)) [
    | inl new ↦ rw (is_stale, new)
    | inr old ↦ elim (Option-cases (get revisions path)) [
      | inl unbound ↦ rw (is_stale, old, unbound)
      | inr (expected, bound) ↦
          let (key, found) = check_file-resolves t revisions path body moved e in
          elim (Option-cases (file_revision platform (t key))) [
            | inl bad ↦ rw (is_stale, old, bound, found, bad) (if_same (not (is_file (t key))))
            | inr (current, good) ↦
                let (_, _, fits) =
                  check_existing-ok t revisions path body (t key) moved
                    (rw (check_file, found, old) at e) in
                let same : text_eq current expected ≡ true = fits expected current bound good in
                rw (is_stale, old, bound, found, good, same) (if_same (not (is_file (t key))))
          ]
    ]
  ]

  none_stale :
      (t : Tree) (revisions : List (Text × Text)) (fs : List (Text × Text))
      (moved : List FileRelocation)
      → check_files platform t revisions fs ≡ ok moved
      → find_stale platform disk t revisions fs ≡ none
  unfolding find_stale check_files
  none_stale t revisions [] moved e = refl
  none_stale t revisions ((path, body) ∷ fs) moved e =
      let (first, e1, e2) = >>=-eq-ok (check_file platform t revisions (path, body)) _ e in
      let (later, e3, e4) = >>=-eq-ok (check_files platform t revisions fs) _ e2 in
      rw (not_stale t revisions path body first e1) (none_stale t revisions fs later e3)

  run-ok :
      (t : Tree) (proposal : PatchProposal) (fs : List (Text × Text)) (s : PreflightSuccess)
      → run_files platform t proposal fs ≡ ok s
      → check_files platform t proposal.base_revisions fs ≡ ok s.relocations
  unfolding run_files
  run-ok t proposal [] s e = absurd (ground arith)
  run-ok t proposal (f ∷ fs) s e =
      let (moved, e1, e2) =
        >>=-eq-ok (check_files platform t proposal.base_revisions (f ∷ fs)) _ e in
      e1 ∙ ap ok (ap (λ x. x.relocations) (ok_inj e2))

  -- A valid proposal that passes the preflight is applied to the same working copy, if the disk
  -- makes directories and takes writes, the files of its diff resolve to different paths, and no
  -- directory above one of these paths is a file of the working copy or another of these paths: the
  -- result has the files of the validation, and the relocations are those that the preflight
  -- announced.
  pub preflight_applies :
      (scan : Scanner) (allow_test_changes allow_new_tests : Bool) (t : Tree)
      (proposal : PatchProposal) (r : ValidationResult) (s : PreflightSuccess)
      → has_duplicate (resolved platform (split_file_diffs proposal.unified_diff)) ≡ false
      → all
          (is_clear t (resolved platform (split_file_diffs proposal.unified_diff)))
          (resolved platform (split_file_diffs proposal.unified_diff))
        ≡ true
      → validate_proposal platform t scan allow_test_changes allow_new_tests proposal ≡ some r
      → is_ok r ≡ true
      → run platform t proposal ≡ ok s
      → (t' : Tree) × (apply_proposal platform disk scan allow_test_changes allow_new_tests proposal
            t
          ≡ some (applied r.files s.relocations, t'))
  unfolding apply_proposal apply_valid run
  preflight_applies scan allow_test_changes allow_new_tests t proposal r s once clear valid fine e =
      let fs = split_file_diffs proposal.unified_diff in
      let start : Progress = record { tree = t; backups = []; created = []; relocations = [] } in
      let checked = run-ok t proposal fs s e in
      let (q, done_all, recorded) =
        apply_files-Advances (resolved platform fs) t proposal.base_revisions fs start s.relocations
          once checked clear (λ j m. m) (λ j _. refl) (λ d _. refl) in
      (
        q.tree,
        rw
            (
              apply_proposal,
              valid,
              fine,
              apply_valid,
              none_stale t proposal.base_revisions fs s.relocations checked,
              done_all,
            )
            (unfold finish in ap (λ l. some (applied r.files l, q.tree)) recorded),
      )
