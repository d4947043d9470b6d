-- ===== src/Patching/Applier.antt =====
-- code_agent/patching/applier.py, with file_revision of code_agent/patching/hashes.py. The order
-- of the writes, the backups and the rollback are those of the code; the texts of the messages
-- are left out.
pub mod Rollback
pub mod Safety
pub mod Restores
pub mod Effect
pub mod Allowed
use safepatch.Base.{
  ℕ, Bool, true, false, not, Option, none, some, List, [], ◌∷◌, ◌++◌, map, if◌then◌else◌, Result,
  ok, err,
}
use safepatch.Text.{Text, codes, text_eq}
use safepatch.Workspace.Tree.{Node, Tree, absent, file, opaque, exists, is_file, put}
use safepatch.Workspace.Platform.{Platform}
use safepatch.Workspace.Disk.{
  OsFault, permission, other_os, written, refused, torn, Disk, after_write,
}
use safepatch.Workspace.Directories.{parents, parent, make_parents, clean_parent}
use safepatch.Patching.Hunks.{ErrorKind, HunkMatchError, Relocation, apply_hunks_to_text}
use safepatch.Patching.Diff.{split_file_diffs, is_new_file, content_from_new_file_diff}
use safepatch.Patching.Policy.Proposal.{PatchProposal, get}
use safepatch.Patching.Policy.Integrity.{Scanner}
use safepatch.Patching.Policy.Validate.{ValidationResult, is_ok, validate_proposal}

-- The exceptions that the loops may raise; `other` is RuntimeError or ValueError.
pub data Raised : Type 0 where
  hunk_mismatch : HunkMatchError → Raised
  os_fault : OsFault → Raised
  other : Raised

pub data ApplyErrorKind : Type 0 where
  of_hunk : ErrorKind → ApplyErrorKind
  stale_file_revision permission_error io_error base_changed internal_error : ApplyErrorKind

pub record FileRelocation : Type 0 where
  pub file : Text
  pub relocation : Relocation

pub data ApplyResult : Type 0 where
  applied : List Text → List FileRelocation → ApplyResult
  failed : ApplyErrorKind → Option Text → Bool → Option ℕ → ApplyResult

-- The variables of apply_proposal's second loop, and the tree.
pub record Progress : Type 0 where
  pub tree : Tree
  pub backups : List (Text × Text)
  pub created : List Text
  pub relocations : List FileRelocation

-- backups[key] = content, in a dict that keeps the order of insertion
unfoldable pub set_item : List (Text × Text) → Text → Text → List (Text × Text)
set_item [] k v = (k, v) ∷ []
set_item ((j, w) ∷ d) k v = if text_eq j k then (j, v) ∷ d else (j, w) ∷ set_item d k v

-- RECOVERABLE_APPLY_ERROR_KINDS
unfoldable pub is_recoverable_apply_error : ApplyErrorKind → Bool
is_recoverable_apply_error (of_hunk k) = true
is_recoverable_apply_error stale_file_revision = true
is_recoverable_apply_error _ = false

-- _classify_exception
unfoldable pub classify_exception : Raised → Option Text → ApplyErrorKind × Option Text × Option ℕ
classify_exception (hunk_mismatch e) current = (of_hunk e.error_kind, some e.target_file, e.line_no)
classify_exception (os_fault permission) current = (permission_error, current, none)
classify_exception (os_fault other_os) current = (io_error, current, none)
classify_exception other current = (internal_error, current, none)

-- file_revision; reading a directory raises
unfoldable pub file_revision : Platform → Node → Option Text
file_revision platform (file c) = some (codes "sha256:" ++ platform.sha256 c)
file_revision platform (opaque bytes) = some (codes "sha256:" ++ platform.sha256 bytes)
file_revision platform _ = none

-- _read_text_raw
unfoldable pub read_text_raw : Node → Result Raised Text
read_text_raw (file c) = ok c
read_text_raw (opaque bytes) = err other
read_text_raw _ = err (os_fault other_os)

-- Where a round of the loop ends: in its normal way, or by an exception that leaves this state.
pub data Round : Type 0 where
  done : Progress → Round
  stopped : Raised → Progress → Round

module _ (platform : Platform) (disk : Disk) where
  -- _rollback: the backups are written back, then the created files are removed; `false` where
  -- one of these operations raises, which _safe_rollback reports.
  unfoldable pub restore_all : Tree → List (Text × Text) → Bool × Tree
  unfolding after_write
  restore_all t [] = (true, t)
  restore_all t ((key, content) ∷ rest) = elim (disk.restore key content) [
    | written ↦ restore_all (after_write written t key content) rest
    | refused f ↦ (false, t)
    | torn f partial ↦ (false, after_write (torn f partial) t key content)
  ]

  unfoldable pub remove_all : Tree → List Text → Bool × Tree
  unfolding put
  remove_all t [] = (true, t)
  remove_all t (key ∷ rest) = elim (exists (t key)) [
    | false ↦ remove_all t rest
    | true ↦ elim (disk.unlink key) [
      | false ↦ (false, t)
      | true ↦
          let cleaned = clean_parent platform disk (put t key absent) (parent key) in
          elim cleaned.0 [ true ↦ remove_all cleaned.1 rest | false ↦ (false, cleaned.1) ]
    ]
  ]

  unfoldable pub safe_rollback : Progress → Bool × Tree
  unfolding restore_all remove_all
  safe_rollback p =
      let (restored, t) = restore_all p.tree p.backups in
      if restored then remove_all t p.created else (false, t)

  unfoldable pub write_new : Text → Text → Progress → Round
  unfolding after_write
  write_new key content p = elim (disk.write key content) [
    | written ↦ done (record p {
      tree = after_write written p.tree key content;
      created = p.created ++ key ∷ [];
    })
    | refused f ↦ stopped (os_fault f) p
    | torn f partial ↦
        stopped (os_fault f) (record p { tree = after_write (torn f partial) p.tree key content })
  ]

  -- The write behind `target.parent.mkdir(parents=True, exist_ok=True)`.
  unfoldable pub after_mkdir : Text → Text → Progress → Option OsFault × Tree → Round
  unfolding write_new
  after_mkdir key content p (some f, t) = stopped (os_fault f) (record p { tree = t })
  after_mkdir key content p (none, t) = write_new key content (record p { tree = t })

  -- A new file.
  unfoldable pub create_file : Text → Text → Progress → Round
  unfolding after_mkdir
  create_file key body p =
      if exists (p.tree key) then stopped other p else elim (content_from_new_file_diff body) [
        | none ↦ stopped other p
        | some content ↦ after_mkdir key content p (make_parents platform disk p.tree (parents key))
      ]

  unfoldable pub write_patched : Text → Text → List Relocation → Text → Progress → Round
  unfolding after_write
  write_patched path patched moved key p =
      let p' = record p {
        relocations = p.relocations ++ map (λ m. record { file = path; relocation = m }) moved;
      } in
      elim (disk.write key patched) [
        | written ↦ done (record p' { tree = after_write written p.tree key patched })
        | refused f ↦ stopped (os_fault f) p'
        | torn f partial ↦
            stopped (os_fault f)
              (record p' { tree = after_write (torn f partial) p.tree key patched })
      ]

  unfoldable pub patch_text : Text → Text → Text → Text → Progress → Round
  unfolding write_patched
  patch_text path body key original p = elim (apply_hunks_to_text original body path) [
    | err e ↦ stopped (hunk_mismatch e) p
    | ok r ↦ write_patched path r.0 r.1 key p
  ]

  -- An existing file: the backup is taken before the hunks are applied.
  unfoldable pub patch_file : Text → Text → Text → Progress → Round
  unfolding patch_text read_text_raw set_item
  patch_file path body key p =
      if not (exists (p.tree key)) then stopped other p else elim (read_text_raw (p.tree key)) [
        | err e ↦ stopped e p
        | ok original ↦
            patch_text path body key original
              (record p { backups = set_item p.backups key original })
      ]

  -- A round of the second loop.
  unfoldable pub apply_file : Text × Text → Progress → Round
  unfolding create_file patch_file
  apply_file (path, body) p = elim (platform.resolve path) [
    | none ↦ stopped other p
    | some key ↦ if is_new_file body then create_file key body p else patch_file path body key p
  ]

  -- The second loop; where it stops, the path is `current_file`.
  unfoldable pub apply_files : List (Text × Text) → Progress → Round × Option Text
  unfolding apply_file
  apply_files [] p = (done p, none)
  apply_files (f ∷ fs) p = elim (apply_file f p) [
    | done q ↦ apply_files fs q
    | stopped e q ↦ (stopped e q, some f.0)
  ]

  -- The first loop: the first existing file whose revision is not the one the proposal names.
  unfoldable pub is_stale : Tree → List (Text × Text) → Text × Text → Bool
  unfolding file_revision
  is_stale t revisions (path, body) =
      if is_new_file body then false else elim (get revisions path) [
        | none ↦ false
        | some expected ↦ elim (platform.resolve path) [
          | none ↦ false
          | some key ↦
              if not (is_file (t key)) then false else elim (file_revision platform (t key)) [
                | none ↦ false
                | some current ↦ not (text_eq current expected)
              ]
        ]
      ]

  unfoldable pub find_stale : Tree → List (Text × Text) → List (Text × Text) → Option Text
  unfolding is_stale
  find_stale t revisions [] = none
  find_stale t revisions (f ∷ fs) =
      let later = find_stale t revisions fs in if is_stale t revisions f then some f.0 else later

  unfoldable pub finish : List Text → Round × Option Text → ApplyResult × Tree
  unfolding safe_rollback classify_exception
  finish files (done p, current) = (applied files p.relocations, p.tree)
  finish files (stopped e p, current) =
      let (rolled_back, t) = safe_rollback p in
      let (kind, target, line) = classify_exception e current in
      (failed kind target rolled_back line, t)

  unfoldable pub apply_valid : PatchProposal → ValidationResult → Tree → ApplyResult × Tree
  unfolding finish apply_files find_stale
  apply_valid proposal validation t =
      let file_diffs = split_file_diffs proposal.unified_diff in
      elim (find_stale t proposal.base_revisions file_diffs) [
        | some path ↦ (failed stale_file_revision (some path) true none, t)
        | none ↦ finish validation.files (
            apply_files file_diffs
              (record { tree = t; backups = []; created = []; relocations = [] }))
      ]

  -- `none` where the validation raises, before anything is written
  unfoldable pub apply_proposal :
      Scanner → Bool → Bool → PatchProposal → Tree → Option (ApplyResult × Tree)
  unfolding apply_valid
  apply_proposal scan allow_test_changes allow_new_tests proposal t =
      elim (validate_proposal platform t scan allow_test_changes allow_new_tests proposal) [
        | none ↦ none
        | some r ↦ some (
            if is_ok r then apply_valid proposal r t else (failed internal_error none true none, t))
      ]
