-- ===== src/Model/Edits.antt =====
-- code_agent/patching/structured_edit.py: exact replacements become a proposal with a unified diff.
pub mod Unique
pub mod Current
use safepatch.Base.{
  ℕ, suc, ◌+◌, Bool, true, false, not, ◌&&◌, ◌||◌, Option, none, some, List, [], ◌∷◌, ◌++◌, map,
  any, take, drop, length, ltb, ◌==◌, if◌then◌else◌, Result, ok, err, ◌>>=◌,
}
use safepatch.Text.{Text, codes, text_eq, starts_with, ends_with, contains, splitlines_keep, concat}
use safepatch.Workspace.Tree.{Node, Tree, file, opaque, is_file}
use safepatch.Workspace.Platform.{Platform}
use safepatch.Patching.Policy.Paths.{name}
use safepatch.Patching.Policy.Proposal.{PatchProposal, get}
use safepatch.Patching.Policy.Integrity.{universal_newlines}
use safepatch.Patching.Policy.Validate.{is_revision}
use safepatch.Patching.Applier.{set_item, file_revision}
use safepatch.Session.Reads.{normalized_path, safe_resolve}
use safepatch.Model.Json.{
  Json, text, array, object, Items, no_items, item, Members, Library, py_str, lookup, items_list,
  is_blank,
}
use safepatch.Model.Proposals.{has_missing, is_array, str_field}

-- difflib.unified_diff of two lists of lines, with the two file names
abbrev pub Differ : Type 0
Differ = List Text → List Text → Text → Text → List Text

pub record Edit : Type 0 where
  pub path : Text
  pub old_text : Text
  pub new_text : Text
  pub base_revision : Text

-- ModelOutputError, StructuredEditError, or an exception that neither is.
pub data EditError : Type 0 where
  bad_schema rejected uncaught : EditError

-- REQUIRED_METADATA
abbrev pub required_metadata : List Text
required_metadata =
    codes "diagnosis"
    ∷ codes "edits"
    ∷ codes "expected_behavior"
    ∷ codes "risk_notes"
    ∷ codes "tests_to_run"
    ∷ []

-- newline of _with_file_newlines
unfoldable pub file_newline : Text → Text
file_newline content =
    if contains content (codes "\r\n")
    then codes "\r\n"
    else if contains content (codes "\r")
    then codes "\r"
    else codes "\n"

-- s.replace("\n", newline)
unfoldable pub replace_lf : Text → Text → Text
replace_lf newline [] = []
replace_lf newline (c ∷ s) =
    let rest = replace_lf newline s in if c == 0x0a then newline ++ rest else c ∷ rest

-- _with_file_newlines
unfoldable pub with_file_newlines : Text → Text → Text
unfolding file_newline replace_lf
with_file_newlines s content = replace_lf (file_newline content) (universal_newlines s)

-- s.find(needle), `none` for -1
unfoldable pub find : Text → Text → Option ℕ
find [] needle = if starts_with [] needle then some 0 else none
find (c ∷ s) needle =
    let rest = find s needle in
    if starts_with (c ∷ s) needle then some 0 else elim rest [ none ↦ none | some i ↦ some (suc i) ]

-- _exact_occurrence_count, whose loop runs at most twice; the needle is not empty
unfoldable pub exact_occurrence_count : Text → Text → ℕ
unfolding find
exact_occurrence_count s needle = elim (find s needle) [
  | none ↦ 0
  | some i ↦ elim (find (drop (suc i) s) needle) [ none ↦ 1 | some j ↦ 2 ]
]

-- s.replace(old, new, 1)
unfoldable pub replace_first : Text → Text → Text → Text
unfolding find
replace_first s old new = elim (find s old) [
  | none ↦ s
  | some i ↦ take i s ++ (new ++ drop (i + length old) s)
]

-- A field of an edit: `none` where it is absent or no text.
unfoldable pub edit_field : Option Json → Option Text
edit_field (some (text s)) = some s
edit_field _ = none

-- The checks of _validate_args on the texts of an edit.
unfoldable pub checked_edit : Edit → Option Edit
checked_edit e =
    if text_eq e.path []
    then none
    else if text_eq e.old_text []
    then none
    else if text_eq e.old_text e.new_text
    then none
    else if not (is_revision e.base_revision)
    then none
    else some e

unfoldable pub edit_of : Json → Option Edit
unfolding edit_field checked_edit lookup normalized_path
edit_of (object d) = elim (edit_field (lookup (codes "path") d)) [
  | none ↦ none
  | some path ↦ elim (edit_field (lookup (codes "old_text") d)) [
    | none ↦ none
    | some old_text ↦ elim (edit_field (lookup (codes "new_text") d)) [
      | none ↦ none
      | some new_text ↦ elim (edit_field (lookup (codes "base_revision") d)) [
        | none ↦ none
        | some base_revision ↦ checked_edit (record {
          path = normalized_path path;
          old_text = old_text;
          new_text = new_text;
          base_revision = base_revision;
        })
      ]
    ]
  ]
]
edit_of _ = none

unfoldable pub edits_of : List Json → Option (List Edit)
unfolding edit_of
edits_of [] = some []
edits_of (j ∷ js) = elim (edit_of j) [
  | none ↦ none
  | some e ↦ elim (edits_of js) [ none ↦ none | some es ↦ some (e ∷ es) ]
]

unfoldable pub edits_field : Option Json → Option (List Edit)
unfolding edits_of items_list
edits_field (some (array (item j js))) = edits_of (j ∷ items_list js)
edits_field _ = none

-- _validate_args; `none` where it raises
unfoldable pub validate_args : Members → Option (List Edit)
unfolding has_missing edits_field is_array lookup
validate_args d =
    if has_missing required_metadata d
    then none
    else if not (is_array (lookup (codes "tests_to_run") d))
    then none
    else edits_field (lookup (codes "edits") d)

-- The variables of the loop of build_structured_proposal.
pub record EditState : Type 0 where
  pub originals : List (Text × Text)
  pub modified : List (Text × Text)
  pub base_revisions : List (Text × Text)

-- target.suffix == ".py", for the name of a file
unfoldable pub has_py_suffix : Text → Bool
has_py_suffix base = ends_with base (codes ".py") && not (text_eq base (codes ".py"))

-- The replacement in the current text of the file.
unfoldable pub replace_in : Edit → Text → Option Text
unfolding with_file_newlines exact_occurrence_count replace_first
replace_in e current =
    let old_text = with_file_newlines e.old_text current in
    if exact_occurrence_count current old_text == 1
    then some (replace_first current old_text (with_file_newlines e.new_text current))
    else none

-- originals[path] and modified[path] are set when the file is met first.
unfoldable pub read_new : Text → Node → EditState → Result EditError EditState
unfolding set_item
read_new path (file content) s = ok (record s {
  originals = set_item s.originals path content;
  modified = set_item s.modified path content;
})
read_new path _ s = err uncaught

unfoldable pub load_file : Text → Node → EditState → Result EditError EditState
unfolding get read_new
load_file path n s = elim (get s.originals path) [ some content ↦ ok s | none ↦ read_new path n s ]

unfoldable pub edit_loaded : Edit → EditState → Result EditError EditState
unfolding get set_item replace_in
edit_loaded e s = elim (get s.modified e.path) [
  | none ↦ err uncaught
  | some current ↦ elim (replace_in e current) [
    | none ↦ err rejected
    | some changed ↦ ok (record s { modified = set_item s.modified e.path changed })
  ]
]

-- base_revisions.get(path) is another revision.
unfoldable pub is_inconsistent : Option Text → Text → Bool
is_inconsistent none expected = false
is_inconsistent (some previous) expected = not (text_eq previous expected)

module _ (platform : Platform) (tree : Tree) where
  unfoldable pub edit_node : Edit → Node → EditState → Result EditError EditState
  unfolding is_inconsistent get set_item load_file edit_loaded
  edit_node e n s = elim (file_revision platform n) [
    | none ↦ err uncaught
    | some current ↦
        if not (text_eq current e.base_revision)
        then err rejected
        else if is_inconsistent (get s.base_revisions e.path) e.base_revision
        then err rejected
        else (load_file e.path n
              (record s { base_revisions = set_item s.base_revisions e.path e.base_revision })
            >>= λ s'. edit_loaded e s')
  ]

  -- A round of the loop.
  unfoldable pub edit_one : Edit → EditState → Result EditError EditState
  unfolding edit_node has_py_suffix is_file
  edit_one e s = elim (safe_resolve platform e.path) [
    | none ↦ err rejected
    | some key ↦
        if not (is_file (tree key))
        then err rejected
        else if not (has_py_suffix (name key))
        then err rejected
        else edit_node e (tree key) s
  ]

  unfoldable pub edit_all : List Edit → EditState → Result EditError EditState
  unfolding edit_one
  edit_all [] s = ok s
  edit_all (e ∷ es) s = edit_one e s >>= λ s'. edit_all es s'

-- The diff of a file, and those of all files.
unfoldable pub diff_of : Differ → Text → Text → Text → List Text
diff_of differ path original modified =
    differ (splitlines_keep original) (splitlines_keep modified) (codes "a/" ++ path)
      (codes "b/" ++ path)

unfoldable pub diff_parts : Differ → List (Text × Text) → List (Text × Text) → List Text
unfolding diff_of get
diff_parts differ [] modified = []
diff_parts differ ((path, original) ∷ fs) modified =
    let rest = diff_parts differ fs modified in
    elim (get modified path) [
      | none ↦ rest
      | some changed ↦ diff_of differ path original changed ++ rest
    ]

module _ (library : Library) (platform : Platform) (differ : Differ) (tree : Tree) where
  unfoldable pub tests_of : Option Json → List Text
  unfolding items_list py_str
  tests_of (some (array js)) = map (py_str library) (items_list js)
  tests_of _ = []

  unfoldable pub proposal_of : Members → EditState → Result EditError PatchProposal
  unfolding diff_parts str_field lookup tests_of concat
  proposal_of d s =
      let unified_diff = concat (diff_parts differ s.originals s.modified) in
      if text_eq unified_diff []
      then err rejected
      else ok (record {
        diagnosis = str_field library (lookup (codes "diagnosis") d);
        affected_files = map (λ x. x.0) s.originals;
        unified_diff = unified_diff;
        expected_behavior = str_field library (lookup (codes "expected_behavior") d);
        risk_notes = str_field library (lookup (codes "risk_notes") d);
        tests_to_run = tests_of (lookup (codes "tests_to_run") d);
        base_revisions = s.base_revisions;
      })

  unfoldable pub build_structured_proposal : Json → Result EditError PatchProposal
  unfolding validate_args edit_all proposal_of
  build_structured_proposal (object d) = elim (validate_args d) [
    | none ↦ err bad_schema
    | some edits ↦
        edit_all platform tree edits (record { originals = []; modified = []; base_revisions = [] })
        >>= λ s. proposal_of d s
  ]
  build_structured_proposal _ = err bad_schema
