-- ===== src/Session/Reads.antt =====
-- The budgets of the inspection tools: code_agent/tools/registry.py, request_evidence.py and
-- read_file.py, and the required reads of code_agent/controller.py. A line number below 1 is 0.
use safepatch.Base.{
  ℕ, suc, ◌+◌, ◌-◌, Bool, true, false, not, ◌&&◌, ◌||◌, Option, none, some, List, [], ◌∷◌, ◌++◌,
  any, filter, length, min, ltb, leb, ◌==◌, if◌then◌else◌, Result, ok, err,
}
use safepatch.Text.{
  Text, codes, text_eq, elem, starts_with, ends_with, strip, replace_char, remove_prefix,
  splitlines,
}
use safepatch.Workspace.Tree.{Node, Tree, file}
use safepatch.Workspace.Platform.{Platform}
use safepatch.Patching.Policy.Paths.{name, parts}
use safepatch.Patching.Policy.Validate.{is_empty}
use safepatch.Session.Status.{AnalysisPhase, explore, synthesize}
use safepatch.Session.State.{Range, TaskSession}

-- MAX_LINES_PER_READ
abbrev pub max_lines_per_read : ℕ
max_lines_per_read = 120

-- normalized_path, and _normalize_tool_path of the controller
unfoldable pub normalized_path : Text → Text
normalized_path path = remove_prefix (replace_char 0x5c b'/' path) (codes "./")

unfoldable pub is_explore : AnalysisPhase → Bool
is_explore explore = true
is_explore _ = false

unfoldable pub is_synthesize : AnalysisPhase → Bool
is_synthesize synthesize = true
is_synthesize _ = false

abbrev or_default : Option ℕ → ℕ → ℕ
or_default none n = n
or_default (some m) n = m

-- read_file on the node at the resolved path: the range that it shows, or `none` where it raises
unfoldable pub read_node : Text → ℕ → Option ℕ → Node → Option Range
unfolding is_empty
read_node key start end (file content) =
    let count = length (splitlines content) in
    let last = or_default end (min count (start + max_lines_per_read - 1)) in
    if not (ends_with (name key) (codes ".py")) || text_eq (name key) (codes ".py")
    then none
    else if ltb start 1
    then none
    else if ltb last start
    then none
    else if ltb max_lines_per_read (last - start + 1)
    then none
    else some (start, min last count)
read_node key start end _ = none

-- The second character is a colon.
has_drive : Text → Bool
has_drive (c ∷ d ∷ t) = d == b':'
has_drive _ = false

-- safe_resolve of code_agent/repository/workspace.py; `none` where it raises
unfoldable pub safe_resolve : Platform → Text → Option Text
unfolding is_empty has_drive parts
safe_resolve platform path =
    let raw = replace_char 0x5c b'/' (strip path) in
    if is_empty (strip path)
    then none
    else if starts_with raw (codes "/") || has_drive raw
    then none
    else if elem (codes "..") (parts raw)
    then none
    else platform.resolve raw

unfoldable pub read_file : Platform → Tree → Text → ℕ → Option ℕ → Option Range
unfolding read_node safe_resolve
read_file platform tree path start end = elim (safe_resolve platform path) [
  | none ↦ none
  | some key ↦ read_node key start end (tree key)
]

-- record_successful_read_range, once the numbers are read
unfoldable pub record_successful_read_range : Text → ℕ → Option ℕ → TaskSession → TaskSession
unfolding normalized_path is_empty
record_successful_read_range path start end s =
    let key = normalized_path path in
    let last = or_default end 0x7fffffff in
    if not (is_empty key) && (leb 1 start && leb start last)
    then record s { successful_read_ranges = s.successful_read_ranges ++ (key, (start, last)) ∷ [] }
    else s

-- session.required_reads.get(path)
unfoldable pub get_range : List (Text × Range) → Text → Option Range
get_range [] k = none
get_range ((j, r) ∷ d) k = if text_eq j k then some r else get_range d k

-- session.required_reads[path] = range
unfoldable pub set_range : List (Text × Range) → Text → Range → List (Text × Range)
set_range [] k r = (k, r) ∷ []
set_range ((j, q) ∷ d) k r = if text_eq j k then (j, r) ∷ d else (j, q) ∷ set_range d k r

-- del session.required_reads[path]
unfoldable pub del_range : List (Text × Range) → Text → List (Text × Range)
del_range d k = filter (λ x. not (text_eq x.0 k)) d

-- _record_required_read_if_satisfied
unfoldable pub record_required_read_if_satisfied : Text → ℕ → Option ℕ → TaskSession → TaskSession
unfolding normalized_path get_range del_range
record_required_read_if_satisfied path start end s =
    let key = normalized_path path in
    let last = or_default end (start + 119) in
    elim (get_range s.required_reads key) [
      | none ↦ s
      | some required ↦
          if leb start required.0 && leb required.1 last
          then record s { required_reads = del_range s.required_reads key }
          else s
    ]

-- The arguments of request_evidence; `bounds` is `none` where a number is missing or is no number.
pub record EvidenceRequest : Type 0 where
  pub path : Text
  pub bounds : Option Range
  pub unanswered_requirement : Text
  pub reason : Text

pub data EvidenceErrorKind : Type 0 where
  parameter_error no_progress hard_violation : EvidenceErrorKind

-- The range was shown before.
unfoldable pub is_covered : List (Text × Range) → Text → Range → Bool
is_covered seen path r = any (λ x. text_eq x.0 path && (leb x.1.0 r.0 && leb r.1 x.1.1)) seen

-- An inspection tool of READ_TOOLS: read_file with its arguments (the numbers are `none` where
-- int() raises), or another one and whether its handler returns.
pub data Inspection : Type 0 where
  of_file : Text → Option (ℕ × Option ℕ) → Inspection
  general : Bool → Inspection

unfoldable pub is_some {ℓ} : {A : Type ℓ} → Option A → Bool
is_some none = false
is_some (some a) = true

-- required_recovery_read of execute_tool
unfoldable pub is_required : Inspection → TaskSession → Bool
unfolding normalized_path get_range is_some
is_required (of_file path numbers) s = is_some (get_range s.required_reads (normalized_path path))
is_required (general returns) s = false

-- The budget part of execute_tool; `none` is ReadBudgetExceeded.
unfoldable pub charge : Inspection → TaskSession → Option TaskSession
unfolding is_required is_explore
charge tool s =
    if is_required tool s
    then some (record s {
      required_recovery_reads_used = suc s.required_recovery_reads_used;
      read_actions_used = suc s.read_actions_used;
    })
    else if not (is_explore s.analysis_phase)
    then none
    else if leb s.max_read_actions s.exploration_read_actions_used
    then none
    else some (record s {
      exploration_read_actions_used = suc s.exploration_read_actions_used;
      read_actions_used = suc s.read_actions_used;
    })

module _ (platform : Platform) (tree : Tree) where
  -- The tests of execute_request_evidence on the range, and the read.
  unfoldable pub request_range : Text → Range → TaskSession → Result EvidenceErrorKind TaskSession
  unfolding is_covered read_file record_successful_read_range
  request_range path r s =
      if ltb r.0 1 || ltb r.1 r.0
      then err parameter_error
      else if ltb max_lines_per_read (r.1 - r.0 + 1)
      then err parameter_error
      else if is_covered s.successful_read_ranges path r
      then err no_progress
      else elim (read_file platform tree path r.0 (some r.1)) [
        | none ↦ err parameter_error
        | some shown ↦ ok (
            record_successful_read_range path r.0 (some r.1) (record s {
              evidence_requests_used = suc s.evidence_requests_used;
              read_actions_used = suc s.read_actions_used;
            }))
      ]

  unfoldable pub execute_request_evidence :
      EvidenceRequest → TaskSession → Result EvidenceErrorKind TaskSession
  unfolding request_range normalized_path is_synthesize is_empty
  execute_request_evidence q s =
      let path = normalized_path q.path in
      if not (is_synthesize s.analysis_phase)
      then err hard_violation
      else if leb s.max_evidence_requests s.evidence_requests_used
      then err hard_violation
      else elim q.bounds [
        | none ↦ err parameter_error
        | some r ↦
            if is_empty path
              || (is_empty (strip q.unanswered_requirement) || is_empty (strip q.reason))
            then err parameter_error
            else request_range path r s
      ]

  -- The handler of execute_tool, after the budget; `none` is ToolError.
  unfoldable pub handle : Inspection → TaskSession → Option TaskSession
  unfolding read_file record_successful_read_range
  handle (of_file path none) s = none
  handle (of_file path (some (start, end))) s = elim (read_file platform tree path start end) [
    | none ↦ none
    | some shown ↦ some (record_successful_read_range path start end s)
  ]
  handle (general false) s = none
  handle (general true) s = some s
