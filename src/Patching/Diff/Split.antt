-- ===== src/Patching/Diff/Split.antt =====
-- split_file_diffs, is_new_file and content_from_new_file_diff of
-- code_agent/patching/hunk_engine.py, and _parse_diff_files of code_agent/patching/validator.py.
use safepatch.Base.{
  Bool, false, not, Option, none, some, List, [], ◌∷◌, ◌++◌, ◌||◌, map, drop, filter, if◌then◌else◌,
}
use mathlib.Core.Option
use safepatch.Text.{Text, codes, starts_with, ends_with, strip, splitlines, join, text_eq}

abbrev pub dev_null : Text
dev_null = codes "/dev/null"

-- The headers that both loops look for, in the order of their tests.
pub data LineKind : Type 0 where
  git_header old_header new_header other : LineKind

unfoldable pub classify : Text → LineKind
classify line =
    if starts_with line (codes "diff --git ")
    then git_header
    else if starts_with line (codes "--- ")
    then old_header
    else if starts_with line (codes "+++ ")
    then new_header
    else other

-- The path of a `+++` line, as split_file_diffs reads it.
unfoldable pub new_path : Text → Text
new_path line =
    let new = strip (drop 4 line) in if starts_with new (codes "b/") then drop 2 new else new

-- A file's path and the lines of its diff.
abbrev pub Chunk : Type 0
Chunk = Text × List Text

-- flush: what it appends to `chunks`
unfoldable pub flush : Option Chunk → List Chunk
flush none = []
flush (some c) = c ∷ []

unfoldable pub start_chunk : Text → Option Text → Chunk
unfolding new_path
start_chunk line none = (new_path line, line ∷ [])
start_chunk line (some old) = (new_path line, old ∷ line ∷ [])

unfoldable pub extend : Option Chunk → Text → Option Chunk
extend none line = none
extend (some (path, body)) line = some (path, body ++ line ∷ [])

-- The loop of split_file_diffs, with `current_file` and `current_lines` in one variable, and
-- `pending_old`; it returns what it appends to `chunks`.
unfoldable pub split_lines : Option Chunk → Option Text → List Text → List Chunk
unfolding flush start_chunk extend
split_lines current pending [] = flush current
split_lines current pending (line ∷ rest) = elim (classify line) [
  | git_header ↦ flush current ++ split_lines none pending rest
  | old_header ↦ split_lines current (some line) rest
  | new_header ↦ flush current ++ split_lines (some (start_chunk line pending)) none rest
  | other ↦ split_lines (extend current line) pending rest
]

unfoldable pub render_chunk : Chunk → Text × Text
render_chunk (path, body) = (path, join (codes "\n") body ++ codes "\n")

unfoldable pub is_real : Chunk → Bool
is_real (path, body) = not (text_eq path dev_null)

unfoldable pub split_file_diffs : Text → List (Text × Text)
unfolding split_lines is_real render_chunk
split_file_diffs diff = map render_chunk (filter is_real (split_lines none none (splitlines diff)))

-- A header's path as _parse_diff_files reads it: `none` for /dev/null.
unfoldable pub header_path : Text → Text → Option Text
header_path prefix line =
    let path = strip (drop 4 line) in
    if starts_with path prefix
    then some (drop 2 path)
    else if text_eq path dev_null
    then none
    else some path

-- The loop of _parse_diff_files with the variable `old`; it returns what it appends to `files`.
unfoldable pub parse_headers : Option Text → List Text → List (Option Text × Option Text)
unfolding header_path
parse_headers old [] = []
parse_headers old (line ∷ rest) = elim (classify line) [
  | old_header ↦ parse_headers (header_path (codes "a/") line) rest
  | new_header ↦ (old, header_path (codes "b/") line) ∷ parse_headers none rest
  | _ ↦ parse_headers old rest
]

unfoldable pub parse_diff_files : Text → List (Option Text × Option Text)
unfolding parse_headers
parse_diff_files diff = parse_headers none (splitlines diff)

-- The loop of is_new_file.
unfoldable pub new_file_lines : List Text → Bool
new_file_lines [] = false
new_file_lines (line ∷ rest) =
    let later = new_file_lines rest in
    if starts_with line (codes "--- ") then ends_with (strip line) dev_null else later

unfoldable pub is_new_file : Text → Bool
unfolding new_file_lines
is_new_file body = new_file_lines (splitlines body)

-- What a line of a new file's hunk adds; `none` where RuntimeError is raised.
unfoldable pub new_file_line : Text → Option (List Text)
new_file_line line =
    if starts_with line (codes "+")
    then some (drop 1 line ∷ [])
    else if starts_with line (codes "\\")
    then some []
    else if starts_with line (codes "-")
    then none
    else if starts_with line (codes " ")
    then some (drop 1 line ∷ [])
    else some []

unfoldable pub append_out : Option (List Text) → Option (List Text) → Option (List Text)
append_out none rest = none
append_out (some ls) none = none
append_out (some ls) (some out) = some (ls ++ out)

-- The loop of content_from_new_file_diff, with the variable `in_hunk`.
unfoldable pub new_file_out : Bool → List Text → Option (List Text)
unfolding new_file_line append_out
new_file_out in_hunk [] = some []
new_file_out in_hunk (line ∷ rest) =
    let later = new_file_out (in_hunk || starts_with line (codes "@@")) rest in
    if starts_with line (codes "@@")
    then later
    else if in_hunk
    then append_out (new_file_line line) later
    else later

unfoldable pub join_lines : List Text → Text
join_lines [] = []
join_lines (l ∷ ls) = join (codes "\n") (l ∷ ls) ++ codes "\n"

-- `none` where the function raises RuntimeError.
unfoldable pub content_from_new_file_diff : Text → Option Text
unfolding new_file_out join_lines
content_from_new_file_diff body = Option.map join_lines (new_file_out false (splitlines body))
