-- ===== src/Model/ToolCall.antt =====
-- parse_tool_call of code_agent/llm.py: a reply of the model becomes a tool call or a format error.
pub mod Checked
use safepatch.Base.{
  ℕ, suc, ◌+◌, ◌-◌, ◌*◌, Bool, true, false, not, ◌&&◌, ◌||◌, Option, none, some, List, [], ◌∷◌,
  ◌++◌, reverse, take, drop, length, ltb, leb, ◌==◌, if◌then◌else◌, Result, ok, err, ◌>>=◌,
}
use safepatch.Text.{
  Text, codes, text_eq, starts_with, ends_with, strip, lstrip, rstrip, remove_prefix,
}
use safepatch.Model.Json.{
  Json, null, boolean, number, negative, float, text, array, object, Members, no_members, member,
  Library, py_str, lookup, insert, remove, is_true, is_no_members,
}

-- FormatErrorKind
pub data FormatErrorKind : Type 0 where
  json_decode_error invalid_tool_schema invalid_tool_argument_schema : FormatErrorKind
  invalid_proposal_schema : FormatErrorKind

pub record ToolCall : Type 0 where
  pub tool : Text
  pub args : Members

-- re.sub(r"^```(?:json)?\s*", "", s) for a text that starts with the fence
unfoldable pub drop_opening_fence : Text → Text
drop_opening_fence s = lstrip (remove_prefix (drop 3 s) (codes "json"))

-- re.sub(r"\s*```$", "", s) for a text with no line end behind the fence
unfoldable pub drop_closing_fence : Text → Text
drop_closing_fence s = if ends_with s (codes "```") then rstrip (take (length s - 3) s) else s

unfoldable pub clean : Text → Text
unfolding drop_opening_fence drop_closing_fence
clean s =
    let cleaned = strip s in
    if starts_with cleaned (codes "```")
    then drop_closing_fence (drop_opening_fence cleaned)
    else cleaned

-- s.find(c) and s.rfind(c), `none` for -1
unfoldable pub find_char : ℕ → Text → Option ℕ
find_char c [] = none
find_char c (d ∷ s) =
    let rest = find_char c s in
    if d == c then some 0 else elim rest [ none ↦ none | some i ↦ some (suc i) ]

unfoldable pub rfind_char : ℕ → Text → Option ℕ
rfind_char c [] = none
rfind_char c (d ∷ s) = elim (rfind_char c s) [
  | some i ↦ some (suc i)
  | none ↦ if d == c then some 0 else none
]

-- From the first "{" to the last "}".
unfoldable pub blob_between : Text → Option ℕ → Option ℕ → Option Text
blob_between s (some start) (some end) =
    if leb end start then none else some (take (end + 1 - start) (drop start s))
blob_between s _ _ = none

unfoldable pub json_blob : Text → Option Text
unfolding clean find_char rfind_char blob_between
json_blob s =
    let cleaned = clean s in blob_between cleaned (find_char b'{' cleaned) (rfind_char b'}' cleaned)

-- re.fullmatch(r"[0-9]+", s), and int(s)
unfoldable pub decimal_from : ℕ → Text → Option ℕ
decimal_from n [] = some n
decimal_from n (c ∷ s) =
    let rest = decimal_from (n * 10 + (c - b'0')) s in
    if leb b'0' c && leb c b'9' then rest else none

unfoldable pub decimal : Text → Option ℕ
unfolding decimal_from
decimal [] = none
decimal (c ∷ s) = decimal_from 0 (c ∷ s)

-- _coerce_line_number; `none` where it fails
unfoldable pub coerce_line_number : Json → Option ℕ
unfolding decimal
coerce_line_number (number n) = some n
coerce_line_number (text s) = decimal s
coerce_line_number _ = none

unfoldable pub set_line : Text → Members → Option ℕ → Result FormatErrorKind Members
unfolding insert
set_line field args none = err invalid_tool_argument_schema
set_line field args (some n) = ok (insert field (number n) args)

-- `if field in args and args[field] is not None: args[field] = ...`
unfoldable pub coerce_value : Text → Members → Option Json → Result FormatErrorKind Members
unfolding coerce_line_number set_line
coerce_value field args none = ok args
coerce_value field args (some null) = ok args
coerce_value field args (some j) = set_line field args (coerce_line_number j)

unfoldable pub coerce_field : Text → Members → Result FormatErrorKind Members
unfolding coerce_value lookup
coerce_field field args = coerce_value field args (lookup field args)

unfoldable pub coerce_lines : Members → Result FormatErrorKind Members
unfolding coerce_field
coerce_lines args =
    coerce_field (codes "start_line") args >>= λ args'. coerce_field (codes "end_line") args'

-- A non-empty text.
unfoldable pub is_some_text : Option Json → Bool
is_some_text (some (text (c ∷ s))) = true
is_some_text _ = false

-- A text, or no such key.
unfoldable pub is_text_or_absent : Option Json → Bool
is_text_or_absent none = true
is_text_or_absent (some (text s)) = true
is_text_or_absent _ = false

-- isinstance(start, int) and isinstance(end, int) and start > end
unfoldable pub is_reversed : Option Json → Option Json → Bool
is_reversed (some (number m)) (some (number n)) = ltb n m
is_reversed _ _ = false

unfoldable pub check_that : Bool → Members → Result FormatErrorKind Members
check_that true args = ok args
check_that false args = err invalid_tool_argument_schema

unfoldable pub check_order : Members → Result FormatErrorKind Members
unfolding is_reversed lookup check_that
check_order args =
    check_that
      (not (is_reversed (lookup (codes "start_line") args) (lookup (codes "end_line") args))) args

unfoldable pub check_read_file : Members → Result FormatErrorKind Members
unfolding is_some_text lookup coerce_lines check_order
check_read_file args =
    if is_some_text (lookup (codes "path") args)
    then (coerce_lines args >>= λ args'. check_order args')
    else err invalid_tool_argument_schema

-- required_strings
unfoldable pub required_string : Text → Option Text
required_string tool =
    if text_eq tool (codes "search_text")
    then some (codes "query")
    else if text_eq tool (codes "search_symbol")
    then some (codes "symbol")
    else if text_eq tool (codes "finish")
    then some (codes "reason")
    else none

unfoldable pub check_other : Text → Members → Result FormatErrorKind Members
unfolding required_string is_some_text lookup coerce_lines check_that
check_other tool args = elim (required_string tool) [
  | some field ↦ check_that (is_some_text (lookup field args)) args
  | none ↦ if text_eq tool (codes "request_evidence") then coerce_lines args else ok args
]

-- _validate_tool_arguments: the arguments, with their line numbers read
unfoldable pub validate_tool_arguments : Text → Members → Result FormatErrorKind Members
unfolding check_that is_no_members is_text_or_absent lookup check_read_file check_other
validate_tool_arguments tool args =
    if text_eq tool (codes "get_repo_map") || text_eq tool (codes "get_current_diff")
    then check_that (is_no_members args) args
    else if text_eq tool (codes "list_tree")
    then check_that (is_text_or_absent (lookup (codes "path") args)) args
    else if text_eq tool (codes "read_file")
    then check_read_file args
    else check_other tool args

-- data.get("args") or {...}, for a reply with "action" and no "tool"
unfoldable pub action_args : Members → Option Json → Json
unfolding is_true remove
action_args dict none = object (remove (codes "action") (remove (codes "args") dict))
action_args dict (some args) =
    if is_true args then args else object (remove (codes "action") (remove (codes "args") dict))

-- The dict with "tool": data itself, or made from "action".
unfoldable pub with_tool : Members → Option Members
unfolding lookup action_args
with_tool dict = elim (lookup (codes "tool") dict) [
  | some tool ↦ some dict
  | none ↦ elim (lookup (codes "action") dict) [
    | none ↦ none
    | some action ↦ some (
        member (codes "tool") action
          (member (codes "args") (action_args dict (lookup (codes "args") dict)) no_members))
  ]
]

-- args = data.get("args"); the other keys if it is None
unfoldable pub args_of : Members → Option Json → Option Members
unfolding remove
args_of dict none = some (remove (codes "tool") dict)
args_of dict (some null) = some (remove (codes "tool") dict)
args_of dict (some (object args)) = some args
args_of dict (some _) = none

module _ (library : Library) where
  unfoldable pub named_call : Text → Members → Result FormatErrorKind ToolCall
  unfolding validate_tool_arguments
  named_call tool args =
      if text_eq tool []
      then err invalid_tool_schema
      else validate_tool_arguments tool args >>= λ args'. ok (record { tool = tool; args = args' })

  unfoldable pub call_of_members : Members → Result FormatErrorKind ToolCall
  unfolding args_of lookup py_str named_call
  call_of_members dict = elim (args_of dict (lookup (codes "args") dict)) [
    | none ↦ err invalid_tool_schema
    | some args ↦ elim (lookup (codes "tool") dict) [
      | none ↦ err invalid_tool_schema
      | some tool ↦ named_call (strip (py_str library tool)) args
    ]
  ]

  unfoldable pub call_of_json : Json → Result FormatErrorKind ToolCall
  unfolding with_tool call_of_members
  call_of_json (object dict) = elim (with_tool dict) [
    | none ↦ err invalid_tool_schema
    | some dict' ↦ call_of_members dict'
  ]
  call_of_json _ = err invalid_tool_schema

  unfoldable pub parse_tool_call : Text → Result FormatErrorKind ToolCall
  unfolding json_blob call_of_json
  parse_tool_call reply = elim (json_blob reply) [
    | none ↦ err json_decode_error
    | some blob ↦ elim (library.loads blob) [
      | none ↦ err json_decode_error
      | some dict ↦ call_of_json dict
    ]
  ]
