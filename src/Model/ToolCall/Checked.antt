-- ===== src/Model/ToolCall/Checked.antt =====
-- The arguments of a tool call that parse_tool_call returns.
use safepatch.Base.{
  ℕ, Bool, true, false, not, ◌||◌, Option, none, some, [], ◌∷◌, ◌≡◌, ◌≢◌, refl, sym, ap, subst, ◌∙◌,
  inl, inr, ok, ok_inj, >>=-eq-ok, arith, Bool-cases, Option-cases, not-true,
}
use safepatch.Text.{Text, codes, text_eq, strip}
use safepatch.Text.Laws.{text_eq→eq, text_eq_refl}
use safepatch.Model.Json.{
  Json, null, boolean, number, negative, float, text, array, object, Members, no_members, member,
  Library, py_str, lookup, insert, is_no_members,
}
use safepatch.Model.ToolCall.{
  ToolCall, coerce_line_number, set_line, coerce_value, coerce_field, coerce_lines, is_some_text,
  is_reversed, check_that, check_order, check_read_file, check_other, required_string,
  validate_tool_arguments, named_call, call_of_members, call_of_json, parse_tool_call, with_tool,
  args_of, json_blob,
}

-- A line number that may be left out: absent, null or a natural number.
pub data IsLine : Option Json → Type 0 where
  absent : IsLine none
  blank : IsLine (some null)
  given : (n : ℕ) → IsLine (some (number n))

-- The two line numbers of a call.
pub record HasLines (args : Members) : Type 0 where
  pub start : IsLine (lookup (codes "start_line") args)
  pub end : IsLine (lookup (codes "end_line") args)

lookup-insert_self : (k : Text) (v : Json) (d : Members) → lookup k (insert k v d) ≡ some v
unfolding lookup insert
lookup-insert_self k v no_members = ground (arith, text_eq_refl k)
lookup-insert_self k v (member j w d) = elim (Bool-cases (text_eq j k)) [
  | inl same ↦ rw (same, lookup, same) refl
  | inr other ↦ rw (other, lookup, other) (lookup-insert_self k v d)
]

lookup-insert_ne :
    (j k : Text) (v : Json) (d : Members)
    → text_eq k j ≡ false
    → lookup j (insert k v d) ≡ lookup j d
unfolding lookup insert
lookup-insert_ne j k v no_members ne = rw (ne) refl
lookup-insert_ne j k v (member i w d) ne = elim (Bool-cases (text_eq i k)) [
  | inl same ↦
      let e : text_eq i j ≡ false =
        subst (λ x. text_eq x j ≡ false) (sym (text_eq→eq i k same)) ne in
      rw (same, lookup, e) refl
  | inr other ↦ rw (other, lookup, lookup-insert_ne j k v d ne) refl
]

set_line-line :
    (field : Text) (args args' : Members) (o : Option ℕ)
    → set_line field args o ≡ ok args'
    → IsLine (lookup field args')
      × ((j : Text) → text_eq field j ≡ false → lookup j args' ≡ lookup j args)
unfolding set_line
set_line-line field args args' none e = absurd (ground arith)
set_line-line field args args' (some n) e =
    let same : insert field (number n) args ≡ args' = ok_inj e in
    (
      subst IsLine (sym (lookup-insert_self field (number n) args) ∙ ap (lookup field) same)
          (given n),
      λ j ne. ap (lookup j) (sym same) ∙ lookup-insert_ne j field (number n) args ne,
    )

coerce_value-line :
    (field : Text) (args args' : Members) (o : Option Json)
    → lookup field args ≡ o
    → coerce_value field args o ≡ ok args'
    → IsLine (lookup field args')
      × ((j : Text) → text_eq field j ≡ false → lookup j args' ≡ lookup j args)
unfolding coerce_value
coerce_value-line field args args' none l e =
    let same : args ≡ args' = ok_inj e in
    (subst IsLine (sym l ∙ ap (lookup field) same) absent, λ j ne. ap (lookup j) (sym same))
coerce_value-line field args args' (some null) l e =
    let same : args ≡ args' = ok_inj e in
    (subst IsLine (sym l ∙ ap (lookup field) same) blank, λ j ne. ap (lookup j) (sym same))
coerce_value-line field args args' (some (boolean b)) l e =
    set_line-line field args args' (coerce_line_number (boolean b)) e
coerce_value-line field args args' (some (number n)) l e =
    set_line-line field args args' (coerce_line_number (number n)) e
coerce_value-line field args args' (some (negative n)) l e =
    set_line-line field args args' (coerce_line_number (negative n)) e
coerce_value-line field args args' (some (float t)) l e =
    set_line-line field args args' (coerce_line_number (float t)) e
coerce_value-line field args args' (some (text t)) l e =
    set_line-line field args args' (coerce_line_number (text t)) e
coerce_value-line field args args' (some (array js)) l e =
    set_line-line field args args' (coerce_line_number (array js)) e
coerce_value-line field args args' (some (object d)) l e =
    set_line-line field args args' (coerce_line_number (object d)) e

coerce_field-line :
    (field : Text) (args args' : Members)
    → coerce_field field args ≡ ok args'
    → IsLine (lookup field args')
      × ((j : Text) → text_eq field j ≡ false → lookup j args' ≡ lookup j args)
unfolding coerce_field
coerce_field-line field args args' e = coerce_value-line field args args' (lookup field args) refl e

coerce_lines-HasLines :
    (args args' : Members)
    → coerce_lines args ≡ ok args'
    → HasLines args' × (lookup (codes "path") args' ≡ lookup (codes "path") args)
unfolding coerce_lines
coerce_lines-HasLines args args' e =
    let (mid, e1, e2) = >>=-eq-ok (coerce_field (codes "start_line") args) _ e in
    let (start, keep1) = coerce_field-line (codes "start_line") args mid e1 in
    let (end, keep2) = coerce_field-line (codes "end_line") mid args' e2 in
    (
      record {
        start = subst IsLine (sym (keep2 (codes "start_line") (unfold text_eq in refl))) start;
        end = end;
      },
      keep2 (codes "path") (unfold text_eq in refl) ∙ keep1 (codes "path") (unfold text_eq in refl),
    )

check_that-ok :
    (b : Bool) (args args' : Members) → check_that b args ≡ ok args' → (b ≡ true) × (args ≡ args')
unfolding check_that
check_that-ok true args args' e = (refl, ok_inj e)
check_that-ok false args args' e = absurd (ground arith)

-- What parse_tool_call has made sure of, by the tool.
pub record IsChecked (call : ToolCall) : Type 0 where
  pub named : call.tool ≢ []
  pub bare :
      (text_eq call.tool (codes "get_repo_map") || text_eq call.tool (codes "get_current_diff"))
        ≡ true
      → call.args ≡ no_members
  pub reading :
      call.tool ≡ codes "read_file"
      → (is_some_text (lookup (codes "path") call.args) ≡ true)
        × HasLines call.args
        × (is_reversed (lookup (codes "start_line") call.args) (lookup (codes "end_line") call.args)
            ≡ false)
  pub requesting : call.tool ≡ codes "request_evidence" → HasLines call.args
  pub finishing :
      call.tool ≡ codes "finish" → is_some_text (lookup (codes "reason") call.args) ≡ true

is_no_members-eq : (d : Members) → is_no_members d ≡ true → d ≡ no_members
unfolding is_no_members
is_no_members-eq no_members h = refl
is_no_members-eq (member k v d) h = absurd (ground arith)

validate-bare :
    (tool : Text) (args args' : Members)
    → validate_tool_arguments tool args ≡ ok args'
    → (text_eq tool (codes "get_repo_map") || text_eq tool (codes "get_current_diff")) ≡ true
    → args' ≡ no_members
unfolding validate_tool_arguments
validate-bare tool args args' e bare =
    let (empty, same) =
      check_that-ok (is_no_members args) args args' (rw (validate_tool_arguments, bare) at e) in
    sym same ∙ is_no_members-eq args empty

validate-reading :
    (args args' : Members)
    → validate_tool_arguments (codes "read_file") args ≡ ok args'
    → (is_some_text (lookup (codes "path") args') ≡ true)
      × HasLines args'
      × (is_reversed (lookup (codes "start_line") args') (lookup (codes "end_line") args') ≡ false)
unfolding validate_tool_arguments text_eq check_read_file check_order
validate-reading args args' e = elim (Bool-cases (is_some_text (lookup (codes "path") args))) [
  | inr bad ↦ absurd (let e' = rw (bad) at e in ground arith)
  | inl path ↦
      let (mid, e1, e2) = >>=-eq-ok (coerce_lines args) _ (rw (path) at e) in
      let (lines, same_path) = coerce_lines-HasLines args mid e1 in
      let (order, same) =
        check_that-ok
          (not (is_reversed (lookup (codes "start_line") mid) (lookup (codes "end_line") mid))) mid
          args' e2 in
      subst
        (λ d.
          (is_some_text (lookup (codes "path") d) ≡ true)
          × HasLines d
          × (is_reversed (lookup (codes "start_line") d) (lookup (codes "end_line") d) ≡ false))
        same (ap is_some_text same_path ∙ path, lines, not-true _ order)
]

validate-requesting :
    (args args' : Members)
    → validate_tool_arguments (codes "request_evidence") args ≡ ok args'
    → HasLines args'
unfolding validate_tool_arguments text_eq check_other required_string
validate-requesting args args' e = (coerce_lines-HasLines args args' e).0

validate-finishing :
    (args args' : Members)
    → validate_tool_arguments (codes "finish") args ≡ ok args'
    → is_some_text (lookup (codes "reason") args') ≡ true
unfolding validate_tool_arguments text_eq check_other required_string
validate-finishing args args' e =
    let (fine, same) = check_that-ok (is_some_text (lookup (codes "reason") args)) args args' e in
    subst (λ d. is_some_text (lookup (codes "reason") d) ≡ true) same fine

validate-IsChecked :
    (tool : Text) (args args' : Members)
    → tool ≢ []
    → validate_tool_arguments tool args ≡ ok args'
    → IsChecked (record { tool = tool; args = args' })
validate-IsChecked tool args args' ne e = record {
  named = ne;
  bare = validate-bare tool args args' e;
  reading = λ t. validate-reading args args' (rw (t) at e);
  requesting = λ t. validate-requesting args args' (rw (t) at e);
  finishing = λ t. validate-finishing args args' (rw (t) at e);
}

pub not_empty : (s : Text) → text_eq s [] ≡ false → s ≢ []
unfolding text_eq
not_empty [] h = absurd (ground arith)
not_empty (c ∷ s) h = λ e. ground arith

module _ (library : Library) where
  named_call-IsChecked :
      (tool : Text) (args : Members) (call : ToolCall)
      → named_call library tool args ≡ ok call
      → IsChecked call
  unfolding named_call
  named_call-IsChecked tool args call e = elim (Bool-cases (text_eq tool [])) [
    | inl blank_name ↦ absurd (let e' = rw (blank_name) at e in ground arith)
    | inr named ↦
        let (args', e1, e2) = >>=-eq-ok (validate_tool_arguments tool args) _ (rw (named) at e) in
        subst IsChecked (ok_inj e2) (validate-IsChecked tool args args' (not_empty tool named) e1)
  ]

  call_of_members-IsChecked :
      (d : Members) (call : ToolCall) → call_of_members library d ≡ ok call → IsChecked call
  unfolding call_of_members
  call_of_members-IsChecked d call e = elim (Option-cases (args_of d (lookup (codes "args") d))) [
    | inl bad ↦ absurd (let e' = rw (call_of_members, bad) at e in ground arith)
    | inr (args, good) ↦ elim (Option-cases (lookup (codes "tool") d)) [
      | inl bad ↦ absurd (let e' = rw (call_of_members, good, bad) at e in ground arith)
      | inr (tool, there) ↦
          named_call-IsChecked (strip (py_str library tool)) args call
            (rw (call_of_members, good, there) at e)
    ]
  ]

  call_of_json-IsChecked :
      (j : Json) (call : ToolCall) → call_of_json library j ≡ ok call → IsChecked call
  unfolding call_of_json
  call_of_json-IsChecked (object d) call e = elim (Option-cases (with_tool d)) [
    | inl bad ↦ absurd (let e' = rw (call_of_json, bad) at e in ground arith)
    | inr (d', good) ↦ call_of_members-IsChecked d' call (rw (call_of_json, good) at e)
  ]
  call_of_json-IsChecked _ call e = absurd (ground arith)

  -- A tool call that parse_tool_call returns has a name; get_repo_map and get_current_diff come
  -- without arguments; the line numbers of read_file and request_evidence are natural numbers, null
  -- or absent; read_file has a path that is a non-empty text and no start line behind its end line;
  -- and finish gives a reason that is a non-empty text.
  pub parse_tool_call-IsChecked :
      (reply : Text) (call : ToolCall) → parse_tool_call library reply ≡ ok call → IsChecked call
  unfolding parse_tool_call
  parse_tool_call-IsChecked reply call e = elim (Option-cases (json_blob reply)) [
    | inl bad ↦ absurd (let e' = rw (parse_tool_call, bad) at e in ground arith)
    | inr (blob, found) ↦ elim (Option-cases (library.loads blob)) [
      | inl bad ↦ absurd (let e' = rw (parse_tool_call, found, bad) at e in ground arith)
      | inr (j, loaded) ↦ call_of_json-IsChecked j call (rw (parse_tool_call, found, loaded) at e)
    ]
  ]
