-- ===== src/Model/Proposals.antt =====
-- parse_proposal of code_agent/patching/proposal.py, with PatchProposal.from_dict and to_dict of
-- code_agent/state.py. The items of a list are taken through str, as the validator reads them.
pub mod RoundTrip
use safepatch.Base.{
  ℕ, Bool, true, false, not, ◌&&◌, ◌||◌, Option, none, some, List, [], ◌∷◌, map, any, if◌then◌else◌,
  Result, ok, err,
}
use safepatch.Text.{Text, codes, contains}
use safepatch.Patching.Policy.Proposal.{PatchProposal}
use safepatch.Model.Json.{
  Json, null, text, array, object, Items, Members, no_members, member, Library, py_str, lookup,
  items_list, list_items, is_true, is_blank,
}
use safepatch.Model.ToolCall.{FormatErrorKind, invalid_proposal_schema}

-- An exception of parse_proposal: ModelOutputError, or the TypeError or AttributeError of from_dict.
pub data ParseError : Type 0 where
  model_output : FormatErrorKind → ParseError
  type_error : ParseError

-- REQUIRED_FIELDS
abbrev pub required_fields : List Text
required_fields =
    codes "diagnosis"
    ∷ codes "affected_files"
    ∷ codes "unified_diff"
    ∷ codes "expected_behavior"
    ∷ codes "risk_notes"
    ∷ codes "tests_to_run"
    ∷ []

-- The fields of a list that are absent, None or "".
unfoldable pub has_missing : List Text → Members → Bool
unfolding is_blank lookup
has_missing fields d = any (λ f. is_blank (lookup f d)) fields

unfoldable pub is_array : Option Json → Bool
is_array (some (array js)) = true
is_array _ = false

unfoldable pub is_text : Option Json → Bool
is_text (some (text s)) = true
is_text _ = false

-- A dict, or no such key.
unfoldable pub is_object_or_absent : Option Json → Bool
is_object_or_absent none = true
is_object_or_absent (some (object d)) = true
is_object_or_absent _ = false

-- The tests on the text of unified_diff.
unfoldable pub looks_like_diff : Text → Bool
looks_like_diff s =
    contains s (codes "@@") || (contains s (codes "---") && contains s (codes "+++"))

unfoldable pub diff_looks_right : Option Json → Bool
unfolding looks_like_diff
diff_looks_right (some (text s)) = looks_like_diff s
diff_looks_right _ = false

-- The keys of a dict, in order.
unfoldable pub keys_of : Members → List Text
keys_of no_members = []
keys_of (member k v d) = k ∷ keys_of d

module _ (library : Library) where
  -- str(data.get(field, ""))
  unfoldable pub str_field : Option Json → Text
  unfolding py_str
  str_field none = []
  str_field (some j) = py_str library j

  -- list(value or []); `none` where list raises
  unfoldable pub list_field : Option Json → Option (List Text)
  unfolding py_str items_list is_true keys_of
  list_field none = some []
  list_field (some (array js)) = some (map (py_str library) (items_list js))
  list_field (some (text s)) = some (map (λ c. c ∷ []) s)
  list_field (some (object d)) = some (keys_of d)
  list_field (some j) = if is_true j then none else some []

  unfoldable pub str_items : Members → List (Text × Text)
  unfolding py_str
  str_items no_members = []
  str_items (member k v d) = (k, py_str library v) ∷ str_items d

  -- {str(path): str(revision) for ... in (value or {}).items()}
  unfoldable pub dict_field : Option Json → Option (List (Text × Text))
  unfolding str_items is_true
  dict_field none = some []
  dict_field (some (object d)) = some (str_items d)
  dict_field (some j) = if is_true j then none else some []

  -- PatchProposal.from_dict
  unfoldable pub from_dict : Members → Result ParseError PatchProposal
  unfolding str_field list_field dict_field lookup
  from_dict d = elim (list_field (lookup (codes "affected_files") d)) [
    | none ↦ err type_error
    | some files ↦ elim (list_field (lookup (codes "tests_to_run") d)) [
      | none ↦ err type_error
      | some tests ↦ elim (dict_field (lookup (codes "base_revisions") d)) [
        | none ↦ err type_error
        | some revisions ↦ ok (record {
          diagnosis = str_field (lookup (codes "diagnosis") d);
          affected_files = files;
          unified_diff = str_field (lookup (codes "unified_diff") d);
          expected_behavior = str_field (lookup (codes "expected_behavior") d);
          risk_notes = str_field (lookup (codes "risk_notes") d);
          tests_to_run = tests;
          base_revisions = revisions;
        })
      ]
    ]
  ]

  -- The checks of parse_proposal, in their order.
  unfoldable pub is_proposal : Members → Bool
  unfolding has_missing is_array is_text is_object_or_absent diff_looks_right lookup
  is_proposal d =
      not (has_missing required_fields d)
      && (is_array (lookup (codes "affected_files") d)
          && (is_array (lookup (codes "tests_to_run") d)
              && (is_text (lookup (codes "unified_diff") d)
                  && (is_object_or_absent (lookup (codes "base_revisions") d)
                      && diff_looks_right (lookup (codes "unified_diff") d)))))

  unfoldable pub parse_proposal : Json → Result ParseError PatchProposal
  unfolding is_proposal from_dict
  parse_proposal (object d) =
      if is_proposal d then from_dict d else err (model_output invalid_proposal_schema)
  parse_proposal _ = err (model_output invalid_proposal_schema)

-- PatchProposal.to_dict
unfoldable pub revision_members : List (Text × Text) → Members
revision_members [] = no_members
revision_members ((k, v) ∷ d) = member k (text v) (revision_members d)

unfoldable pub to_dict : PatchProposal → Members
unfolding revision_members list_items
to_dict p = member (codes "diagnosis") (text p.diagnosis) (
    member (codes "affected_files") (array (list_items (map text p.affected_files))) (
      member (codes "unified_diff") (text p.unified_diff) (
        member (codes "expected_behavior") (text p.expected_behavior) (
          member (codes "risk_notes") (text p.risk_notes) (
            member (codes "tests_to_run") (array (list_items (map text p.tests_to_run))) (
              member (codes "base_revisions") (object (revision_members p.base_revisions))
                no_members))))))
