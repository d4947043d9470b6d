-- ===== src/Model/Proposals/RoundTrip.antt =====
-- What parse_proposal returns, and that it reads back what to_dict writes.
use safepatch.Base.{
  true, false, not, Option, none, some, List, [], ◌∷◌, ◌≡◌, ◌≢◌, refl, ap, ◌⊎◌, inl, inr, map, ok,
  err, arith, Bool-cases, &&_true,
}
use safepatch.Text.{Text, codes, text_eq}
use safepatch.Patching.Policy.Proposal.{PatchProposal}
use safepatch.Model.Json.{
  Json, text, array, object, Members, Library, py_str, lookup, items_list, list_items, is_blank,
}
use safepatch.Model.ToolCall.{invalid_proposal_schema}
use safepatch.Model.Proposals.{
  required_fields, model_output, has_missing, is_array, is_text, is_object_or_absent,
  looks_like_diff, diff_looks_right, str_field, list_field, str_items, dict_field, from_dict,
  is_proposal, parse_proposal, revision_members, to_dict,
}

module _ (library : Library) where
  texts-back : (ts : List Text) → map (py_str library) (items_list (list_items (map text ts))) ≡ ts
  unfolding py_str items_list list_items
  texts-back [] = refl
  texts-back (t ∷ ts) = ap (λ l. t ∷ l) (texts-back ts)

  revisions-back : (d : List (Text × Text)) → str_items library (revision_members d) ≡ d
  unfolding str_items revision_members py_str
  revisions-back [] = refl
  revisions-back ((k, v) ∷ d) = ap (λ l. (k, v) ∷ l) (revisions-back d)

  from_dict-to_dict : (p : PatchProposal) → from_dict library (to_dict p) ≡ ok p
  unfolding from_dict to_dict lookup text_eq str_field list_field dict_field py_str
  from_dict-to_dict p =
      rw (texts-back p.affected_files, texts-back p.tests_to_run, revisions-back p.base_revisions)
        refl

  some_text : (s : Text) → s ≢ [] → is_blank (some (text s)) ≡ false
  unfolding is_blank
  some_text [] ne = absurd (ne refl)
  some_text (c ∷ s) ne = refl

  is_proposal-to_dict :
      (p : PatchProposal)
      → p.diagnosis ≢ []
      → p.unified_diff ≢ []
      → p.expected_behavior ≢ []
      → p.risk_notes ≢ []
      → looks_like_diff p.unified_diff ≡ true
      → is_proposal library (to_dict p) ≡ true
  unfolding is_proposal has_missing to_dict lookup text_eq is_array is_text is_object_or_absent
      diff_looks_right is_blank
  is_proposal-to_dict p h1 h2 h3 h4 looks =
      rw
        (
          some_text p.diagnosis h1,
          some_text p.unified_diff h2,
          some_text p.expected_behavior h3,
          some_text p.risk_notes h4,
          looks,
        )
        refl

  -- The dict that to_dict writes for a proposal is read back by parse_proposal as that proposal, if
  -- its four texts are not empty and its diff looks like one; its lists and its base revisions may
  -- be empty.
  pub parse_proposal-to_dict :
      (p : PatchProposal)
      → p.diagnosis ≢ []
      → p.unified_diff ≢ []
      → p.expected_behavior ≢ []
      → p.risk_notes ≢ []
      → looks_like_diff p.unified_diff ≡ true
      → parse_proposal library (object (to_dict p)) ≡ ok p
  unfolding parse_proposal
  parse_proposal-to_dict p h1 h2 h3 h4 looks =
      rw (is_proposal-to_dict p h1 h2 h3 h4 looks) (from_dict-to_dict p)

  list_field-array :
      (o : Option Json) → is_array o ≡ true → (ts : List Text) × (list_field library o ≡ some ts)
  unfolding is_array list_field
  list_field-array (some (array js)) h = (map (py_str library) (items_list js), refl)
  list_field-array none h = absurd (ground arith)
  list_field-array (some _) h = absurd (ground arith)

  dict_field-object :
      (o : Option Json)
      → is_object_or_absent o ≡ true
      → (d : List (Text × Text)) × (dict_field library o ≡ some d)
  unfolding is_object_or_absent dict_field
  dict_field-object none h = ([], refl)
  dict_field-object (some (object d)) h = (str_items library d, refl)
  dict_field-object (some _) h = absurd (ground arith)

  str_field-diff :
      (o : Option Json) → diff_looks_right o ≡ true → looks_like_diff (str_field library o) ≡ true
  unfolding diff_looks_right str_field py_str
  str_field-diff (some (text s)) h = h
  str_field-diff none h = absurd (ground arith)
  str_field-diff (some _) h = absurd (ground arith)

  from_dict-ok :
      (d : Members)
      → is_proposal library d ≡ true
      → (p : PatchProposal) × (from_dict library d ≡ ok p) × (looks_like_diff p.unified_diff ≡ true)
  unfolding is_proposal from_dict
  from_dict-ok d h =
      let (h1, t1) = &&_true (not (has_missing required_fields d)) _ h in
      let (h2, t2) = &&_true _ _ t1 in
      let (h3, t3) = &&_true _ _ t2 in
      let (h4, t4) = &&_true (is_text (lookup (codes "unified_diff") d)) _ t3 in
      let (h5, h6) = &&_true _ _ t4 in
      let (files, e1) = list_field-array (lookup (codes "affected_files") d) h2 in
      let (tests, e2) = list_field-array (lookup (codes "tests_to_run") d) h3 in
      let (revisions, e3) = dict_field-object (lookup (codes "base_revisions") d) h5 in
      (
        record {
          diagnosis = str_field library (lookup (codes "diagnosis") d);
          affected_files = files;
          unified_diff = str_field library (lookup (codes "unified_diff") d);
          expected_behavior = str_field library (lookup (codes "expected_behavior") d);
          risk_notes = str_field library (lookup (codes "risk_notes") d);
          tests_to_run = tests;
          base_revisions = revisions;
        },
        rw (from_dict, e1, e2, e3) refl,
        str_field-diff (lookup (codes "unified_diff") d) h6,
      )

  -- parse_proposal either refuses the arguments as a format error of the proposal, whatever JSON
  -- they are, or returns a proposal whose diff has "@@", or both "---" and "+++". No other exception
  -- leaves it.
  pub parse_proposal_total :
      (j : Json)
      → (parse_proposal library j ≡ err (model_output invalid_proposal_schema))
        ⊎ ((p : PatchProposal) × (parse_proposal library j ≡ ok p)
            × (looks_like_diff p.unified_diff ≡ true))
  unfolding parse_proposal
  parse_proposal_total (object d) = elim (Bool-cases (is_proposal library d)) [
    | inl fine ↦
        let (p, e, looks) = from_dict-ok d fine in inr (p, rw (parse_proposal, fine) e, looks)
    | inr bad ↦ inl (rw (bad) refl)
  ]
  parse_proposal_total _ = inl refl
