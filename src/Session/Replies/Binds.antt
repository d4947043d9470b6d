-- ===== src/Session/Replies/Binds.antt =====
-- A text of the model that binds a patch for approval.
use safepatch.Base.{
  ◌≡◌, ◌⊎◌, refl, sym, ap, ◌∙◌, inl, inr, Bool, true, false, Result, ok, err, arith, Bool-cases,
  Result-cases,
}
use safepatch.Text.{Text, codes, text_eq, elem}
use safepatch.Text.Laws.{text_eq→eq}
use safepatch.Workspace.Tree.{Tree}
use safepatch.Workspace.Platform.{Platform}
use safepatch.Patching.Policy.Proposal.{PatchProposal}
use safepatch.Patching.Policy.Integrity.{Scanner}
use safepatch.Patching.Policy.Validate.{is_empty}
use safepatch.Session.State.{TaskSession, Options, ApprovalBinding}
use safepatch.Session.Analyze.{bound, parsed, Reply, proposed, step}
use safepatch.Model.Json.{object, Members, Library}
use safepatch.Model.ToolCall.{ToolCall, parse_tool_call}
use safepatch.Model.Proposals.{ParseError, model_output, type_error, parse_proposal}
use safepatch.Model.Edits.{
  Differ, EditError, bad_schema, rejected, uncaught, build_structured_proposal,
}
use safepatch.Session.Replies.{
  of_parse, of_edit, general_tools, inspection_of, reply_of_call, reply_of,
}
use safepatch.Session.Analyze.Checked.{IsChecked, step-IsChecked}

-- The arguments of a reply, read as a proposal.
is_parsed : Reply → Bool
is_parsed (proposed (parsed p)) = true
is_parsed _ = false

parsed_from : PatchProposal → Reply → PatchProposal
parsed_from other (proposed (parsed p)) = p
parsed_from other _ = other

of_parse-parsed :
    (r : Result ParseError PatchProposal) (p : PatchProposal)
    → proposed (of_parse r) ≡ proposed (parsed p)
    → r ≡ ok p
unfolding of_parse is_parsed parsed_from
of_parse-parsed (ok q) p e = ap (λ x. ok (parsed_from q x)) e
of_parse-parsed (err (model_output kind)) p e = absurd (let clash = ap is_parsed e in ground arith)
of_parse-parsed (err type_error) p e = absurd (let clash = ap is_parsed e in ground arith)

of_edit-parsed :
    (r : Result EditError PatchProposal) (p : PatchProposal)
    → proposed (of_edit r) ≡ proposed (parsed p)
    → r ≡ ok p
unfolding of_edit is_parsed parsed_from
of_edit-parsed (ok q) p e = ap (λ x. ok (parsed_from q x)) e
of_edit-parsed (err bad_schema) p e = absurd (let clash = ap is_parsed e in ground arith)
of_edit-parsed (err rejected) p e = absurd (let clash = ap is_parsed e in ground arith)
of_edit-parsed (err uncaught) p e = absurd (let clash = ap is_parsed e in ground arith)

module _ (library : Library) (platform : Platform) (differ : Differ)
    (returns : Text → Members → Bool) (tree : Tree) where
  -- A call of a tool that proposes, with arguments that are read as this proposal.
  abbrev pub Proposes : Text → Members → PatchProposal → Type 0
  Proposes tool args p =
      ((tool ≡ codes "propose_patch") × (parse_proposal library (object args) ≡ ok p))
      ⊎ ((tool ≡ codes "propose_edit")
          × (build_structured_proposal library platform differ tree (object args) ≡ ok p))

  inspection_of_free :
      (tool : Text) (args : Members)
      → is_parsed (inspection_of library platform differ returns tree tool args) ≡ false
  unfolding inspection_of is_parsed
  inspection_of_free tool args = elim (Bool-cases (text_eq tool (codes "read_file"))) [
    | inl file ↦ rw (file) refl
    | inr other ↦ elim (Bool-cases (elem tool general_tools)) [
      | inl known ↦ rw (other, known) refl
      | inr unknown ↦ rw (other, unknown) refl
    ]
  ]

  reply_of_call-Proposes :
      (tool : Text) (args : Members) (p : PatchProposal)
      → reply_of_call library platform differ returns tree tool args ≡ proposed (parsed p)
      → Proposes tool args p
  unfolding reply_of_call is_parsed
  reply_of_call-Proposes tool args p e =
      elim (Bool-cases (text_eq tool (codes "request_evidence"))) [
        | inl h ↦ absurd (let clash = ap is_parsed (rw (h) at e) in ground arith)
        | inr h1 ↦ elim (Bool-cases (text_eq tool (codes "propose_edit"))) [
          | inl h ↦ inr (text_eq→eq tool _ h, of_edit-parsed _ p (rw (h1, h) at e))
          | inr h2 ↦ elim (Bool-cases (text_eq tool (codes "propose_patch"))) [
            | inl h ↦ inl (text_eq→eq tool _ h, of_parse-parsed _ p (rw (h1, h2, h) at e))
            | inr h3 ↦ elim (Bool-cases (text_eq tool (codes "finish"))) [
              | inl h ↦ absurd (let clash = ap is_parsed (rw (h1, h2, h3, h) at e) in ground arith)
              | inr h4 ↦ absurd (
                  let clash =
                    sym (inspection_of_free tool args) ∙ ap is_parsed (rw (h1, h2, h3, h4) at e) in
                  ground arith)
            ]
          ]
        ]
      ]

  -- A text of the model binds a patch for approval only if it is a tool call of propose_patch or
  -- propose_edit whose arguments are read as the proposal of the binding; no required read was
  -- open; and the proposal is valid by the policy and passed the preflight, if that is enabled.
  pub reply_of-IsChecked :
      (scan : Scanner) (options : Options) (reply : Text) (s s' : TaskSession) (b : ApprovalBinding)
      → step platform scan options tree (reply_of library platform differ returns tree reply) s
        ≡ bound b s'
      → ((call : ToolCall) × (parse_tool_call library reply ≡ ok call)
          × Proposes call.tool call.args b.proposal)
        × (is_empty s.required_reads ≡ true)
        × IsChecked platform scan options tree b
  unfolding reply_of is_parsed
  reply_of-IsChecked scan options reply s s' b e =
      let (same, free, checked) = step-IsChecked platform scan options tree _ s s' b e in
      elim (Result-cases (parse_tool_call library reply)) [
        | inr (kind, bad) ↦
            absurd (let clash = ap is_parsed (rw (reply_of, bad) at same) in ground arith)
        | inl (call, good) ↦ (
          (
            call,
            good,
            reply_of_call-Proposes call.tool call.args b.proposal (rw (reply_of, good) at same),
          ),
          free,
          checked,
        )
      ]
