-- ===== src/Patching/Diff/Added.antt =====
-- What the part of a diff for a new file says of its content, without the loop of
-- content_from_new_file_diff.
use safepatch.Base.{
  ℕ, Bool, true, false, Option, none, some, List, [], ◌∷◌, ◌++◌, ◌≡◌, refl, sym, ap, subst, ◌∙◌,
  ◌⊎◌, inl, inr, arith, Bool-cases, Option-cases, some_inj, append_assoc,
}
use safepatch.Text.{Text, codes, starts_with, splitlines, join}
use safepatch.Patching.Diff.Split.{
  new_file_line, append_out, new_file_out, join_lines, content_from_new_file_diff,
}

-- The lines of a new file: those that start with `+` or a space behind the first `@@`, without that
-- character. A line that starts with `-` there has no place.
pub data Adds : Bool → List Text → List Text → Type 0 where
  end : {in_hunk : Bool} → Adds in_hunk [] []
  opens :
      {in_hunk : Bool} {l : Text} {rest out : List Text}
      → starts_with l (codes "@@") ≡ true
      → Adds true rest out
      → Adds in_hunk (l ∷ rest) out
  outside :
      {l : Text} {rest out : List Text}
      → starts_with l (codes "@@") ≡ false
      → Adds false rest out
      → Adds false (l ∷ rest) out
  added :
      {c : ℕ} {l : Text} {rest out : List Text}
      → (c ≡ b'+') ⊎ (c ≡ b' ')
      → Adds true rest out
      → Adds true ((c ∷ l) ∷ rest) (l ∷ out)
  left_out :
      {l : Text} {rest out : List Text}
      → starts_with l (codes "+") ≡ false
      → starts_with l (codes " ") ≡ false
      → starts_with l (codes "-") ≡ false
      → Adds true rest out
      → Adds true (l ∷ rest) out

-- The text with a newline behind each line.
abbrev pub with_newlines : List Text → Text
with_newlines [] = []
with_newlines (l ∷ ls) = l ++ (b'\n' ∷ with_newlines ls)

join_lines_lem : (ls : List Text) → join_lines ls ≡ with_newlines ls
unfolding join_lines join
join_lines_lem [] = refl
join_lines_lem (l ∷ []) = refl
join_lines_lem (l ∷ m ∷ ls) =
    append_assoc (l ++ codes "\n") (join (codes "\n") (m ∷ ls)) (codes "\n")
    ∙ append_assoc l (codes "\n") (join (codes "\n") (m ∷ ls) ++ codes "\n")
    ∙ ap (λ t. l ++ (b'\n' ∷ t)) (join_lines_lem (m ∷ ls))

new_file_line-cases :
    (l : Text) (ls : List Text)
    → new_file_line l ≡ some ls
    → ((starts_with l (codes "+") ≡ false)
        × (starts_with l (codes " ") ≡ false)
        × (starts_with l (codes "-") ≡ false)
        × (ls ≡ []))
      ⊎ ((c : ℕ) × (k : Text) × ((c ≡ b'+') ⊎ (c ≡ b' ')) × (l ≡ c ∷ k) × (ls ≡ k ∷ []))
unfolding new_file_line starts_with
new_file_line-cases [] ls e = inl (refl, refl, refl, sym (some_inj e))
new_file_line-cases (c ∷ k) ls e = elim (Bool-cases (starts_with (c ∷ k) (codes "+"))) [
  | inl plus ↦ inr (c, k, inl (ground arith), refl, ground arith)
  | inr no_plus ↦ elim (Bool-cases (starts_with (c ∷ k) (codes " "))) [
    | inl space ↦ inr (c, k, inr (ground arith), refl, ground arith)
    | inr no_space ↦ inl (no_plus, no_space, ground arith, ground arith)
  ]
]

append_out-some :
    (a b : Option (List Text)) (out : List Text)
    → append_out a b ≡ some out
    → (ls : List Text) × (more : List Text) × (a ≡ some ls) × (b ≡ some more) × (ls ++ more ≡ out)
unfolding append_out
append_out-some none b out e = absurd (ground arith)
append_out-some (some ls) none out e = absurd (ground arith)
append_out-some (some ls) (some more) out e = (ls, more, refl, refl, some_inj e)

new_file_out-Adds :
    (in_hunk : Bool) (ls out : List Text) → new_file_out in_hunk ls ≡ some out → Adds in_hunk ls out
unfolding new_file_out
new_file_out-Adds in_hunk [] out e = subst (Adds in_hunk []) (some_inj e) end
new_file_out-Adds true (l ∷ rest) out e = elim (Bool-cases (starts_with l (codes "@@"))) [
  | inl start ↦ opens start (new_file_out-Adds true rest out (rw (new_file_out, start) at e))
  | inr no_start ↦
      let (ls, more, here, later, joined) =
        append_out-some (new_file_line l) (new_file_out true rest) out
          (rw (new_file_out, no_start) at e) in
      let ih = new_file_out-Adds true rest more later in
      elim (new_file_line-cases l ls here) [
        | inl (plus, space, minus, none_here) ↦
            left_out plus space minus
              (subst (Adds true rest) (ap (λ k. k ++ more) (sym none_here) ∙ joined) ih)
        | inr (c, k, first, line, one) ↦
            subst (λ x. Adds true (x ∷ rest) out) (sym line)
              (subst (Adds true ((c ∷ k) ∷ rest)) (ap (λ x. x ++ more) (sym one) ∙ joined)
                (added first ih))
      ]
]
new_file_out-Adds false (l ∷ rest) out e = elim (Bool-cases (starts_with l (codes "@@"))) [
  | inl start ↦ opens start (new_file_out-Adds true rest out (rw (new_file_out, start) at e))
  | inr no_start ↦
      outside no_start (new_file_out-Adds false rest out (rw (new_file_out, no_start) at e))
]

-- The content that a new file gets has the lines that its part of the diff adds.
pub content_from_new_file_diff-Adds :
    (body content : Text)
    → content_from_new_file_diff body ≡ some content
    → (ls : List Text) × Adds false (splitlines body) ls × (content ≡ with_newlines ls)
unfolding content_from_new_file_diff
content_from_new_file_diff-Adds body content e =
    elim (Option-cases (new_file_out false (splitlines body))) [
      | inl bad ↦ absurd (let e' = rw bad at e in ground arith)
      | inr (ls, good) ↦ (
        ls,
        new_file_out-Adds false (splitlines body) ls good,
        sym (some_inj (rw good at e)) ∙ join_lines_lem ls,
      )
    ]
