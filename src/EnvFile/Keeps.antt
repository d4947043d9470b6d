-- ===== src/EnvFile/Keeps.antt =====
-- The environment file does not replace what is set.
use safepatch.Base.{
  true, false, Option, none, some, List, [], ◌∷◌, ◌≡◌, refl, sym, ap, subst, ◌∙◌, inl, inr, arith,
  Bool-cases,
}
use safepatch.Text.{Text, text_eq, splitlines}
use safepatch.Text.Laws.{text_eq→eq}
use safepatch.Patching.Policy.Proposal.{get}
use safepatch.EnvFile.{
  Variables, assignment, is_filled, set_variable, assign, load_lines, load_dotenv,
}

get-set_variable_ne :
    (j k v : Text) (env : Variables)
    → text_eq k j ≡ false
    → get (set_variable k v env) j ≡ get env j
unfolding get set_variable
get-set_variable_ne j k v [] ne = rw (ne) refl
get-set_variable_ne j k v ((i, w) ∷ env) ne = elim (Bool-cases (text_eq i k)) [
  | inl same ↦
      let e : text_eq i j ≡ false =
        subst (λ x. text_eq x j ≡ false) (sym (text_eq→eq i k same)) ne in
      rw (same, get, e) refl
  | inr other ↦ rw (other, get, get-set_variable_ne j k v env ne) refl
]

assign-get :
    (j : Text) (a : Option (Text × Text)) (env : Variables)
    → is_filled (get env j) ≡ true
    → get (assign false a env) j ≡ get env j
unfolding assign
assign-get j none env filled = refl
assign-get j (some (k, v)) env filled = elim (Bool-cases (is_filled (get env k))) [
  | inl kept ↦ rw (kept) refl
  | inr free ↦
      let ne : text_eq k j ≡ false = elim (Bool-cases (text_eq k j)) [
        | inr other ↦ other
        | inl same ↦ absurd (
            let e = subst (λ x. is_filled (get env x) ≡ false) (text_eq→eq k j same) free in
            ground arith)
      ] in
      rw (free) (get-set_variable_ne j k v env ne)
]

load_lines-get :
    (j : Text) (lines : List Text) (env : Variables)
    → is_filled (get env j) ≡ true
    → get (load_lines false lines env) j ≡ get env j
unfolding load_lines
load_lines-get j [] env filled = refl
load_lines-get j (raw ∷ lines) env filled =
    let e = assign-get j (assignment raw) env filled in
    load_lines-get j lines (assign false (assignment raw) env) (ap is_filled e ∙ filled) ∙ e

-- Without override, a variable of the environment that is set, and not to the empty text, keeps its
-- value, whatever the file holds.
pub load_dotenv-get :
    (j content : Text) (env : Variables)
    → is_filled (get env j) ≡ true
    → get (load_dotenv false content env) j ≡ get env j
unfolding load_dotenv
load_dotenv-get j content env filled = load_lines-get j (splitlines content) env filled
