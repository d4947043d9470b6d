-- ===== src/Runtime/Output/Distinct.antt =====
-- The list of failed tests has each name once.
use safepatch.Base.{
  true, false, not, ◌&&◌, some, List, [], ◌∷◌, ◌≡◌, refl, sym, subst, ◌∙◌, inl, inr, arith,
  Bool-cases, some_inj,
}
use safepatch.Text.{Text, text_eq, elem, has_duplicate}
use safepatch.Text.Laws.{text_eq→eq, text_eq_refl}
use safepatch.Runtime.Output.{failed_names, unseen, extract_failed_tests}

elem-unseen :
    (n : Text) (seen names : List Text)
    → elem n (unseen seen names) ≡ (elem n names && not (elem n seen))
unfolding unseen elem
elem-unseen n seen [] = refl
elem-unseen n seen (m ∷ names) = elim (Bool-cases (elem m seen)) [
  | inl old ↦
      rw (old, elem-unseen n seen names)
        (elim (Bool-cases (text_eq n m)) [
          | inr other ↦ rw (other) refl
          | inl same ↦
              let e = subst (λ x. elem x seen ≡ true) (sym (text_eq→eq n m same)) old in
              ground arith
        ])
  | inr new ↦
      rw (new, elem-unseen n (m ∷ seen) names)
        (elim (Bool-cases (text_eq n m)) [
          | inr other ↦ rw (other) refl
          | inl same ↦
              let e = subst (λ x. elem x seen ≡ false) (sym (text_eq→eq n m same)) new in
              rw (same, e) refl
        ])
]

has_duplicate-unseen : (seen names : List Text) → has_duplicate (unseen seen names) ≡ false
unfolding unseen has_duplicate elem
has_duplicate-unseen seen [] = refl
has_duplicate-unseen seen (m ∷ names) = elim (Bool-cases (elem m seen)) [
  | inl old ↦ rw (old) (has_duplicate-unseen seen names)
  | inr new ↦
      rw
        (new, has_duplicate-unseen (m ∷ seen) names, elem-unseen m (m ∷ seen) names, text_eq_refl m)
        (ground arith)
]

-- The failed tests that are read in the output of pytest are the names found there, each once.
pub extract_failed_tests_distinct :
    (output : Text) (names tests : List Text)
    → failed_names output ≡ some names
    → extract_failed_tests output ≡ some tests
    → (has_duplicate tests ≡ false) × ((n : Text) → elem n tests ≡ elem n names)
unfolding extract_failed_tests
extract_failed_tests_distinct output names tests found e =
    let same = some_inj (rw (extract_failed_tests, found) at e) in
    subst (λ ts. (has_duplicate ts ≡ false) × ((n : Text) → elem n ts ≡ elem n names)) same
      (has_duplicate-unseen [] names, λ n. elem-unseen n [] names ∙ ground arith)
