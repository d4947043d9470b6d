-- ===== src/Model/Edits/Unique.antt =====
-- A replacement is made at the only place of its old text.
use safepatch.Base.{
  ℕ, suc, zero, ◌≤◌, true, none, some, [], ◌∷◌, ◌++◌, ◌≡◌, refl, sym, ap, subst, ◌∙◌, ◌⊎◌, inl, inr,
  take, drop, length, ltb, ◌==◌, some_inj, arith, Bool-cases, Option-cases, take-append, drop-drop,
  &&_true,
}
use safepatch.Text.{Text, starts_with}
use safepatch.Model.Edits.{
  Edit, find, exact_occurrence_count, replace_first, replace_in, with_file_newlines,
}

order_cases : (i n : ℕ) → (n ≡ i) ⊎ ((suc i ≤ n) ⊎ (suc n ≤ i))
order_cases i n = elim (Bool-cases (ltb i n)) [
  | inl less ↦ inr (inl (ground arith))
  | inr more ↦ elim (Bool-cases (ltb n i)) [
    | inl greater ↦ inr (inr (ground arith))
    | inr same ↦ inl (ground arith)
  ]
]

starts_with-append : (p s : Text) → starts_with (p ++ s) p ≡ true
unfolding starts_with
starts_with-append [] s = refl
starts_with-append (c ∷ p) s = ground (arith, starts_with-append p s)

starts_with-eq : (s p : Text) → starts_with s p ≡ true → s ≡ p ++ drop (length p) s
unfolding starts_with
starts_with-eq s [] h = refl
starts_with-eq [] (d ∷ p) h = absurd (ground arith)
starts_with-eq (c ∷ s) (d ∷ p) h =
    let (same, rest) = &&_true (c == d) _ h in
    let e : c ≡ d = ground arith in cc (e, starts_with-eq s p rest)

find-here : (s n : Text) → starts_with s n ≡ true → find s n ≡ some 0
unfolding find
find-here [] n h = rw h refl
find-here (c ∷ s) n h = rw h refl

-- A text that contains the needle is searched with success, and no later than there.
find-append : (b n a : Text) → (j : ℕ) × (find (b ++ (n ++ a)) n ≡ some j) × (j ≤ length b)
unfolding find
find-append [] n a = (0, find-here (n ++ a) n (starts_with-append n a), omega arith)
find-append (c ∷ b) n a = elim (Bool-cases (starts_with (c ∷ (b ++ (n ++ a))) n)) [
  | inl here ↦ (0, rw (here) refl, omega arith)
  | inr later ↦ let (j, e, le) = find-append b n a in (suc j, rw (later, e) refl, omega arith)
]

find-eq :
    (s n : Text) (i : ℕ) → find s n ≡ some i → s ≡ take i s ++ (n ++ drop (length n) (drop i s))
unfolding find
find-eq [] n i h = elim (Bool-cases (starts_with [] n)) [
  | inl here ↦
      let e : 0 ≡ i = some_inj (rw (here) at h) in
      subst (λ k. [] ≡ take k [] ++ (n ++ drop (length n) (drop k []))) e (starts_with-eq [] n here)
  | inr lost ↦ absurd (let h' = rw (lost) at h in ground arith)
]
find-eq (c ∷ s) n i h = elim (Bool-cases (starts_with (c ∷ s) n)) [
  | inl here ↦
      let e : 0 ≡ i = some_inj (rw (here) at h) in
      subst (λ k. c ∷ s ≡ take k (c ∷ s) ++ (n ++ drop (length n) (drop k (c ∷ s)))) e
        (starts_with-eq (c ∷ s) n here)
  | inr later ↦ elim (Option-cases (find s n)) [
    | inl lost ↦ absurd (let h' = rw (later, lost) at h in ground arith)
    | inr (j, found) ↦
        let e : suc j ≡ i = some_inj (rw (later, found) at h) in
        subst (λ k. c ∷ s ≡ take k (c ∷ s) ++ (n ++ drop (length n) (drop k (c ∷ s)))) e
          (ap (λ l. c ∷ l) (find-eq s n j found))
  ]
]

-- The text at hand, taken apart at a place: what stands behind a shorter head contains the needle.
drop-append_lt : (k : ℕ) (b t : Text) → k ≤ length b → (b' : Text) × (drop k (b ++ t) ≡ b' ++ t)
drop-append_lt zero b t h = (b, refl)
drop-append_lt (suc k) [] t h = absurd (omega arith)
drop-append_lt (suc k) (c ∷ b) t h = drop-append_lt k b t (omega arith)

take-append_eq : (k : ℕ) (b t : Text) → length b ≡ k → take k (b ++ t) ≡ b
take-append_eq k b t e = subst (λ m. take m (b ++ t) ≡ b) e (take-append b t)

-- How a text with exactly one place of `old` is replaced.
pub record ReplacedOnce (s old new changed : Text) : Type 0 where
  pub before : Text
  pub after : Text
  pub was : s ≡ before ++ (old ++ after)
  pub becomes : changed ≡ before ++ (new ++ after)
  pub only : (b a : Text) → s ≡ b ++ (old ++ a) → b ≡ before

found_once :
    (s old : Text) (i : ℕ)
    → find s old ≡ some i
    → find (drop (suc i) s) old ≡ none
    → (b a : Text) → s ≡ b ++ (old ++ a)
    → b ≡ take i s
found_once s old i first lost b a e =
    let (j, found, le) = find-append b old a in
    let same : j ≡ i = some_inj (sym found ∙ ap (λ x. find x old) (sym e) ∙ first) in
    elim (order_cases i (length b)) [
      | inl eq ↦ sym (ap (take i) e ∙ take-append_eq i b (old ++ a) eq)
      | inr (inl more) ↦
          let (b', rest) = drop-append_lt (suc i) b (old ++ a) more in
          let (k, again, low) = find-append b' old a in
          absurd (
            let clash =
              sym again ∙ ap (λ x. find x old) (sym rest ∙ ap (drop (suc i)) (sym e)) ∙ lost in
            ground arith)
      | inr (inr less) ↦ absurd (omega arith)
    ]

replace_first-once :
    (s old new : Text)
    → exact_occurrence_count s old ≡ 1
    → ReplacedOnce s old new (replace_first s old new)
unfolding exact_occurrence_count replace_first
replace_first-once s old new h = elim (Option-cases (find s old)) [
  | inl lost ↦ absurd (let h' = rw (exact_occurrence_count, lost) at h in ground arith)
  | inr (i, first) ↦ elim (Option-cases (find (drop (suc i) s) old)) [
    | inr (j, second) ↦
        absurd (let h' = rw (exact_occurrence_count, first, second) at h in ground arith)
    | inl lost ↦ record {
      before = take i s;
      after = drop (length old) (drop i s);
      was = find-eq s old i first;
      becomes =
          rw (replace_first, first)
            (ap (λ x. take i s ++ (new ++ x)) (sym (drop-drop (length old) i s)));
      only = found_once s old i first lost;
    }
  ]
]

-- An edit that is accepted replaces its old text, with the line ends of the file, by its new text at
-- the only place where the old text stands in the current text of the file; what stands before and
-- behind it is kept.
pub replace_in-once :
    (e : Edit) (current changed : Text)
    → replace_in e current ≡ some changed
    → ReplacedOnce current
        (with_file_newlines e.old_text current)
        (with_file_newlines e.new_text current)
        changed
unfolding replace_in
replace_in-once e current changed h =
    elim (Bool-cases
      (exact_occurrence_count current (with_file_newlines e.old_text current) == 1)) [
        | inr other ↦ absurd (let h' = rw (other) at h in ground arith)
        | inl one ↦
            subst
              (ReplacedOnce current (with_file_newlines e.old_text current)
                (with_file_newlines e.new_text current))
              (some_inj (rw (one) at h)) (replace_first-once current _ _ (ground arith))
      ]
