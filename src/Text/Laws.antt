-- ===== src/Text/Laws.antt =====
-- Laws of the string methods: equality is decided, and the lines of a text spell it.
use safepatch.Base.{ℕ, true, List, [], ◌∷◌, ◌++◌, ◌||◌, ◌≡◌, refl, arith, append_assoc, sym}
use safepatch.Text.Chars.{Text}
use safepatch.Text.Strings.{text_eq, elem}
use safepatch.Text.Lines.{splitlines_keep, concat, push_line}

pub text_eq_refl : (s : Text) → text_eq s s ≡ true
unfolding text_eq
text_eq_refl [] = refl
text_eq_refl (c ∷ s) = ground (arith, text_eq_refl s)

pub text_eq→eq : (s t : Text) → text_eq s t ≡ true → s ≡ t
unfolding text_eq
text_eq→eq [] [] h = refl
text_eq→eq [] (d ∷ t) h = ground arith
text_eq→eq (c ∷ s) [] h = ground arith
text_eq→eq (c ∷ s) (d ∷ t) h = ground (arith, text_eq→eq s t)

pub eq→text_eq : (s t : Text) → s ≡ t → text_eq s t ≡ true
eq→text_eq s t e = rw e (text_eq_refl t)

concat-push_line : (c : ℕ) (ls : List Text) → concat (push_line c ls) ≡ c ∷ concat ls
unfolding concat push_line
concat-push_line c [] = refl
concat-push_line c (l ∷ ls) = refl

-- The lines, with their ends, spell the text: no character is lost or changed.
pub concat-splitlines_keep : (s : Text) → concat (splitlines_keep s) ≡ s
unfolding splitlines_keep concat
concat-splitlines_keep [] = refl
concat-splitlines_keep (c ∷ s) =
    ground (arith, concat-splitlines_keep s, concat-push_line c (splitlines_keep s))

pub concat-append : (ls ms : List Text) → concat (ls ++ ms) ≡ concat ls ++ concat ms
unfolding concat
concat-append [] ms = refl
concat-append (l ∷ ls) ms = rw (concat-append ls ms) (sym (append_assoc l (concat ls) (concat ms)))

pub text_eq_comm : (s t : Text) → text_eq s t ≡ text_eq t s
unfolding text_eq
text_eq_comm [] [] = refl
text_eq_comm [] (d ∷ t) = refl
text_eq_comm (c ∷ s) [] = refl
text_eq_comm (c ∷ s) (d ∷ t) = ground (arith, text_eq_comm s t)

pub elem-append : (j : Text) (xs ys : List Text) → elem j (xs ++ ys) ≡ (elem j xs || elem j ys)
unfolding elem
elem-append j [] ys = refl
elem-append j (x ∷ xs) ys = ground (arith, elem-append j xs ys)
