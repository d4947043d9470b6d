-- ===== src/Text/Strings.antt =====
-- The methods of `str` that do not look at lines.
use safepatch.Base.{
  ℕ, zero, suc, ◌+◌, ◌/◌, ◌%◌, Bool, true, false, ◌&&◌, ◌||◌, List, [], ◌∷◌, ◌++◌, map, reverse,
  length, drop, ◌==◌, ltb, if◌then◌else◌,
}
use safepatch.Text.Chars.{Text, is_space}

-- s == t
unfoldable pub text_eq : Text → Text → Bool
text_eq [] [] = true
text_eq (c ∷ s) (d ∷ t) = c == d && text_eq s t
text_eq _ _ = false

-- s.startswith(prefix)
unfoldable pub starts_with : Text → Text → Bool
starts_with s [] = true
starts_with [] (d ∷ p) = false
starts_with (c ∷ s) (d ∷ p) = c == d && starts_with s p

-- s.endswith(suffix)
unfoldable pub ends_with : Text → Text → Bool
unfolding starts_with
ends_with s p = starts_with (reverse s) (reverse p)

-- s.removeprefix(prefix)
unfoldable pub remove_prefix : Text → Text → Text
unfolding starts_with
remove_prefix s p = if starts_with s p then drop (length p) s else s

-- sub in s
unfoldable pub contains : Text → Text → Bool
unfolding starts_with
contains [] sub = starts_with [] sub
contains (c ∷ s) sub = starts_with (c ∷ s) sub || contains s sub

drop_while : (ℕ → Bool) → Text → Text
drop_while p [] = []
drop_while p (c ∷ s) = let rest = drop_while p s in if p c then rest else c ∷ s

-- s.lstrip()
unfoldable pub lstrip : Text → Text
unfolding drop_while is_space
lstrip s = drop_while is_space s

-- s.rstrip()
unfoldable pub rstrip : Text → Text
unfolding drop_while is_space
rstrip s = reverse (drop_while is_space (reverse s))

-- s.strip()
unfoldable pub strip : Text → Text
unfolding drop_while is_space
strip s = reverse (drop_while is_space (reverse (drop_while is_space s)))

is_newline : ℕ → Bool
is_newline c = c == 0x0a || c == 0x0d

-- s.rstrip("\n\r")
unfoldable pub rstrip_newlines : Text → Text
unfolding drop_while is_newline
rstrip_newlines s = reverse (drop_while is_newline (reverse s))

-- s.replace(c, d) for two characters
unfoldable pub replace_char : ℕ → ℕ → Text → Text
replace_char c d = map (λ x. if x == c then d else x)

-- Adds a character to the first part.
push : ℕ → List Text → List Text
push c [] = (c ∷ []) ∷ []
push c (p ∷ ps) = (c ∷ p) ∷ ps

-- s.split(sep) for one character
unfoldable pub split_char : ℕ → Text → List Text
unfolding push
split_char sep [] = [] ∷ []
split_char sep (c ∷ s) = let rest = split_char sep s in if c == sep then [] ∷ rest else push c rest

-- sep.join(parts)
unfoldable pub join : Text → List Text → Text
join sep [] = []
join sep (p ∷ []) = p
join sep (p ∷ q ∷ ps) = p ++ sep ++ join sep (q ∷ ps)

-- s in parts
unfoldable pub elem : Text → List Text → Bool
unfolding text_eq
elem s [] = false
elem s (t ∷ ts) = text_eq s t || elem s ts

-- Python's `<` on texts: by code points.
unfoldable pub text_lt : Text → Text → Bool
text_lt [] [] = false
text_lt [] (d ∷ t) = true
text_lt (c ∷ s) [] = false
text_lt (c ∷ s) (d ∷ t) = ltb c d || (c == d && text_lt s t)

-- Adds a text to a sorted list without repetitions.
unfoldable pub insert_sorted : Text → List Text → List Text
unfolding text_lt
insert_sorted s [] = s ∷ []
insert_sorted s (t ∷ ts) =
    let rest = insert_sorted s ts in
    if text_eq s t then t ∷ ts else if text_lt s t then s ∷ t ∷ ts else t ∷ rest

-- sorted(set(texts))
unfoldable pub sorted_set : List Text → List Text
unfolding insert_sorted
sorted_set [] = []
sorted_set (s ∷ ss) = insert_sorted s (sorted_set ss)

-- len(texts) != len(set(texts))
unfoldable pub has_duplicate : List Text → Bool
unfolding elem
has_duplicate [] = false
has_duplicate (s ∷ ss) = elem s ss || has_duplicate ss

-- The texts of the first list that are not in the second: a difference of sets.
unfoldable pub without : List Text → List Text → List Text
unfolding elem
without [] ts = []
without (s ∷ ss) ts = let rest = without ss ts in if elem s ts then rest else s ∷ rest

-- str(n), with fuel; n + 1 is enough, since each round divides n by ten.
unfoldable pub str_fuel : ℕ → ℕ → Text
str_fuel zero n = []
str_fuel (suc fuel) n =
    let rest = str_fuel fuel (n / 10) in
    if ltb n 10 then (b'0' + n) ∷ [] else rest ++ ((b'0' + n % 10) ∷ [])

unfoldable pub str_nat : ℕ → Text
unfolding str_fuel
str_nat n = str_fuel (suc n) n
