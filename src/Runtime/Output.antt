-- ===== src/Runtime/Output.antt =====
-- What docker_pytest.py reads in the output of pytest: _extract_failed_tests and
-- _extract_traceback_summary of code_agent/runtime/docker_pytest.py.
pub mod Distinct
use safepatch.Base.{
  ℕ, zero, suc, ◌+◌, ◌-◌, Bool, true, false, not, ◌&&◌, ◌||◌, Option, none, some, List, [], ◌∷◌,
  ◌++◌, map, reverse, take, drop, length, ◌==◌, if◌then◌else◌,
}
use safepatch.Text.{Text, codes, is_space, starts_with, contains, splitlines, lstrip, join, elem}

-- The longest prefix without white space, and the rest.
unfoldable pub token : Text → Text × Text
unfolding is_space
token [] = ([], [])
token (c ∷ s) = let (w, rest) = token s in if is_space c then ([], c ∷ s) else (c ∷ w, rest)

-- What FAILED_TEST_RE needs behind the name: white space and "-", or the end of the line.
unfoldable pub ends_name : Text → Bool
unfolding is_space lstrip starts_with
ends_name [] = true
ends_name (c ∷ s) = c == 0x0a || (is_space c && starts_with (lstrip s) (codes "-"))

-- How many characters a match takes behind the name: up to the "-" if it is there.
unfoldable pub tail_length : Text → ℕ
unfolding lstrip starts_with
tail_length s =
    let rest = lstrip s in if starts_with rest (codes "-") then suc (length s - length rest) else 0

-- A match of FAILED_TEST_RE behind its first word: the name, and how far the match goes.
unfoldable pub match_name : Text → Option (Text × ℕ)
unfolding token ends_name tail_length lstrip is_space
match_name [] = none
match_name (c ∷ s) =
    let name = (token (lstrip s)).0 in
    let rest = (token (lstrip s)).1 in
    if not (is_space c) then none else elim name [
      | [] ↦ none
      | d ∷ w ↦
          if ends_name rest
          then some (d ∷ w, suc (length s) - length rest + tail_length rest)
          else none
    ]

-- A match at the start of a line, with its length.
unfoldable pub match_line : Text → Option (Text × ℕ)
unfolding match_name starts_with
match_line s =
    if starts_with s (codes "FAILED")
    then elim (match_name (drop 6 s)) [ none ↦ none | some (name, n) ↦ some (name, 6 + n) ]
    else if starts_with s (codes "ERROR")
    then elim (match_name (drop 5 s)) [ none ↦ none | some (name, n) ↦ some (name, 5 + n) ]
    else none

unfoldable pub match_at : Bool → Text → Option (Text × ℕ)
unfolding match_line
match_at at_start s = if at_start then match_line s else none

-- FAILED_TEST_RE.finditer: the first number counts the characters of a match that are left, the
-- Boolean tells whether a line starts here.
unfoldable pub find_names : ℕ → Bool → Text → List Text
unfolding match_at
find_names n at_start [] = []
find_names (suc n) at_start (c ∷ s) = find_names n (c == 0x0a) s
find_names zero at_start (c ∷ s) = elim (match_at at_start (c ∷ s)) [
  | none ↦ find_names 0 (c == 0x0a) s
  | some (name, n) ↦ name ∷ find_names (n - 1) (c == 0x0a) s
]

-- line.split()[1]; `none` where it raises
unfoldable pub second_word : Text → Option Text
unfolding token lstrip
second_word line = elim ((token (lstrip (token (lstrip line)).1)).0) [
  | [] ↦ none
  | c ∷ w ↦ some (c ∷ w)
]

-- The loop over the lines that start with "FAILED ", where the expression finds none.
unfoldable pub words_of : List Text → Option (List Text)
unfolding second_word starts_with
words_of [] = some []
words_of (line ∷ lines) =
    let rest = words_of lines in
    if starts_with line (codes "FAILED ")
    then elim (second_word line) [
      | none ↦ none
      | some w ↦ elim rest [ none ↦ none | some ws ↦ some (w ∷ ws) ]
    ]
    else rest

unfoldable pub failed_names : Text → Option (List Text)
unfolding find_names words_of splitlines
failed_names text = elim (find_names 0 true text) [
  | [] ↦ words_of (splitlines text)
  | name ∷ names ↦ some (name ∷ names)
]

-- The names that were not seen before.
unfoldable pub unseen : List Text → List Text → List Text
unfolding elem
unseen seen [] = []
unseen seen (n ∷ names) = if elem n seen then unseen seen names else n ∷ unseen (n ∷ seen) names

-- _extract_failed_tests; `none` where it raises
unfoldable pub extract_failed_tests : Text → Option (List Text)
unfolding failed_names unseen
extract_failed_tests text = elim (failed_names text) [
  | none ↦ none
  | some names ↦ some (unseen [] names)
]

-- From the first line with "FAILURES" on.
unfoldable pub failures : List Text → Option (List Text)
unfolding contains
failures [] = none
failures (line ∷ lines) =
    let rest = failures lines in
    if contains line (codes "FAILURES") then some (line ∷ lines) else rest

-- lines[-40:]
unfoldable pub last_lines : ℕ → List Text → List Text
last_lines n lines = reverse (take n (reverse lines))

unfoldable pub summary_lines : List Text → List Text
unfolding failures last_lines
summary_lines lines = elim (failures lines) [
  | none ↦ last_lines 40 lines
  | some from ↦ take 80 from
]

-- _extract_traceback_summary
unfoldable pub extract_traceback_summary : Text → Text
unfolding summary_lines splitlines join
extract_traceback_summary text = join (codes "\n") (summary_lines (splitlines text))
