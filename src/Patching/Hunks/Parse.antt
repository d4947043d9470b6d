-- ===== src/Patching/Hunks/Parse.antt =====
-- parse_hunks: the headers and the tagged lines of the body of one file's diff.
use safepatch.Base.{
  ℕ, ◌+◌, ◌*◌, not, ◌&&◌, Option, none, some, List, [], ◌∷◌, ◌++◌, drop, length, ◌==◌,
  if◌then◌else◌,
}
use safepatch.Text.{Text, codes, digit_value, starts_with, splitlines}

pub data Tag : Type 0 where
  context deletion addition : Tag

pub record Hunk : Type 0 where
  pub old_start : ℕ
  pub old_count : ℕ
  pub new_start : ℕ
  pub new_count : ℕ
  pub lines : List (Tag × Text)

-- `\d*` behind a number already read.
unfoldable pub digits : ℕ → Text → ℕ × Text
digits n [] = (n, [])
digits n (c ∷ s) = elim (digit_value c) [ none ↦ (n, c ∷ s) | some d ↦ digits (n * 10 + d) s ]

-- `\d+`
unfoldable pub number : Text → Option (ℕ × Text)
unfolding digits
number [] = none
number (c ∷ s) = elim (digit_value c) [ none ↦ none | some d ↦ some (digits d s) ]

-- `(?:,(\d+))?`, with the default "1"
unfoldable pub count : Text → ℕ × Text
unfolding number
count [] = (1, [])
count (c ∷ s) =
    if c == b',' then (elim (number s) [ none ↦ (1, c ∷ s) | some r ↦ r ]) else (1, c ∷ s)

-- A literal part of the pattern.
unfoldable pub expect : Text → Text → Option Text
unfolding starts_with
expect p s = if starts_with s p then some (drop (length p) s) else none

infixl 5 ◌>>=◌
abbrev ◌>>=◌ : {A B : Type 0} → Option A → (A → Option B) → Option B
none >>= f = none
some a >>= f = f a

-- HUNK_HEADER.match(line): no two ways to match, so the pattern is read from left to right.
unfoldable pub parse_header : Text → Option Hunk
unfolding number count expect
parse_header line = do
  s0 ← expect (codes "@@ -") line
  (old_start, s1) ← number s0
  let (old_count, s2) = count s1
  s3 ← expect (codes " +") s2
  (new_start, s4) ← number s3
  let (new_count, s5) = count s4
  _ ← expect (codes " @@") s5
  some (record {
    old_start = old_start;
    old_count = old_count;
    new_start = new_start;
    new_count = new_count;
    lines = [];
  })

-- The tagged line of a hunk's body; `none` for a line that is skipped.
unfoldable pub parse_line : Text → Option (Tag × Text)
unfolding starts_with
parse_line line =
    if starts_with line (codes "+") && not (starts_with line (codes "+++"))
    then some (addition, drop 1 line)
    else if starts_with line (codes "-") && not (starts_with line (codes "---"))
    then some (deletion, drop 1 line)
    else if starts_with line (codes " ")
    then some (context, drop 1 line)
    else none

unfoldable pub close_hunk : List Hunk → Option Hunk → List Hunk
close_hunk hunks none = hunks
close_hunk hunks (some h) = hunks ++ h ∷ []

unfoldable pub add_line : Option Hunk → Option (Tag × Text) → Option Hunk
add_line none l = none
add_line (some h) none = some h
add_line (some h) (some l) = some (record h { lines = h.lines ++ l ∷ [] })

-- The loop over the lines, with the variables `hunks` and `current`.
unfoldable pub parse_lines : List Hunk → Option Hunk → List Text → List Hunk
unfolding parse_header close_hunk add_line parse_line
parse_lines hunks current [] = close_hunk hunks current
parse_lines hunks current (line ∷ rest) = elim (parse_header line) [
  | some h ↦ parse_lines (close_hunk hunks current) (some h) rest
  | none ↦ parse_lines hunks (add_line current (parse_line line)) rest
]

unfoldable pub parse_hunks : Text → List Hunk
unfolding parse_lines splitlines
parse_hunks body = parse_lines [] none (splitlines body)
