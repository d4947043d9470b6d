-- ===== src/EnvFile.antt =====
-- load_dotenv of code_agent/envfile.py, on the text of the file that was found. os.environ is an
-- association list.
pub mod Keeps
use safepatch.Base.{
  ℕ, suc, Bool, true, false, not, ◌&&◌, ◌||◌, Option, none, some, List, [], ◌∷◌, reverse, drop,
  ◌==◌, if◌then◌else◌,
}
use safepatch.Text.{Text, codes, text_eq, starts_with, strip, splitlines}
use safepatch.Patching.Policy.Proposal.{get}

abbrev pub Variables : Type 0
Variables = List (Text × Text)

-- line.split("=", 1), `none` without "="
unfoldable pub split_at : ℕ → Text → Option (Text × Text)
split_at c [] = none
split_at c (d ∷ s) =
    let rest = split_at c s in
    if d == c
    then some ([], s)
    else elim rest [ none ↦ none | some (key, value) ↦ some (d ∷ key, value) ]

-- s.strip(c)
unfoldable pub drop_char : ℕ → Text → Text
drop_char c [] = []
drop_char c (d ∷ s) = let rest = drop_char c s in if d == c then rest else d ∷ s

unfoldable pub strip_char : ℕ → Text → Text
unfolding drop_char
strip_char c s = reverse (drop_char c (reverse (drop_char c s)))

-- value.strip().strip("'").strip('"')
unfoldable pub value_of : Text → Text
unfolding strip strip_char
value_of s = strip_char 0x22 (strip_char 0x27 (strip s))

-- A line without `export `.
unfoldable pub without_export : Text → Text
unfolding starts_with strip
without_export line = if starts_with line (codes "export ") then strip (drop 7 line) else line

-- The key and the value of a line.
unfoldable pub pair_of : Text → Option (Text × Text)
unfolding split_at value_of strip without_export text_eq
pair_of line = elim (split_at b'=' (without_export line)) [
  | none ↦ none
  | some (key, value) ↦ if text_eq (strip key) [] then none else some (strip key, value_of value)
]

-- The key and the value that a line of the file has, if any.
unfoldable pub assignment : Text → Option (Text × Text)
unfolding strip starts_with pair_of text_eq
assignment raw =
    let line = strip raw in
    if text_eq line [] || starts_with line (codes "#") then none else pair_of line

-- key in os.environ and os.environ[key] != ""
unfoldable pub is_filled : Option Text → Bool
is_filled none = false
is_filled (some []) = false
is_filled (some (c ∷ s)) = true

-- os.environ[key] = value
unfoldable pub set_variable : Text → Text → Variables → Variables
set_variable key value [] = (key, value) ∷ []
set_variable key value ((k, v) ∷ env) =
    let rest = set_variable key value env in
    if text_eq k key then (k, value) ∷ env else (k, v) ∷ rest

module _ (override : Bool) where
  unfoldable pub assign : Option (Text × Text) → Variables → Variables
  unfolding is_filled get set_variable
  assign none env = env
  assign (some (key, value)) env =
      if not override && is_filled (get env key) then env else set_variable key value env

  unfoldable pub load_lines : List Text → Variables → Variables
  unfolding assign assignment
  load_lines [] env = env
  load_lines (raw ∷ lines) env = load_lines lines (assign (assignment raw) env)

  -- The loop over the lines of the file.
  unfoldable pub load_dotenv : Text → Variables → Variables
  unfolding load_lines splitlines
  load_dotenv content env = load_lines (splitlines content) env
