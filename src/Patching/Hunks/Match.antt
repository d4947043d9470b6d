-- ===== src/Patching/Hunks/Match.antt =====
-- The exact comparison of a hunk's old lines with the lines of a file.
use safepatch.Base.{
  ℕ, zero, suc, ◌+◌, ◌-◌, Bool, true, false, ◌&&◌, none, some, List, [], ◌∷◌, map, length, take,
  drop, get_elem?, ltb, if◌then◌else◌,
}
use safepatch.Text.{Text, codes, text_eq, rstrip_newlines}
use safepatch.Patching.Hunks.Parse.{Tag, deletion, addition, Hunk}

-- _bare_lines
unfoldable pub bare_lines : List Text → List Text
bare_lines = map rstrip_newlines

-- The old side of a list of tagged lines.
unfoldable pub old_lines : List (Tag × Text) → List Text
old_lines [] = []
old_lines ((addition, content) ∷ ls) = old_lines ls
old_lines ((_, content) ∷ ls) = rstrip_newlines content ∷ old_lines ls

-- _hunk_old_lines
unfoldable pub hunk_old_lines : Hunk → List Text
unfolding old_lines
hunk_old_lines h = old_lines h.lines

-- Equality of two lists of texts.
unfoldable pub texts_eq : List Text → List Text → Bool
texts_eq [] [] = true
texts_eq (s ∷ ss) (t ∷ ts) = text_eq s t && texts_eq ss ts
texts_eq _ _ = false

-- _exact_block_matches; the start is given by its line number.
unfoldable pub exact_block_matches : List Text → ℕ → List Text → Bool
unfolding texts_eq bare_lines
exact_block_matches source zero expected = false
exact_block_matches source (suc start) expected =
    if ltb (length source) (start + length expected)
    then false
    else texts_eq (bare_lines (take (length expected) (drop start source))) expected

-- The starts among `n` line numbers from `line` on at which the block stands.
unfoldable pub candidates_from : List Text → List Text → ℕ → ℕ → List ℕ
unfolding exact_block_matches
candidates_from source expected zero line = []
candidates_from source expected (suc n) line =
    let rest = candidates_from source expected n (suc line) in
    if exact_block_matches source line expected then line ∷ rest else rest

-- _exact_block_candidates
unfoldable pub exact_block_candidates : List Text → List Text → List ℕ
unfolding candidates_from
exact_block_candidates source [] = []
exact_block_candidates source (e ∷ es) =
    candidates_from source (e ∷ es) (length source + 1 - length (e ∷ es)) 1

pub data ErrorKind : Type 0 where
  no_hunks context_mismatch deletion_mismatch ambiguous_context overlapping_hunk : ErrorKind

unfoldable pub mismatch_kind : Tag → ErrorKind
mismatch_kind deletion = deletion_mismatch
mismatch_kind _ = context_mismatch

unfoldable pub line_at : List Text → ℕ → Text
line_at source i = elim (get_elem? source i) [ some l ↦ rstrip_newlines l | none ↦ codes "<EOF>" ]

-- The loop of _first_hunk_mismatch: `requested` is the line for the last `return`.
unfoldable pub mismatch_from : List Text → ℕ → List (Tag × Text) → ℕ → ErrorKind × ℕ × Text × Text
unfolding line_at mismatch_kind
mismatch_from source requested [] i = (context_mismatch, requested, [], [])
mismatch_from source requested ((addition, content) ∷ ls) i = mismatch_from source requested ls i
mismatch_from source requested ((tag, content) ∷ ls) i =
    let rest = mismatch_from source requested ls (suc i) in
    if text_eq (line_at source i) (rstrip_newlines content)
    then rest
    else (mismatch_kind tag, i + 1, rstrip_newlines content, line_at source i)

-- _first_hunk_mismatch; `requested - 1` is max(requested_start, 0)
unfoldable pub first_hunk_mismatch : List Text → Hunk → ℕ → ErrorKind × ℕ × Text × Text
unfolding mismatch_from
first_hunk_mismatch source h requested = mismatch_from source requested h.lines (requested - 1)
