-- ===== src/Text/Lines.antt =====
-- `str.splitlines`, with and without the ends of the lines.
use safepatch.Base.{ℕ, Bool, false, ◌&&◌, List, [], ◌∷◌, ◌++◌, map, ◌==◌, if◌then◌else◌}
use safepatch.Text.Chars.{Text, is_line_break}

unfoldable pub begins_newline : Text → Bool
begins_newline [] = false
begins_newline (c ∷ s) = c == 0x0a

-- Adds a character to the first line.
unfoldable pub push_line : ℕ → List Text → List Text
push_line c [] = (c ∷ []) ∷ []
push_line c (l ∷ ls) = (c ∷ l) ∷ ls

-- s.splitlines(keepends=True): "\r\n" is one line end.
unfoldable pub splitlines_keep : Text → List Text
unfolding is_line_break begins_newline push_line
splitlines_keep [] = []
splitlines_keep (c ∷ s) =
    let rest = splitlines_keep s in
    if is_line_break c
    then (if c == 0x0d && begins_newline s then push_line c rest else (c ∷ []) ∷ rest)
    else push_line c rest

-- A line without its end.
chomp : Text → Text
unfolding is_line_break
chomp [] = []
chomp (c ∷ []) = if is_line_break c then [] else c ∷ []
chomp (c ∷ d ∷ []) =
    if c == 0x0d && d == 0x0a then [] else if is_line_break d then c ∷ [] else c ∷ d ∷ []
chomp (c ∷ d ∷ e ∷ s) = c ∷ chomp (d ∷ e ∷ s)

-- s.splitlines()
unfoldable pub splitlines : Text → List Text
unfolding splitlines_keep chomp
splitlines s = map chomp (splitlines_keep s)

-- "".join(parts)
unfoldable pub concat : List Text → Text
concat [] = []
concat (l ∷ ls) = l ++ concat ls
