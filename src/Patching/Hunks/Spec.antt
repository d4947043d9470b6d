-- ===== src/Patching/Hunks/Spec.antt =====
-- What a list of hunks means for the lines of a file, without indices or loops.
use safepatch.Base.{ℕ, ◌⊎◌, ◌+◌, ◌-◌, ◌<◌, List, [], ◌∷◌, ◌++◌, ◌≡◌, take, drop, length}
use safepatch.Patching.Hunks.Match.{hunk_old_lines, exact_block_candidates}
use safepatch.Text.{Text, rstrip_newlines}
use safepatch.Patching.Hunks.Parse.{Tag, context, deletion, addition, Hunk}

-- `Replaces newline ls old new`: the tagged lines `ls` turn the block `old` into `new`. Kept lines
-- stay as they are in the file, up to their line ends equal to the diff's.
pub data Replaces (newline : Text) : List (Tag × Text) → List Text → List Text → Type 0 where
  done : Replaces newline [] [] []
  keep :
      {line content : Text} {ls : List (Tag × Text)} {old new : List Text}
      → rstrip_newlines line ≡ rstrip_newlines content
      → Replaces newline ls old new
      → Replaces newline ((context, content) ∷ ls) (line ∷ old) (line ∷ new)
  remove :
      {line content : Text} {ls : List (Tag × Text)} {old new : List Text}
      → rstrip_newlines line ≡ rstrip_newlines content
      → Replaces newline ls old new
      → Replaces newline ((deletion, content) ∷ ls) (line ∷ old) new
  add :
      {content : Text} {ls : List (Tag × Text)} {old new : List Text}
      → Replaces newline ls old new
      → Replaces newline ((addition, content) ∷ ls) old ((rstrip_newlines content ++ newline) ∷ new)

-- `Patched newline k hs lines source out`: `source` holds the lines behind the first `k`; the
-- hunks `hs`, applied at the line numbers `lines`, turn it into `out`. Each hunk starts behind the
-- end of the one before it, and the lines between two hunks are copied.
pub data Patched (newline : Text) : ℕ → List Hunk → List ℕ → List Text → List Text → Type 0 where
  rest : {k : ℕ} {source : List Text} → Patched newline k [] [] source source
  hunk :
      {k line : ℕ} {h : Hunk} {hs : List Hunk} {lines : List ℕ}
      {source old new source' out : List Text}
      → k < line
      → drop (line - 1 - k) source ≡ old ++ source'
      → Replaces newline h.lines old new
      → Patched newline (line - 1 + length old) hs lines source' out
      → Patched newline k
          (h ∷ hs)
          (line ∷ lines)
          source
          (take (line - 1 - k) source ++ (new ++ out))

-- A hunk is applied at the line of its header, or at the only line where its old lines stand.
abbrev pub Placed : List Text → List Hunk → List ℕ → Type 0
Placed source [] [] = Unit
Placed source (h ∷ hs) (line ∷ lines) =
    ((line ≡ h.old_start) ⊎ (exact_block_candidates source (hunk_old_lines h) ≡ line ∷ []))
    × Placed source hs lines
Placed source _ _ = ⊥
