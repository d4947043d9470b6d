-- ===== src/Repository/Search.antt =====
-- search_text of code_agent/repository/search.py, on the Python files that list_py_files returns,
-- each with its text, or `none` if it is not UTF-8.
pub mod Hits
use safepatch.Base.{
  ℕ, zero, suc, ◌-◌, Bool, true, false, Option, none, some, List, [], ◌∷◌, ◌++◌, length, leb,
  if◌then◌else◌,
}
use safepatch.Text.{Text, text_eq, contains, splitlines, strip}

pub record TextHit : Type 0 where
  pub path : Text
  pub line : ℕ
  pub text : Text

-- How a loop ends: at its end, or by `return hits`.
pub data Scan : Type 0 where
  scanned returned : List TextHit → Scan

module _ (query : Text) (max_hits : ℕ) where
  -- A line that has the query is a hit.
  unfoldable pub add_hit : TextHit → List TextHit → Scan
  add_hit hit hits =
      let more = hits ++ (hit ∷ []) in
      if leb max_hits (length more) then returned more else scanned more

  -- The loop over the lines of a file.
  unfoldable pub scan_lines : Text → ℕ → List Text → List TextHit → Scan
  unfolding add_hit contains strip
  scan_lines path i [] hits = scanned hits
  scan_lines path i (l ∷ ls) hits =
      if contains l query
      then elim (add_hit (record { path = path; line = i; text = strip l }) hits) [
        | returned found ↦ returned found
        | scanned more ↦ scan_lines path (suc i) ls more
      ]
      else scan_lines path (suc i) ls hits

  unfoldable pub scan_file : Text × Option Text → List TextHit → Scan
  unfolding scan_lines splitlines
  scan_file (path, none) hits = scanned hits
  scan_file (path, some content) hits = scan_lines path 1 (splitlines content) hits

  unfoldable pub scan_files : List (Text × Option Text) → List TextHit → Scan
  unfolding scan_file
  scan_files [] hits = scanned hits
  scan_files (f ∷ fs) hits = elim (scan_file f hits) [
    | returned found ↦ returned found
    | scanned more ↦ scan_files fs more
  ]

unfoldable pub hits_of : Scan → List TextHit
hits_of (scanned hits) = hits
hits_of (returned hits) = hits

unfoldable pub search_text : List (Text × Option Text) → Text → ℕ → List TextHit
unfolding hits_of scan_files
search_text files query max_hits =
    if text_eq query [] then [] else hits_of (scan_files query max_hits files [])
