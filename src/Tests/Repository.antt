-- ===== src/Tests/Repository.antt =====
-- The import and the search at a small repository.
use safepatch.Base.{none, some, List, [], ◌∷◌, ◌≡◌, refl, arith, Option, take}
use safepatch.Text.{Text, codes}
use safepatch.Repository.Import.{Entries, no_entries, entry, regular, symlink, directory}
use safepatch.Repository.Search.{search_text}
use safepatch.Repository.Search.Hits.{all_hits, search_text-all_hits}
use safepatch.Tests.World.{original, patched}

abbrev repository : Entries
repository = entry (codes "a.py") (regular 3) (
    entry (codes ".git") (directory (entry (codes "HEAD") (regular 9) no_entries)) (
      entry (codes "link") symlink
        (entry (codes "src") (directory (entry (codes "b.py") (regular 4) no_entries)) no_entries)))

abbrev copied : Entries
copied =
    entry (codes "a.py") (regular 3)
      (entry (codes "src") (directory (entry (codes "b.py") (regular 4) no_entries)) no_entries)

abbrev sources : List (Text × Option Text)
sources = (codes "a.py", some original) ∷ (codes "b.py", none) ∷ (codes "c.py", some patched) ∷ []

search_text-all_hits_example :
    search_text sources (codes "x") 1 ≡ take 1 (all_hits (codes "x") sources)
unfolding safepatch.Text.text_eq
search_text-all_hits_example = search_text-all_hits sources (codes "x") 1 refl (omega arith)
