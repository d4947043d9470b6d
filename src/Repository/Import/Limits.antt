-- ===== src/Repository/Import/Limits.antt =====
-- What an import has measured, and the limits that the working copy keeps.
use safepatch.Base.{ℕ, ◌+◌, ◌≤◌, List, [], ◌∷◌, ◌++◌, ◌≡◌, arith, length, if◌then◌else◌}
use safepatch.Repository.Import.{
  regular, symlink, special, directory, Entries, no_entries, entry, is_ignored, max_files,
  max_total_bytes, Count, file_sizes, copy_entries, all_sizes,
}

-- The total of the sizes.
abbrev pub total : List ℕ → ℕ
total [] = 0
total (n ∷ ns) = n + total ns

total-append : (xs ys : List ℕ) → total (xs ++ ys) ≡ total xs + total ys
total-append [] ys = omega arith
total-append (x ∷ xs) ys = let e = total-append xs ys in omega arith

-- The sizes of the files that may be imported: below no directory of the list and behind no
-- symbolic link, those of a directory in front of those of its directories.
abbrev importable_below : Entries → List ℕ
importable_below no_entries = []
importable_below (entry name (directory es) rest) =
    if is_ignored name
    then importable_below rest
    else file_sizes es ++ (importable_below es ++ importable_below rest)
importable_below (entry name (regular size) rest) = importable_below rest
importable_below (entry name symlink rest) = importable_below rest
importable_below (entry name special rest) = importable_below rest

abbrev pub importable : Entries → List ℕ
importable es = file_sizes es ++ importable_below es

-- What an imported working copy is.
pub record IsImported (source later copy : Entries) (counted : Count) : Type 0 where
  pub files : counted.0 ≡ length (importable source)
  pub bytes : counted.1 ≡ total (importable source)
  pub few_files : counted.0 ≤ max_files
  pub few_bytes : counted.1 ≤ max_total_bytes
  pub copied : copy ≡ copy_entries later
  pub few_files_copied : length (all_sizes copy) ≤ max_files
  pub few_bytes_copied : total (all_sizes copy) ≤ max_total_bytes
