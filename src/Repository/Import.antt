-- ===== src/Repository/Import.antt =====
-- The measures and limits of code_agent/repository/workspace.py: _measure_importable_tree and
-- import_repository.
pub mod Limits
use safepatch.Base.{
  ℕ, suc, ◌+◌, ◌*◌, Bool, true, false, not, ◌&&◌, ◌||◌, Option, none, some, List, [], ◌∷◌, ◌++◌,
  ltb, if◌then◌else◌, Result, ok, err, ◌>>=◌,
}
use safepatch.Text.{Text, codes, elem}

-- What a directory holds under a name: a regular file with its size, a symbolic link, something
-- else that is no directory, or a directory.
mutual
  pub data Entry : Type 0 where
    regular : ℕ → Entry
    symlink special : Entry
    directory : Entries → Entry

  pub data Entries : Type 0 where
    no_entries : Entries
    entry : Text → Entry → Entries → Entries

-- IGNORE_DIR_NAMES
abbrev pub ignore_dir_names : List Text
ignore_dir_names =
    codes ".git"
    ∷ codes ".venv"
    ∷ codes "venv"
    ∷ codes "__pycache__"
    ∷ codes "node_modules"
    ∷ codes ".mypy_cache"
    ∷ codes ".pytest_cache"
    ∷ codes ".ruff_cache"
    ∷ codes "dist"
    ∷ codes "build"
    ∷ codes ".eggs"
    ∷ codes ".tox"
    ∷ codes ".idea"
    ∷ codes ".vscode"
    ∷ []

-- name in IGNORE_DIR_NAMES
unfoldable pub is_ignored : Text → Bool
unfolding elem
is_ignored name = elem name ignore_dir_names

abbrev pub max_files : ℕ
max_files = 500

abbrev pub max_total_bytes : ℕ
max_total_bytes = 5 * (1024 * 1024)

-- The two texts of the WorkspaceError about a limit, and that about the path.
pub data ImportError : Type 0 where
  too_many_files too_large no_repository : ImportError

-- file_count and total_bytes
abbrev pub Count : Type 0
Count = ℕ × ℕ

-- The checks behind each file.
unfoldable pub count_file : ℕ → Count → Result ImportError Count
count_file size (files, bytes) =
    if ltb max_files (suc files)
    then err too_many_files
    else if ltb max_total_bytes (bytes + size)
    then err too_large
    else ok (suc files, bytes + size)

-- The files of a directory, in the order in which they are listed.
unfoldable pub file_sizes : Entries → List ℕ
file_sizes no_entries = []
file_sizes (entry name (regular size) es) = size ∷ file_sizes es
file_sizes (entry name _ es) = file_sizes es

unfoldable pub count_files : List ℕ → Count → Result ImportError Count
unfolding count_file
count_files [] c = ok c
count_files (size ∷ sizes) c = count_file size c >>= λ c'. count_files sizes c'

-- The directories below one, each with its files first.
unfoldable pub measure_directories : Entries → Count → Result ImportError Count
unfolding count_files file_sizes is_ignored
measure_directories no_entries c = ok c
measure_directories (entry name (directory es) rest) c =
    if is_ignored name
    then measure_directories rest c
    else (count_files (file_sizes es) c >>= λ c'.
        measure_directories es c' >>= λ c''. measure_directories rest c'')
measure_directories (entry name (regular size) rest) c = measure_directories rest c
measure_directories (entry name symlink rest) c = measure_directories rest c
measure_directories (entry name special rest) c = measure_directories rest c

-- _measure_importable_tree: os.walk, topdown, into the directories that are kept
unfoldable pub measure : Entries → Count → Result ImportError Count
unfolding count_files file_sizes measure_directories
measure es c = count_files (file_sizes es) c >>= λ c'. measure_directories es c'

-- What copytree copies: no name of the list, and no symbolic link.
unfoldable mutual
  unfolding is_ignored

  pub copy_entry : Entry → Option Entry
  copy_entry (regular size) = some (regular size)
  copy_entry symlink = none
  copy_entry special = some special
  copy_entry (directory es) = some (directory (copy_entries es))

  pub copy_entries : Entries → Entries
  copy_entries no_entries = no_entries
  copy_entries (entry name e es) =
      if is_ignored name then copy_entries es else elim (copy_entry e) [
        | none ↦ copy_entries es
        | some e' ↦ entry name e' (copy_entries es)
      ]

-- The regular files below a directory, for root.rglob("*"); symbolic links are unlinked.
unfoldable mutual
  pub sizes_of : Entry → List ℕ
  sizes_of (regular size) = size ∷ []
  sizes_of symlink = []
  sizes_of special = []
  sizes_of (directory es) = all_sizes es

  pub all_sizes : Entries → List ℕ
  all_sizes no_entries = []
  all_sizes (entry name e es) = sizes_of e ++ all_sizes es

-- import_repository: what is found at the path first, `none` where that is no directory, and what
-- is found there when it is copied; the count of files and bytes, with the working copy
unfoldable pub import_repository : Option Entries → Entries → Result ImportError (Count × Entries)
unfolding measure copy_entries count_files all_sizes
import_repository none later = err no_repository
import_repository (some source) later = measure source (0, 0) >>= λ counted.
    count_files (all_sizes (copy_entries later)) (0, 0) >>= λ copied.
    ok (counted, copy_entries later)
