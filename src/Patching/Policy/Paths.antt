-- ===== src/Patching/Policy/Paths.antt =====
-- The path tests of code_agent/patching/validator.py and test_integrity.py. `Path` is pathlib's
-- on a POSIX host.
use safepatch.Base.{
  Bool, false, not, ◌&&◌, ◌||◌, List, [], ◌∷◌, ◌++◌, filter, any, ◌==◌, if◌then◌else◌,
}
use safepatch.Text.{
  Text, codes, text_eq, starts_with, ends_with, contains, strip, replace_char, split_char, join,
  elem,
}

is_part : Text → Bool
is_part p = not (text_eq p []) && not (text_eq p (codes "."))

-- The components of a POSIX path, less the root.
unfoldable pub parts : Text → List Text
unfolding is_part
parts path = filter is_part (split_char b'/' path)

-- The root of a POSIX path: exactly two slashes are kept.
unfoldable pub root : Text → Text
root path =
    if starts_with path (codes "///")
    then codes "/"
    else if starts_with path (codes "//")
    then codes "//"
    else if starts_with path (codes "/")
    then codes "/"
    else []

dot_if_empty : Text → Text
dot_if_empty [] = codes "."
dot_if_empty (c ∷ s) = c ∷ s

-- PurePosixPath(path).as_posix()
unfoldable pub as_posix : Text → Text
unfolding parts root dot_if_empty
as_posix path = dot_if_empty (root path ++ join (codes "/") (parts path))

last_part : List Text → Text
last_part [] = []
last_part (p ∷ []) = p
last_part (p ∷ q ∷ ps) = last_part (q ∷ ps)

-- Path(path).name
unfoldable pub name : Text → Text
unfolding parts last_part
name path = last_part (parts path)

-- while normalized.startswith("./"): normalized = normalized[2:]
unfoldable pub strip_dot_slash : Text → Text
strip_dot_slash [] = []
strip_dot_slash (c ∷ []) = c ∷ []
strip_dot_slash (c ∷ d ∷ s) =
    let rest = strip_dot_slash s in if c == b'.' && d == b'/' then rest else c ∷ d ∷ s

-- path.replace("\\", "/")
unfoldable pub slashes : Text → Text
slashes = replace_char 0x5c b'/'

-- _normalize_patch_path
unfoldable pub normalize_patch_path : Text → Text
unfolding as_posix strip_dot_slash slashes
normalize_patch_path path = as_posix (strip_dot_slash (slashes (strip path)))

-- The absolute paths of PureWindowsPath that do not begin with a slash: "c:/...".
drive_rooted : Text → Bool
drive_rooted (c ∷ d ∷ e ∷ s) = d == b':' && (e == b'/' || e == 0x5c)
drive_rooted _ = false

-- PurePosixPath(path).is_absolute() or PureWindowsPath(path).is_absolute()
-- or ".." in PurePosixPath(path).parts; a Windows path "\\host\share" is not met, since
-- backslashes are replaced before.
unfoldable pub escapes : Text → Bool
unfolding drive_rooted parts
escapes path = starts_with path (codes "/") || (drive_rooted path || elem (codes "..") (parts path))

-- FORBIDDEN_EXACT
abbrev pub forbidden_exact : List Text
forbidden_exact =
    codes "dockerfile"
    ∷ codes "requirements.txt"
    ∷ codes "pyproject.toml"
    ∷ codes "poetry.lock"
    ∷ codes "pipfile"
    ∷ codes "pipfile.lock"
    ∷ codes "uv.lock"
    ∷ codes "setup.py"
    ∷ codes "setup.cfg"
    ∷ []

-- FORBIDDEN_DIR_PREFIXES
abbrev pub forbidden_dir_prefixes : List Text
forbidden_dir_prefixes = codes ".git/" ∷ codes ".github/" ∷ codes ".gitlab-ci" ∷ []

-- CONFIG_NAMES
abbrev pub config_names : List Text
config_names =
    codes "pytest.ini"
    ∷ codes "tox.ini"
    ∷ codes "setup.cfg"
    ∷ codes "pyproject.toml"
    ∷ codes "conftest.py"
    ∷ []

-- The tests of _is_forbidden_path on the lower-case path and its name.
unfoldable pub forbidden_lowered : Text → Text → Bool
forbidden_lowered lowered base =
    text_eq lowered (codes ".git")
    || (starts_with lowered (codes ".git/")
        || (text_eq base (codes ".env")
            || (starts_with base (codes ".env.")
                || (text_eq base (codes "dockerfile")
                    || (starts_with base (codes "dockerfile.")
                        || (any (starts_with lowered) forbidden_dir_prefixes
                            || (elem base forbidden_exact
                                || ((starts_with base (codes "requirements-")
                                      && ends_with base (codes ".txt"))
                                    || ends_with lowered (codes ".gitlab-ci.yml")))))))))

-- The functions below take `str.lower`.
module _ (lower : Text → Text) where
  unfoldable pub is_pytest_config_path : Text → Bool
  unfolding slashes name
  is_pytest_config_path path = elem (lower (name (slashes path))) config_names

  -- _is_forbidden_path: whether it returns a message
  unfoldable pub is_forbidden_path : Text → Bool
  unfolding is_pytest_config_path forbidden_lowered
  is_forbidden_path path =
      forbidden_lowered (lower (slashes path)) (name (lower (slashes path)))
      || is_pytest_config_path path

unfoldable pub is_test_path : Text → Bool
unfolding slashes name
is_test_path path =
    let norm = slashes path in
    let base = name norm in
    text_eq base (codes "conftest.py")
    || ((starts_with base (codes "test_") && ends_with base (codes ".py"))
        || ((contains (codes "/" ++ norm) (codes "/tests/") || starts_with norm (codes "tests/"))
            && ends_with base (codes ".py")))

unfoldable pub is_allowed_new_test_path : Text → Bool
unfolding slashes name
is_allowed_new_test_path path =
    let norm = slashes path in
    starts_with norm (codes "tests/")
    && (starts_with (name norm) (codes "test_") && ends_with norm (codes ".py"))

-- _is_root_test_name
unfoldable pub is_root_test_name : Text → Bool
unfolding slashes name
is_root_test_name path =
    let norm = slashes path in
    not (contains norm (codes "/"))
    && (starts_with (name norm) (codes "test_") && ends_with (name norm) (codes ".py"))
