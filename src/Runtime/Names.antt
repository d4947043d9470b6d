-- ===== src/Runtime/Names.antt =====
-- allocate_container_name of code_agent/runtime/docker_pytest.py. The text of a new UUID is a
-- parameter.
pub mod Valid
use safepatch.Base.{
  ℕ, suc, Bool, true, false, ◌&&◌, ◌||◌, Option, none, some, List, [], ◌∷◌, ◌++◌, all, length, leb,
  ◌==◌, if◌then◌else◌,
}
use safepatch.Text.{Text, codes}

-- [a-zA-Z0-9] and [a-zA-Z0-9_.-]
unfoldable pub is_alphanumeric : ℕ → Bool
is_alphanumeric c =
    (leb b'a' c && leb c b'z') || ((leb b'A' c && leb c b'Z') || (leb b'0' c && leb c b'9'))

unfoldable pub is_name_char : ℕ → Bool
unfolding is_alphanumeric
is_name_char c = is_alphanumeric c || (c == b'_' || (c == b'.' || c == b'-'))

-- _CONTAINER_NAME_RE.fullmatch(name)
unfoldable pub is_container_name : Text → Bool
unfolding is_alphanumeric is_name_char
is_container_name [] = false
is_container_name (c ∷ s) = is_alphanumeric c && (leb (length s) 62 && all is_name_char s)

-- _CONTAINER_NAME_PREFIX
abbrev pub container_name_prefix : Text
container_name_prefix = codes "safepatch-pytest-"

unfoldable pub allocate_container_name : Text → Option Text → Text
unfolding is_container_name
allocate_container_name uuid none = container_name_prefix ++ uuid
allocate_container_name uuid (some explicit) =
    if is_container_name explicit then explicit else container_name_prefix ++ uuid
