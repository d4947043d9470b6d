-- ===== src/Workspace/Platform.antt =====
-- What the program takes from the operating system and from Python's library: the resolution of
-- paths, the digest, lower case, and the listing of a directory.
use safepatch.Base.{Option, List}
use safepatch.Text.{Text}
use safepatch.Workspace.Tree.{Tree}

pub record Platform : Type 0 where
  -- (workspace_root / path).resolve() as a key of the tree; `none` where relative_to raises
  pub resolve : Text → Option Text
  -- hashlib.sha256(...).hexdigest() of a text's bytes
  pub sha256 : Text → Text
  -- str.lower
  pub lower : Text → Text
  -- sorted(root.rglob("*")), by keys, which also tells what iterdir lists; the working copy holds no
  -- symbolic links
  pub listing : Tree → List Text
