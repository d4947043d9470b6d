-- ===== src/Patching/Hashes.antt =====
-- code_agent/patching/hashes.py: the digests to which an approval is bound.
use safepatch.Base.{List, [], ◌∷◌, ◌++◌, any, if◌then◌else◌}
use safepatch.Text.{Text, codes, elem, split_char}
use safepatch.Workspace.Tree.{Node, Tree, file, opaque}
use safepatch.Workspace.Platform.{Platform}

-- _SKIP_DIR_NAMES
abbrev pub skip_dir_names : List Text
skip_dir_names = codes "__pycache__" ∷ codes ".pytest_cache" ∷ []

unfoldable pub patch_hash : Platform → Text → Text
patch_hash platform unified_diff = platform.sha256 unified_diff

module _ (platform : Platform) (tree : Tree) where
  -- What one path adds to the digest: nothing, if it is no regular file.
  unfoldable pub tree_entry : Text → Node → Text
  tree_entry rel (file c) = rel ++ (0 ∷ platform.sha256 c ++ (0x0a ∷ []))
  tree_entry rel (opaque bytes) = rel ++ (0 ∷ platform.sha256 bytes ++ (0x0a ∷ []))
  tree_entry rel _ = []

  unfoldable pub tree_entries : List Text → Text
  unfolding tree_entry
  tree_entries [] = []
  tree_entries (rel ∷ rest) =
      let later = tree_entries rest in
      if any (λ part. elem part skip_dir_names) (split_char b'/' rel)
      then later
      else tree_entry rel (tree rel) ++ later

  unfoldable pub working_tree_hash : Text
  unfolding tree_entries
  working_tree_hash = platform.sha256 (tree_entries (platform.listing tree))
