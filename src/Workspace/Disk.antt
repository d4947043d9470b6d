-- ===== src/Workspace/Disk.antt =====
-- What the disk does with the program's writes. A write may fail before the file is opened, or
-- leave a part of the content behind.
use safepatch.Base.{Bool, Option, ◌≡◌, refl, ◌⊎◌, inl, inr}
use safepatch.Text.{Text}
use safepatch.Workspace.Tree.{Tree, file, put}

pub data OsFault : Type 0 where
  permission other_os : OsFault

pub data WriteOutcome : Type 0 where
  written : WriteOutcome
  refused : OsFault → WriteOutcome
  torn : OsFault → Text → WriteOutcome

-- The outcome of each operation, by its path; `write` and `restore` also take the content.
pub record Disk : Type 0 where
  pub make_directory : Text → Option OsFault
  pub write : Text → Text → WriteOutcome
  pub restore : Text → Text → WriteOutcome
  pub unlink : Text → Bool
  pub remove_tree : Text → Bool

-- The tree behind a write.
unfoldable pub after_write : WriteOutcome → Tree → Text → Text → Tree
unfolding put
after_write written t key content = put t key (file content)
after_write (refused f) t key content = t
after_write (torn f partial) t key content = put t key (file partial)

pub outcome_cases :
    (o : WriteOutcome)
    → (o ≡ written)
      ⊎ (((f : OsFault) × (o ≡ refused f))
          ⊎ ((f : OsFault) × (partial : Text) × (o ≡ torn f partial)))
outcome_cases written = inl refl
outcome_cases (refused f) = inr (inl (f, refl))
outcome_cases (torn f partial) = inr (inr (f, partial, refl))
