-- ===== src/Tests/World.antt =====
-- A small working copy, a disk that takes every write, and proposals for both.
use safepatch.Base.{true, false, if◌then◌else◌, none, some, List, [], ◌∷◌, ◌++◌, ◌||◌}
use safepatch.Text.{Text, codes, text_eq}
use safepatch.Workspace.Tree.{Tree, absent, file}
use safepatch.Workspace.Platform.{Platform}
use safepatch.Workspace.Disk.{Disk, written, refused, permission}
use safepatch.Patching.Policy.Proposal.{PatchProposal}
use safepatch.Patching.Policy.Integrity.{Scanner}

abbrev pub line : List Text → Text
line [] = []
line (l ∷ ls) = l ++ (0x0a ∷ line ls)

abbrev pub path : Text
path = codes "a.py"

abbrev pub second : Text
second = codes "b.py"

abbrev pub original : Text
original = line (codes "x" ∷ codes "y" ∷ [])

abbrev pub patched : Text
patched = line (codes "x" ∷ codes "z" ∷ [])

abbrev pub diff : Text
diff = line (
    codes "--- a/a.py"
    ∷ codes "+++ b/a.py"
    ∷ codes "@@ -1,2 +1,2 @@"
    ∷ codes " x"
    ∷ codes "-y"
    ∷ codes "+z"
    ∷ [])

abbrev pub diff_of_two : Text
diff_of_two =
    diff
    ++ line (
        codes "--- a/b.py"
        ∷ codes "+++ b/b.py"
        ∷ codes "@@ -2 +2 @@"
        ∷ codes "-y"
        ∷ codes "+w"
        ∷ [])

abbrev pub inserting : Text
inserting = line (codes "@@ -2,0 +2 @@" ∷ codes "+z" ∷ [])

abbrev pub inserting_at_zero : Text
inserting_at_zero = line (codes "@@ -0,0 +1 @@" ∷ codes "+z" ∷ [])

abbrev pub tree : Tree
tree k = if text_eq k path || text_eq k second then file original else absent

abbrev pub platform : Platform
platform = record {
  resolve = λ t. some t;
  sha256 = λ t. t;
  lower = λ t. t;
  listing = λ t. path ∷ [];
}

abbrev pub disk : Disk
disk = record {
  make_directory = λ k. none;
  write = λ k c. written;
  restore = λ k c. written;
  unlink = λ k. true;
  remove_tree = λ k. true;
}

abbrev pub scanner : Scanner
scanner = record {
  skips = λ t. false;
  asserts_true = λ t. false;
  asserts = λ t. true;
  parsed_tests = λ t. some true;
  matched_tests = λ t. true;
}

abbrev pub proposal : PatchProposal
proposal = record {
  diagnosis = [];
  affected_files = path ∷ [];
  unified_diff = diff;
  expected_behavior = [];
  risk_notes = [];
  tests_to_run = [];
  base_revisions = [];
}

abbrev pub disk_that_refuses : Disk
disk_that_refuses = record disk {
  write = λ k c. if text_eq k second then refused permission else written;
}

abbrev pub proposal_for_two : PatchProposal
proposal_for_two = record proposal {
  affected_files = path ∷ second ∷ [];
  unified_diff = diff_of_two;
}
