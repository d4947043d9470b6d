-- ===== src/Patching/Preflight/Clear.antt =====
-- No file of a diff stands below another one or below a file of the working copy.
use safepatch.Base.{
  Bool, true, false, not, ◌&&◌, all, some, List, [], ◌∷◌, ◌≡◌, sym, ap, subst, ◌∙◌, inl, inr, arith,
  Bool-cases,
}
use safepatch.Text.Laws.{text_eq→eq}
use safepatch.Text.{Text, text_eq, elem}
use safepatch.Workspace.Tree.{Node, Tree, is_file, as_file, is_file-as_file}
use safepatch.Workspace.Directories.{parents}
use safepatch.Workspace.Platform.{Platform}
use safepatch.Patching.Applier.Restores.{resolved}

-- No directory above the path is a file of the working copy or a path of the list.
abbrev pub is_clear : Tree → List Text → Text → Bool
is_clear t keys key = all (λ d. not (is_file (t d)) && not (elem d keys)) (parents key)

pub all-elem :
    (test : Text → Bool) (xs : List Text) (x : Text)
    → all test xs ≡ true
    → elem x xs ≡ true
    → test x ≡ true
unfolding elem
all-elem test [] x h m = absurd (ground arith)
all-elem test (y ∷ ys) x h m = elim (Bool-cases (text_eq x y)) [
  | inl same ↦ subst (λ z. test z ≡ true) (sym (text_eq→eq x y same)) (ground arith)
  | inr other ↦ all-elem test ys x (ground arith) (ground arith)
]

pub clear_above :
    (t : Tree) (keys : List Text) (key d : Text)
    → is_clear t keys key ≡ true
    → elem d (parents key) ≡ true
    → (is_file (t d) ≡ false) × (elem d keys ≡ false)
clear_above t keys key d h m =
    let c = all-elem (λ (e : Text). not (is_file (t e)) && not (elem e keys)) (parents key) d h m in
    (ground arith, ground arith)

pub not_above :
    (t : Tree) (keys : List Text) (key j : Text)
    → is_clear t keys key ≡ true
    → elem j keys ≡ true
    → elem j (parents key) ≡ false
not_above t keys key j h m = elim (Bool-cases (elem j (parents key))) [
  | inr other ↦ other
  | inl above ↦ absurd (let (_, outside) = clear_above t keys key j h above in ground arith)
]

pub same_files : (n n' : Node) → as_file n ≡ as_file n' → is_file n ≡ is_file n'
same_files n n' e = sym (is_file-as_file n) ∙ ap is_file e ∙ is_file-as_file n'

pub elem_apart :
    (d key : Text) (keys : List Text)
    → elem d keys ≡ false
    → elem key keys ≡ true
    → text_eq d key ≡ false
elem_apart d key keys outside m = elim (Bool-cases (text_eq d key)) [
  | inr other ↦ other
  | inl same ↦
      absurd
        (let m' = subst (λ x. elem x keys ≡ false) (text_eq→eq d key same) outside in ground arith)
]

pub all_later :
    (test : Text → Bool) (platform : Platform) (path body : Text) (fs : List (Text × Text))
    (key : Text)
    → platform.resolve path ≡ some key
    → all test (resolved platform ((path, body) ∷ fs)) ≡ true
    → all test (resolved platform fs) ≡ true
unfolding resolved
all_later test platform path body fs key found h =
    let h' = rw (resolved, found) at h in ground arith
