-- ===== src/Workspace/Tree.antt =====
-- The working copy as the program sees it: what stands at each resolved path under its root.
use safepatch.Base.{
  Bool, true, false, ◌≡◌, refl, sym, ap, ◌∙◌, inl, inr, arith, if◌then◌else◌, Bool-cases,
}
use safepatch.Text.{Text, text_eq}
use safepatch.Text.Laws.{text_eq_refl, text_eq_comm, text_eq→eq}

-- `opaque` is a regular file whose bytes are not UTF-8, so that reading it as text raises.
pub data Node : Type 0 where
  absent directory : Node
  file opaque : Text → Node

abbrev pub Tree : Type 0
Tree = Text → Node

-- path.exists()
unfoldable pub exists : Node → Bool
exists absent = false
exists _ = true

-- path.is_file()
unfoldable pub is_file : Node → Bool
is_file (file c) = true
is_file (opaque c) = true
is_file _ = false

-- The tree with one path changed.
unfoldable pub put : Tree → Text → Node → Tree
put t k n j = if text_eq k j then n else t j

pub put_self : (t : Tree) (k : Text) (n : Node) → put t k n k ≡ n
unfolding put
put_self t k n = ground (arith, text_eq_refl k)

pub put_ne : (t : Tree) (k j : Text) (n : Node) → text_eq j k ≡ false → put t k n j ≡ t j
unfolding put
put_ne t k j n h = ground (arith, text_eq_comm j k)

-- What a path holds, with directories left aside.
unfoldable pub as_file : Node → Node
as_file directory = absent
as_file n = n

pub as_file_hidden : (n : Node) → is_file n ≡ false → as_file n ≡ absent
unfolding is_file as_file
as_file_hidden absent h = refl
as_file_hidden directory h = refl
as_file_hidden (file c) h = absurd (ground arith)
as_file_hidden (opaque c) h = absurd (ground arith)

pub as_file_of : {n : Node} {c : Text} → n ≡ file c → as_file n ≡ file c
unfolding as_file
as_file_of e = ap as_file e

-- Where no file stands, a change that puts no file there is not seen.
pub as_file-put :
    (t : Tree) (k j : Text) (n : Node)
    → is_file (t k) ≡ false
    → is_file n ≡ false
    → as_file (put t k n j) ≡ as_file (t j)
unfolding put
as_file-put t k j n h h' = elim (Bool-cases (text_eq k j)) [
  | inr other ↦ rw (put, other)
  | inl same ↦
      rw (put, same, as_file_hidden n h')
        (sym (as_file_hidden (t k) h) ∙ ap (λ x. as_file (t x)) (text_eq→eq k j same))
]

pub is_file-as_file : (n : Node) → is_file (as_file n) ≡ is_file n
unfolding is_file as_file
is_file-as_file absent = refl
is_file-as_file directory = refl
is_file-as_file (file c) = refl
is_file-as_file (opaque c) = refl
