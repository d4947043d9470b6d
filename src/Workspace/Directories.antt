-- ===== src/Workspace/Directories.antt =====
-- target.parent.mkdir(parents=True, exist_ok=True), and the removal of an empty parent, as
-- code_agent/patching/applier.py asks for them.
use safepatch.Base.{
  Bool, true, false, not, ◌&&◌, Option, none, some, List, [], ◌∷◌, ◌++◌, ◌≡◌, refl, ◌∙◌, inl, inr,
  any, arith, if◌then◌else◌, ◌==◌, Bool-cases, Option-cases,
}
use safepatch.Text.{Text, text_eq, elem}
use safepatch.Text.Laws.{text_eq→eq, text_eq_refl}
use safepatch.Workspace.Tree.{
  Node, Tree, absent, directory, exists, is_file, put, put_self, put_ne, as_file, as_file-put,
}
use safepatch.Workspace.Platform.{Platform}
use safepatch.Workspace.Disk.{OsFault, other_os, Disk}

unfoldable pub parents_from : Text → Text → List Text
parents_from before [] = []
parents_from before (c ∷ s) =
    let rest = parents_from (before ++ c ∷ []) s in if c == b'/' then before ∷ rest else rest

-- The directories above a path, the outermost first; the root of the working copy is left out.
unfoldable pub parents : Text → List Text
unfolding parents_from
parents key = parents_from [] key

unfoldable pub last_of : List Text → Option Text
last_of [] = none
last_of (d ∷ []) = some d
last_of (d ∷ e ∷ ds) = last_of (e ∷ ds)

-- path.parent, or `none` for the root of the working copy
unfoldable pub parent : Text → Option Text
unfolding parents last_of
parent key = last_of (parents key)

unfoldable pub is_child : Text → Text → Bool
unfolding parent
is_child d j = elim (parent j) [ none ↦ false | some e ↦ text_eq e d ]

-- How the description of an mkdir passes over one directory.
seen :
    (t : Tree) (d : Text) (ds : List Text) (j : Text)
    → exists (t d) ≡ true
    → ◌≡◌ {A = Node}
        (if elem j ds && not (exists (t j)) then directory else t j)
        (if elem j (d ∷ ds) && not (exists (t j)) then directory else t j)
unfolding elem
seen t d ds j h = elim (Bool-cases (text_eq j d)) [
  | inr other ↦ rw other
  | inl same ↦ rw (text_eq→eq j d same, h) (ground arith)
]

made_now :
    (t : Tree) (d : Text) (ds : List Text) (j : Text)
    → exists (t d) ≡ false
    → ◌≡◌ {A = Node}
        (if elem j ds && not (exists (put t d directory j)) then directory else put t d directory j)
        (if elem j (d ∷ ds) && not (exists (t j)) then directory else t j)
unfolding elem put exists
made_now t d ds j h = elim (Bool-cases (text_eq j d)) [
  | inr other ↦ rw (other, put_ne t d j directory other) refl
  | inl same ↦ rw (text_eq→eq j d same, put_self t d directory, text_eq_refl d, h) (ground arith)
]

module _ (platform : Platform) (disk : Disk) where
  -- mkdir of each directory that is not there; it raises at a file, and what was made until then
  -- stays.
  unfoldable pub make_parents : Tree → List Text → Option OsFault × Tree
  unfolding put exists is_file
  make_parents t [] = (none, t)
  make_parents t (d ∷ ds) = elim (is_file (t d)) [
    | true ↦ (some other_os, t)
    | false ↦ elim (exists (t d)) [
      | true ↦ make_parents t ds
      | false ↦ elim (disk.make_directory d) [
        | some f ↦ (some f, t)
        | none ↦ make_parents (put t d directory) ds
      ]
    ]
  ]

  -- `if parent.exists() and not any(parent.iterdir())`
  unfoldable pub is_empty_directory : Tree → Text → Bool
  unfolding exists is_child
  is_empty_directory t d = exists (t d) && not (any (is_child d) (platform.listing t))

  -- The end of a removal: rmtree of a parent that is left empty, with its errors ignored; iterdir
  -- of a file raises. The root of the working copy is no path of the tree.
  unfoldable pub clean_parent : Tree → Option Text → Bool × Tree
  unfolding put is_file is_empty_directory
  clean_parent t none = (true, t)
  clean_parent t (some d) =
      if is_file (t d)
      then (false, t)
      else if is_empty_directory t d && disk.remove_tree d
      then (true, put t d absent)
      else (true, t)

  pub as_file-make_parents :
      (t : Tree) (ds : List Text) (j : Text) → as_file ((make_parents t ds).1 j) ≡ as_file (t j)
  unfolding make_parents
  as_file-make_parents t [] j = refl
  as_file-make_parents t (d ∷ ds) j = elim (Bool-cases (is_file (t d))) [
    | inl there ↦ rw (make_parents, there)
    | inr free ↦ elim (Bool-cases (exists (t d))) [
      | inl made ↦ rw (make_parents, free, made) (as_file-make_parents t ds j)
      | inr gone ↦ elim (Option-cases (disk.make_directory d)) [
        | inr (f, raises) ↦ rw (make_parents, free, gone, raises)
        | inl fine ↦
            rw (make_parents, free, gone, fine)
              (as_file-make_parents (put t d directory) ds j
                ∙ as_file-put t d j directory free (unfold is_file in refl))
      ]
    ]
  ]

  pub as_file-clean_parent :
      (t : Tree) (d : Option Text) (j : Text) → as_file ((clean_parent t d).1 j) ≡ as_file (t j)
  unfolding clean_parent
  as_file-clean_parent t none j = refl
  as_file-clean_parent t (some d) j = elim (Bool-cases (is_file (t d))) [
    | inl there ↦ rw (clean_parent, there)
    | inr free ↦ elim (Bool-cases (is_empty_directory t d && disk.remove_tree d)) [
      | inr kept ↦ rw (clean_parent, free, kept)
      | inl removed ↦
          rw (clean_parent, free, removed) (as_file-put t d j absent free (unfold is_file in refl))
    ]
  ]

  -- A directory of the list that was not there is one now, and no other path is changed.
  pub make_parents-others :
      (t : Tree) (ds : List Text) (j : Text) → elem j ds ≡ false → (make_parents t ds).1 j ≡ t j
  unfolding make_parents elem
  make_parents-others t [] j h = refl
  make_parents-others t (d ∷ ds) j h = elim (Bool-cases (is_file (t d))) [
    | inl there ↦ rw (make_parents, there)
    | inr free ↦ elim (Bool-cases (exists (t d))) [
      | inl made ↦ rw (make_parents, free, made) (make_parents-others t ds j (ground arith))
      | inr gone ↦ elim (Option-cases (disk.make_directory d)) [
        | inr (f, raises) ↦ rw (make_parents, free, gone, raises)
        | inl fine ↦
            rw (make_parents, free, gone, fine)
              (make_parents-others (put t d directory) ds j (ground arith)
                ∙ put_ne t d j directory (ground arith))
      ]
    ]
  ]

  -- Behind an mkdir that succeeds, the directories of the list are there; nothing else is changed.
  pub make_parents-made :
      (t : Tree) (ds : List Text) (j : Text)
      → (make_parents t ds).0 ≡ none
      → (make_parents t ds).1 j ≡ (if elem j ds && not (exists (t j)) then directory else t j)
  unfolding make_parents elem put
  make_parents-made t [] j h = refl
  make_parents-made t (d ∷ ds) j h = elim (Bool-cases (is_file (t d))) [
    | inl there ↦ absurd (let h' = rw (make_parents, there) at h in ground arith)
    | inr free ↦ elim (Bool-cases (exists (t d))) [
      | inl made ↦
          rw (make_parents, free, made)
            (make_parents-made t ds j (rw (make_parents, free, made) at h) ∙ seen t d ds j made)
      | inr gone ↦ elim (Option-cases (disk.make_directory d)) [
        | inr (f, raises) ↦
            absurd (let h' = rw (make_parents, free, gone, raises) at h in ground arith)
        | inl fine ↦
            rw (make_parents, free, gone, fine)
              (make_parents-made (put t d directory) ds j (rw (make_parents, free, gone, fine) at h)
                ∙ made_now t d ds j gone)
      ]
    ]
  ]

  -- An mkdir succeeds where no file stands in its way and the disk makes the directories.
  pub make_parents_succeeds :
      (t : Tree) (ds : List Text)
      → ((d : Text) → disk.make_directory d ≡ none)
      → ((d : Text) → elem d ds ≡ true → is_file (t d) ≡ false)
      → (make_parents t ds).0 ≡ none
  unfolding make_parents elem put is_file
  make_parents_succeeds t [] makes free = refl
  make_parents_succeeds t (d ∷ ds) makes free =
      let here : is_file (t d) ≡ false = free d (ground (arith, text_eq_refl d)) in
      elim (Bool-cases (exists (t d))) [
        | inl made ↦
            rw (make_parents, here, made)
              (make_parents_succeeds t ds makes (λ e m. free e (ground arith)))
        | inr gone ↦
            rw (make_parents, here, gone, makes d)
              (make_parents_succeeds (put t d directory) ds makes (λ e m.
                elim (Bool-cases (text_eq d e)) [
                  | inl same ↦ rw (put, same) refl
                  | inr other ↦ rw (put, other) (free e (ground arith))
                ]))
      ]
