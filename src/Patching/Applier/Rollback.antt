-- ===== src/Patching/Applier/Rollback.antt =====
-- What the loop over the files knows of the tree it began with, and that the rollback uses it up;
-- directories, which both make and remove, are left aside.
use safepatch.Base.{
  Bool, true, false, ◌||◌, List, [], ◌∷◌, ◌≡◌, refl, sym, ap, subst, ◌∙◌, inl, inr, map, All, arith,
  Bool-cases,
}
use safepatch.Text.{Text, text_eq, elem}
use safepatch.Text.Laws.{text_eq→eq}
use safepatch.Workspace.Tree.{Node, Tree, absent, file, exists, put, put_self, put_ne, as_file}
use safepatch.Workspace.Directories.{parent, clean_parent, as_file-clean_parent}
use safepatch.Workspace.Platform.{Platform}
use safepatch.Workspace.Disk.{Disk, outcome_cases}
use safepatch.Patching.Applier.{Progress, set_item, restore_all, remove_all, safe_rollback}

abbrev pub keys : List (Text × Text) → List Text
keys = map (λ b. b.0)

-- What the loop knows of the tree `t0` that it began with.
pub record Kept (t0 : Tree) (p : Progress) : Type 0 where
  pub originals : All (λ b. as_file (t0 b.0) ≡ file b.1) p.backups
  pub new : All (λ k. as_file (t0 k) ≡ absent) p.created
  pub outside :
      (j : Text)
      → elem j (keys p.backups) ≡ false
      → elem j p.created ≡ false
      → as_file (p.tree j) ≡ as_file (t0 j)

elem-cons_ne :
    (i k : Text) (ks : List Text)
    → text_eq i k ≡ false
    → elem i ks ≡ false
    → elem i (k ∷ ks) ≡ false
unfolding elem
elem-cons_ne i k ks other fresh = ground arith

pub not_there : (n : Node) → exists n ≡ false → n ≡ absent
unfolding exists
not_there absent h = refl
not_there _ h = absurd (ground arith)

pair_eq : {A : Type 0} {x : Bool × A} → x.0 ≡ true → x ≡ (true, x.1)
pair_eq {x = x} h = λ i. (h i, x.1)

module _ (platform : Platform) (disk : Disk) where
  -- A restore that succeeds has written the content back.
  restored :
      (t t' : Tree) (k c : Text) (bs : List (Text × Text))
      → restore_all platform disk t ((k, c) ∷ bs) ≡ (true, t')
      → restore_all platform disk (put t k (file c)) bs ≡ (true, t')
  unfolding restore_all
  restored t t' k c bs e = elim (outcome_cases (disk.restore k c)) [
    | inl w ↦ rw (w, restore_all) at e
    | inr (inl (f, w)) ↦ absurd (let e' = rw (w, restore_all) at e in ground arith)
    | inr (inr (f, partial, w)) ↦ absurd (let e' = rw (w, restore_all) at e in ground arith)
  ]

  -- A removal that succeeds has unlinked the file and looked at its parent.
  removed :
      (t t' : Tree) (k : Text) (cs : List Text)
      → exists (t k) ≡ true
      → remove_all platform disk t (k ∷ cs) ≡ (true, t')
      → remove_all platform disk (clean_parent platform disk (put t k absent) (parent k)).1 cs
        ≡ (true, t')
  unfolding remove_all
  removed t t' k cs there e = elim (Bool-cases (disk.unlink k)) [
    | inr w ↦ absurd (let e' = rw (there, remove_all, w) at e in ground arith)
    | inl w ↦ elim (Bool-cases (clean_parent platform disk (put t k absent) (parent k)).0) [
      | inl c ↦ rw (there, remove_all, w, c) at e
      | inr c ↦ absurd (let e' = rw (there, remove_all, w, c) at e in ground arith)
    ]
  ]

  restore_all-restores :
      (t0 t t' : Tree) (bs : List (Text × Text)) (cs : List Text)
      → All (λ b. as_file (t0 b.0) ≡ file b.1) bs
      → ((j : Text) → elem j (keys bs) ≡ false → elem j cs ≡ false → as_file (t j) ≡ as_file (t0 j))
      → restore_all platform disk t bs ≡ (true, t')
      → (j : Text) → elem j cs ≡ false
      → as_file (t' j) ≡ as_file (t0 j)
  unfolding restore_all
  restore_all-restores t0 t t' [] cs orig out e j h =
      sym (ap (λ x. as_file (x.1 j)) e) ∙ out j (unfold elem in refl) h
  restore_all-restores t0 t t' ((k, c) ∷ bs) cs orig out e j h =
      restore_all-restores t0 (put t k (file c)) t' bs cs orig.1
        (λ i fresh clear. elim (Bool-cases (text_eq i k)) [
          | inl same ↦
              rw (text_eq→eq i k same)
                (ap as_file (put_self t k (file c)) ∙ unfold as_file in sym orig.0)
          | inr other ↦
              ap as_file (put_ne t k i (file c) other)
              ∙ out i (elem-cons_ne i k (keys bs) other fresh) clear
        ])
        (restored t t' k c bs e) j h

  remove_all-restores :
      (t0 t t' : Tree) (cs : List Text)
      → All (λ k. as_file (t0 k) ≡ absent) cs
      → ((j : Text) → elem j cs ≡ false → as_file (t j) ≡ as_file (t0 j))
      → remove_all platform disk t cs ≡ (true, t')
      → (j : Text) → as_file (t' j) ≡ as_file (t0 j)
  unfolding remove_all
  remove_all-restores t0 t t' [] new out e j =
      sym (ap (λ x. as_file (x.1 j)) e) ∙ out j (unfold elem in refl)
  remove_all-restores t0 t t' (k ∷ cs) new out e j = elim (Bool-cases (exists (t k))) [
    | inl there ↦
        remove_all-restores t0 (clean_parent platform disk (put t k absent) (parent k)).1 t' cs
          new.1
          (λ i fresh.
            as_file-clean_parent platform disk (put t k absent) (parent k) i
            ∙ elim (Bool-cases (text_eq i k)) [
              | inl same ↦
                  rw (text_eq→eq i k same)
                    (ap as_file (put_self t k absent) ∙ unfold as_file in sym new.0)
              | inr other ↦
                  ap as_file (put_ne t k i absent other) ∙ out i (elem-cons_ne i k cs other fresh)
            ])
          (removed t t' k cs there e) j
    | inr gone ↦
        remove_all-restores t0 t t' cs new.1
          (λ i fresh. elim (Bool-cases (text_eq i k)) [
            | inl same ↦
                rw (text_eq→eq i k same)
                  (ap as_file (not_there (t k) gone) ∙ unfold as_file in sym new.0)
            | inr other ↦ out i (elem-cons_ne i k cs other fresh)
          ])
          (rw (gone, remove_all) at e) j
  ]

  -- With both phases done the tree is as it was.
  pub safe_rollback-restores :
      (t0 t' : Tree) (p : Progress)
      → Kept t0 p
      → safe_rollback platform disk p ≡ (true, t')
      → (j : Text) → as_file (t' j) ≡ as_file (t0 j)
  unfolding safe_rollback
  safe_rollback-restores t0 t' p kept e j =
      elim (Bool-cases (restore_all platform disk p.tree p.backups).0) [
        | inl good ↦
            remove_all-restores t0 (restore_all platform disk p.tree p.backups).1 t' p.created
              kept.new
              (restore_all-restores t0 p.tree (restore_all platform disk p.tree p.backups).1
                p.backups p.created kept.originals kept.outside (pair_eq good))
              (rw good at e) j
        | inr bad ↦ absurd (let e' = rw bad at e in ground arith)
      ]

pub elem-keys-set_item :
    (j : Text) (d : List (Text × Text)) (k v : Text)
    → elem j (keys (set_item d k v)) ≡ (elem j (keys d) || text_eq j k)
unfolding set_item elem
elem-keys-set_item j [] k v = ground arith
elem-keys-set_item j ((i, w) ∷ d) k v = elim (Bool-cases (text_eq i k)) [
  | inl same ↦ rw same (ground (arith, ap (text_eq j) (text_eq→eq i k same)))
  | inr other ↦ rw other (ground (arith, elem-keys-set_item j d k v))
]

pub All-set_item :
    (t0 : Tree) (d : List (Text × Text)) (k v : Text)
    → All (λ b. as_file (t0 b.0) ≡ file b.1) d
    → as_file (t0 k) ≡ file v
    → All (λ b. as_file (t0 b.0) ≡ file b.1) (set_item d k v)
unfolding set_item
All-set_item t0 [] k v h e = (e, tt)
All-set_item t0 ((i, w) ∷ d) k v h e = elim (Bool-cases (text_eq i k)) [
  | inl same ↦ rw same (subst (λ x. as_file (t0 x) ≡ file v) (sym (text_eq→eq i k same)) e, h.1)
  | inr other ↦ rw other (h.0, All-set_item t0 d k v h.1 e)
]
