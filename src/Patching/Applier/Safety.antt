-- ===== src/Patching/Applier/Safety.antt =====
-- Each round of the loop over the files keeps what the rollback needs.
use safepatch.Base.{
  Bool, true, false, ◌||◌, Option, none, some, List, [], ◌∷◌, ◌++◌, ◌≡◌, refl, sym, ap, subst, ◌∙◌,
  inl, inr, All-append, arith, Bool-cases, Option-cases, Result-cases, ok,
}
use safepatch.Text.{Text, text_eq, elem}
use safepatch.Text.Laws.{text_eq→eq, text_eq_refl, elem-append}
use safepatch.Workspace.Tree.{
  Node, Tree, absent, directory, file, opaque, exists, is_file, put, put_ne, as_file, as_file_of,
}
use safepatch.Workspace.Directories.{parents, make_parents, as_file-make_parents}
use safepatch.Workspace.Platform.{Platform}
use safepatch.Workspace.Disk.{OsFault, torn, Disk, outcome_cases}
use safepatch.Patching.Hunks.{Relocation, apply_hunks_to_text}
use safepatch.Patching.Diff.{is_new_file, content_from_new_file_diff}
use safepatch.Patching.Applier.{
  Progress, Round, done, stopped, Raised, FileRelocation, set_item, read_text_raw, write_new,
  after_mkdir, create_file, write_patched, patch_text, patch_file, apply_file,
}
use safepatch.Patching.Applier.Rollback.{keys, Kept, elem-keys-set_item, All-set_item, not_there}

-- The variables at the end of a round, whichever way it ended.
abbrev pub state_of : Round → Progress
state_of (done p) = p
state_of (stopped e p) = p

-- The path has no backup and was not created.
pub record IsFresh (p : Progress) (j : Text) : Type 0 where
  pub no_backup : elem j (keys p.backups) ≡ false
  pub not_created : elem j p.created ≡ false

pub or_false : (a b : Bool) → (a || b) ≡ false → (a ≡ false) × (b ≡ false)
or_false true b h = absurd (ground arith)
or_false false b h = (refl, h)

elem_one : (j k : Text) → elem j (k ∷ []) ≡ false → text_eq j k ≡ false
unfolding elem
elem_one j k h = ground arith

elem_one_ne : (j k : Text) → text_eq j k ≡ false → elem j (k ∷ []) ≡ false
unfolding elem
elem_one_ne j k h = ground arith

read_text_raw-ok : (n : Node) (c : Text) → read_text_raw n ≡ ok c → n ≡ file c
unfolding read_text_raw
read_text_raw-ok (file d) c h = ap file (ground arith)
read_text_raw-ok _ c h = absurd (ground arith)

file_seen : (n : Node) → is_file n ≡ true → as_file n ≡ absent → ⊥
unfolding is_file as_file
file_seen absent h e = ground arith
file_seen directory h e = ground arith
file_seen (file c) h e = ground arith
file_seen (opaque c) h e = ground arith

module _ (platform : Platform) (disk : Disk) (t0 : Tree)
    (whole : (key content partial : Text) (f : OsFault)
      → disk.write key content ≡ torn f partial
      → is_file (t0 key) ≡ true) where
  -- A round for the path `key` keeps the invariant and touches no other path.
  pub record Steps (key : Text) (p : Progress) (r : Round) : Type 0 where
    pub kept : Kept t0 (state_of r)
    pub fresh : (j : Text) → text_eq j key ≡ false → IsFresh p j → IsFresh (state_of r) j

  Steps-stopped : (key : Text) (p : Progress) (e : Raised) → Kept t0 p → Steps key p (stopped e p)
  Steps-stopped key p e k = record { kept = k; fresh = λ j _ h. h }

  created-Kept :
      (key content : Text) (p : Progress)
      → as_file (t0 key) ≡ absent
      → Kept t0 p
      → Kept t0 (record p { tree = put p.tree key (file content); created = p.created ++ key ∷ [] })
  created-Kept key content p gone k = record {
    originals = k.originals;
    new = All-append (λ x. as_file (t0 x) ≡ absent) p.created (key ∷ []) k.new (gone, tt);
    outside = λ j b c.
        let (c1, c2) = or_false _ _ (sym (elem-append j p.created (key ∷ [])) ∙ c) in
        ap as_file (put_ne p.tree key j (file content) (elem_one j key c2)) ∙ k.outside j b c1;
  }

  created-fresh :
      (key content j : Text) (p : Progress)
      → text_eq j key ≡ false
      → IsFresh p j
      → IsFresh
          (record p { tree = put p.tree key (file content); created = p.created ++ key ∷ [] })
          j
  created-fresh key content j p other h = record {
    no_backup = h.no_backup;
    not_created =
        elem-append j p.created (key ∷ []) ∙ ground (arith, h.not_created, elem_one_ne j key other);
  }

  write_new-Steps :
      (key content : Text) (p : Progress)
      → as_file (t0 key) ≡ absent
      → Kept t0 p
      → Steps key p (write_new platform disk key content p)
  unfolding write_new
  write_new-Steps key content p gone k = elim (outcome_cases (disk.write key content)) [
    | inl w ↦
        rw (w, write_new)
          (record {
            kept = created-Kept key content p gone k;
            fresh = λ j. created-fresh key content j p;
          })
    | inr (inl (f, w)) ↦ rw (w, write_new) (Steps-stopped key p _ k)
    | inr (inr (f, partial, w)) ↦ absurd (file_seen (t0 key) (whole key content partial f w) gone)
  ]

  -- The directories that are made are not seen.
  remade-Kept :
      (t : Tree) (p : Progress)
      → ((j : Text) → as_file (t j) ≡ as_file (p.tree j))
      → Kept t0 p
      → Kept t0 (record p { tree = t })
  remade-Kept t p same k = record {
    originals = k.originals;
    new = k.new;
    outside = λ j b c. same j ∙ k.outside j b c;
  }

  after_mkdir-Steps :
      (key content : Text) (p : Progress) (made : Option OsFault × Tree)
      → as_file (t0 key) ≡ absent
      → ((j : Text) → as_file (made.1 j) ≡ as_file (p.tree j))
      → Kept t0 p
      → Steps key p (after_mkdir platform disk key content p made)
  unfolding after_mkdir
  after_mkdir-Steps key content p (some f, t) gone same k = record {
    kept = remade-Kept t p same k;
    fresh = λ j _ h. record { no_backup = h.no_backup; not_created = h.not_created };
  }
  after_mkdir-Steps key content p (none, t) gone same k =
      let s = write_new-Steps key content (record p { tree = t }) gone (remade-Kept t p same k) in
      record {
        kept = s.kept;
        fresh = λ j other h.
            s.fresh j other (record { no_backup = h.no_backup; not_created = h.not_created });
      }

  create_file-Steps :
      (key body : Text) (p : Progress)
      → IsFresh p key
      → Kept t0 p
      → Steps key p (create_file platform disk key body p)
  unfolding create_file
  create_file-Steps key body p fr k = elim (Bool-cases (exists (p.tree key))) [
    | inl there ↦ rw there (Steps-stopped key p _ k)
    | inr gone ↦ elim (Option-cases (content_from_new_file_diff body)) [
      | inl bad ↦ rw (gone, bad) (Steps-stopped key p _ k)
      | inr (content, good) ↦
          rw (gone, good)
            (after_mkdir-Steps key content p (make_parents platform disk p.tree (parents key))
              (sym (k.outside key fr.no_backup fr.not_created)
                ∙ ap as_file (not_there (p.tree key) gone)
                ∙ (unfold as_file in refl))
              (as_file-make_parents platform disk p.tree (parents key)) k)
    ]
  ]

  -- A path with a backup may hold anything.
  rewritten-Kept :
      (key : Text) (n : Node) (moved : List FileRelocation) (p : Progress)
      → elem key (keys p.backups) ≡ true
      → Kept t0 p
      → Kept t0 (record p { tree = put p.tree key n; relocations = moved })
  rewritten-Kept key n moved p saved k = record {
    originals = k.originals;
    new = k.new;
    outside = λ j b c. elim (Bool-cases (text_eq j key)) [
      | inl same ↦ absurd (
          let b' = subst (λ x. elem x (keys p.backups) ≡ false) (text_eq→eq j key same) b in
          ground arith)
      | inr other ↦ ap as_file (put_ne p.tree key j n other) ∙ k.outside j b c
    ];
  }

  write_patched-Steps :
      (path patched : Text) (moved : List Relocation) (key : Text) (p : Progress)
      → elem key (keys p.backups) ≡ true
      → Kept t0 p
      → Steps key p (write_patched platform disk path patched moved key p)
  unfolding write_patched
  write_patched-Steps path patched moved key p saved k =
      elim (outcome_cases (disk.write key patched)) [
        | inl w ↦
            rw (w, write_patched)
              (record {
                kept = rewritten-Kept key _ _ p saved k;
                fresh = λ j _ h. record { no_backup = h.no_backup; not_created = h.not_created };
              })
        | inr (inl (f, w)) ↦
            rw (w, write_patched)
              (record {
                kept = record { originals = k.originals; new = k.new; outside = k.outside };
                fresh = λ j _ h. record { no_backup = h.no_backup; not_created = h.not_created };
              })
        | inr (inr (f, partial, w)) ↦
            rw (w, write_patched)
              (record {
                kept = rewritten-Kept key _ _ p saved k;
                fresh = λ j _ h. record { no_backup = h.no_backup; not_created = h.not_created };
              })
      ]

  backup-Kept :
      (key original : Text) (p : Progress)
      → as_file (t0 key) ≡ file original
      → Kept t0 p
      → Kept t0 (record p { backups = set_item p.backups key original })
  backup-Kept key original p here k = record {
    originals = All-set_item t0 p.backups key original k.originals here;
    new = k.new;
    outside = λ j b c.
        k.outside j (or_false _ _ (sym (elem-keys-set_item j p.backups key original) ∙ b)).0 c;
  }

  backup-fresh :
      (key original j : Text) (p : Progress)
      → text_eq j key ≡ false
      → IsFresh p j
      → IsFresh (record p { backups = set_item p.backups key original }) j
  backup-fresh key original j p other h = record {
    no_backup = elem-keys-set_item j p.backups key original ∙ ground (arith, h.no_backup, other);
    not_created = h.not_created;
  }

  -- A backup before a round counts as part of it.
  Steps-backup :
      (key original : Text) (p : Progress) (r : Round)
      → Steps key (record p { backups = set_item p.backups key original }) r
      → Steps key p r
  Steps-backup key original p r s = record {
    kept = s.kept;
    fresh = λ j other h. s.fresh j other (backup-fresh key original j p other h);
  }

  patch_text-Steps :
      (path body key original : Text) (p : Progress)
      → elem key (keys p.backups) ≡ true
      → Kept t0 p
      → Steps key p (patch_text platform disk path body key original p)
  unfolding patch_text
  patch_text-Steps path body key original p saved k =
      elim (Result-cases (apply_hunks_to_text original body path)) [
        | inl (r, good) ↦ rw (good, patch_text) (write_patched-Steps path r.0 r.1 key p saved k)
        | inr (e, bad) ↦ rw (bad, patch_text) (Steps-stopped key p _ k)
      ]

  patch_file-Steps :
      (path body key : Text) (p : Progress)
      → IsFresh p key
      → Kept t0 p
      → Steps key p (patch_file platform disk path body key p)
  unfolding patch_file
  patch_file-Steps path body key p fr k = elim (Bool-cases (exists (p.tree key))) [
    | inr gone ↦ rw gone (Steps-stopped key p _ k)
    | inl there ↦ elim (Result-cases (read_text_raw (p.tree key))) [
      | inr (e, bad) ↦ rw (there, bad) (Steps-stopped key p e k)
      | inl (original, good) ↦
          let here =
            sym (k.outside key fr.no_backup fr.not_created)
            ∙ as_file_of (read_text_raw-ok (p.tree key) original good) in
          rw (there, good)
            (Steps-backup key original p _ (
              patch_text-Steps path body key original
                (record p { backups = set_item p.backups key original })
                (elem-keys-set_item key p.backups key original ∙ ground (arith, text_eq_refl key))
                (backup-Kept key original p here k)))
    ]
  ]

  pub apply_file-Steps :
      (path body key : Text) (p : Progress)
      → platform.resolve path ≡ some key
      → IsFresh p key
      → Kept t0 p
      → Steps key p (apply_file platform disk (path, body) p)
  unfolding apply_file
  apply_file-Steps path body key p at fr k = elim (Bool-cases (is_new_file body)) [
    | inl new ↦ rw (apply_file, at, new) (create_file-Steps key body p fr k)
    | inr old ↦ rw (apply_file, at, old) (patch_file-Steps path body key p fr k)
  ]
