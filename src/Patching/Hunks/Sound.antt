-- ===== src/Patching/Hunks/Sound.antt =====
-- A successful application of hunks is a patched file in the sense of `Spec`.
use safepatch.Base.{
  ℕ, suc, ◌+◌, ◌-◌, ◌<◌, Bool, true, false, not, ◌&&◌, some, List, [], ◌∷◌, ◌++◌, ◌≡◌, sym, ap,
  subst, ◌∙◌, ◌⊎◌, inl, inr, take, drop, length, get_elem?, leb, arith, if◌then◌else◌, ok,
  >>=-eq-ok, Bool-cases, Option-cases, drop-get_elem?, drop-drop, append-nil, append_assoc,
}
use safepatch.Text.{Text, text_eq, rstrip_newlines, splitlines_keep, concat}
use safepatch.Text.Laws.{text_eq→eq}
use safepatch.Patching.Hunks.Parse.{Tag, context, deletion, addition, Hunk, parse_hunks}
use safepatch.Patching.Hunks.Match.{
  hunk_old_lines, exact_block_matches, exact_block_candidates, ErrorKind, context_mismatch,
  deletion_mismatch,
}
use safepatch.Patching.Hunks.Apply.{
  Relocation, Progress, consume, apply_line, apply_lines, apply_at, place, relocate, apply_hunks,
  is_nonempty, apply_parsed, apply_hunks_to_text, detect_newline,
}
use safepatch.Patching.Hunks.Spec.{Replaces, done, keep, remove, add, Patched, rest, hunk, Placed}

module _ (file_path : Text) (newline : Text) (source : List Text) where
  -- What a run of tagged lines has done between two states.
  record Consumed (ls : List (Tag × Text)) (p q : Progress) : Type 0 where
    old : List Text
    new : List Text
    replaces : Replaces newline ls old new
    behind : drop p.src_index source ≡ old ++ drop q.src_index source
    result : q.result ≡ p.result ++ new
    index : q.src_index ≡ p.src_index + length old

  consume-ok :
      (kind : ErrorKind) (kept : Bool) (i : ℕ) (content : Text) (p q : Progress)
      → consume file_path newline source kind kept i content p ≡ ok q
      → (line : Text) × (get_elem? source p.src_index ≡ some line)
        × (rstrip_newlines line ≡ rstrip_newlines content)
        × (q.result ≡ (if kept then p.result ++ line ∷ [] else p.result))
        × (q.src_index ≡ suc p.src_index)
  unfolding consume
  consume-ok kind kept i content p q h = elim (Option-cases (get_elem? source p.src_index)) [
    | inl e ↦ absurd (ground arith)
    | inr (line, e) ↦ elim (Bool-cases (text_eq (rstrip_newlines line) (rstrip_newlines content))) [
      | inl same ↦ (line, e, text_eq→eq _ _ same, ground arith, ground arith)
      | inr other ↦ absurd (ground arith)
    ]
  ]

  apply_lines-ok :
      (i : ℕ) (ls : List (Tag × Text)) (p q : Progress)
      → apply_lines file_path newline source i ls p ≡ ok q
      → Consumed ls p q
  unfolding apply_lines
  apply_lines-ok i [] p q h = record {
    old = [];
    new = [];
    replaces = done;
    behind = ground arith;
    result = ground (arith, append-nil p.result);
    index = ground arith;
  }
  apply_lines-ok i ((context, content) ∷ ls) p q h =
      let (r, first, later) =
        >>=-eq-ok (apply_line file_path newline source i context content p) _ h in
      let (line, at, same, res, idx) =
        consume-ok context_mismatch true i content p r (unfold apply_line in first) in
      let c = apply_lines-ok i ls r q later in
      record {
        old = line ∷ c.old;
        new = line ∷ c.new;
        replaces = keep same c.replaces;
        behind =
            drop-get_elem? source p.src_index line at
            ∙ ap (λ l. line ∷ l) (ap (λ k. drop k source) (sym idx) ∙ c.behind);
        result = c.result ∙ ap (λ l. l ++ c.new) res ∙ append_assoc p.result (line ∷ []) c.new;
        index = omega (arith, c.index, idx);
      }
  apply_lines-ok i ((deletion, content) ∷ ls) p q h =
      let (r, first, later) =
        >>=-eq-ok (apply_line file_path newline source i deletion content p) _ h in
      let (line, at, same, res, idx) =
        consume-ok deletion_mismatch false i content p r (unfold apply_line in first) in
      let c = apply_lines-ok i ls r q later in
      record {
        old = line ∷ c.old;
        new = c.new;
        replaces = remove same c.replaces;
        behind =
            drop-get_elem? source p.src_index line at
            ∙ ap (λ l. line ∷ l) (ap (λ k. drop k source) (sym idx) ∙ c.behind);
        result = c.result ∙ ap (λ l. l ++ c.new) res;
        index = omega (arith, c.index, idx);
      }
  apply_lines-ok i ((addition, content) ∷ ls) p q h =
      let c =
        apply_lines-ok i ls
          (record p { result = p.result ++ (rstrip_newlines content ++ newline) ∷ [] }) q
          (unfold apply_line in h) in
      record {
        old = c.old;
        new = (rstrip_newlines content ++ newline) ∷ c.new;
        replaces = add c.replaces;
        behind = c.behind;
        result = c.result ∙ append_assoc p.result _ c.new;
        index = c.index;
      }

  abbrev copied : ℕ → Progress → Progress
  copied line p = record {
    result = p.result ++ take (line - 1 - p.src_index) (drop p.src_index source);
    src_index = line - 1;
  }

  apply_at-ok :
      (i : ℕ) (h : Hunk) (line : ℕ) (p q : Progress)
      → apply_at file_path newline source i h line p ≡ ok q
      → (p.src_index < line) × Consumed h.lines (copied line p) q
  unfolding apply_at
  apply_at-ok i h line p q e = elim (Bool-cases (leb line p.src_index)) [
    | inl early ↦ absurd (ground arith)
    | inr late ↦ (ground arith, apply_lines-ok i h.lines (copied line p) q (rw late at e))
  ]

  -- What a run of hunks has done between two states: the lines behind `p` are patched.
  record Whole (hs : List Hunk) (p q : Progress) : Type 0 where
    lines : List ℕ
    out : List Text
    placed : Placed source hs lines
    patched : Patched newline p.src_index hs lines (drop p.src_index source) out
    result : q.result ++ drop q.src_index source ≡ p.result ++ out

  Whole-step :
      (h : Hunk) (hs : List Hunk) (line : ℕ) (p r q : Progress)
      → ((line ≡ h.old_start) ⊎ (exact_block_candidates source (hunk_old_lines h) ≡ line ∷ []))
      → p.src_index < line
      → Consumed h.lines (copied line p) r
      → Whole hs r q
      → Whole (h ∷ hs) p q
  Whole-step h hs line p r q placed behind c w =
      let gap = take (line - 1 - p.src_index) (drop p.src_index source) in
      record {
        lines = line ∷ w.lines;
        placed = (placed, w.placed);
        out = gap ++ (c.new ++ w.out);
        patched =
            hunk behind
              (drop-drop (line - 1 - p.src_index) p.src_index source
                ∙ ap (λ k. drop k source) (omega arith)
                ∙ c.behind)
              c.replaces
              (subst (λ k. Patched newline k hs w.lines (drop r.src_index source) w.out) c.index
                w.patched);
        result =
            w.result
            ∙ ap (λ l. l ++ w.out) c.result
            ∙ append_assoc (p.result ++ gap) c.new w.out
            ∙ append_assoc p.result gap (c.new ++ w.out);
      }

  relocate-ok :
      (i : ℕ) (h : Hunk) (k : ℕ) (cs : List ℕ) (line : ℕ) (moved : List Relocation)
      → relocate file_path newline source i h k cs ≡ ok (line, moved)
      → (cs ≡ line ∷ []) × (k < line)
  unfolding relocate
  relocate-ok i h k [] line moved e = absurd (ground arith)
  relocate-ok i h k (c ∷ []) line moved e = (ground arith, ground arith)
  relocate-ok i h k (c ∷ d ∷ cs) line moved e = absurd (ground arith)

  pub place-ok :
      (i : ℕ) (h : Hunk) (k line : ℕ) (moved : List Relocation)
      → place file_path newline source i h k ≡ ok (line, moved)
      → (line ≡ h.old_start) ⊎ (exact_block_candidates source (hunk_old_lines h) ≡ line ∷ [])
  unfolding place
  place-ok i h k line moved e =
      elim (Bool-cases (
        is_nonempty (hunk_old_lines h)
        && not (exact_block_matches source h.old_start (hunk_old_lines h)))) [
          | inl move ↦ inr (relocate-ok i h k _ line moved (rw move at e)).0
          | inr stay ↦ inl (let e' = rw stay at e in ground arith)
        ]

  -- The whole loop: each hunk is applied at the line that `place` gave.
  apply_hunks-ok :
      (i : ℕ) (hs : List Hunk) (p q : Progress) (moved : List Relocation)
      → apply_hunks file_path newline source i hs p ≡ ok (q, moved)
      → Whole hs p q
  unfolding apply_hunks
  apply_hunks-ok i [] p q moved h = record {
    lines = [];
    out = drop p.src_index source;
    placed = tt;
    patched = rest;
    result = ground arith;
  }
  apply_hunks-ok i (h ∷ hs) p q moved e =
      let ((line, m), found, e1) = >>=-eq-ok (place file_path newline source i h p.src_index) _ e in
      let (r, at, e2) = >>=-eq-ok (apply_at file_path newline source i h line p) _ e1 in
      let ((t, later), e3, e4) =
        >>=-eq-ok (apply_hunks file_path newline source (suc i) hs r) _ e2 in
      let (behind, c) = apply_at-ok i h line p r at in
      let same : t ≡ q = cc e4 in
      Whole-step h hs line p r q (place-ok i h p.src_index line m found) behind c
        (subst (λ x. Whole hs r x) same (apply_hunks-ok (suc i) hs r t later e3))

  apply_parsed-ok :
      (hs : List Hunk) (patched : Text) (moved : List Relocation)
      → apply_parsed file_path newline source hs ≡ ok (patched, moved)
      → (lines : List ℕ) × (out : List Text) × Placed source hs lines
        × Patched newline 0 hs lines source out
        × (patched ≡ concat out)
  unfolding apply_parsed
  apply_parsed-ok [] patched moved e = absurd (ground arith)
  apply_parsed-ok (h ∷ hs) patched moved e =
      let ((q, m), run, e1) =
        >>=-eq-ok
          (apply_hunks file_path newline source 0 (h ∷ hs) (record { result = []; src_index = 0 }))
          _ e in
      let w = apply_hunks-ok 0 (h ∷ hs) (record { result = []; src_index = 0 }) q m run in
      let same : concat (q.result ++ drop q.src_index source) ≡ patched = cc e1 in
      (w.lines, w.out, w.placed, w.patched, sym same ∙ ap concat w.result)

-- A file that `apply_hunks_to_text` returns is the original, patched by the hunks of the diff:
-- there is a line number for each hunk, that of its header or that of the only block of the
-- original which equals its old lines; the numbers are in order and the old blocks do not overlap;
-- at these the old lines of the hunks stand in the original, up to line ends, and are replaced by
-- the new lines; and every other line is kept with its line end.
pub apply_hunks_to_text-Patched :
    (original body file_path patched : Text) (moved : List Relocation)
    → apply_hunks_to_text original body file_path ≡ ok (patched, moved)
    → (lines : List ℕ) × (out : List Text) × Placed
        (splitlines_keep original)
        (parse_hunks body)
        lines
      × Patched (detect_newline original) 0 (parse_hunks body) lines (splitlines_keep original) out
      × (patched ≡ concat out)
unfolding apply_hunks_to_text
apply_hunks_to_text-Patched original body file_path patched moved h =
    apply_parsed-ok file_path (detect_newline original) (splitlines_keep original)
      (parse_hunks body) patched moved h
