-- ===== src/Patching/Hunks/Complete.antt =====
-- Hunks whose old lines stand at the lines of their headers are applied: the exact comparison
-- refuses nothing that fits.
use safepatch.Base.{
  ℕ, zero, suc, ◌+◌, ◌-◌, ◌<◌, Bool, true, false, some, List, [], ◌∷◌, ◌++◌, ◌≡◌, ◌≢◌, refl, sym,
  ap, subst, ◌∙◌, inl, inr, map, take, drop, length, get_elem?, leb, ltb, arith, if◌then◌else◌,
  Result, ok, Bool-cases, drop-append, drop-drop, append-nil, append_assoc, take-append,
  length-append, length-drop,
}
use mathlib.Core.Path.{ap₂}
use safepatch.Text.{Text, rstrip_newlines, splitlines_keep, concat}
use safepatch.Text.Laws.{text_eq_refl, eq→text_eq}
use safepatch.Patching.Hunks.Parse.{Tag, Hunk, parse_hunks}
use safepatch.Patching.Hunks.Match.{
  ErrorKind, context_mismatch, deletion_mismatch, texts_eq, bare_lines, old_lines, hunk_old_lines,
  exact_block_matches,
}
use safepatch.Patching.Hunks.Apply.{
  HunkMatchError, Progress, consume, apply_line, apply_lines, apply_at, place, is_nonempty,
  apply_hunks, apply_parsed, apply_hunks_to_text, detect_newline,
}
use safepatch.Patching.Hunks.Spec.{Replaces, done, keep, remove, add, Patched, rest, hunk}

pub texts_eq_refl : (ss : List Text) → texts_eq ss ss ≡ true
unfolding texts_eq
texts_eq_refl [] = refl
texts_eq_refl (s ∷ ss) = ground (arith, text_eq_refl s, texts_eq_refl ss)

-- The old side of a replaced block, without line ends, is what the hunk expects.
Replaces-old_lines :
    {newline : Text} {ls : List (Tag × Text)} {old new : List Text}
    → Replaces newline ls old new
    → bare_lines old ≡ old_lines ls
unfolding bare_lines old_lines
Replaces-old_lines done = refl
Replaces-old_lines (keep e r) = ap₂ (λ l ls. l ∷ ls) e (Replaces-old_lines r)
Replaces-old_lines (remove e r) = ap₂ (λ l ls. l ∷ ls) e (Replaces-old_lines r)
Replaces-old_lines (add r) = Replaces-old_lines r

length-bare_lines : (ls : List Text) → length (bare_lines ls) ≡ length ls
unfolding bare_lines
length-bare_lines [] = refl
length-bare_lines (l ∷ ls) = omega (arith, length-bare_lines ls)

get_elem?-drop {ℓ} :
    {A : Type ℓ} (xs : List A) (i : ℕ) (x : A) (ys : List A)
    → drop i xs ≡ x ∷ ys
    → (get_elem? xs i ≡ some x) × (drop (suc i) xs ≡ ys)
get_elem?-drop [] zero x ys h = absurd (ground arith)
get_elem?-drop [] (suc i) x ys h = absurd (ground arith)
get_elem?-drop (z ∷ xs) zero x ys h = (ground arith, ground arith)
get_elem?-drop (z ∷ xs) (suc i) x ys h = get_elem?-drop xs i x ys h

-- A block that stands at a line is found there.
exact_block_matches-fits :
    (source : List Text) (start : ℕ) (old behind expected : List Text)
    → drop start source ≡ old ++ behind
    → bare_lines old ≡ expected
    → is_nonempty expected ≡ true
    → exact_block_matches source (suc start) expected ≡ true
unfolding exact_block_matches is_nonempty
exact_block_matches-fits source start old behind [] e f h = absurd (ground arith)
exact_block_matches-fits source start old behind (x ∷ xs) e f h =
    let n : length old ≡ length (x ∷ xs) = sym (length-bare_lines old) ∙ ap length f in
    let fits : ltb (length source) (start + length (x ∷ xs)) ≡ false =
      ground (arith, length-drop start source, ap length e, length-append old behind) in
    let block : take (length (x ∷ xs)) (drop start source) ≡ old =
      ap₂ take (sym n) e ∙ take-append old behind in
    rw (fits, block, f) (texts_eq_refl (x ∷ xs))

progress_eq :
    {a b : List Text} {m n : ℕ}
    → a ≡ b
    → m ≡ n
    → ◌≡◌ {A = Result HunkMatchError Progress}
        (ok (record { result = a; src_index = m }))
        (ok (record { result = b; src_index = n }))
progress_eq p q = λ i. ok (record { result = p i; src_index = q i })

module _ (file_path : Text) (newline : Text) (source : List Text) where
  consume-fits :
      (kind : ErrorKind) (kept : Bool) (i : ℕ) (content line : Text) (p : Progress)
      → get_elem? source p.src_index ≡ some line
      → rstrip_newlines line ≡ rstrip_newlines content
      → consume file_path newline source kind kept i content p
        ≡ ok (record {
          result = if kept then p.result ++ line ∷ [] else p.result;
          src_index = suc p.src_index;
        })
  unfolding consume
  consume-fits kind kept i content line p at same =
      ground (arith, eq→text_eq (rstrip_newlines line) (rstrip_newlines content))

  -- Lines that replace the block at the position are applied, with the block's new lines.
  apply_lines-fits :
      (i : ℕ) {ls : List (Tag × Text)} {old new : List Text} (p : Progress) (behind : List Text)
      → Replaces newline ls old new
      → drop p.src_index source ≡ old ++ behind
      → apply_lines file_path newline source i ls p
        ≡ ok (record { result = p.result ++ new; src_index = p.src_index + length old })
  unfolding apply_lines apply_line
  apply_lines-fits i p behind done e = progress_eq (sym (append-nil p.result)) (omega arith)
  apply_lines-fits i p behind (keep {line} {content} {ls} {old} {new} same r) e =
      let (at, later) = get_elem?-drop source p.src_index line (old ++ behind) e in
      rw (consume-fits context_mismatch true i content line p at same) (
        apply_lines-fits i (record { result = p.result ++ line ∷ []; src_index = suc p.src_index })
          behind r later
        ∙ progress_eq (append_assoc p.result (line ∷ []) new) (omega arith))
  apply_lines-fits i p behind (remove {line} {content} {ls} {old} {new} same r) e =
      let (at, later) = get_elem?-drop source p.src_index line (old ++ behind) e in
      rw (consume-fits deletion_mismatch false i content line p at same) (
        apply_lines-fits i (record { result = p.result; src_index = suc p.src_index }) behind r
          later
        ∙ progress_eq refl (omega arith))
  apply_lines-fits i p behind (add {content} {ls} {old} {new} r) e =
      apply_lines-fits i
        (record p { result = p.result ++ (rstrip_newlines content ++ newline) ∷ [] }) behind r e
      ∙ progress_eq (append_assoc p.result ((rstrip_newlines content ++ newline) ∷ []) new) refl

  place-fits :
      (i : ℕ) (h : Hunk) (k : ℕ) (old new behind : List Text)
      → 0 < h.old_start
      → drop (h.old_start - 1) source ≡ old ++ behind
      → Replaces newline h.lines old new
      → place file_path newline source i h k ≡ ok (h.old_start, [])
  unfolding place hunk_old_lines
  place-fits i h k old new behind pos e r = elim (Bool-cases (is_nonempty (old_lines h.lines))) [
    | inl some_old ↦
        let start : suc (h.old_start - 1) ≡ h.old_start = omega arith in
        let found : exact_block_matches source h.old_start (old_lines h.lines) ≡ true =
          subst (λ n. exact_block_matches source n (old_lines h.lines) ≡ true) start
            (exact_block_matches-fits source (h.old_start - 1) old behind (old_lines h.lines) e
              (Replaces-old_lines r) some_old) in
        rw (some_old, found)
    | inr no_old ↦ rw no_old
  ]

  apply_at-fits :
      (i : ℕ) (h : Hunk) (line : ℕ) (p : Progress) (old new behind : List Text)
      → p.src_index < line
      → drop (line - 1) source ≡ old ++ behind
      → Replaces newline h.lines old new
      → apply_at file_path newline source i h line p
        ≡ ok (record {
          result = (p.result ++ take (line - 1 - p.src_index) (drop p.src_index source)) ++ new;
          src_index = line - 1 + length old;
        })
  unfolding apply_at
  apply_at-fits i h line p old new behind later e r =
      let late : leb line p.src_index ≡ false = ground arith in
      rw late (
        apply_lines-fits i
          (record {
            result = p.result ++ take (line - 1 - p.src_index) (drop p.src_index source);
            src_index = line - 1;
          })
          behind r e)

  apply_hunks-step :
      (i : ℕ) (h : Hunk) (hs : List Hunk) (p next q : Progress)
      → place file_path newline source i h p.src_index ≡ ok (h.old_start, [])
      → apply_at file_path newline source i h h.old_start p ≡ ok next
      → apply_hunks file_path newline source (suc i) hs next ≡ ok (q, [])
      → apply_hunks file_path newline source i (h ∷ hs) p ≡ ok (q, [])
  unfolding apply_hunks
  apply_hunks-step i h hs p next q placed at run = rw (placed, at, run)

  apply_hunks-fits :
      (i : ℕ) (p : Progress) {hs : List Hunk} {lines : List ℕ} {behind out : List Text}
      → Patched newline p.src_index hs lines behind out
      → lines ≡ map (λ h. h.old_start) hs
      → behind ≡ drop p.src_index source
      → (q : Progress) × (apply_hunks file_path newline source i hs p ≡ ok (q, []))
        × (q.result ++ drop q.src_index source ≡ p.result ++ out)
  apply_hunks-fits i p rest at e = (p, unfold apply_hunks in refl, ap (λ l. p.result ++ l) (sym e))
  apply_hunks-fits i p
        (hunk {line = line} {h = h} {hs = hs} {source = here} {old = old} {new = new}
          {source' = behind} {out = out} later block r more)
        at e =
      let start : line ≡ h.old_start = cc at in
      let block' : drop (line - 1) source ≡ old ++ behind =
        ap (λ k. drop k source) (omega arith)
        ∙ sym (drop-drop (line - 1 - p.src_index) p.src_index source)
        ∙ ap (drop (line - 1 - p.src_index)) (sym e)
        ∙ block in
      let next : Progress = record {
        result = (p.result ++ take (line - 1 - p.src_index) (drop p.src_index source)) ++ new;
        src_index = line - 1 + length old;
      } in
      let behind' : behind ≡ drop (line - 1 + length old) source =
        sym (drop-append old behind)
        ∙ ap (drop (length old)) (sym block')
        ∙ drop-drop (length old) (line - 1) source in
      let (q, run, res) = apply_hunks-fits (suc i) next more (cc at) behind' in
      (
        q,
        apply_hunks-step i h hs p next q
            (place-fits i h p.src_index old new behind (omega arith)
              (subst (λ n. drop (n - 1) source ≡ old ++ behind) start block') r)
            (subst (λ n. apply_at file_path newline source i h n p ≡ ok next) start
              (apply_at-fits i h line p old new behind later block' r))
            run,
        res
            ∙ append_assoc (p.result ++ take (line - 1 - p.src_index) (drop p.src_index source)) new
                out
            ∙ append_assoc p.result _ (new ++ out)
            ∙ ap (λ l. p.result ++ (take (line - 1 - p.src_index) l ++ (new ++ out))) (sym e),
      )

  apply_parsed-fits :
      (hs : List Hunk) (out : List Text)
      → hs ≢ []
      → Patched newline 0 hs (map (λ h. h.old_start) hs) source out
      → apply_parsed file_path newline source hs ≡ ok (concat out, [])
  unfolding apply_parsed
  apply_parsed-fits [] out some_hunk patched = absurd (some_hunk refl)
  apply_parsed-fits (h ∷ hs) out some_hunk patched =
      let (q, run, res) =
        apply_hunks-fits 0 (record { result = []; src_index = 0 }) patched refl refl in
      rw (run, res)

-- When the old lines of every hunk stand in the original, up to line ends, at the line of the
-- hunk's header, the hunks in order and with no overlap, the patch is applied: the result is the
-- patched file, and no hunk is relocated.
pub apply_hunks_to_text_complete :
    (original body file_path : Text) (out : List Text)
    → parse_hunks body ≢ []
    → Patched
        (detect_newline original)
        0
        (parse_hunks body)
        (map (λ h. h.old_start) (parse_hunks body))
        (splitlines_keep original)
        out
    → apply_hunks_to_text original body file_path ≡ ok (concat out, [])
unfolding apply_hunks_to_text
apply_hunks_to_text_complete original body file_path out some_hunk patched =
    apply_parsed-fits file_path (detect_newline original) (splitlines_keep original)
      (parse_hunks body) out some_hunk patched
