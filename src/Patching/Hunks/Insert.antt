-- ===== src/Patching/Hunks/Insert.antt =====
-- Hunks that only add lines: there is nothing to compare, so the line of the header decides.
use safepatch.Base.{
  ℕ, suc, ◌-◌, List, [], ◌∷◌, ◌++◌, ◌≡◌, refl, sym, ap, subst, ◌∙◌, take, drop, map, arith, ok, err,
}
use safepatch.Text.{Text, rstrip_newlines, splitlines_keep, concat}
use safepatch.Patching.Hunks.Parse.{Tag, addition, Hunk, parse_hunks}
use safepatch.Patching.Hunks.Match.{old_lines, hunk_old_lines, overlapping_hunk}
use safepatch.Patching.Hunks.Apply.{
  place, apply_at, is_nonempty, mismatch, apply_hunks_to_text, detect_newline,
}
use safepatch.Patching.Hunks.Spec.{Replaces, done, add, Patched, rest, hunk}
use safepatch.Patching.Hunks.Complete.{apply_hunks_to_text_complete}

-- The tagged lines of a hunk that adds the texts.
abbrev pub additions : List Text → List (Tag × Text)
additions = map (λ t. (addition, t))

-- The lines that they become in a file with the given line end.
abbrev pub added : Text → List Text → List Text
added newline = map (λ t. rstrip_newlines t ++ newline)

additions-Replaces :
    (newline : Text) (ts : List Text) → Replaces newline (additions ts) [] (added newline ts)
additions-Replaces newline [] = done
additions-Replaces newline (t ∷ ts) = add (additions-Replaces newline ts)

inserted :
    (newline : Text) (source : List Text) (h : Hunk) (ts : List Text) (n : ℕ)
    → h.lines ≡ additions ts
    → h.old_start ≡ suc n
    → Patched newline 0
        (h ∷ [])
        (h.old_start ∷ [])
        source
        (take n source ++ (added newline ts ++ drop n source))
inserted newline source h ts n lines start =
    let at : h.old_start - 1 - 0 ≡ n = omega arith in
    subst
      (λ m.
        Patched newline 0 (h ∷ []) (h.old_start ∷ []) source
          (take m source ++ (added newline ts ++ drop n source)))
      at
      (hunk (omega arith) (ap (λ m. drop m source) at)
        (subst (λ ls. Replaces newline ls [] (added newline ts)) (sym lines)
          (additions-Replaces newline ts))
        rest)

old_lines-additions : (ts : List Text) → old_lines (additions ts) ≡ []
unfolding old_lines
old_lines-additions [] = refl
old_lines-additions (t ∷ ts) = old_lines-additions ts

-- A diff with one hunk, which only adds lines and whose header has the old line number n + 1, puts
-- them in front of line n + 1 of the file. (The unified diff format counts the other way: there an
-- empty old range at n + 1 stands behind line n + 1.)
pub insert_before :
    (original body file_path : Text) (h : Hunk) (ts : List Text) (n : ℕ)
    → parse_hunks body ≡ h ∷ []
    → h.lines ≡ additions ts
    → h.old_start ≡ suc n
    → apply_hunks_to_text original body file_path
      ≡ ok (
        concat (
            take n (splitlines_keep original)
            ++ (added (detect_newline original) ts ++ drop n (splitlines_keep original))),
        [],
      )
insert_before original body file_path h ts n one lines start =
    apply_hunks_to_text_complete original body file_path _ (λ e. cc)
      (subst
        (λ hs.
          Patched (detect_newline original) 0 hs (map (λ x. x.old_start) hs)
            (splitlines_keep original)
            (take n (splitlines_keep original)
              ++ (added (detect_newline original) ts ++ drop n (splitlines_keep original))))
        (sym one)
        (inserted (detect_newline original) (splitlines_keep original) h ts n lines start))

module _ (file_path newline : Text) (source : List Text) (h : Hunk) (ts : List Text) where
  placed_by_header :
      h.lines ≡ additions ts → place file_path newline source 0 h 0 ≡ ok (h.old_start, [])
  unfolding place hunk_old_lines is_nonempty
  placed_by_header lines = rw (ap old_lines lines ∙ old_lines-additions ts)

  refused_at_zero :
      h.old_start ≡ 0
      → apply_at file_path newline source 0 h h.old_start (record { result = []; src_index = 0 })
        ≡ err (mismatch file_path newline source overlapping_hunk 0 0 [] [])
  unfolding apply_at
  refused_at_zero start = ground arith

-- The same at the old line number 0, which the format prescribes for a file that is empty: the
-- diff is refused as overlapping, and nothing is added.
pub insert_at_zero :
    (original body file_path : Text) (h : Hunk) (ts : List Text)
    → parse_hunks body ≡ h ∷ []
    → h.lines ≡ additions ts
    → h.old_start ≡ 0
    → apply_hunks_to_text original body file_path
      ≡ err (
          mismatch file_path
            (detect_newline original)
            (splitlines_keep original)
            overlapping_hunk
            0
            0
            []
            [])
unfolding apply_hunks_to_text
insert_at_zero original body file_path h ts one lines start = rw (
  one,
  placed_by_header file_path (detect_newline original) (splitlines_keep original) h ts lines,
  refused_at_zero file_path (detect_newline original) (splitlines_keep original) h ts start,
)
