-- ===== src/Tests/Hunks.antt =====
-- The hunk engine at a file of two lines.
use safepatch.Base.{
  ℕ, ◌⊎◌, true, false, List, [], ◌∷◌, ◌++◌, ◌≡◌, ◌≢◌, refl, ok, err, map, All, ◌<◌, arith, take,
  drop,
}
use safepatch.Text.{
  Text, codes, text_eq, concat, contains, splitlines_keep, rstrip_newlines, digit_value,
}
use safepatch.Patching.Hunks.{
  Hunk, parse_hunks, context, deletion, addition, apply_hunks_to_text, hunk_old_lines,
  exact_block_matches, exact_block_candidates, Relocation, detect_newline, place, mismatch,
  overlapping_hunk,
}
use safepatch.Patching.Hunks.Spec.{Placed, Patched, rest, hunk, keep, remove, add, done}
use safepatch.Patching.Hunks.Sound.{apply_hunks_to_text-Patched}
use safepatch.Patching.Hunks.Complete.{apply_hunks_to_text_complete}
use safepatch.Patching.Hunks.Unique.{Among, place_exact, exact_block_candidates_lem}
use safepatch.Patching.Hunks.Insert.{insert_before, insert_at_zero, added}
use safepatch.Tests.World.{path, original, patched, diff, inserting, inserting_at_zero}

abbrev change : Hunk
change = record {
  old_start = 1;
  old_count = 2;
  new_start = 1;
  new_count = 2;
  lines = (context, codes "x") ∷ (deletion, codes "y") ∷ (addition, codes "z") ∷ [];
}

abbrev insertion : ℕ → ℕ → Hunk
insertion old new = record {
  old_start = old;
  old_count = 0;
  new_start = new;
  new_count = 1;
  lines = (addition, codes "z") ∷ [];
}

parsed : parse_hunks diff ≡ change ∷ []
unfolding parse_hunks digit_value
parsed = refl

parsed_insertion : parse_hunks inserting ≡ insertion 2 2 ∷ []
unfolding parse_hunks digit_value
parsed_insertion = refl

parsed_insertion_at_zero : parse_hunks inserting_at_zero ≡ insertion 0 1 ∷ []
unfolding parse_hunks digit_value
parsed_insertion_at_zero = refl

applied : apply_hunks_to_text original diff path ≡ ok (patched, [])
unfolding apply_hunks_to_text parse_hunks digit_value hunk_old_lines exact_block_matches text_eq
    rstrip_newlines concat contains
applied = refl

apply_hunks_to_text-Patched_example :
    (lines : List ℕ) × (out : List Text) × Placed
      (splitlines_keep original)
      (parse_hunks diff)
      lines
    × Patched (detect_newline original) 0 (parse_hunks diff) lines (splitlines_keep original) out
    × (patched ≡ concat out)
apply_hunks_to_text-Patched_example =
    apply_hunks_to_text-Patched original diff path patched [] applied

some_hunk : parse_hunks diff ≢ []
some_hunk e = let e' = rw parsed at e in ground arith

abbrev out : List Text
out = codes "x\n" ∷ codes "z\n" ∷ []

fits :
    Patched
      (detect_newline original)
      0
      (parse_hunks diff)
      (map (λ h. h.old_start) (parse_hunks diff))
      (splitlines_keep original)
      out
unfolding detect_newline parse_hunks splitlines_keep digit_value rstrip_newlines contains
fits =
    hunk {line = 1} {old = codes "x\n" ∷ codes "y\n" ∷ []} (ground arith) refl
      (keep refl (remove refl (add done))) rest

apply_hunks_to_text_complete_example : apply_hunks_to_text original diff path ≡ ok (concat out, [])
apply_hunks_to_text_complete_example =
    apply_hunks_to_text_complete original diff path out some_hunk fits

insert_before_example :
    apply_hunks_to_text original inserting path
    ≡ ok (
      concat (
          take 1 (splitlines_keep original)
          ++ (added (detect_newline original) (codes "z" ∷ [])
              ++ drop 1 (splitlines_keep original))),
      [],
    )
insert_before_example =
    insert_before original inserting path (insertion 2 2) (codes "z" ∷ []) 1 parsed_insertion refl
      refl

insert_at_zero_example :
    apply_hunks_to_text original inserting_at_zero path
    ≡ err (
        mismatch path
          (detect_newline original)
          (splitlines_keep original)
          overlapping_hunk
          0
          0
          []
          [])
insert_at_zero_example =
    insert_at_zero original inserting_at_zero path (insertion 0 1) (codes "z" ∷ [])
      parsed_insertion_at_zero refl refl

-- A header that names a line too far down.
abbrev late : Hunk
late = record change { old_start = 2 }

abbrev moved : List Relocation
moved = record { hunk_index = 0; requested_line = 2; applied_line = 1 } ∷ []

has_old_lines : hunk_old_lines late ≢ []
unfolding hunk_old_lines
has_old_lines e = ground arith

relocated : place path (codes "\n") (splitlines_keep original) 0 late 0 ≡ ok (1, moved)
unfolding place hunk_old_lines exact_block_matches splitlines_keep exact_block_candidates text_eq
    rstrip_newlines
relocated = refl

place_exact_example :
    (exact_block_matches (splitlines_keep original) 1 (hunk_old_lines late) ≡ true)
    × (((1 ≡ late.old_start) × (moved ≡ []))
        ⊎ ((exact_block_matches (splitlines_keep original) 2 (hunk_old_lines late) ≡ false)
            × (0 < 1)
            × (moved ≡ moved)
            × ((m : ℕ)
                → exact_block_matches (splitlines_keep original) m (hunk_old_lines late) ≡ true
                → m ≡ 1)))
place_exact_example =
    place_exact path (codes "\n") (splitlines_keep original) 0 late 0 1 moved has_old_lines
      relocated

exact_block_candidates_lem_example :
    All
      (λ m. exact_block_matches (splitlines_keep original) m (hunk_old_lines late) ≡ true)
      (exact_block_candidates (splitlines_keep original) (hunk_old_lines late))
    × ((m : ℕ)
        → exact_block_matches (splitlines_keep original) m (hunk_old_lines late) ≡ true
        → Among m (exact_block_candidates (splitlines_keep original) (hunk_old_lines late)))
exact_block_candidates_lem_example =
    exact_block_candidates_lem (splitlines_keep original) (hunk_old_lines late) has_old_lines
