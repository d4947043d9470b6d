-- ===== src/Patching/Hunks/Apply.antt =====
-- apply_hunks_to_text. The variables `result` and `src_index` of the loop are a record; the list
-- `relocations` that the caller passes is returned.
use safepatch.Base.{
  ℕ, suc, ◌+◌, ◌-◌, Bool, true, false, not, ◌&&◌, Option, none, some, List, [], ◌∷◌, ◌++◌, take,
  drop, length, get_elem?, ltb, leb, if◌then◌else◌, Result, ok, err, ◌>>=◌,
}
use safepatch.Text.{Text, codes, text_eq, contains, rstrip_newlines, splitlines_keep, concat}
use safepatch.Patching.Hunks.Parse.{Tag, context, deletion, addition, Hunk, parse_hunks}
use safepatch.Patching.Hunks.Match.{
  ErrorKind, no_hunks, context_mismatch, deletion_mismatch, ambiguous_context, overlapping_hunk,
  hunk_old_lines, exact_block_matches, exact_block_candidates, first_hunk_mismatch,
}

-- HunkMatchError without the message `detail`; a hunk index or line of -1 or None is `none`.
pub record HunkMatchError : Type 0 where
  pub error_kind : ErrorKind
  pub target_file : Text
  pub hunk_index : Option ℕ
  pub line_no : Option ℕ
  pub first_unmatched_context : Text
  pub actual_context : Text
  pub candidate_lines : List ℕ

pub record Relocation : Type 0 where
  pub hunk_index : ℕ
  pub requested_line : ℕ
  pub applied_line : ℕ

pub record Progress : Type 0 where
  pub result : List Text
  pub src_index : ℕ

unfoldable pub detect_newline : Text → Text
detect_newline text =
    if contains text (codes "\r\n")
    then codes "\r\n"
    else if contains text (codes "\r")
    then codes "\r"
    else codes "\n"

abbrev pub eof : Text
eof = codes "<EOF>"

unfoldable pub is_nonempty : List Text → Bool
is_nonempty [] = false
is_nonempty (l ∷ ls) = true

module _ (file_path : Text) (newline : Text) (source : List Text) where
  unfoldable pub mismatch : ErrorKind → ℕ → ℕ → Text → Text → HunkMatchError
  mismatch kind hunk_index line expected actual = record {
    error_kind = kind;
    target_file = file_path;
    hunk_index = some hunk_index;
    line_no = some line;
    first_unmatched_context = expected;
    actual_context = actual;
    candidate_lines = [];
  }

  -- A context or deletion line: `keep` says whether the source line goes to the result.
  unfoldable pub consume : ErrorKind → Bool → ℕ → Text → Progress → Result HunkMatchError Progress
  unfolding mismatch
  consume kind keep hunk_index content p = elim (get_elem? source p.src_index) [
    | none ↦ err (mismatch kind hunk_index (p.src_index + 1) content eof)
    | some current ↦
        if text_eq (rstrip_newlines current) (rstrip_newlines content)
        then ok (record {
          result = if keep then p.result ++ current ∷ [] else p.result;
          src_index = suc p.src_index;
        })
        else err (mismatch kind hunk_index (p.src_index + 1) content (rstrip_newlines current))
  ]

  -- One tagged line of a hunk.
  unfoldable pub apply_line : ℕ → Tag → Text → Progress → Result HunkMatchError Progress
  unfolding consume
  apply_line i context content p = consume context_mismatch true i content p
  apply_line i deletion content p = consume deletion_mismatch false i content p
  apply_line i addition content p =
      ok (record p { result = p.result ++ (rstrip_newlines content ++ newline) ∷ [] })

  unfoldable pub apply_lines : ℕ → List (Tag × Text) → Progress → Result HunkMatchError Progress
  unfolding apply_line
  apply_lines i [] p = ok p
  apply_lines i ((tag, content) ∷ ls) p = apply_line i tag content p >>= λ q. apply_lines i ls q

  unfoldable pub ambiguous_or_missing : ℕ → Hunk → List ℕ → HunkMatchError
  unfolding mismatch
  ambiguous_or_missing i h candidates =
      let (kind, line, expected, actual) = first_hunk_mismatch source h h.old_start in
      record (mismatch (if ltb 1 (length candidates) then ambiguous_context else kind) i line
        expected actual) { candidate_lines = candidates }

  -- The line at which a hunk is applied, and the relocation that is recorded.
  unfoldable pub relocate : ℕ → Hunk → ℕ → List ℕ → Result HunkMatchError (ℕ × List Relocation)
  unfolding ambiguous_or_missing
  relocate i h src_index (line ∷ []) =
      if ltb src_index line
      then ok
          (line, record { hunk_index = i; requested_line = h.old_start; applied_line = line } ∷ [])
      else err (ambiguous_or_missing i h (line ∷ []))
  relocate i h src_index candidates = err (ambiguous_or_missing i h candidates)

  unfoldable pub place : ℕ → Hunk → ℕ → Result HunkMatchError (ℕ × List Relocation)
  unfolding relocate is_nonempty
  place i h src_index =
      let expected_old = hunk_old_lines h in
      if is_nonempty expected_old && not (exact_block_matches source h.old_start expected_old)
      then relocate i h src_index (exact_block_candidates source expected_old)
      else ok (h.old_start, [])

  -- The overlap test, the copy of the lines between two hunks, and the hunk's lines.
  unfoldable pub apply_at : ℕ → Hunk → ℕ → Progress → Result HunkMatchError Progress
  unfolding mismatch apply_lines
  apply_at i h line p =
      if leb line p.src_index
      then err (mismatch overlapping_hunk i line [] [])
      else apply_lines i h.lines (record {
        result = p.result ++ take (line - 1 - p.src_index) (drop p.src_index source);
        src_index = line - 1;
      })

  unfoldable pub apply_hunks :
      ℕ → List Hunk → Progress → Result HunkMatchError (Progress × List Relocation)
  unfolding place apply_at
  apply_hunks i [] p = ok (p, [])
  apply_hunks i (h ∷ hs) p = place i h p.src_index >>= λ (line, moved). apply_at i h line p >>= λ q.
      apply_hunks (suc i) hs q >>= λ (r, relocations). ok (r, moved ++ relocations)

  unfoldable pub apply_parsed : List Hunk → Result HunkMatchError (Text × List Relocation)
  unfolding apply_hunks
  apply_parsed [] = err (record {
    error_kind = no_hunks;
    target_file = file_path;
    hunk_index = none;
    line_no = none;
    first_unmatched_context = [];
    actual_context = [];
    candidate_lines = [];
  })
  apply_parsed (h ∷ hs) =
      apply_hunks 0 (h ∷ hs) (record { result = []; src_index = 0 }) >>= λ (p, relocations).
      ok (concat (p.result ++ drop p.src_index source), relocations)

unfoldable pub apply_hunks_to_text :
    Text → Text → Text → Result HunkMatchError (Text × List Relocation)
unfolding apply_parsed detect_newline
apply_hunks_to_text original body file_path =
    apply_parsed file_path (detect_newline original) (splitlines_keep original) (parse_hunks body)
