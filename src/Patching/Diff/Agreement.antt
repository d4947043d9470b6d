-- ===== src/Patching/Diff/Agreement.antt =====
-- The policy and the applier read the same files in a diff.
use safepatch.Base.{
  Bool, not, ◌≡◌, refl, ap, ◌∙◌, Option, none, some, List, [], ◌∷◌, ◌++◌, map, filter, arith, sym,
  append-nil, ◌⊎◌, inl, inr,
}
use safepatch.Text.{Text, codes, splitlines, text_eq}
use safepatch.Patching.Diff.Split.{
  dev_null, LineKind, git_header, old_header, new_header, other, classify, new_path, Chunk, flush,
  start_chunk, extend, split_lines, is_real, render_chunk, split_file_diffs, header_path,
  parse_headers, parse_diff_files,
}

-- The target paths of the headers that the policy checks.
abbrev pub targets : List (Option Text × Option Text) → List Text
targets [] = []
targets ((old, none) ∷ ps) = targets ps
targets ((old, some p) ∷ ps) = p ∷ targets ps

abbrev pub not_dev_null : Text → Bool
not_dev_null p = not (text_eq p dev_null)

paths : List Chunk → List Text
paths cs = map (λ c. c.0) (filter is_real cs)

paths-append : (cs ds : List Chunk) → paths (cs ++ ds) ≡ paths cs ++ paths ds
unfolding paths
paths-append [] ds = refl
paths-append (c ∷ cs) ds = ground (arith, paths-append cs ds)

kind_cases :
    (k : LineKind) → (k ≡ git_header) ⊎ ((k ≡ old_header) ⊎ ((k ≡ new_header) ⊎ (k ≡ other)))
kind_cases git_header = inl refl
kind_cases old_header = inr (inl refl)
kind_cases new_header = inr (inr (inl refl))
kind_cases other = inr (inr (inr refl))

filter-append :
    (p : Text → Bool) (xs ys : List Text) → filter p (xs ++ ys) ≡ filter p xs ++ filter p ys
filter-append p [] ys = refl
filter-append p (x ∷ xs) ys = ground (arith, filter-append p xs ys)

-- The path of a `+++` line is the one that the policy reads, but for /dev/null.
new_header_path :
    (line : Text) (ps : List (Option Text × Option Text)) (old : Option Text)
    → filter not_dev_null (targets ((old, header_path (codes "b/") line) ∷ ps))
      ≡ filter not_dev_null (new_path line ∷ targets ps)
unfolding header_path new_path
new_header_path line ps old = ground arith

paths-extend : (c : Option Chunk) (line : Text) → paths (flush (extend c line)) ≡ paths (flush c)
unfolding paths flush extend is_real
paths-extend none line = refl
paths-extend (some (p, body)) line = ground arith

paths-start :
    (line : Text) (pending : Option Text)
    → paths (flush (some (start_chunk line pending))) ≡ filter not_dev_null (new_path line ∷ [])
unfolding paths flush start_chunk is_real
paths-start line none = ground arith
paths-start line (some old) = ground arith

agree :
    (current : Option Chunk) (pending old : Option Text) (lines : List Text)
    → paths (split_lines current pending lines)
      ≡ paths (flush current) ++ filter not_dev_null (targets (parse_headers old lines))
unfolding split_lines parse_headers paths
agree current pending old [] = sym (append-nil (paths (flush current)))
agree current pending old (line ∷ rest) = elim (kind_cases (classify line)) [
  | inl e ↦
      rw (e, split_lines, parse_headers)
        (paths-append (flush current) (split_lines none pending rest)
          ∙ ap (λ l. paths (flush current) ++ l) (agree none pending old rest))
  | inr (inl e) ↦
      rw (e, split_lines, parse_headers)
        (agree current (some line) (header_path (codes "a/") line) rest)
  | inr (inr (inl e)) ↦
      rw (e, split_lines, parse_headers)
        (paths-append (flush current) (split_lines (some (start_chunk line pending)) none rest)
          ∙ ap (λ l. paths (flush current) ++ l)
              (agree (some (start_chunk line pending)) none none rest
                ∙ ap (λ l. l ++ filter not_dev_null (targets (parse_headers none rest)))
                    (paths-start line pending)
                ∙ sym (
                    filter-append not_dev_null (new_path line ∷ [])
                      (targets (parse_headers none rest)))
                ∙ sym (new_header_path line (parse_headers none rest) old)))
  | inr (inr (inr e)) ↦
      rw (e, split_lines, parse_headers)
        (agree (extend current line) pending old rest
          ∙ ap (λ l. l ++ filter not_dev_null (targets (parse_headers old rest)))
              (paths-extend current line))
]

paths-render : (cs : List Chunk) → map (λ c. c.0) (map render_chunk cs) ≡ map (λ c. c.0) cs
unfolding render_chunk
paths-render [] = refl
paths-render ((p, body) ∷ cs) = ap (λ l. p ∷ l) (paths-render cs)

-- The files that the applier and the preflight cut out of a diff are, in order, the target paths
-- of the headers that the policy reads in it, less those spelled /dev/null: no file is changed
-- whose path the policy did not see, and none that it saw is skipped.
pub split_file_diffs-targets :
    (diff : Text)
    → map (λ c. c.0) (split_file_diffs diff) ≡ filter not_dev_null (targets (parse_diff_files diff))
unfolding split_file_diffs parse_diff_files paths flush
split_file_diffs-targets diff =
    paths-render (filter is_real (split_lines none none (splitlines diff)))
    ∙ agree none none none (splitlines diff)
