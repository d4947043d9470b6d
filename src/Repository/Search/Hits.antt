-- ===== src/Repository/Search/Hits.antt =====
-- search_text against the list of all lines that have the text.
use safepatch.Base.{
  ℕ, zero, suc, ◌≤◌, true, false, Option, none, some, List, [], ◌∷◌, ◌++◌, ◌≡◌, refl, sym, ap, ◌∙◌,
  inl, inr, arith, length, length-append, append_assoc, append-nil, take, leb, if◌then◌else◌,
  Bool-cases,
}
use safepatch.Text.{Text, text_eq, contains, splitlines, strip}
use safepatch.Repository.Search.{
  TextHit, Scan, scanned, returned, add_hit, scan_lines, scan_file, scan_files, hits_of,
  search_text,
}

-- The lines with the text, numbered from i.
abbrev pub hits_in : Text → Text → ℕ → List Text → List TextHit
hits_in query path i [] = []
hits_in query path i (l ∷ ls) =
    let rest = hits_in query path (suc i) ls in
    if contains l query then record { path = path; line = i; text = strip l } ∷ rest else rest

abbrev pub hits_in_file : Text → Text × Option Text → List TextHit
hits_in_file query (path, none) = []
hits_in_file query (path, some content) = hits_in query path 1 (splitlines content)

-- All such lines, file by file.
abbrev pub all_hits : Text → List (Text × Option Text) → List TextHit
all_hits query [] = []
all_hits query (f ∷ fs) = hits_in_file query f ++ all_hits query fs

take_all : {A : Type 0} (n : ℕ) (xs : List A) → length xs ≤ n → take n xs ≡ xs
take_all zero [] h = refl
take_all zero (x ∷ xs) h = absurd (omega arith)
take_all (suc n) [] h = refl
take_all (suc n) (x ∷ xs) h = ap (◌∷◌ x) (take_all n xs (omega arith))

take-append_le :
    {A : Type 0} (n : ℕ) (xs ys : List A) → n ≤ length xs → take n (xs ++ ys) ≡ take n xs
take-append_le zero xs ys h = refl
take-append_le (suc n) [] ys h = absurd (omega arith)
take-append_le (suc n) (x ∷ xs) ys h = ap (◌∷◌ x) (take-append_le n xs ys (omega arith))

-- What a loop returns that finds all of these: the first ones, as soon as they are enough.
abbrev cut : ℕ → List TextHit → Scan
cut n hits = if leb n (length hits) then returned (take n hits) else scanned hits

cut_more :
    (n : ℕ) (xs ys : List TextHit)
    → leb n (length xs) ≡ true
    → cut n (xs ++ ys) ≡ returned (take n xs)
cut_more n xs ys h =
    let e = length-append xs ys in
    let more : leb n (length (xs ++ ys)) ≡ true = ground arith in
    rw (more) (ap returned (take-append_le n xs ys (ground arith)))

hits_of-cut : (n : ℕ) (hits : List TextHit) → hits_of (cut n hits) ≡ take n hits
unfolding hits_of
hits_of-cut n hits = elim (Bool-cases (leb n (length hits))) [
  | inl full ↦ rw (full) refl
  | inr few ↦ rw (few) (sym (take_all n hits (ground arith)))
]

module _ (query : Text) (max_hits : ℕ) where
  scan_lines-cut :
      (path : Text) (i : ℕ) (ls : List Text) (hits : List TextHit)
      → leb max_hits (length hits) ≡ false
      → scan_lines query max_hits path i ls hits ≡ cut max_hits (hits ++ hits_in query path i ls)
  unfolding scan_lines add_hit
  scan_lines-cut path i [] hits few = rw (append-nil hits, few) refl
  scan_lines-cut path i (l ∷ ls) hits few = elim (Bool-cases (contains l query)) [
    | inr miss ↦ rw (miss) (scan_lines-cut path (suc i) ls hits few)
    | inl found ↦
        let hit : TextHit = record { path = path; line = i; text = strip l } in
        let more = hits ++ (hit ∷ []) in
        let rest = hits_in query path (suc i) ls in
        let assoc : more ++ rest ≡ hits ++ (hit ∷ rest) = append_assoc hits (hit ∷ []) rest in
        let size = length-append hits (hit ∷ []) in
        elim (Bool-cases (leb max_hits (length more))) [
          | inl full ↦
              rw (found, full)
                (sym (ap returned (take_all max_hits more (ground arith)))
                  ∙ sym (cut_more max_hits more rest full)
                  ∙ ap (cut max_hits) assoc)
          | inr free ↦
              rw (found, free) (scan_lines-cut path (suc i) ls more free ∙ ap (cut max_hits) assoc)
        ]
  ]

  scan_file-cut :
      (f : Text × Option Text) (hits : List TextHit)
      → leb max_hits (length hits) ≡ false
      → scan_file query max_hits f hits ≡ cut max_hits (hits ++ hits_in_file query f)
  unfolding scan_file
  scan_file-cut (path, none) hits few = rw (append-nil hits, few) refl
  scan_file-cut (path, some content) hits few = scan_lines-cut path 1 (splitlines content) hits few

  scan_files-cut :
      (fs : List (Text × Option Text)) (hits : List TextHit)
      → leb max_hits (length hits) ≡ false
      → scan_files query max_hits fs hits ≡ cut max_hits (hits ++ all_hits query fs)
  unfolding scan_files
  scan_files-cut [] hits few = rw (append-nil hits, few) refl
  scan_files-cut (f ∷ fs) hits few =
      let found = hits_in_file query f in
      let rest = all_hits query fs in
      rw (scan_files, scan_file-cut f hits few)
        (elim (Bool-cases (leb max_hits (length (hits ++ found)))) [
          | inl full ↦ rw (full) (
              sym (cut_more max_hits (hits ++ found) rest full)
              ∙ ap (cut max_hits) (append_assoc hits found rest))
          | inr free ↦ rw (free) (
              scan_files-cut fs (hits ++ found) free
              ∙ ap (cut max_hits) (append_assoc hits found rest))
        ])

-- A search for a text that is not empty, with a limit of at least one, returns the first of all
-- lines that have it, file by file and up to the limit; without the limit it would return them all.
pub search_text-all_hits :
    (files : List (Text × Option Text)) (query : Text) (max_hits : ℕ)
    → text_eq query [] ≡ false
    → 1 ≤ max_hits
    → search_text files query max_hits ≡ take max_hits (all_hits query files)
unfolding search_text
search_text-all_hits files query max_hits given some_hit =
    rw (given, scan_files-cut query max_hits files [] (ground arith)) (hits_of-cut max_hits _)
