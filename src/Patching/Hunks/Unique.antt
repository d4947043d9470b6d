-- ===== src/Patching/Hunks/Unique.antt =====
-- Where a hunk is applied: the search for its old lines finds each place where they stand.
use safepatch.Base.{
  ℕ, zero, suc, ◌+◌, ◌≤◌, ◌<◌, true, false, List, [], ◌∷◌, ◌≡◌, ◌≢◌, refl, ◌⊎◌, inl, inr, length,
  arith, ok, All, Bool-cases, ℕ_discrete, subst,
}
use safepatch.Text.{Text}
use safepatch.Patching.Hunks.Parse.{Hunk}
use safepatch.Patching.Hunks.Match.{
  hunk_old_lines, exact_block_matches, candidates_from, exact_block_candidates,
}
use safepatch.Patching.Hunks.Apply.{Relocation, place, relocate, is_nonempty}

-- `Among m lines`: one of the lines is `m`.
abbrev pub Among : ℕ → List ℕ → Type 0
Among m [] = ⊥
Among m (l ∷ ls) = (m ≡ l) ⊎ Among m ls

module _ (source expected : List Text) where
  candidates_sound :
      (n line : ℕ)
      → All
          (λ m. exact_block_matches source m expected ≡ true)
          (candidates_from source expected n line)
  unfolding candidates_from
  candidates_sound zero line = tt
  candidates_sound (suc n) line = elim (Bool-cases (exact_block_matches source line expected)) [
    | inl hit ↦ rw hit (hit, candidates_sound n (suc line))
    | inr miss ↦ rw miss (candidates_sound n (suc line))
  ]

  candidates_complete :
      (n line m : ℕ)
      → exact_block_matches source m expected ≡ true
      → line ≤ m
      → m < line + n
      → Among m (candidates_from source expected n line)
  unfolding candidates_from
  candidates_complete zero line m h low high = absurd (omega arith)
  candidates_complete (suc n) line m h low high =
      elim (Bool-cases (exact_block_matches source line expected)) [
        | inl hit ↦ rw hit (elim (ℕ_discrete m line) [
          | yes e ↦ inl e
          | no ne ↦ inr (candidates_complete n (suc line) m h (omega arith) (omega arith))
        ])
        | inr miss ↦ rw miss (
            candidates_complete n (suc line) m h
              (elim (ℕ_discrete m line) [
                | yes e ↦ absurd (
                    let h' : exact_block_matches source line expected ≡ true =
                      subst (λ x. exact_block_matches source x expected ≡ true) e h in
                    cc)
                | no ne ↦ omega arith
              ])
              (omega arith))
      ]

  -- A block that matches lies within the file.
  matches_within :
      (m : ℕ)
      → exact_block_matches source m expected ≡ true
      → (1 ≤ m) × (m + length expected ≤ length source + 1)
  unfolding exact_block_matches
  matches_within zero h = absurd (ground arith)
  matches_within (suc m) h = ground arith

-- For a block with lines the candidates are exactly the lines at which it stands.
pub exact_block_candidates_lem :
    (source expected : List Text)
    → expected ≢ []
    → All
        (λ m. exact_block_matches source m expected ≡ true)
        (exact_block_candidates source expected)
      × ((m : ℕ)
          → exact_block_matches source m expected ≡ true
          → Among m (exact_block_candidates source expected))
unfolding exact_block_candidates
exact_block_candidates_lem source [] ne = absurd (ne refl)
exact_block_candidates_lem source (e ∷ es) ne = (
  candidates_sound source (e ∷ es) _ 1,
  λ m h.
      let (low, high) = matches_within source (e ∷ es) m h in
      candidates_complete source (e ∷ es) _ 1 m h low (omega arith),
)

-- A candidate that is alone is the only line at which the block stands.
candidate_alone :
    (source expected : List Text) (line : ℕ)
    → expected ≢ []
    → exact_block_candidates source expected ≡ line ∷ []
    → (exact_block_matches source line expected ≡ true)
      × ((m : ℕ) → exact_block_matches source m expected ≡ true → m ≡ line)
candidate_alone source expected line ne alone =
    let (sound, complete) = exact_block_candidates_lem source expected ne in
    (
      (subst (All (λ m. exact_block_matches source m expected ≡ true)) alone sound).0,
      λ m h. elim (subst (Among m) alone (complete m h)) [ inl e ↦ e | inr f ↦ absurd f ],
    )

is_nonempty_of_ne : (ls : List Text) → ls ≢ [] → is_nonempty ls ≡ true
unfolding is_nonempty
is_nonempty_of_ne [] ne = absurd (ne refl)
is_nonempty_of_ne (l ∷ ls) ne = refl

module _ (file_path newline : Text) (source : List Text) where
  relocate-ok :
      (i : ℕ) (h : Hunk) (k : ℕ) (cs : List ℕ) (line : ℕ) (moved : List Relocation)
      → relocate file_path newline source i h k cs ≡ ok (line, moved)
      → (cs ≡ line ∷ [])
        × (k < line)
        × (moved
            ≡ record { hunk_index = i; requested_line = h.old_start; applied_line = line } ∷ [])
  unfolding relocate
  relocate-ok i h k [] line moved e = absurd (ground arith)
  relocate-ok i h k (c ∷ []) line moved e = (ground arith, ground arith, ground arith)
  relocate-ok i h k (c ∷ d ∷ cs) line moved e = absurd (ground arith)

  -- A hunk with old lines is applied where they stand, up to line ends. If it is not applied at
  -- the line of its header, they do not stand there, the block at which it is applied is the only
  -- one in the file that equals them, it lies behind the hunks before it, and the move is
  -- recorded.
  pub place_exact :
      (i : ℕ) (h : Hunk) (k line : ℕ) (moved : List Relocation)
      → hunk_old_lines h ≢ []
      → place file_path newline source i h k ≡ ok (line, moved)
      → (exact_block_matches source line (hunk_old_lines h) ≡ true)
        × (((line ≡ h.old_start) × (moved ≡ []))
            ⊎ ((exact_block_matches source h.old_start (hunk_old_lines h) ≡ false)
                × (k < line)
                × (moved
                    ≡ record { hunk_index = i; requested_line = h.old_start; applied_line = line }
                      ∷ [])
                × ((m : ℕ) → exact_block_matches source m (hunk_old_lines h) ≡ true → m ≡ line)))
  unfolding place
  place_exact i h k line moved ne e =
      let full : is_nonempty (hunk_old_lines h) ≡ true = is_nonempty_of_ne (hunk_old_lines h) ne in
      elim (Bool-cases (exact_block_matches source h.old_start (hunk_old_lines h))) [
        | inl here ↦
            let e' = rw (full, here) at e in
            (
              subst (λ n. exact_block_matches source n (hunk_old_lines h) ≡ true) (ground arith)
                  here,
              inl (ground arith, ground arith),
            )
        | inr away ↦
            let (alone, later, recorded) = relocate-ok i h k _ line moved (rw (full, away) at e) in
            let (hit, only) = candidate_alone source (hunk_old_lines h) line ne alone in
            (hit, inr (away, later, recorded, only))
      ]
