-- ===== src/Runtime/Names/Valid.antt =====
-- What the name of the container consists of.
use safepatch.Base.{
  ℕ, Bool, true, ◌&&◌, ◌||◌, Option, none, some, [], ◌∷◌, ◌++◌, ◌≡◌, ◌≤◌, ◌⊎◌, All, refl, inl, inr,
  arith, all, length, leb, Bool-cases,
}
use safepatch.Text.{Text}
use safepatch.Runtime.Names.{
  is_alphanumeric, is_name_char, is_container_name, container_name_prefix, allocate_container_name,
}

-- A hexadecimal digit, as uuid4().hex writes it.
abbrev pub is_hex_digit : ℕ → Bool
is_hex_digit c = (leb b'0' c && leb c b'9') || (leb b'a' c && leb c b'f')

hex-is_name_char : (c : ℕ) → is_hex_digit c ≡ true → is_name_char c ≡ true
unfolding is_name_char is_alphanumeric
hex-is_name_char c h = ground arith

all-is_name_char : (s : Text) → all is_hex_digit s ≡ true → all is_name_char s ≡ true
all-is_name_char [] h = refl
all-is_name_char (c ∷ s) h =
    let t = all-is_name_char s (ground arith) in
    let f = hex-is_name_char c (ground arith) in rw (f, t) refl

prefixed :
    (uuid : Text)
    → length uuid ≡ 32
    → all is_hex_digit uuid ≡ true
    → is_container_name (container_name_prefix ++ uuid) ≡ true
unfolding is_container_name is_alphanumeric is_name_char
prefixed uuid n h = rw (n, all-is_name_char uuid h) refl

-- A letter or a digit of ASCII.
abbrev pub IsAlphanumeric : ℕ → Type 0
IsAlphanumeric c =
    ((b'0' ≤ c) × (c ≤ b'9')) ⊎ (((b'A' ≤ c) × (c ≤ b'Z')) ⊎ ((b'a' ≤ c) × (c ≤ b'z')))

abbrev pub IsWord : ℕ → Type 0
IsWord c = IsAlphanumeric c ⊎ ((c ≡ b'_') ⊎ ((c ≡ b'.') ⊎ (c ≡ b'-')))

-- A name that is no option of docker and no path: a letter or digit first, then these and `_`, `.`
-- and `-`, at most 63 characters in all.
pub record IsName (name : Text) : Type 0 where
  pub first : ℕ
  pub rest : Text
  pub whole : name ≡ first ∷ rest
  pub starts : IsAlphanumeric first
  pub characters : All IsWord rest
  pub short : length name ≤ 63

is_alphanumeric-IsAlphanumeric : (c : ℕ) → is_alphanumeric c ≡ true → IsAlphanumeric c
unfolding is_alphanumeric
is_alphanumeric-IsAlphanumeric c h = ground arith

is_name_char-IsWord : (c : ℕ) → is_name_char c ≡ true → IsWord c
unfolding is_name_char
is_name_char-IsWord c h = elim (Bool-cases (is_alphanumeric c)) [
  | inl letter ↦ inl (is_alphanumeric-IsAlphanumeric c letter)
  | inr other ↦ inr (ground arith)
]

all-IsWord : (s : Text) → all is_name_char s ≡ true → All IsWord s
all-IsWord [] h = tt
all-IsWord (c ∷ s) h = (is_name_char-IsWord c (ground arith), all-IsWord s (ground arith))

is_container_name-IsName : (s : Text) → is_container_name s ≡ true → IsName s
unfolding is_container_name
is_container_name-IsName [] h = absurd (ground arith)
is_container_name-IsName (c ∷ s) h = record {
  first = c;
  rest = s;
  whole = refl;
  starts = is_alphanumeric-IsAlphanumeric c (ground arith);
  characters = all-IsWord s (ground arith);
  short = ground arith;
}

-- The name given to the container has at most 63 characters, a letter or digit first and then only
-- letters, digits, `_`, `.` and `-`, whatever name was asked for, if the new UUID has 32 hexadecimal
-- digits.
pub allocate_container_name_valid :
    (uuid : Text) (explicit : Option Text)
    → length uuid ≡ 32
    → all is_hex_digit uuid ≡ true
    → IsName (allocate_container_name uuid explicit)
unfolding allocate_container_name
allocate_container_name_valid uuid none n h =
    is_container_name-IsName (container_name_prefix ++ uuid) (prefixed uuid n h)
allocate_container_name_valid uuid (some explicit) n h =
    elim (Bool-cases (is_container_name explicit)) [
      | inl fine ↦ rw fine (is_container_name-IsName explicit fine)
      | inr bad ↦
          rw bad (is_container_name-IsName (container_name_prefix ++ uuid) (prefixed uuid n h))
    ]
