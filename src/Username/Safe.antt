-- ===== src/Username/Safe.antt =====
-- internal/server/user.go: the bytes of a valid user name.
use im_system.Common.{
  ℕ, zero, suc, ◌≤◌, ◌≡◌, refl, Bool, true, false, ◌&&◌, ◌||◌, [], ◌∷◌, arith, leb, ltb, ◌==◌, Text,
  length, Bool-cases, inl, inr, and_parts, and_intro,
}
use im_system.Username.{
  starts_three, starts_four, rune_width, rune_value, rest_of_rune, runes, is_name_rune,
  all_name_runes, is_valid_username,
}

-- A letter, a digit, `_`, or a byte outside ASCII.
unfoldable pub is_word_byte : ℕ → Bool
is_word_byte c =
    (leb b'a' c && leb c b'z')
    || (leb b'A' c && leb c b'Z')
    || (leb b'0' c && leb c b'9')
    || c == b'_'
    || leb 0x80 c

unfoldable pub all_word_bytes : Text → Bool
all_word_bytes [] = true
all_word_bytes (c ∷ s) = is_word_byte c && all_word_bytes s

-- The first bytes of a text, as many as are left of a rune, lie outside ASCII.
unfoldable pub high : ℕ → Text → Bool
high zero s = true
high (suc k) [] = true
high (suc k) (c ∷ s) = leb 0x80 c && high k s

starts_three_high : (a b : ℕ) → ltb a 0x80 ≡ true → starts_three a b ≡ false
unfolding starts_three
starts_three_high a b h = ground arith

starts_four_high : (a b : ℕ) → ltb a 0x80 ≡ true → starts_four a b ≡ false
unfolding starts_four
starts_four_high a b h = ground arith

ascii_width : (a : ℕ) (s : Text) → ltb a 0x80 ≡ true → rune_width (a ∷ s) ≡ 1
unfolding rune_width
ascii_width a [] h = refl
ascii_width a (b ∷ []) h = ground arith
ascii_width a (b ∷ c ∷ []) h = rw (starts_three_high a b h) (ground arith)
ascii_width a (b ∷ c ∷ d ∷ s) h =
    rw (starts_three_high a b h, starts_four_high a b h) (ground arith)

ascii_word :
    (a : ℕ) (s : Text)
    → ltb a 0x80 ≡ true
    → is_name_rune (rune_value 1 (a ∷ s)) ≡ true
    → is_word_byte a ≡ true
unfolding is_name_rune rune_value is_word_byte
ascii_word a s h k = ground arith

high_word : (a : ℕ) → ltb a 0x80 ≡ false → is_word_byte a ≡ true
unfolding is_word_byte
high_word a h = ground arith

high_byte : (a : ℕ) → leb 0x80 a ≡ true → is_word_byte a ≡ true
unfolding is_word_byte
high_byte a h = ground arith

first_of_rune :
    (a : ℕ) (s : Text)
    → is_name_rune (rune_value (rune_width (a ∷ s)) (a ∷ s)) ≡ true
    → is_word_byte a ≡ true
first_of_rune a s h = elim (Bool-cases (ltb a 0x80)) [
  | inl low ↦ ascii_word a s low (rw (ascii_width a s low) at h)
  | inr up ↦ high_word a up
]

starts_three_cont : (a b : ℕ) → starts_three a b ≡ true → leb 0x80 b ≡ true
unfolding starts_three
starts_three_cont a b h = ground arith

starts_four_cont : (a b : ℕ) → starts_four a b ≡ true → leb 0x80 b ≡ true
unfolding starts_four
starts_four_cont a b h = ground arith

-- The rest of a rune lies outside ASCII.
rest_high : (a : ℕ) (s : Text) → high (rest_of_rune (rune_width (a ∷ s))) s ≡ true
unfolding rune_width high
rest_high a [] = refl
rest_high a (b ∷ []) = ground arith
rest_high a (b ∷ c ∷ []) = elim (Bool-cases (starts_three a b)) [
  | inl three ↦ rw three (ground (arith, starts_three_cont a b three))
  | inr other ↦ rw other (ground arith)
]
rest_high a (b ∷ c ∷ d ∷ s) = elim (Bool-cases (starts_three a b)) [
  | inl three ↦ rw three (ground (arith, starts_three_cont a b three))
  | inr other ↦ elim (Bool-cases (starts_four a b)) [
    | inl four ↦ rw (other, four) (ground (arith, starts_four_cont a b four))
    | inr neither ↦ rw (other, neither) (ground arith)
  ]
]

runes_word :
    (skip : ℕ) (s : Text)
    → high skip s ≡ true
    → all_name_runes (runes skip s) ≡ true
    → all_word_bytes s ≡ true
unfolding runes all_name_runes all_word_bytes high
runes_word skip [] h k = refl
runes_word (suc skip) (a ∷ s) h k =
    let (p, q) = and_parts h in and_intro (high_byte a p) (runes_word skip s q k)
runes_word zero (a ∷ s) h k =
    let (p, q) = and_parts k in
    and_intro (first_of_rune a s p)
      (runes_word (rest_of_rune (rune_width (a ∷ s))) s (rest_high a s) q)

-- A valid user name has 2 to 20 runes, and its ASCII bytes are letters, digits and `_` only.
pub valid_username_safe :
    (name : Text)
    → is_valid_username name ≡ true
    → (2 ≤ length (runes 0 name)) × (length (runes 0 name) ≤ 20) × (all_word_bytes name ≡ true)
unfolding is_valid_username high
valid_username_safe name h = (ground arith, ground arith, runes_word 0 name refl (ground arith))
