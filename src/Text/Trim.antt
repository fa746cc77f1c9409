-- ===== src/Text/Trim.antt =====
-- strings.TrimSpace and strings.TrimRight. `unicode.IsSpace` holds of six ASCII characters, of
-- U+0085 and U+00A0 (two bytes), and of U+1680, U+2000 to U+200A, U+2028, U+2029, U+202F, U+205F
-- and U+3000 (three bytes).
pub mod Idempotent
use im_system.Common.{
  ℕ, zero, suc, ◌≡◌, refl, Bool, ◌&&◌, ◌||◌, [], ◌∷◌, reverse, leb, ◌==◌, if◌then◌else◌, Text,
}

unfoldable pub is_space_1 : ℕ → Bool
is_space_1 a = a == 32 || (leb 9 a && leb a 13)

unfoldable pub is_space_2 : ℕ → ℕ → Bool
is_space_2 a b = a == 0xC2 && (b == 0x85 || b == 0xA0)

unfoldable pub is_space_3 : ℕ → ℕ → ℕ → Bool
is_space_3 a b c =
    (a == 0xE1 && b == 0x9A && c == 0x80)
    || (a == 0xE2
        && b == 0x80
        && ((leb 0x80 c && leb c 0x8A) || c == 0xA8 || c == 0xA9 || c == 0xAF))
    || (a == 0xE2 && b == 0x81 && c == 0x9F)
    || (a == 0xE3 && b == 0x80 && c == 0x80)

-- How many bytes the space at the front of a text takes; 0 where the text begins with none.
unfoldable pub space_width : Text → ℕ
unfolding is_space_1 is_space_2 is_space_3
space_width [] = 0
space_width (a ∷ []) = if is_space_1 a then 1 else 0
space_width (a ∷ b ∷ []) = if is_space_1 a then 1 else if is_space_2 a b then 2 else 0
space_width (a ∷ b ∷ c ∷ s) =
    if is_space_1 a then 1 else if is_space_2 a b then 2 else if is_space_3 a b c then 3 else 0

-- The same at the end of a text, whose last byte comes first here.
unfoldable pub space_width_back : Text → ℕ
unfolding is_space_1 is_space_2 is_space_3
space_width_back [] = 0
space_width_back (a ∷ []) = if is_space_1 a then 1 else 0
space_width_back (b ∷ a ∷ []) = if is_space_1 b then 1 else if is_space_2 a b then 2 else 0
space_width_back (c ∷ b ∷ a ∷ s) =
    if is_space_1 c then 1 else if is_space_2 b c then 2 else if is_space_3 a b c then 3 else 0

-- Drops spaces from the front; the first argument is what is left to drop of a space begun.
strip : (Text → ℕ) → ℕ → Text → Text
strip width k [] = []
strip width (suc k) (c ∷ s) = strip width k s
strip width zero (c ∷ s) = elim (width (c ∷ s)) [ zero ↦ c ∷ s | suc k ↦ strip width k s ]

unfoldable pub trim_left : Text → Text
unfolding strip space_width
trim_left s = strip space_width 0 s

-- A text that begins with no space is kept.
pub trim_left-kept : (c : ℕ) (s : Text) → space_width (c ∷ s) ≡ 0 → trim_left (c ∷ s) ≡ c ∷ s
unfolding trim_left strip
trim_left-kept c s h = rw (strip, h) refl

unfoldable pub trim_right : Text → Text
unfolding strip space_width_back
trim_right s = reverse (strip space_width_back 0 (reverse s))

-- strings.TrimSpace
unfoldable pub trim_space : Text → Text
unfolding trim_left trim_right
trim_space s = trim_right (trim_left s)

-- strings.TrimRight(s, "\n")
drop_newlines : Text → Text
drop_newlines [] = []
drop_newlines (c ∷ s) = if c == 10 then drop_newlines s else c ∷ s

unfoldable pub trim_right_newlines : Text → Text
unfolding drop_newlines
trim_right_newlines s = reverse (drop_newlines (reverse s))
