-- ===== src/Username.antt =====
-- internal/server/user.go: `isValidUsername` with `validUsernameRe`, ^[a-zA-Z0-9一-龥_]{2,20}$, which
-- counts and tests the runes that UTF-8 decoding gives; a byte that begins no rune is U+FFFD.
pub mod Safe
mod Tests
use im_system.Common.{
  ℕ, zero, suc, ◌+◌, ◌-◌, ◌*◌, Bool, true, false, ◌&&◌, ◌||◌, List, [], ◌∷◌, leb, ltb, ◌==◌,
  if◌then◌else◌, Text, length,
}

abbrev pub is_cont : ℕ → Bool
is_cont c = leb 0x80 c && leb c 0xBF

-- The first two bytes of a rune of three, and of four.
unfoldable pub starts_three : ℕ → ℕ → Bool
starts_three a b =
    (a == 0xE0 && leb 0xA0 b && leb b 0xBF)
    || (leb 0xE1 a && leb a 0xEC && is_cont b)
    || (a == 0xED && leb 0x80 b && leb b 0x9F)
    || (leb 0xEE a && leb a 0xEF && is_cont b)

unfoldable pub starts_four : ℕ → ℕ → Bool
starts_four a b =
    (a == 0xF0 && leb 0x90 b && leb b 0xBF)
    || (leb 0xF1 a && leb a 0xF3 && is_cont b)
    || (a == 0xF4 && leb 0x80 b && leb b 0x8F)

-- How many bytes the rune at the front takes; 1 for a byte that begins none.
unfoldable pub rune_width : Text → ℕ
unfolding starts_three starts_four
rune_width [] = 1
rune_width (a ∷ []) = 1
rune_width (a ∷ b ∷ []) = if leb 0xC2 a && leb a 0xDF && is_cont b then 2 else 1
rune_width (a ∷ b ∷ c ∷ []) =
    if leb 0xC2 a && leb a 0xDF && is_cont b
    then 2
    else if starts_three a b && is_cont c
    then 3
    else 1
rune_width (a ∷ b ∷ c ∷ d ∷ s) =
    if leb 0xC2 a && leb a 0xDF && is_cont b
    then 2
    else if starts_three a b && is_cont c
    then 3
    else if starts_four a b && is_cont c && is_cont d
    then 4
    else 1

-- The code point of a rune of that width at the front.
unfoldable pub rune_value : ℕ → Text → ℕ
rune_value (suc (suc zero)) (a ∷ b ∷ s) = (a - 0xC0) * 64 + (b - 0x80)
rune_value (suc (suc (suc zero))) (a ∷ b ∷ c ∷ s) = (a - 0xE0) * 4096 + (b - 0x80) * 64 + (c - 0x80)
rune_value (suc (suc (suc (suc zero)))) (a ∷ b ∷ c ∷ d ∷ s) =
    (a - 0xF0) * 262144 + (b - 0x80) * 4096 + (c - 0x80) * 64 + (d - 0x80)
rune_value width (a ∷ s) = if ltb a 0x80 then a else 0xFFFD
rune_value width [] = 0xFFFD

-- `width - 1`, the bytes of a rune behind its first.
abbrev rest_of_rune : ℕ → ℕ
rest_of_rune zero = 0
rest_of_rune (suc k) = k

-- The runes of a text; the first argument is what is left of a rune begun.
unfoldable pub runes : ℕ → Text → List ℕ
unfolding rune_width rune_value
runes skip [] = []
runes (suc skip) (a ∷ s) = runes skip s
runes zero (a ∷ s) =
    let width = rune_width (a ∷ s) in rune_value width (a ∷ s) ∷ runes (rest_of_rune width) s

-- [a-zA-Z0-9一-龥_]
unfoldable pub is_name_rune : ℕ → Bool
is_name_rune r =
    (leb b'a' r && leb r b'z')
    || (leb b'A' r && leb r b'Z')
    || (leb b'0' r && leb r b'9')
    || (leb 0x4E00 r && leb r 0x9FA5)
    || r == b'_'

unfoldable pub all_name_runes : List ℕ → Bool
unfolding is_name_rune
all_name_runes [] = true
all_name_runes (r ∷ rs) = is_name_rune r && all_name_runes rs

unfoldable pub is_valid_username : Text → Bool
unfolding runes all_name_runes
is_valid_username name =
    let rs = runes 0 name in leb 2 (length rs) && leb (length rs) 20 && all_name_runes rs
