-- ===== src/Text/Base64.antt =====
-- Decoding of Go's `encoding/base64`: `StdEncoding` and its variant without padding. Line ends are
-- skipped; the bits that are left over at the end are not looked at.
use im_system.Common.{
  ℕ, ◌+◌, ◌-◌, ◌*◌, ◌/◌, ◌%◌, ◌==◌, Bool, ◌&&◌, ◌||◌, not, Option, none, some, [], ◌∷◌, leb,
  if◌then◌else◌, Text, select,
}

infixl 5 ◌>>=◌
abbrev ◌>>=◌ {ℓ κ} : {A : Type ℓ} {B : Type κ} → Option A → (A → Option B) → Option B
none >>= f = none
some a >>= f = f a

unfoldable pub sextet : ℕ → Option ℕ
sextet c =
    if leb b'A' c && leb c b'Z'
    then some (c - b'A')
    else if leb b'a' c && leb c b'z'
    then some (c - b'a' + 26)
    else if leb b'0' c && leb c b'9'
    then some (c - b'0' + 52)
    else if c == b'+'
    then some 62
    else if c == b'/'
    then some 63
    else none

one_byte : ℕ → ℕ → Text
one_byte x y = (4 * x + y / 16) ∷ []

two_bytes : ℕ → ℕ → ℕ → Text
unfolding one_byte
two_bytes x y z = (4 * x + y / 16) ∷ (16 * (y % 16) + z / 4) ∷ []

-- The byte of two characters, the two of three and the three of four.
unfoldable pub decode_2 : ℕ → ℕ → Option Text
unfolding sextet one_byte
decode_2 a b = do x ← sextet a; y ← sextet b; some (one_byte x y)

unfoldable pub decode_3 : ℕ → ℕ → ℕ → Option Text
unfolding sextet two_bytes
decode_3 a b c = do x ← sextet a; y ← sextet b; z ← sextet c; some (two_bytes x y z)

unfoldable pub decode_4 : ℕ → ℕ → ℕ → ℕ → Text → Option Text
unfolding sextet
decode_4 a b c d rest = do
  x ← sextet a
  y ← sextet b
  z ← sextet c
  w ← sextet d
  some ((4 * x + y / 16) ∷ (16 * (y % 16) + z / 4) ∷ (64 * (z % 4) + w) ∷ rest)

unfoldable pub decode_quads : Bool → Text → Option Text
unfolding decode_2 decode_3 decode_4
decode_quads padded [] = some []
decode_quads padded (a ∷ []) = none
decode_quads padded (a ∷ b ∷ []) = if padded then none else decode_2 a b
decode_quads padded (a ∷ b ∷ c ∷ []) = if padded then none else decode_3 a b c
decode_quads padded (a ∷ b ∷ c ∷ d ∷ []) =
    if padded && c == b'=' && d == b'='
    then decode_2 a b
    else if padded && d == b'='
    then decode_3 a b c
    else decode_4 a b c d []
decode_quads padded (a ∷ b ∷ c ∷ d ∷ e ∷ s) = do
  rest ← decode_quads padded (e ∷ s)
  decode_4 a b c d rest

-- The first argument is whether the padding is asked for.
unfoldable pub decode_string : Bool → Text → Option Text
unfolding decode_quads select
decode_string padded s = decode_quads padded (select (λ c. not (c == 10 || c == 13)) s)
