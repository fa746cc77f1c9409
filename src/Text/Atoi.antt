-- ===== src/Text/Atoi.antt =====
-- `strconv.Atoi` and the verb `%d` of `fmt.Sscanf`, where `int` has 64 bits. `Atoi` takes an optional sign, then decimal digits, and an error where the
-- number is out of range.
use im_system.Common.{
  any, take, length, ℕ, ◌+◌, ◌-◌, ◌*◌, ◌^◌, Bool, ◌&&◌, Option, none, some, [], ◌∷◌, leb, ◌==◌,
  if◌then◌else◌, Text, ℤ, pos, neg,
}
use im_system.Text.Trim.{trim_left}

abbrev pub is_digit : ℕ → Bool
is_digit c = leb b'0' c && leb c b'9'

-- The value of the digits behind those already read, if all bytes are digits.
unfoldable pub digits_from : ℕ → Text → Option ℕ
digits_from n [] = some n
digits_from n (c ∷ s) =
    let rest = digits_from (10 * n + (c - b'0')) s in if is_digit c then rest else none

-- At least one digit.
unfoldable pub digits : Text → Option ℕ
unfolding digits_from
digits [] = none
digits (c ∷ s) = digits_from 0 (c ∷ s)

unfoldable pub up_to : ℕ → (ℕ → ℤ) → Option ℕ → Option ℤ
up_to bound sign none = none
up_to bound sign (some n) = if leb n bound then some (sign n) else none

unfoldable pub atoi : Text → Option ℤ
unfolding digits up_to
atoi [] = none
atoi (c ∷ s) =
    if c == b'-'
    then up_to (2 ^ 63) neg (digits s)
    else if c == b'+'
    then up_to (2 ^ 63 - 1) pos (digits s)
    else up_to (2 ^ 63 - 1) pos (digits (c ∷ s))

-- The digits that a text begins with.
unfoldable pub digit_prefix : Text → Text
digit_prefix [] = []
digit_prefix (c ∷ s) = let rest = digit_prefix s in if is_digit c then c ∷ rest else []

unfoldable pub scan_signed : Text → Option ℤ
unfolding digits up_to digit_prefix
scan_signed [] = none
scan_signed (c ∷ s) =
    if c == b'-'
    then up_to (2 ^ 63) neg (digits (digit_prefix s))
    else if c == b'+'
    then up_to (2 ^ 63 - 1) pos (digits (digit_prefix s))
    else up_to (2 ^ 63 - 1) pos (digits (digit_prefix (c ∷ s)))

-- `fmt.Sscanf(s, "%d", &n)`: spaces in front, of which none ends a line, then a number; what follows
-- it is not looked at.
unfoldable pub scan_int : Text → Option ℤ
unfolding trim_left scan_signed any
scan_int s =
    let number = trim_left s in
    if any (λ c. c == 10) (take (length s - length number) s) then none else scan_signed number
