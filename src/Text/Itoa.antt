-- ===== src/Text/Itoa.antt =====
-- `%d` of Go's `fmt`, for a number that is not negative, and the value that `strconv.Atoi` and
-- `fmt.Sscanf` read back.
use im_system.Common.{
  subst, any, take, length, ℕ, zero, suc, ◌+◌, ◌-◌, ◌*◌, ◌/◌, ◌%◌, ◌^◌, ◌≤◌, ◌<◌, ◌≡◌, refl, sym,
  ap, ◌∙◌, true, false, some, [], ◌∷◌, leb, ltb, ◌==◌, arith, if◌then◌else◌, Text, pos, Bool-cases,
  inl, inr,
}
use im_system.Text.Atoi.{
  is_digit, digits_from, digits, up_to, atoi, digit_prefix, scan_signed, scan_int,
}
use im_system.Text.Trim.{trim_left-kept, space_width, is_space_1, is_space_2, is_space_3}

-- The digits of the number in front of those already written. The fuel is at least the number.
unfoldable pub write_digits : ℕ → ℕ → Text → Text
write_digits zero n written = written
write_digits (suc fuel) n written =
    let rest = write_digits fuel (n / 10) ((b'0' + n % 10) ∷ written) in
    if ltb n 10 then (b'0' + n) ∷ written else rest

unfoldable pub itoa : ℕ → Text
unfolding write_digits
itoa n = write_digits (suc n) n []

below_ten :
    (m n : ℕ) (written : Text)
    → n < 10
    → digits_from m ((b'0' + n) ∷ written) ≡ digits_from (10 * m + n) written
unfolding digits_from
below_ten m n written h =
    let shown : is_digit (b'0' + n) ≡ true = ground (arith, h) in
    let back : b'0' + n - b'0' ≡ n = omega arith in rw (digits_from, shown, back) refl

digits_from-write :
    (fuel n : ℕ) (written : Text)
    → n < fuel
    → digits_from 0 (write_digits fuel n written) ≡ digits_from n written
unfolding write_digits
digits_from-write zero n written h = absurd (omega arith)
digits_from-write (suc fuel) n written h = elim (Bool-cases (ltb n 10)) [
  | inl small ↦ rw small (
      below_ten 0 n written (ground (arith, small)) ∙ ap (λ k. digits_from k written) (omega arith))
  | inr large ↦
      let big : 10 ≤ n = ground (arith, large) in
      rw large (
        digits_from-write fuel (n / 10) ((b'0' + n % 10) ∷ written) (omega (arith, big, h))
        ∙ below_ten (n / 10) (n % 10) written (omega arith)
        ∙ ap (λ k. digits_from k written) (omega arith))
]

write_digits-head :
    (fuel n : ℕ) (written : Text)
    → n < fuel
    → (c : ℕ) × (s : Text) × (write_digits fuel n written ≡ c ∷ s) × (is_digit c ≡ true)
unfolding write_digits
write_digits-head zero n written h = absurd (omega arith)
write_digits-head (suc fuel) n written h = elim (Bool-cases (ltb n 10)) [
  | inl small ↦ (b'0' + n, written, rw small refl, ground (arith, small))
  | inr large ↦
      let big : 10 ≤ n = ground (arith, large) in
      let (c, s, e, d) =
        write_digits-head fuel (n / 10) ((b'0' + n % 10) ∷ written) (omega (arith, big, h)) in
      (c, s, rw large e, d)
]

pub digits-itoa : (n : ℕ) → digits (itoa n) ≡ some n
unfolding itoa digits
digits-itoa n =
    let (c, s, e, d) = write_digits-head (suc n) n [] (omega arith) in
    let read = digits_from-write (suc n) n [] (omega arith) in
    rw e (ap (digits_from 0) (sym e) ∙ read)

unsigned :
    (c : ℕ) (s : Text) (n : ℕ)
    → (c == b'-') ≡ false
    → (c == b'+') ≡ false
    → digits (c ∷ s) ≡ some n
    → leb n (2 ^ 63 - 1) ≡ true
    → atoi (c ∷ s) ≡ some (pos n)
unfolding atoi up_to
unsigned c s n no_minus no_plus read fits = rw (atoi, no_minus, no_plus, read, up_to, fits) refl

pub digits_from-itoa : (n : ℕ) → digits_from 0 (itoa n) ≡ some n
unfolding itoa digits_from
digits_from-itoa n = digits_from-write (suc n) n [] (omega arith)

-- A number that fits is read back as it was written.
pub atoi-itoa : (n : ℕ) → n < 2 ^ 63 → atoi (itoa n) ≡ some (pos n)
unfolding atoi itoa digits up_to
atoi-itoa n h =
    let (c, s, e, d) = write_digits-head (suc n) n [] (omega arith) in
    let read = digits-itoa n in
    let fits : leb n (2 ^ 63 - 1) ≡ true = ground (arith, h) in
    let no_minus : (c == b'-') ≡ false = ground (arith, d) in
    let no_plus : (c == b'+') ≡ false = ground (arith, d) in
    subst (λ t. atoi t ≡ some (pos n)) (sym e)
      (unsigned c s n no_minus no_plus (ap digits (sym e) ∙ read) fits)

digit_width : (c : ℕ) (s : Text) → is_digit c ≡ true → space_width (c ∷ s) ≡ 0
unfolding space_width is_space_1 is_space_2 is_space_3
digit_width c [] h = ground (arith, h)
digit_width c (a ∷ []) h = ground (arith, h)
digit_width c (a ∷ b ∷ s) h = ground (arith, h)

digit_prefix-digits : (s : Text) (m n : ℕ) → digits_from m s ≡ some n → digit_prefix s ≡ s
unfolding digit_prefix digits_from
digit_prefix-digits [] m n h = refl
digit_prefix-digits (c ∷ s) m n h = ground (arith, h, digit_prefix-digits s (10 * m + (c - b'0')) n)

digits-digits_from : (c : ℕ) (s : Text) → digits (c ∷ s) ≡ digits_from 0 (c ∷ s)
unfolding digits
digits-digits_from c s = refl

unsigned_prefix :
    (c : ℕ) (s : Text) (n : ℕ)
    → is_digit c ≡ true
    → digits (c ∷ s) ≡ some n
    → leb n (2 ^ 63 - 1) ≡ true
    → scan_signed (c ∷ s) ≡ some (pos n)
unfolding up_to scan_signed
unsigned_prefix c s n d read fits =
    let no_minus : (c == b'-') ≡ false = ground (arith, d) in
    let no_plus : (c == b'+') ≡ false = ground (arith, d) in
    let whole = digit_prefix-digits (c ∷ s) 0 n (sym (digits-digits_from c s) ∙ read) in
    rw (scan_signed, no_minus, no_plus, whole, read, up_to, fits) refl

no_newline : (s : Text) → any (λ c. c == 10) (take (length s - length s) s) ≡ false
unfolding any
no_newline s = let none_left : length s - length s ≡ 0 = omega arith in rw none_left refl

-- So is one that `Sscanf` reads.
pub scan_int-itoa : (n : ℕ) → n < 2 ^ 63 → scan_int (itoa n) ≡ some (pos n)
unfolding scan_int itoa
scan_int-itoa n h =
    let (c, s, e, d) = write_digits-head (suc n) n [] (omega arith) in
    let fits : leb n (2 ^ 63 - 1) ≡ true = ground (arith, h) in
    let kept = trim_left-kept c s (digit_width c s d) in
    subst (λ t. scan_int t ≡ some (pos n)) (sym e)
      (rw (scan_int, kept, no_newline (c ∷ s))
        (unsigned_prefix c s n d (ap digits (sym e) ∙ digits-itoa n) fits))
