-- ===== src/Sanitize/Limit.antt =====
-- How long a sanitised text is, and what sanitising it again does: the WebSocket path sanitises a
-- message in `handleWSMessage` and once more in `broadcastPublic`, `sendPrivate` or `broadcastToGroup`.
use mathlib.Core.List.{reverse-append}
use im_system.Common.{
  ℕ, ◌+◌, ◌≤◌, ◌<◌, ◌≡◌, refl, ap, ◌∙◌, false, [], ◌∷◌, ◌++◌, reverse, arith, ltb, Text, length,
  length-append, length-take, take, drop, take-append, take-take_self, take-append-drop, Bool-cases,
  inl, inr, ltb→lt,
}
use im_system.Text.Trim.{space_width, space_width_back, trim_right, trim_space}
use im_system.Text.Trim.Idempotent.{
  trim_space_infix, trim_space_idem, space_width_prefix, trim_left_none, trim_right_none,
}
use im_system.Sanitize.{remove_tags, ellipsis, truncate, sanitize_input_with_limit}
use im_system.Sanitize.Tags.{
  has_tag, remove_tags_none, sanitize_input_with_limit_lem, sanitize_removes_tags,
}

length-trim_space-le : (s : Text) → length (trim_space s) ≤ length s
length-trim_space-le s =
    let (p, q, e) = trim_space_infix s in
    omega (arith, ap length e, length-append p (trim_space s ++ q), length-append (trim_space s) q)

length-truncate-le : (s : Text) (n : ℕ) → length (truncate s n) ≤ n + 3
unfolding truncate
length-truncate-le s n = ground (arith, length-append (take n s) ellipsis, length-take n s)

-- A sanitised text takes at most three bytes more than the limit, those of the ellipsis.
pub length-sanitize-le : (s : Text) (n : ℕ) → length (sanitize_input_with_limit s n) ≤ n + 3
length-sanitize-le s n = rw (sanitize_input_with_limit_lem s n) (
    omega (
      arith,
      length-trim_space-le (truncate (remove_tags false s) n),
      length-truncate-le (remove_tags false s) n,
    ))

space_width-ellipsis : (p : Text) → space_width p ≡ 0 → space_width (p ++ ellipsis) ≡ 0
unfolding space_width
space_width-ellipsis [] h = refl
space_width-ellipsis (a ∷ []) h = ground arith
space_width-ellipsis (a ∷ b ∷ []) h = ground arith
space_width-ellipsis (a ∷ b ∷ c ∷ p) h = h

trim_right-ellipsis : (p : Text) → trim_right (p ++ ellipsis) ≡ p ++ ellipsis
unfolding space_width_back
trim_right-ellipsis p =
    trim_right_none (p ++ ellipsis) (rw (reverse-append p ellipsis) (lemma (reverse p)))
  where
    lemma : (r : Text) → space_width_back (b'.' ∷ b'.' ∷ b'.' ∷ r) ≡ 0
    lemma r = refl

trim_space-ellipsis : (p : Text) → space_width p ≡ 0 → trim_space (p ++ ellipsis) ≡ p ++ ellipsis
unfolding trim_space
trim_space-ellipsis p h =
    rw (trim_left_none (p ++ ellipsis) (space_width-ellipsis p h)) (trim_right-ellipsis p)

-- A text already cut to the limit, ellipsis and all, is cut to itself.
truncate_cut :
    (t : Text) (n : ℕ) → n < length t → truncate (take n t ++ ellipsis) n ≡ take n t ++ ellipsis
unfolding truncate
truncate_cut t n h = ground (
  arith,
  length-append (take n t) ellipsis,
  length-take n t,
  take-append n (take n t) ellipsis,
  take-take_self n t,
)

resanitize :
    (out : Text) (n : ℕ)
    → has_tag out ≡ false
    → trim_space (truncate out n) ≡ out
    → sanitize_input_with_limit out n ≡ out
resanitize out n h e = rw (sanitize_input_with_limit_lem out n, remove_tags_none out h) e

twice_cut :
    (t : Text) (n : ℕ)
    → n < length t
    → space_width t ≡ 0
    → trim_space (truncate (trim_space (take n t ++ ellipsis)) n)
      ≡ trim_space (take n t ++ ellipsis)
twice_cut t n h w =
    let front =
      space_width_prefix (take n t) (drop n t) (ap space_width (take-append-drop n t) ∙ w) in
    let fixed = trim_space-ellipsis (take n t) front in rw (fixed, truncate_cut t n h) fixed

twice_short :
    (t : Text) (n : ℕ) → length t ≤ n → trim_space (truncate (trim_space t) n) ≡ trim_space t
unfolding truncate
twice_short t n h = ground (arith, length-trim_space-le t, trim_space_idem t)

-- Sanitising twice is sanitising once, where the text without its tags does not begin with a space.
pub sanitize_twice :
    (s : Text) (n : ℕ)
    → space_width (remove_tags false s) ≡ 0
    → sanitize_input_with_limit (sanitize_input_with_limit s n) n ≡ sanitize_input_with_limit s n
unfolding truncate
sanitize_twice s n w =
    resanitize (sanitize_input_with_limit s n) n (sanitize_removes_tags s n)
      (rw (sanitize_input_with_limit_lem s n) (cases (remove_tags false s) w))
  where
    cases :
        (t : Text)
        → space_width t ≡ 0
        → trim_space (truncate (trim_space (truncate t n)) n) ≡ trim_space (truncate t n)
    cases t w = elim (Bool-cases (ltb n (length t))) [
      | inl long ↦ rw (long, truncate) (twice_cut t n (ltb→lt n (length t) long) w)
      | inr short ↦ rw (short, truncate) (twice_short t n (ground arith))
    ]
