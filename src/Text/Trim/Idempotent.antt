-- ===== src/Text/Trim/Idempotent.antt =====
-- What strings.TrimSpace takes away and what it leaves.
use mathlib.Core.List.{reverse-append, reverse-reverse}
use im_system.Common.{
  ℕ, zero, suc, ◌≡◌, refl, sym, ap, ◌∙◌, [], ◌∷◌, ◌++◌, reverse, arith, Text, inl, inr, ◌⊎◌,
}
use im_system.Text.Trim.{space_width, space_width_back, strip, trim_left, trim_right, trim_space}

ℕ-cases : (n : ℕ) → (n ≡ 0) ⊎ ((k : ℕ) × (n ≡ suc k))
ℕ-cases zero = inl refl
ℕ-cases (suc k) = inr (k, refl)

-- What is stripped is a front part.
strip-suffix : (w : Text → ℕ) (k : ℕ) (s : Text) → (p : Text) × (s ≡ p ++ strip w k s)
unfolding strip
strip-suffix w k [] = ([], refl)
strip-suffix w (suc k) (c ∷ s) = let (p, e) = strip-suffix w k s in (c ∷ p, ap (◌∷◌ c) e)
strip-suffix w zero (c ∷ s) = elim (ℕ-cases (w (c ∷ s))) [
  | inl e ↦ ([], rw (e, strip))
  | inr (k, e) ↦ let (p, q) = strip-suffix w k s in (c ∷ p, rw (e, strip) (ap (◌∷◌ c) q))
]

-- What is left has no space at its front.
width-strip : (w : Text → ℕ) (k : ℕ) (s : Text) → w [] ≡ 0 → w (strip w k s) ≡ 0
unfolding strip
width-strip w k [] h = h
width-strip w (suc k) (c ∷ s) h = width-strip w k s h
width-strip w zero (c ∷ s) h = elim (ℕ-cases (w (c ∷ s))) [
  | inl e ↦ rw (e, strip) e
  | inr (k, e) ↦ rw (e, strip) (width-strip w k s h)
]

strip_none : (w : Text → ℕ) (s : Text) → w s ≡ 0 → strip w 0 s ≡ s
unfolding strip
strip_none w [] h = refl
strip_none w (c ∷ s) h = rw (h, strip)

-- A front part of a text without leading space has none.
pub space_width_prefix : (p q : Text) → space_width (p ++ q) ≡ 0 → space_width p ≡ 0
unfolding space_width
space_width_prefix [] q h = refl
space_width_prefix (a ∷ []) [] h = h
space_width_prefix (a ∷ []) (b ∷ []) h = ground arith
space_width_prefix (a ∷ []) (b ∷ c ∷ q) h = ground arith
space_width_prefix (a ∷ b ∷ []) [] h = h
space_width_prefix (a ∷ b ∷ []) (c ∷ q) h = ground arith
space_width_prefix (a ∷ b ∷ c ∷ p) q h = h

pub trim_left_none : (s : Text) → space_width s ≡ 0 → trim_left s ≡ s
unfolding trim_left
trim_left_none s h = strip_none space_width s h

pub space_width-trim_left : (s : Text) → space_width (trim_left s) ≡ 0
unfolding trim_left space_width
space_width-trim_left s = width-strip space_width 0 s refl

pub trim_right_prefix : (s : Text) → (q : Text) × (s ≡ trim_right s ++ q)
unfolding trim_right
trim_right_prefix s =
    let (p, e) = strip-suffix space_width_back 0 (reverse s) in
    (
      reverse p,
      sym (reverse-reverse s)
          ∙ ap reverse e
          ∙ reverse-append p (strip space_width_back 0 (reverse s)),
    )

pub trim_left_suffix : (s : Text) → (p : Text) × (s ≡ p ++ trim_left s)
unfolding trim_left
trim_left_suffix s = strip-suffix space_width 0 s

pub trim_right_none : (s : Text) → space_width_back (reverse s) ≡ 0 → trim_right s ≡ s
unfolding trim_right
trim_right_none s h = rw (strip_none space_width_back (reverse s) h) (reverse-reverse s)

pub trim_right_idem : (s : Text) → trim_right (trim_right s) ≡ trim_right s
unfolding trim_right space_width_back
trim_right_idem s =
    trim_right_none (trim_right s)
      (rw reverse-reverse (width-strip space_width_back 0 (reverse s) refl))

pub space_width-trim_space : (s : Text) → space_width (trim_space s) ≡ 0
unfolding trim_space
space_width-trim_space s =
    let (q, e) = trim_right_prefix (trim_left s) in
    space_width_prefix (trim_right (trim_left s)) q
      (sym (ap space_width e) ∙ space_width-trim_left s)

-- Trimming a text twice is trimming it once.
pub trim_space_idem : (s : Text) → trim_space (trim_space s) ≡ trim_space s
unfolding trim_space
trim_space_idem s =
    rw (trim_left_none (trim_right (trim_left s)) (space_width-trim_space s))
      (trim_right_idem (trim_left s))

-- Trimming takes a front part and an end part away.
pub trim_space_infix : (s : Text) → (p q : Text) × (s ≡ p ++ (trim_space s ++ q))
unfolding trim_space
trim_space_infix s =
    let (p, e) = trim_left_suffix s in
    let (q, f) = trim_right_prefix (trim_left s) in (p, q, e ∙ ap (◌++◌ p) f)
