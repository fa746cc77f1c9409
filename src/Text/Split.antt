-- ===== src/Text/Split.antt =====
-- strings.Split and strings.SplitN, with a separator of one byte.
use im_system.Common.{
  ℕ, zero, suc, ◌≡◌, refl, Bool, true, false, ◌||◌, ◌++◌, any, arith, List, [], ◌∷◌, ◌==◌,
  if◌then◌else◌, Text,
}

or_parts : {a b : Bool} → (a || b) ≡ false → (a ≡ false) × (b ≡ false)
or_parts {a} {b} h = (ground arith, ground arith)

-- Puts a byte in front of the first part.
unfoldable pub onto_first : ℕ → List Text → List Text
onto_first c [] = (c ∷ []) ∷ []
onto_first c (p ∷ ps) = (c ∷ p) ∷ ps

-- strings.Split(s, sep)
unfoldable pub split : ℕ → Text → List Text
unfolding onto_first
split sep [] = [] ∷ []
split sep (c ∷ s) = let rest = split sep s in if c == sep then [] ∷ rest else onto_first c rest

-- strings.SplitN(s, sep, n) for n = limit + 1: the last part keeps its separators.
unfoldable pub split_n : ℕ → ℕ → Text → List Text
unfolding onto_first
split_n sep zero s = s ∷ []
split_n sep (suc limit) [] = [] ∷ []
split_n sep (suc limit) (c ∷ s) =
    let cut = [] ∷ split_n sep limit s in
    let kept = onto_first c (split_n sep (suc limit) s) in if c == sep then cut else kept

-- The part before the first separator is the first part.
pub split-append :
    (sep : ℕ) (s t : Text)
    → any (λ c. c == sep) s ≡ false
    → split sep (s ++ sep ∷ t) ≡ s ∷ split sep t
unfolding split any
split-append sep [] t h = let same : (sep == sep) ≡ true = ground arith in rw same refl
split-append sep (c ∷ s) t h =
    let (other, others) = or_parts {a = c == sep} {b = any (λ x. x == sep) s} h in
    rw (other, split-append sep s t others, onto_first) refl

-- Without one there is one part.
pub split_whole : (sep : ℕ) (s : Text) → any (λ c. c == sep) s ≡ false → split sep s ≡ s ∷ []
unfolding split any
split_whole sep [] h = refl
split_whole sep (c ∷ s) h =
    let (other, others) = or_parts {a = c == sep} {b = any (λ x. x == sep) s} h in
    rw (other, split_whole sep s others, onto_first) refl
