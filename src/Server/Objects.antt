-- ===== src/Server/Objects.antt =====
-- internal/server: reading an object after another, or the same, was changed.
use im_system.Common.{
  ℕ, zero, suc, ◌≡◌, refl, Option, none, some, List, [], ◌∷◌, ◌++◌, arith, ◌==◌, if◌then◌else◌,
  get_elem?, length,
}
use im_system.Server.{modify}

abbrev pub applied {ℓ} : {A : Type ℓ} → (A → A) → Option A → Option A
applied f none = none
applied f (some a) = some (f a)

module _ {ℓ} {A : Type ℓ} where
  pub get_elem?-modify :
      (p q : ℕ) (f : A → A) (xs : List A)
      → get_elem? (modify p f xs) q
        ≡ (if p == q then applied f (get_elem? xs q) else get_elem? xs q)
  unfolding modify
  get_elem?-modify p q f [] = ground arith
  get_elem?-modify zero zero f (x ∷ xs) = ground arith
  get_elem?-modify zero (suc q) f (x ∷ xs) = ground arith
  get_elem?-modify (suc p) zero f (x ∷ xs) = ground arith
  get_elem?-modify (suc p) (suc q) f (x ∷ xs) = ground (arith, get_elem?-modify p q f xs)

  -- A new object stands behind a pointer of its own.
  pub get_elem?-append_new :
      (xs : List A) (x : A) (q : ℕ)
      → get_elem? (xs ++ x ∷ []) q ≡ (if length xs == q then some x else get_elem? xs q)
  get_elem?-append_new [] x zero = ground arith
  get_elem?-append_new [] x (suc q) = ground arith
  get_elem?-append_new (y ∷ ys) x zero = ground arith
  get_elem?-append_new (y ∷ ys) x (suc q) = ground (arith, get_elem?-append_new ys x q)

  pub get_elem?-length : (xs : List A) → get_elem? xs (length xs) ≡ none
  get_elem?-length [] = refl
  get_elem?-length (y ∷ ys) = get_elem?-length ys
