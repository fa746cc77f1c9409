-- ===== src/Common/Lists.antt =====
-- Lists measured and indexed by native numbers, under the library's names.
use Prim.Native.Nat.{ℕ, zero, suc, ◌+◌, ◌≤◌, min}
use mathlib.Core.Path.{◌≡◌, refl, ap}
use mathlib.Core.Bool.{Bool, true, false, ◌||◌}
use mathlib.Core.List.{List, [], ◌∷◌, ◌++◌}
use mathlib.Core.Option.{Option, none, some}
use native.Mathlib.Omega.{arith}
use im_system.Common.Tests.{if◌then◌else◌, ltb}

module _ {ℓ} {A : Type ℓ} where
  abbrev pub length : List A → ℕ
  length [] = 0
  length (x ∷ xs) = suc (length xs)

  abbrev pub get_elem? : List A → ℕ → Option A
  get_elem? [] i = none
  get_elem? (x ∷ xs) zero = some x
  get_elem? (x ∷ xs) (suc i) = get_elem? xs i

  abbrev pub take : ℕ → List A → List A
  take zero xs = []
  take (suc n) [] = []
  take (suc n) (x ∷ xs) = x ∷ take n xs

  abbrev pub drop : ℕ → List A → List A
  drop zero xs = xs
  drop (suc n) [] = []
  drop (suc n) (x ∷ xs) = drop n xs

  -- The elements that pass a Boolean test, in their order.
  unfoldable pub select : (A → Bool) → List A → List A
  select p [] = []
  select p (x ∷ xs) = let rest = select p xs in if p x then x ∷ rest else rest

  unfoldable pub find : (A → Bool) → List A → Option A
  find p [] = none
  find p (x ∷ xs) = if p x then some x else find p xs

  unfoldable pub any : (A → Bool) → List A → Bool
  any p [] = false
  any p (x ∷ xs) = p x || any p xs

module _ {ℓ} {A : Type ℓ} where
  pub length-append : (xs ys : List A) → length (xs ++ ys) ≡ length xs + length ys
  length-append [] ys = omega arith
  length-append (x ∷ xs) ys = omega (arith, length-append xs ys)

  pub length-take : (n : ℕ) (xs : List A) → length (take n xs) ≡ min n (length xs)
  length-take zero xs = omega arith
  length-take (suc n) [] = omega arith
  length-take (suc n) (x ∷ xs) = omega (arith, length-take n xs)

  pub take-append : (n : ℕ) (xs ys : List A) → n ≤ length xs → take n (xs ++ ys) ≡ take n xs
  take-append zero xs ys h = refl
  take-append (suc n) [] ys h = absurd (omega arith)
  take-append (suc n) (x ∷ xs) ys h = ap (◌∷◌ x) (take-append n xs ys (omega arith))

  pub take_all : (n : ℕ) (xs : List A) → length xs ≤ n → take n xs ≡ xs
  take_all zero [] h = refl
  take_all zero (x ∷ xs) h = absurd (omega arith)
  take_all (suc n) [] h = refl
  take_all (suc n) (x ∷ xs) h = ap (◌∷◌ x) (take_all n xs (omega arith))

  pub take-take_self : (n : ℕ) (xs : List A) → take n (take n xs) ≡ take n xs
  take-take_self zero xs = refl
  take-take_self (suc n) [] = refl
  take-take_self (suc n) (x ∷ xs) = ap (◌∷◌ x) (take-take_self n xs)

  pub take-append-drop : (n : ℕ) (xs : List A) → take n xs ++ drop n xs ≡ xs
  take-append-drop zero xs = refl
  take-append-drop (suc n) [] = refl
  take-append-drop (suc n) (x ∷ xs) = ap (◌∷◌ x) (take-append-drop n xs)

  pub length-select-le : (p : A → Bool) (xs : List A) → length (select p xs) ≤ length xs
  unfolding select
  length-select-le p [] = omega arith
  length-select-le p (x ∷ xs) = ground (arith, length-select-le p xs)

  pub any-append : (p : A → Bool) (xs ys : List A) → any p (xs ++ ys) ≡ (any p xs || any p ys)
  unfolding any
  any-append p [] ys = refl
  any-append p (x ∷ xs) ys = ground (arith, any-append p xs ys)

-- What a predicate says of every element.
module _ {ℓ κ} {A : Type ℓ} (P : A → Type κ) where
  abbrev pub All : List A → Type κ
  All [] = Unit
  All (x ∷ xs) = P x × All xs

  pub All-append : (xs ys : List A) → All xs → All ys → All (xs ++ ys)
  All-append [] ys _ hy = hy
  All-append (x ∷ xs) ys hx hy = (hx.0, All-append xs ys hx.1 hy)

module _ {ℓ} {A : Type ℓ} (p : A → Bool) where
  pub find-append :
      (xs ys : List A) → find p (xs ++ ys) ≡ elim (find p xs) [ none ↦ find p ys | some x ↦ some x ]
  unfolding find
  find-append [] ys = refl
  find-append (x ∷ xs) ys = ground (arith, find-append xs ys)

  -- What is found passes the test.
  pub find-passes : (xs : List A) (x : A) → find p xs ≡ some x → p x ≡ true
  unfolding find
  find-passes [] x h = cc
  find-passes (y ∷ xs) x h = ground (arith, find-passes xs x)

  -- Nothing that another search finds passes a test that finds nothing.
  pub find-fails :
      (q : A → Bool) (xs : List A) (x : A) → find p xs ≡ none → find q xs ≡ some x → p x ≡ false
  unfolding find
  find-fails q [] x h k = cc
  find-fails q (y ∷ xs) x h k = ground (arith, find-fails q xs x)

-- No element is the same as a later one.
module _ {ℓ} {A : Type ℓ} (same : A → A → Bool) where
  unfoldable pub Apart : List A → Type ℓ
  Apart [] = Unit {ℓ}
  Apart (x ∷ xs) = (find (same x) xs ≡ none) × Apart xs

  pub Apart-append :
      (xs : List A) (r : A) → Apart xs → find (λ x. same x r) xs ≡ none → Apart (xs ++ r ∷ [])
  unfolding Apart find
  Apart-append [] r h k = (refl, tt)
  Apart-append (x ∷ xs) r h k =
      ground (arith, find-append (same x) xs (r ∷ []), Apart-append xs r h.1)

  -- In a list without doubles an element is what its own key finds.
  pub find-same :
      ((x y : A) → same x y ≡ same y x)
      → ((x : A) → same x x ≡ true)
      → (p : A → Bool) (xs : List A) (x : A) → Apart xs
      → find p xs ≡ some x
      → find (same x) xs ≡ some x
  unfolding Apart find
  find-same symmetric reflexive p [] x h k = cc
  find-same symmetric reflexive p (y ∷ xs) x h k = ground (
    arith,
    reflexive y,
    symmetric x y,
    find-fails (same y) p xs x h.0,
    find-same symmetric reflexive p xs x h.1,
  )

module _ {ℓ} {A : Type ℓ} (p : A → Bool) where
  pub any-eq-count : (xs : List A) → any p xs ≡ ltb 0 (length (select p xs))
  unfolding any select
  any-eq-count [] = ground arith
  any-eq-count (x ∷ xs) = ground (arith, any-eq-count xs)

  pub any-take : (n : ℕ) (xs : List A) → any p (take n xs) ≡ true → any p xs ≡ true
  unfolding any
  any-take zero xs h = cc
  any-take (suc n) [] h = h
  any-take (suc n) (x ∷ xs) h = ground (arith, any-take n xs)

module _ {ℓ} {A : Type ℓ} where
  pub select_all : (xs : List A) → length (select (λ (x : A). true) xs) ≡ length xs
  unfolding select
  select_all [] = refl
  select_all (x ∷ xs) = ap suc (select_all xs)
