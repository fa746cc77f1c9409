-- ===== src/Common/Maps.antt =====
-- Go's `map[string]V` as an association list. The order of the list stands for the order in which
-- `range` visits the map; every theorem holds whatever that order is.
use Prim.Native.Nat.{ℕ}
use mathlib.Core.Path.{◌≡◌, refl}
use mathlib.Core.Logic.{◌↔◌}
use mathlib.Core.Bool.{Bool, true, false, ◌&&◌}
use mathlib.Core.List.{List, [], ◌∷◌}
use mathlib.Core.Option.{Option, none, some}
use native.Mathlib.Omega.{arith}
use im_system.Common.Tests.{if◌then◌else◌, ◌==◌}

-- A Go string is its bytes.
abbrev pub Text : Type 0
Text = List ℕ

-- Go's `==` on strings.
unfoldable pub text_eq : Text → Text → Bool
text_eq [] [] = true
text_eq [] (b ∷ t) = false
text_eq (a ∷ s) [] = false
text_eq (a ∷ s) (b ∷ t) = a == b && text_eq s t

pub text_eq_iff : (s t : Text) → (text_eq s t ≡ true) ↔ (s ≡ t)
unfolding text_eq
text_eq_iff [] [] = ground arith
text_eq_iff [] (b ∷ t) = ground arith
text_eq_iff (a ∷ s) [] = ground arith
text_eq_iff (a ∷ s) (b ∷ t) = ground (arith, text_eq_iff s t)

pub text_eq_refl : (s : Text) → text_eq s s ≡ true
text_eq_refl s = (text_eq_iff s s).1 refl

abbrev pub Assoc {ℓ} : Type ℓ → Type ℓ
Assoc V = List (Text × V)

module _ {ℓ} {V : Type ℓ} where
  unfoldable pub lookup : Text → Assoc V → Option V
  lookup k [] = none
  lookup k ((j, v) ∷ m) = if text_eq j k then some v else lookup k m

  -- `delete(m, k)`
  unfoldable pub without : Text → Assoc V → Assoc V
  without k [] = []
  without k ((j, v) ∷ m) = let rest = without k m in if text_eq j k then rest else (j, v) ∷ rest

  -- `m[k] = v`
  unfoldable pub insert : Text → V → Assoc V → Assoc V
  insert k v m = (k, v) ∷ without k m

  -- `for k, v := range m { if !keep(k, v) { delete(m, k) } }`
  unfoldable pub retain : (Text → V → Bool) → Assoc V → Assoc V
  retain keep [] = []
  retain keep ((j, v) ∷ m) = let rest = retain keep m in if keep j v then (j, v) ∷ rest else rest

  -- No key stands twice.
  unfoldable pub Distinct : Assoc V → Type ℓ
  Distinct [] = Unit {ℓ}
  Distinct ((j, v) ∷ m) = (lookup j m ≡ none) × Distinct m

  pub lookup-without :
      (k j : Text) (m : Assoc V)
      → lookup j (without k m) ≡ (if text_eq k j then none else lookup j m)
  unfolding lookup without
  lookup-without k j [] = ground arith
  lookup-without k j ((i, v) ∷ m) =
      ground (arith, lookup-without k j m, text_eq_iff i k, text_eq_iff i j, text_eq_iff k j)

  pub lookup-insert :
      (k j : Text) (v : V) (m : Assoc V)
      → lookup j (insert k v m) ≡ (if text_eq k j then some v else lookup j m)
  unfolding lookup insert
  lookup-insert k j v m = ground (arith, lookup-without k j m)

  pub without-Distinct : (k : Text) (m : Assoc V) → Distinct m → Distinct (without k m)
  unfolding without Distinct
  without-Distinct k [] h = tt
  without-Distinct k ((j, v) ∷ m) h = ground (arith, lookup-without k j m, without-Distinct k m h.1)

  pub insert-Distinct : (k : Text) (v : V) (m : Assoc V) → Distinct m → Distinct (insert k v m)
  unfolding insert Distinct
  insert-Distinct k v m h =
      ground (arith, lookup-without k k m, text_eq_refl k, without-Distinct k m h)

module _ {ℓ} {V : Type ℓ} where
  -- A deletion during `range` keeps an entry that passes the test.
  pub lookup-retain_keep :
      (keep : Text → V → Bool) (k : Text) (m : Assoc V) (v : V)
      → lookup k m ≡ some v
      → keep k v ≡ true
      → lookup k (retain keep m) ≡ some v
  unfolding lookup retain
  lookup-retain_keep keep k [] v h p = h
  lookup-retain_keep keep k ((j, w) ∷ m) v h p =
      ground (arith, lookup-retain_keep keep k m v, text_eq_iff j k)

  pub lookup-retain-none :
      (keep : Text → V → Bool) (k : Text) (m : Assoc V)
      → lookup k m ≡ none
      → lookup k (retain keep m) ≡ none
  unfolding lookup retain
  lookup-retain-none keep k [] h = h
  lookup-retain-none keep k ((j, w) ∷ m) h =
      ground (arith, lookup-retain-none keep k m, text_eq_iff j k)

  pub retain-Distinct :
      (keep : Text → V → Bool) (m : Assoc V) → Distinct m → Distinct (retain keep m)
  unfolding retain Distinct
  retain-Distinct keep [] h = tt
  retain-Distinct keep ((j, w) ∷ m) h =
      ground (arith, lookup-retain-none keep j m, retain-Distinct keep m h.1)

  -- Where no key stands twice, it drops just the entries that fail the test.
  pub lookup-retain :
      (keep : Text → V → Bool) (k : Text) (m : Assoc V)
      → Distinct m
      → lookup k (retain keep m)
        ≡ elim (lookup k m) [ none ↦ none | some v ↦ if keep k v then some v else none ]
  unfolding lookup retain Distinct
  lookup-retain keep k [] h = refl
  lookup-retain keep k ((j, w) ∷ m) h =
      ground (arith, lookup-retain keep k m h.1, lookup-retain-none keep k m, text_eq_iff j k)
