-- ===== src/Prelude/Members.antt =====
-- Membership as the program tests it, and lists without repetition.
use Prim.Native.Nat.{◌+◌}
use mathlib.Core.Path.{◌≡◌, refl}
use mathlib.Core.Bool.{Bool, true, false}
use mathlib.Core.List.{List, [], ◌∷◌, ◌++◌}
use native.Mathlib.Omega.{arith}
use emage_code_cwso.Prelude.Tests.{if◌then◌else◌, Equality, ◌==◌, eq_iff}
use emage_code_cwso.Prelude.Lists.{length}

module _ {ℓ} {A : Type ℓ} ⦃e : Equality A⦄ where
  unfoldable pub mem : A → List A → Bool
  mem a [] = false
  mem a (x ∷ xs) = let rest = mem a xs in if x == a then true else rest

  -- The list without its first entry that is `a`.
  unfoldable pub erase_one : A → List A → List A
  erase_one a [] = []
  erase_one a (x ∷ xs) = let rest = x ∷ erase_one a xs in if x == a then xs else rest

  abbrev pub Distinct : List A → Type 0
  Distinct [] = Unit
  Distinct (x ∷ xs) = (mem x xs ≡ false) × Distinct xs

  pub mem-append :
      (a : A) (xs ys : List A) → mem a (xs ++ ys) ≡ (if mem a xs then true else mem a ys)
  unfolding mem
  mem-append a [] ys = refl
  mem-append a (x ∷ xs) ys = ground (arith, mem-append a xs ys)

  pub mem-erase_one :
      (a b : A) (xs : List A)
      → Distinct xs
      → mem b (erase_one a xs) ≡ (if a == b then false else mem b xs)
  unfolding mem erase_one
  mem-erase_one a b [] d = ground arith
  mem-erase_one a b (x ∷ xs) d =
      ground (arith, mem-erase_one a b xs, eq_iff x a, eq_iff x b, eq_iff a b)

  pub Distinct-erase_one : (a : A) (xs : List A) → Distinct xs → Distinct (erase_one a xs)
  unfolding mem erase_one
  Distinct-erase_one a [] d = tt
  Distinct-erase_one a (x ∷ xs) d =
      ground (arith, Distinct-erase_one a xs, mem-erase_one a x xs, eq_iff x a)

  pub length-erase_one :
      (a : A) (xs : List A) → mem a xs ≡ true → length (erase_one a xs) + 1 ≡ length xs
  unfolding mem erase_one
  length-erase_one a [] h = absurd (ground arith)
  length-erase_one a (x ∷ xs) h = ground (arith, length-erase_one a xs)
