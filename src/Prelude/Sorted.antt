-- ===== src/Prelude/Sorted.antt =====
-- What sorting and cutting off keep of a list.
use Prim.Native.Nat.{ℕ, zero, suc}
use mathlib.Core.Path.{◌≡◌, refl, ◌∙◌}
use mathlib.Core.Bool.{true, false}
use mathlib.Core.List.{List, [], ◌∷◌}
use native.Mathlib.Omega.{arith}
use emage_code_cwso.Prelude.Tests.{if◌then◌else◌, Equality, ◌==◌, eq_iff}
use emage_code_cwso.Prelude.Lists.{All, take}
use emage_code_cwso.Prelude.Bytes.{Text}
use emage_code_cwso.Prelude.Members.{mem, Distinct}
use emage_code_cwso.Prelude.Strings.{text_ltb}
use emage_code_cwso.Prelude.Sort.{insert_by, sort_by, IsSorted}

module _ {ℓ} {A : Type ℓ} ⦃e : Equality A⦄ where
  mem-insert_by :
      (key : A → Text) (a r : A) (xs : List A)
      → mem a (insert_by key r xs) ≡ (if r == a then true else mem a xs)
  unfolding insert_by mem
  mem-insert_by key a r [] = refl
  mem-insert_by key a r (x ∷ xs) = ground (arith, mem-insert_by key a r xs)

  pub mem-sort_by : (key : A → Text) (a : A) (xs : List A) → mem a (sort_by key xs) ≡ mem a xs
  unfolding sort_by mem
  mem-sort_by key a [] = refl
  mem-sort_by key a (x ∷ xs) =
      ground (arith, mem-insert_by key a x (sort_by key xs), mem-sort_by key a xs)

  Distinct-insert_by :
      (key : A → Text) (r : A) (xs : List A)
      → mem r xs ≡ false
      → Distinct xs
      → Distinct (insert_by key r xs)
  unfolding insert_by mem
  Distinct-insert_by key r [] new d = (refl, tt)
  Distinct-insert_by key r (x ∷ xs) new d =
      ground (arith, Distinct-insert_by key r xs, mem-insert_by key x r xs, eq_iff x r, eq_iff r x)

  pub Distinct-sort_by : (key : A → Text) (xs : List A) → Distinct xs → Distinct (sort_by key xs)
  unfolding sort_by
  Distinct-sort_by key [] d = tt
  Distinct-sort_by key (x ∷ xs) d =
      Distinct-insert_by key x (sort_by key xs) (mem-sort_by key x xs ∙ d.0)
        (Distinct-sort_by key xs d.1)

  mem-take : (n : ℕ) (a : A) (xs : List A) → mem a xs ≡ false → mem a (take n xs) ≡ false
  unfolding mem
  mem-take zero a xs h = refl
  mem-take (suc n) a [] h = refl
  mem-take (suc n) a (x ∷ xs) h = ground (arith, mem-take n a xs)

  pub Distinct-take : (n : ℕ) (xs : List A) → Distinct xs → Distinct (take n xs)
  Distinct-take zero xs d = tt
  Distinct-take (suc n) [] d = tt
  Distinct-take (suc n) (x ∷ xs) d = (mem-take n x xs d.0, Distinct-take n xs d.1)

module _ {ℓ κ} {A : Type ℓ} (P : A → Type κ) where
  pub All-take : (n : ℕ) (xs : List A) → All P xs → All P (take n xs)
  All-take zero xs h = tt
  All-take (suc n) [] h = tt
  All-take (suc n) (x ∷ xs) h = (h.0, All-take n xs h.1)

pub take-IsSorted {ℓ} :
    {A : Type ℓ} (key : A → Text) (n : ℕ) (xs : List A) → IsSorted key xs → IsSorted key (take n xs)
take-IsSorted key zero xs h = tt
take-IsSorted key (suc n) [] h = tt
take-IsSorted key (suc n) (x ∷ xs) h =
    (All-take (λ y. text_ltb (key y) (key x) ≡ false) n xs h.0, take-IsSorted key n xs h.1)

module _ {ℓ κ} {A : Type ℓ} ⦃e : Equality A⦄ (P : A → Type κ) where
  -- A property of whatever is found in a list is one of each of its entries.
  pub All-mem : (xs : List A) → ((x : A) → mem x xs ≡ true → P x) → All P xs
  unfolding mem
  All-mem [] each = tt
  All-mem (x ∷ xs) each =
      (each x (ground (arith, eq_iff x x)), All-mem xs (λ y there. each y (ground arith)))
