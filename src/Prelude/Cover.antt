-- ===== src/Prelude/Cover.antt =====
-- How many of a list of names a list without repetition can hold.
use Prim.Native.Nat.{◌≤◌}
use mathlib.Core.Path.{◌≡◌, refl}
use mathlib.Core.Bool.{Bool, true, false, ◌&&◌}
use mathlib.Core.Logic.{inl, inr}
use mathlib.Core.List.{List, [], ◌∷◌}
use native.Mathlib.Omega.{arith}
use emage_code_cwso.Prelude.Tests.{leb, Bool-cases, Equality, ◌==◌, eq_iff, eq_refl}
use emage_code_cwso.Prelude.Lists.{length, All}
use emage_code_cwso.Prelude.Members.{mem, erase_one, Distinct, length-erase_one}

module _ {ℓ} {K : Type ℓ} ⦃e : Equality K⦄ where
  -- Each of the second list stands in the first.
  unfoldable pub covers : List K → List K → Bool
  covers ks [] = true
  covers ks (x ∷ xs) = let rest = covers ks xs in mem x ks && rest

  mem-erase_other : (a b : K) (xs : List K) → (a == b) ≡ false → mem b (erase_one a xs) ≡ mem b xs
  unfolding mem erase_one
  mem-erase_other a b [] h = refl
  mem-erase_other a b (x ∷ xs) h =
      ground (arith, mem-erase_other a b xs, eq_iff x a, eq_iff x b, eq_iff a b)

  All-erase :
      (x : K) (xs ys : List K)
      → mem x xs ≡ false
      → All (λ z. mem z ys ≡ true) xs
      → All (λ z. mem z (erase_one x ys) ≡ true) xs
  unfolding mem
  All-erase x [] ys absent h = tt
  All-erase x (z ∷ xs) ys absent h = (
    ground (arith, mem-erase_other x z ys, eq_iff x z, eq_iff z x),
    All-erase x xs ys (ground arith) h.1,
  )

  -- Where each entry of a list without repetition stands in a second one, this is not shorter.
  length_le_of_mem :
      (xs ys : List K) → Distinct xs → All (λ x. mem x ys ≡ true) xs → length xs ≤ length ys
  length_le_of_mem [] ys d h = omega arith
  length_le_of_mem (x ∷ xs) ys d h = omega (
    arith,
    length_le_of_mem xs (erase_one x ys) d.1 (All-erase x xs ys d.0 h.1),
    length-erase_one x ys h.0,
  )

  covers-All : (ks xs : List K) → covers ks xs ≡ true → All (λ x. mem x ks ≡ true) xs
  unfolding covers
  covers-All ks [] h = tt
  covers-All ks (x ∷ xs) h = (ground arith, covers-All ks xs (ground arith))

  missing :
      (ks xs : List K) → covers ks xs ≡ false → (x : K) × (mem x xs ≡ true) × (mem x ks ≡ false)
  unfolding covers mem
  missing ks [] h = absurd (ground arith)
  missing ks (x ∷ xs) h = elim (Bool-cases (mem x ks)) [
    | inr absent ↦ (x, ground (arith, eq_refl x), absent)
    | inl there ↦
        let (y, inside, absent) = missing ks xs (ground arith) in
        (y, ground (arith, inside), absent)
  ]

  -- Names without repetition, all of a list of names, are as many as these only if they are all.
  pub length-covers :
      (ks xs : List K)
      → Distinct ks
      → Distinct xs
      → All (λ k. mem k xs ≡ true) ks
      → leb (length xs) (length ks) ≡ covers ks xs
  length-covers ks xs dk dx inside = elim (Bool-cases (covers ks xs)) [
    | inl all ↦ let le = length_le_of_mem xs ks dx (covers-All ks xs all) in rw all (ground arith)
    | inr some_left ↦
        let (x, there, absent) = missing ks xs some_left in
        let le = length_le_of_mem ks (erase_one x xs) dk (All-erase x ks xs absent inside) in
        let shorter = length-erase_one x xs there in rw some_left (ground arith)
  ]
