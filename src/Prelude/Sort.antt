-- ===== src/Prelude/Sort.antt =====
-- `sort.Slice` and `sort.Strings` by a comparison: the order is proved for a comparison of texts.
use mathlib.Core.Path.{◌≡◌, refl}
use mathlib.Core.Logic.{inl, inr}
use mathlib.Core.Bool.{Bool, true, false, ◌&&◌}
use mathlib.Core.List.{List, [], ◌∷◌}
use native.Mathlib.Omega.{arith}
use emage_code_cwso.Prelude.Tests.{if◌then◌else◌, Bool-cases, nat_eq, eq_iff}
use emage_code_cwso.Prelude.Lists.{All, count_if, select}
use emage_code_cwso.Prelude.Bytes.{Text}
use emage_code_cwso.Prelude.Strings.{text_ltb}

module _ {ℓ} {A : Type ℓ} where
  unfoldable pub insert_by : (A → Text) → A → List A → List A
  insert_by key r [] = r ∷ []
  insert_by key r (x ∷ xs) =
      let later = insert_by key r xs in if text_ltb (key x) (key r) then x ∷ later else r ∷ x ∷ xs

  unfoldable pub sort_by : (A → Text) → List A → List A
  sort_by key [] = []
  sort_by key (x ∷ xs) = insert_by key x (sort_by key xs)

  -- No entry comes before one that is less.
  abbrev pub IsSorted : (A → Text) → List A → Type 0
  IsSorted key [] = Unit
  IsSorted key (x ∷ xs) = All (λ y. text_ltb (key y) (key x) ≡ false) xs × IsSorted key xs

pub text_ltb_asym : (a b : Text) → text_ltb a b ≡ true → text_ltb b a ≡ false
unfolding text_ltb
text_ltb_asym [] [] h = refl
text_ltb_asym [] (b ∷ bs) h = refl
text_ltb_asym (a ∷ as') [] h = ground arith
text_ltb_asym (a ∷ as') (b ∷ bs) h = ground (arith, text_ltb_asym as' bs, eq_iff a b, eq_iff b a)

text_ltb_nil : (a : Text) → text_ltb a [] ≡ false
unfolding text_ltb
text_ltb_nil [] = refl
text_ltb_nil (a ∷ as') = refl

pub text_ltb_negtrans :
    (a b c : Text) → text_ltb a b ≡ false → text_ltb b c ≡ false → text_ltb a c ≡ false
unfolding text_ltb
text_ltb_negtrans a b [] h k = text_ltb_nil a
text_ltb_negtrans [] [] (c ∷ cs) h k = ground arith
text_ltb_negtrans [] (b ∷ bs) (c ∷ cs) h k = ground arith
text_ltb_negtrans (a ∷ as') [] (c ∷ cs) h k = ground arith
text_ltb_negtrans (a ∷ as') (b ∷ bs) (c ∷ cs) h k =
    ground (arith, text_ltb_negtrans as' bs cs, eq_iff a b, eq_iff b c, eq_iff a c)

module _ {ℓ κ} {A : Type ℓ} (P : A → Type κ) where
  pub All-insert_by :
      (key : A → Text) (r : A) (xs : List A) → P r → All P xs → All P (insert_by key r xs)
  unfolding insert_by
  All-insert_by key r [] p h = (p, tt)
  All-insert_by key r (x ∷ xs) p h = elim (Bool-cases (text_ltb (key x) (key r))) [
    | inl k ↦ rw (insert_by, k) (h.0, All-insert_by key r xs p h.1)
    | inr k ↦ rw (insert_by, k) (p, h)
  ]

  pub All-sort_by : (key : A → Text) (xs : List A) → All P xs → All P (sort_by key xs)
  unfolding sort_by
  All-sort_by key [] h = tt
  All-sort_by key (x ∷ xs) h = All-insert_by key x (sort_by key xs) h.0 (All-sort_by key xs h.1)

module _ {ℓ} {A : Type ℓ} where
  below :
      (key : A → Text) (r x : A) (xs : List A)
      → text_ltb (key x) (key r) ≡ false
      → All (λ y. text_ltb (key y) (key x) ≡ false) xs
      → All (λ y. text_ltb (key y) (key r) ≡ false) xs
  below key r x [] k h = tt
  below key r x (y ∷ ys) k h =
      (text_ltb_negtrans (key y) (key x) (key r) h.0 k, below key r x ys k h.1)

  insert_by-IsSorted :
      (key : A → Text) (r : A) (xs : List A) → IsSorted key xs → IsSorted key (insert_by key r xs)
  unfolding insert_by
  insert_by-IsSorted key r [] h = (tt, tt)
  insert_by-IsSorted key r (x ∷ xs) h = elim (Bool-cases (text_ltb (key x) (key r))) [
    | inl k ↦
        rw (insert_by, k)
          (
            All-insert_by (λ y. text_ltb (key y) (key x) ≡ false) key r xs
                (text_ltb_asym (key x) (key r) k) h.0,
            insert_by-IsSorted key r xs h.1,
          )
    | inr k ↦ rw (insert_by, k) ((k, below key r x xs k h.0), h)
  ]

  pub sort_by-IsSorted : (key : A → Text) (xs : List A) → IsSorted key (sort_by key xs)
  unfolding sort_by
  sort_by-IsSorted key [] = tt
  sort_by-IsSorted key (x ∷ xs) =
      insert_by-IsSorted key x (sort_by key xs) (sort_by-IsSorted key xs)

  insert_by-count :
      (key : A → Text) (p : A → Bool) (r : A) (xs : List A)
      → count_if p (insert_by key r xs) ≡ count_if p (r ∷ xs)
  unfolding insert_by
  insert_by-count key p r [] = refl
  insert_by-count key p r (x ∷ xs) = elim (Bool-cases (text_ltb (key x) (key r))) [
    | inl k ↦ rw (insert_by, k) (ground (arith, insert_by-count key p r xs))
    | inr k ↦ rw (insert_by, k) refl
  ]

  pub sort_by-count :
      (key : A → Text) (p : A → Bool) (xs : List A) → count_if p (sort_by key xs) ≡ count_if p xs
  unfolding sort_by
  sort_by-count key p [] = refl
  sort_by-count key p (x ∷ xs) =
      ground (arith, insert_by-count key p x (sort_by key xs), sort_by-count key p xs)

  pub select-count :
      (p keep : A → Bool) (xs : List A)
      → count_if p (select keep xs) ≡ count_if (λ x. keep x && p x) xs
  select-count p keep [] = refl
  select-count p keep (x ∷ xs) = ground (arith, select-count p keep xs)
