-- ===== src/Spikes/Sliding.antt =====
-- Sliding windows over entries with a time: what a window holds after each of several entries.
use emage_code_cwso.Prelude.{
  ℕ, ◌+◌, ◌≤◌, not, leb, ◌<◌, ◌≡◌, refl, sym, ap, ◌∙◌, Bool, true, List, [], ◌∷◌, ◌++◌, select,
  arith,
}
use emage_code_cwso.Spikes.{within}

pub select-append {ℓ} :
    {A : Type ℓ} (p : A → Bool) (xs ys : List A) → select p (xs ++ ys) ≡ select p xs ++ select p ys
select-append p [] ys = refl
select-append p (x ∷ xs) ys = ground (arith, select-append p xs ys)

module _ {ℓ} {A : Type ℓ} (time : A → ℕ) where
  -- The entries within the window of a time.
  abbrev pub held : ℕ → ℕ → List A → List A
  held window now xs = select (λ x. within window now (time x)) xs

  -- The entries that are less than `window` older than a time; one that is exactly so much older
  -- is not among them.
  abbrev pub younger : ℕ → ℕ → List A → List A
  younger window now xs = select (λ x. not (leb (time x + window) now)) xs

  pub held-younger : (window now : ℕ) (xs : List A) → held window now xs ≡ younger window now xs
  held-younger window now [] = refl
  held-younger window now (x ∷ xs) = ground (arith, held-younger window now xs)

  -- The time of the last entry, or `a`.
  abbrev pub last_time : ℕ → List A → ℕ
  last_time a [] = a
  last_time a (x ∷ xs) = last_time (time x) xs

  -- No entry is earlier than the one before it, nor than `a`.
  abbrev pub IsOrdered : ℕ → List A → Type 0
  IsOrdered a [] = Unit
  IsOrdered a (x ∷ xs) = (a ≤ time x) × IsOrdered (time x) xs

  pub last_time-le : (a : ℕ) (xs : List A) → IsOrdered a xs → a ≤ last_time a xs
  last_time-le a [] h = omega arith
  last_time-le a (x ∷ xs) h = omega (arith, last_time-le (time x) xs h.1, h.0)

  -- A later window of what an earlier one holds.
  pub held-held :
      (window a b : ℕ) (xs : List A) → a ≤ b → held window b (held window a xs) ≡ held window b xs
  held-held window a b [] le = refl
  held-held window a b (x ∷ xs) le = ground (arith, held-held window a b xs le)

  -- What a window holds once the next entry is put behind it.
  pub held-next :
      (window a : ℕ) (xs : List A) (new : A)
      → 0 < window
      → a ≤ time new
      → held window (time new) (held window a xs) ++ new ∷ []
        ≡ held window (time new) (xs ++ new ∷ [])
  held-next window a xs new wide le =
      let fresh : within window (time new) (time new) ≡ true = ground arith in
      let last : held window (time new) (new ∷ []) ≡ new ∷ [] = ground arith in
      ap (λ l. l ++ new ∷ []) (held-held window a (time new) xs le)
      ∙ ap (λ l. held window (time new) xs ++ l) (sym last)
      ∙ sym (select-append (λ x. within window (time new) (time x)) xs (new ∷ []))
