-- ===== src/Prelude/Keys.antt =====
-- The keys of a map, in the order of their first entry, and how many of a list of keys are new.
use Prim.Native.Nat.{suc, ◌+◌, ◌≤◌}
use mathlib.Core.Path.{◌≡◌, refl, ap}
use mathlib.Core.Bool.{Bool, true, not, ◌&&◌}
use mathlib.Core.Logic.{inl, inr}
use mathlib.Core.List.{List, [], ◌∷◌}
use native.Mathlib.Omega.{arith}
use emage_code_cwso.Prelude.Tests.{if◌then◌else◌, leb, Bool-cases, Equality, ◌==◌, eq_iff}
use emage_code_cwso.Prelude.Lists.{length, All}
use emage_code_cwso.Prelude.Map.{Map, insert}
use emage_code_cwso.Prelude.Members.{mem, Distinct}

abbrev pub keys {ℓ κ} : {K : Type ℓ} {V : Type κ} → Map K V → List K
keys [] = []
keys ((k, v) ∷ m) = k ∷ keys m

pub length-keys {ℓ κ} : {K : Type ℓ} {V : Type κ} (m : Map K V) → length (keys m) ≡ length m
length-keys [] = refl
length-keys ((k, v) ∷ m) = ap suc (length-keys m)

module _ {ℓ} {K : Type ℓ} ⦃e : Equality K⦄ where
  -- A key that is there takes the place of the one that is equal to it.
  unfoldable pub add_key : K → List K → List K
  add_key k [] = k ∷ []
  add_key k (j ∷ ks) = let rest = j ∷ add_key k ks in if j == k then k ∷ ks else rest

  unfoldable pub add_keys : List K → List K → List K
  add_keys seen [] = seen
  add_keys seen (k ∷ ks) = add_keys (add_key k seen) ks

  -- No key of the list is seen before, nor twice in it.
  unfoldable pub all_new : List K → List K → Bool
  all_new seen [] = true
  all_new seen (k ∷ ks) = let rest = all_new seen ks in (not (mem k seen) && not (mem k ks)) && rest

  pub keys-insert {κ} :
      {V : Type κ} (k : K) (v : V) (m : Map K V) → keys (insert k v m) ≡ add_key k (keys m)
  unfolding insert add_key
  keys-insert k v [] = refl
  keys-insert k v ((j, w) ∷ m) = elim (Bool-cases (j == k)) [
    | inl same ↦ rw (insert, add_key, same) refl
    | inr other ↦ rw (insert, add_key, other) (ap (λ l. j ∷ l) (keys-insert k v m))
  ]

  pub length-add_key :
      (k : K) (ks : List K)
      → length (add_key k ks) ≡ (if mem k ks then length ks else suc (length ks))
  unfolding add_key mem
  length-add_key k [] = refl
  length-add_key k (j ∷ ks) = ground (arith, length-add_key k ks)

  pub mem-add_key :
      (j k : K) (ks : List K) → mem j (add_key k ks) ≡ (if k == j then true else mem j ks)
  unfolding add_key mem
  mem-add_key j k [] = refl
  mem-add_key j k (i ∷ ks) = ground (arith, mem-add_key j k ks, eq_iff i k, eq_iff k j, eq_iff i j)

  pub Distinct-add_key : (k : K) (ks : List K) → Distinct ks → Distinct (add_key k ks)
  unfolding add_key mem
  Distinct-add_key k [] d = (refl, tt)
  Distinct-add_key k (j ∷ ks) d = elim (Bool-cases (j == k)) [
    | inl same ↦ rw (add_key, same) (ground (arith, eq_iff j k), d.1)
    | inr other ↦
        rw (add_key, other)
          (ground (arith, mem-add_key j k ks, eq_iff j k, eq_iff k j), Distinct-add_key k ks d.1)
  ]

  pub All-add_key {κ} :
      (P : K → Type κ) (k : K) (ks : List K) → P k → All P ks → All P (add_key k ks)
  unfolding add_key
  All-add_key P k [] p h = (p, tt)
  All-add_key P k (j ∷ ks) p h = elim (Bool-cases (j == k)) [
    | inl same ↦ rw (add_key, same) (p, h.1)
    | inr other ↦ rw (add_key, other) (h.0, All-add_key P k ks p h.1)
  ]

  all_new-add_key :
      (k : K) (seen ks : List K) → all_new (add_key k seen) ks ≡ (not (mem k ks) && all_new seen ks)
  unfolding all_new mem
  all_new-add_key k seen [] = refl
  all_new-add_key k seen (j ∷ ks) =
      ground (arith, all_new-add_key k seen ks, mem-add_key j k seen, eq_iff j k, eq_iff k j)

  pub length-add_keys-le : (seen ks : List K) → length (add_keys seen ks) ≤ length seen + length ks
  unfolding add_keys
  length-add_keys-le seen [] = omega arith
  length-add_keys-le seen (k ∷ ks) =
      ground (arith, length-add_keys-le (add_key k seen) ks, length-add_key k seen)

  pub length-seen-le : (seen ks : List K) → length seen ≤ length (add_keys seen ks)
  unfolding add_keys
  length-seen-le seen [] = omega arith
  length-seen-le seen (k ∷ ks) =
      ground (arith, length-seen-le (add_key k seen) ks, length-add_key k seen)

  -- As many keys are added as there are where all are new, and fewer else.
  pub length-add_keys :
      (seen ks : List K)
      → leb (length seen + length ks) (length (add_keys seen ks)) ≡ all_new seen ks
  unfolding add_keys all_new
  length-add_keys seen [] = ground arith
  length-add_keys seen (k ∷ ks) = ground (
    arith,
    length-add_keys (add_key k seen) ks,
    length-add_keys-le (add_key k seen) ks,
    length-add_key k seen,
    all_new-add_key k seen ks,
  )
