-- ===== src/Prelude/Map.antt =====
-- Go maps as association lists. What the program computes from a map never depends on the order of
-- its entries, which Go leaves open.
use Prim.Native.Nat.{ℕ, ◌+◌}
use mathlib.Core.Path.{◌≡◌, refl}
use mathlib.Core.Bool.{Bool}
use mathlib.Core.Option.{Option, none, some}
use mathlib.Core.List.{List, [], ◌∷◌}
use native.Mathlib.Omega.{arith}
use emage_code_cwso.Prelude.Tests.{if◌then◌else◌, Equality, ◌==◌, eq_iff}
use emage_code_cwso.Prelude.Lists.{count_if}

abbrev pub Map {ℓ κ} : Type ℓ → Type κ → Type (ℓ ⊔ κ)
Map K V = List (K × V)

-- A test as a number.
abbrev pub bit : Bool → ℕ
bit b = if b then 1 else 0

module _ {ℓ κ} {K : Type ℓ} {V : Type κ} ⦃e : Equality K⦄ where
  unfoldable pub lookup : K → Map K V → Option V
  lookup k [] = none
  lookup k ((j, v) ∷ m) = if j == k then some v else lookup k m

  -- `m[k] = v`
  unfoldable pub insert : K → V → Map K V → Map K V
  insert k new [] = (k, new) ∷ []
  insert k new ((j, old) ∷ m) =
      let rest = insert k new m in if j == k then (k, new) ∷ m else (j, old) ∷ rest

  -- `delete(m, k)`
  unfoldable pub remove : K → Map K V → Map K V
  remove k [] = []
  remove k ((j, w) ∷ m) = let rest = remove k m in if j == k then rest else (j, w) ∷ rest

  pub lookup-insert :
      (k j : K) (v : V) (m : Map K V)
      → lookup j (insert k v m) ≡ (if k == j then some v else lookup j m)
  unfolding lookup insert
  lookup-insert k j v [] = refl
  lookup-insert k j v ((key, old) ∷ m) =
      ground (arith, lookup-insert k j v m, eq_iff k j, eq_iff key j, eq_iff key k)

  pub lookup-remove :
      (k j : K) (m : Map K V) → lookup j (remove k m) ≡ (if k == j then none else lookup j m)
  unfolding lookup remove
  lookup-remove k j [] = ground arith
  lookup-remove k j ((i, w) ∷ m) =
      ground (arith, eq_iff k j, eq_iff i k, eq_iff i j, lookup-remove k j m)

  -- The entries whose value passes a test.
  abbrev pub count_values : (V → Bool) → Map K V → ℕ
  count_values p m = count_if (λ (x : K × V). p x.1) m

  -- A write over an entry changes such a count by that entry alone.
  pub count_values-insert_old :
      (p : V → Bool) (k : K) (v old : V) (m : Map K V)
      → lookup k m ≡ some old
      → count_values p (insert k v m) + bit (p old) ≡ count_values p m + bit (p v)
  unfolding lookup insert
  count_values-insert_old p k v old [] h = absurd (ground arith)
  count_values-insert_old p k v old ((j, w) ∷ m) h =
      ground (arith, count_values-insert_old p k v old m)

  pub count_values-insert_new :
      (p : V → Bool) (k : K) (v : V) (m : Map K V)
      → lookup k m ≡ none
      → count_values p (insert k v m) ≡ count_values p m + bit (p v)
  unfolding lookup insert
  count_values-insert_new p k v [] h = ground arith
  count_values-insert_new p k v ((j, w) ∷ m) h = ground (arith, count_values-insert_new p k v m)

  -- An entry that was not there is taken out again whole.
  pub remove-insert_new :
      (k : K) (v : V) (m : Map K V) → lookup k m ≡ none → remove k (insert k v m) ≡ m
  unfolding lookup insert remove
  remove-insert_new k v [] h = ground (arith, eq_iff k k)
  remove-insert_new k v ((j, w) ∷ m) h = ground (arith, eq_iff k k, remove-insert_new k v m)
