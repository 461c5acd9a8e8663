-- ===== src/Prelude/Entries.antt =====
-- A property of every entry of a map.
use mathlib.Core.Path.{◌≡◌, ap, subst}
use mathlib.Core.Logic.{inl, inr}
use mathlib.Core.Option.{Option, none, some}
use mathlib.Core.List.{[], ◌∷◌}
use native.Mathlib.Omega.{arith}
use emage_code_cwso.Prelude.Tests.{Bool-cases, Equality, ◌==◌, eq_iff}
use emage_code_cwso.Prelude.Lists.{All}
use emage_code_cwso.Prelude.Map.{Map, lookup, insert, remove}

value_or {ℓ} : {V : Type ℓ} → V → Option V → V
value_or d none = d
value_or d (some v) = v

module _ {ℓ κ μ} {K : Type ℓ} {V : Type κ} ⦃e : Equality K⦄ (P : K × V → Type μ) where
  pub insert-All : (k : K) (v : V) (m : Map K V) → P (k, v) → All P m → All P (insert k v m)
  unfolding insert
  insert-All k v [] p h = (p, tt)
  insert-All k v ((j, w) ∷ m) p h = elim (Bool-cases (j == k)) [
    | inl same ↦ rw (insert, same) (p, h.1)
    | inr other ↦ rw (insert, other) (h.0, insert-All k v m p h.1)
  ]

  pub remove-All : (k : K) (m : Map K V) → All P m → All P (remove k m)
  unfolding remove
  remove-All k [] h = tt
  remove-All k ((j, w) ∷ m) h = elim (Bool-cases (j == k)) [
    | inl same ↦ rw (remove, same) (remove-All k m h.1)
    | inr other ↦ rw (remove, other) (h.0, remove-All k m h.1)
  ]

  -- An entry that is found is one of the map's.
  pub lookup-All : (k : K) (v : V) (m : Map K V) → lookup k m ≡ some v → All P m → P (k, v)
  unfolding lookup value_or
  lookup-All k v [] found h = absurd (ground arith)
  lookup-All k v ((j, w) ∷ m) found h = elim (Bool-cases (j == k)) [
    | inl same ↦
        let here : w ≡ v = ap (value_or w) (rw (lookup, same) at found) in
        subst (λ x. P (k, x)) here (subst (λ x. P (x, w)) ((eq_iff j k).0 same) h.0)
    | inr other ↦ lookup-All k v m (rw (lookup, other) at found) h.1
  ]
