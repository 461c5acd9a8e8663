-- ===== src/Dispatch/Fallback.antt =====
-- The next provider after a failure, `FallbackOnFailure` of
-- orchestrator/internal/dispatch/policy_engine_v2.go.
use emage_code_cwso.Prelude.{
  ◌≡◌, ◌≢◌, refl, ap, ◌∙◌, false, Bool-cases, inl, inr, List, [], ◌∷◌, ◌++◌, length, Text, ◌==◌,
  eq_iff, eq_refl, nat_eq, text_eq, arith,
}
use emage_code_cwso.Prelude.Members.{mem}
use emage_code_cwso.Prelude.Strings.{trim_space}
use emage_code_cwso.Dispatch.{Floats, PolicyDecision, PolicyEngineV2}
use emage_code_cwso.Dispatch.Select.{next_after, fallback_on_failure}

next_after_lem :
    (baseline failed next : Text) (xs ys : List Text)
    → mem failed xs ≡ false
    → next_after baseline failed (xs ++ failed ∷ next ∷ ys) ≡ next
unfolding next_after mem
next_after_lem baseline failed next [] ys h = rw (next_after, eq_refl failed) refl
next_after_lem baseline failed next (x ∷ []) ys h =
    ground (arith, next_after_lem baseline failed next [] ys refl)
next_after_lem baseline failed next (x ∷ y ∷ xs) ys h =
    ground (arith, next_after_lem baseline failed next (y ∷ xs) ys)

next_after_last :
    (baseline failed : Text) (xs : List Text)
    → mem failed xs ≡ false
    → next_after baseline failed (xs ++ failed ∷ []) ≡ baseline
unfolding next_after mem
next_after_last baseline failed [] h = refl
next_after_last baseline failed (x ∷ []) h = ground (arith, next_after_last baseline failed [] refl)
next_after_last baseline failed (x ∷ y ∷ xs) h =
    ground (arith, next_after_last baseline failed (y ∷ xs))

not_nil : (t : Text) → t ≢ [] → (t == []) ≡ false
not_nil t h = ground (arith, eq_iff t [])

cons_length : (xs ys : List Text) (x : Text) → (length (xs ++ x ∷ ys) == 0) ≡ false
cons_length [] ys x = ground (arith, eq_iff (length (x ∷ ys)) 0)
cons_length (y ∷ xs) ys x = ground (arith, eq_iff (length (y ∷ xs ++ x ∷ ys)) 0)

module _ {F : Type 0} (fl : Floats F) (e : PolicyEngineV2 F) (d : PolicyDecision F)
    (failed cause : Text) (xs : List Text) where
  -- When a provider of the chain fails, the one after its first place is selected, where that is
  -- not blank; the chain stays.
  pub fallback_next :
      (next : Text) (ys : List Text)
      → d.ranked_fallback_chain ≡ xs ++ failed ∷ next ∷ ys
      → mem failed xs ≡ false
      → trim_space failed ≡ failed
      → failed ≢ []
      → trim_space next ≢ []
      → let d' = fallback_on_failure fl e d failed cause in
        (d'.selected_provider ≡ next) × (d'.ranked_fallback_chain ≡ d.ranked_fallback_chain)
  unfolding fallback_on_failure
  fallback_next next ys chain first plain named next_named =
      let some_chain : (length d.ranked_fallback_chain == 0) ≡ false =
        ap (λ c. length c == 0) chain ∙ cons_length xs (next ∷ ys) failed in
      let after : next_after e.cfg.baseline_provider_id failed d.ranked_fallback_chain ≡ next =
        ap (next_after e.cfg.baseline_provider_id failed) chain
        ∙ next_after_lem e.cfg.baseline_provider_id failed next xs ys first in
      (
        rw (some_chain, plain, not_nil failed named, after, not_nil (trim_space next) next_named)
            refl,
        rw some_chain refl,
      )

  -- When the last provider of the chain fails, the baseline is selected.
  pub fallback_last :
      d.ranked_fallback_chain ≡ xs ++ failed ∷ []
      → mem failed xs ≡ false
      → trim_space failed ≡ failed
      → failed ≢ []
      → (fallback_on_failure fl e d failed cause).selected_provider ≡ e.cfg.baseline_provider_id
  unfolding fallback_on_failure
  fallback_last chain first plain named =
      let baseline = e.cfg.baseline_provider_id in
      let some_chain : (length d.ranked_fallback_chain == 0) ≡ false =
        ap (λ c. length c == 0) chain ∙ cons_length xs [] failed in
      let after : next_after baseline failed d.ranked_fallback_chain ≡ baseline =
        ap (next_after baseline failed) chain ∙ next_after_last baseline failed xs first in
      elim (Bool-cases (trim_space baseline == [])) [
        | inl k ↦ rw (some_chain, plain, not_nil failed named, after, k) refl
        | inr k ↦ rw (some_chain, plain, not_nil failed named, after, k) refl
      ]
