-- ===== src/Dispatch/Ranked.antt =====
-- The candidates that are scored, adjusted and ranked come from the snapshot,
-- orchestrator/internal/dispatch/policy_engine_v2.go.
use mathlib.Core.Path.{subst}
use emage_code_cwso.Prelude.{
  ℕ, ◌≡◌, refl, sym, inl, inr, Bool-cases, Option-cases, Option, none, some, List, [], ◌∷◌, map,
  All, Text, eq_refl, nat_eq, text_eq, arith,
}
use emage_code_cwso.Capability.{ProviderCapability}
use emage_code_cwso.Dispatch.{Floats, PolicyV2Config, ScoredCandidate}
use emage_code_cwso.Dispatch.Score.{
  is_policy_eligible, score_eligible, candidate_of, provider_has_feature_flag,
}
use emage_code_cwso.Dispatch.Assist.{boosted, sparse_boosted, ssm_boosted, ssm_applies}
use emage_code_cwso.Dispatch.Select.{apply_score_adjustments, insert_ranked, ranks_before, rank}
use emage_code_cwso.Dispatch.Chain.{IsOffered, IsFrom}

module _ {F : Type 0} (fl : Floats F) where
  pub score_eligible-All :
      (cfg : PolicyV2Config F) (tags : List Text) (all ps : List ProviderCapability)
      → ((id : Text)
          → IsOffered ps tags cfg.baseline_provider_id id
          → IsOffered all tags cfg.baseline_provider_id id)
      → All
          (IsFrom fl (IsOffered all tags cfg.baseline_provider_id))
          (score_eligible fl cfg tags ps)
  unfolding score_eligible candidate_of
  score_eligible-All cfg tags all [] h = tt
  score_eligible-All cfg tags all (p ∷ ps) h =
      let rest = score_eligible-All cfg tags all ps (λ id k. h id (ground arith)) in
      elim (Bool-cases (is_policy_eligible p tags cfg.baseline_provider_id)) [
        | inl k ↦
            rw (score_eligible, k) (h p.provider_id (rw (eq_refl p.provider_id, k) refl), rest)
        | inr k ↦ rw (score_eligible, k) rest
      ]

  pub sparse_boosted-id :
      (cfg : PolicyV2Config F) (tags : List Text) (c : ScoredCandidate F)
      → (sparse_boosted fl cfg tags c).provider_id ≡ c.provider_id
  unfolding sparse_boosted boosted
  sparse_boosted-id cfg tags c =
      elim (Bool-cases
        (provider_has_feature_flag c.feature_flags cfg.sparse_quantized.provider_feature_flag)) [
          | inl k ↦ rw (sparse_boosted, k) refl
          | inr k ↦ rw (sparse_boosted, k) refl
        ]

  pub ssm_boosted-id :
      (cfg : PolicyV2Config F) (n : ℕ) (c : ScoredCandidate F)
      → (ssm_boosted fl cfg n c).provider_id ≡ c.provider_id
  unfolding ssm_boosted boosted
  ssm_boosted-id cfg n c = elim (Bool-cases (ssm_applies fl cfg n c)) [
    | inl k ↦ rw (ssm_boosted, k) refl
    | inr k ↦ rw (ssm_boosted, k) refl
  ]

  module _ (P : Text → Type 0) where
    pub map-IsFrom :
        (f : ScoredCandidate F → ScoredCandidate F) (cs : List (ScoredCandidate F))
        → ((c : ScoredCandidate F) → (f c).provider_id ≡ c.provider_id)
        → All (IsFrom fl P) cs
        → All (IsFrom fl P) (map f cs)
    map-IsFrom f [] same h = tt
    map-IsFrom f (c ∷ cs) same h = (subst P (sym (same c)) h.0, map-IsFrom f cs same h.1)

    unfoldable pub AllDone : Option (List (ScoredCandidate F)) → Type 0
    AllDone none = Unit
    AllDone (some cs) = All (IsFrom fl P) cs

    pub adjusted-AllDone :
        (adjust : Text → F → List Text → Option F) (tags : List Text)
        (cs : List (ScoredCandidate F))
        → All (IsFrom fl P) cs
        → AllDone (apply_score_adjustments fl adjust tags cs)
    unfolding AllDone apply_score_adjustments
    adjusted-AllDone adjust tags [] h = tt
    adjusted-AllDone adjust tags (c ∷ cs) h =
        elim (Option-cases (adjust c.provider_id c.score tags)) [
          | inl failed ↦ rw (apply_score_adjustments, failed) tt
          | inr (score, fine) ↦ elim (Option-cases (apply_score_adjustments fl adjust tags cs)) [
            | inl failed ↦ rw (apply_score_adjustments, fine, failed) tt
            | inr (done, rest) ↦
                rw (apply_score_adjustments, fine, rest)
                  (h.0, rw rest at (adjusted-AllDone adjust tags cs h.1))
          ]
        ]

    insert_ranked-IsFrom :
        (c : ScoredCandidate F) (ds : List (ScoredCandidate F))
        → P c.provider_id
        → All (IsFrom fl P) ds
        → All (IsFrom fl P) (insert_ranked fl c ds)
    unfolding insert_ranked
    insert_ranked-IsFrom c [] p h = (p, tt)
    insert_ranked-IsFrom c (d ∷ ds) p h = elim (Bool-cases (ranks_before fl d c)) [
      | inl k ↦ rw (insert_ranked, k) (h.0, insert_ranked-IsFrom c ds p h.1)
      | inr k ↦ rw (insert_ranked, k) (p, h)
    ]

    pub rank-IsFrom :
        (cs : List (ScoredCandidate F)) → All (IsFrom fl P) cs → All (IsFrom fl P) (rank fl cs)
    unfolding rank
    rank-IsFrom [] h = tt
    rank-IsFrom (c ∷ cs) h = insert_ranked-IsFrom c (rank fl cs) h.0 (rank-IsFrom cs h.1)
