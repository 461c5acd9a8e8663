-- ===== src/Dispatch/Sound.antt =====
-- Every decision of the policy engine carries a sound chain of fallbacks,
-- orchestrator/internal/dispatch/policy_engine_v2.go.
use emage_code_cwso.Prelude.{
  ℕ, ◌≡◌, refl, inl, inr, Bool, true, false, ◌&&◌, ◌||◌, Bool-cases, Option-cases, List, [], ◌∷◌,
  length, All, Text, if◌then◌else◌, ◌==◌, eq_refl, nat_eq, text_eq,
}
use emage_code_cwso.Prelude.Int.{pos}
use emage_code_cwso.Capability.{CapabilitySnapshot, dedupe_and_sort}
use emage_code_cwso.Dispatch.{int_less, Floats, PolicyInput, PolicyEngineV2, ScoredCandidate}
use emage_code_cwso.Dispatch.Score.{
  score_candidates, extract_sequence_length_signal, Signal, no_signal, invalid_signal,
  sequence_length, has_long_context_workload,
}
use emage_code_cwso.Dispatch.Assist.{sparse_boosted, ssm_boosted}
use emage_code_cwso.Dispatch.Select.{
  fallback_chain, apply_score_adjustments, rank, ids, head_or, decide, adjust_and_decide,
  assist_and_decide, signal_and_decide, select_of, select, should_auto_disable,
  is_sparse_quantized_active,
}
use emage_code_cwso.Dispatch.Chain.{
  IsChain, IsOffered, IsSound, IsFrom, baseline_decision-IsSound, ids-All, IsSound-chain,
  IsChain-on_baseline, IsChain-on_best, fallback_chain-All,
}
use emage_code_cwso.Dispatch.Ranked.{
  score_eligible-All, map-IsFrom, AllDone, adjusted-AllDone, rank-IsFrom, sparse_boosted-id,
  ssm_boosted-id,
}

IsChain-of :
    (baseline s : Text) (ids : List Text)
    → IsChain baseline s (s ∷ ids) (fallback_chain baseline s (s ∷ ids))
IsChain-of baseline s ids = elim (Bool-cases (s == baseline)) [
  | inl k ↦ IsChain-on_baseline baseline s (s ∷ ids) k
  | inr k ↦ IsChain-on_best baseline s ids k
]

module _ {F : Type 0} (fl : Floats F) where
  module _ (P : Text → Type 0) where
    head_selected :
        (s : Text) (chain rest : List Text)
        → chain ≡ s ∷ rest
        → (if s == [] then head_or fl chain s else s) ≡ s
    head_selected s chain rest e = elim (Bool-cases (s == [])) [
      | inl k ↦ rw (k, e) refl
      | inr k ↦ rw k refl
    ]

    decide-IsSound :
        (e : PolicyEngineV2 F) (epoch : ℕ) (assist ssm failed : Bool)
        (cs : List (ScoredCandidate F))
        → All (IsFrom fl P) cs
        → IsSound fl P e.cfg.baseline_provider_id (decide fl e epoch assist ssm failed cs)
    unfolding decide
    decide-IsSound e epoch assist ssm failed [] h = baseline_decision-IsSound fl P e epoch _ _
    decide-IsSound e epoch assist ssm failed (c ∷ cs) h =
        let baseline = e.cfg.baseline_provider_id in
        let xs = ids fl (c ∷ cs) in
        let from = ids-All fl P baseline (c ∷ cs) h in
        elim (Bool-cases (fl.less c.confidence e.cfg.min_confidence)) [
          | inl low ↦
              let chain = IsChain-on_baseline baseline baseline xs (eq_refl baseline) in
              IsSound-chain fl P _ baseline baseline xs (rw low chain)
                (rw low (head_selected baseline _ chain.rest chain.first))
                (rw low (fallback_chain-All _ baseline baseline xs (inl refl) from))
          | inr high ↦
              let s = c.provider_id in
              let chain = IsChain-of baseline s (ids fl cs) in
              IsSound-chain fl P _ baseline s xs (rw high chain)
                (rw high (head_selected s _ chain.rest chain.first))
                (rw high (fallback_chain-All _ baseline s xs (inl refl) from))
        ]

    adjust_and_decide-IsSound :
        (e : PolicyEngineV2 F) (epoch : ℕ) (input : PolicyInput F) (assist ssm : Bool)
        (cs : List (ScoredCandidate F))
        → All (IsFrom fl P) cs
        → IsSound fl P e.cfg.baseline_provider_id (adjust_and_decide fl e epoch input assist ssm cs)
    unfolding adjust_and_decide AllDone
    adjust_and_decide-IsSound e epoch input assist ssm cs h =
        let tags = dedupe_and_sort input.workload_tags in
        elim (Option-cases e.cfg.score_adjuster) [
          | inl without ↦
              simp (adjust_and_decide, without)
                (decide-IsSound e epoch assist ssm false (rank fl cs) (rank-IsFrom fl P cs h))
          | inr (adjust, there) ↦ elim (Option-cases (apply_score_adjustments fl adjust tags cs)) [
            | inl failed ↦
                simp (adjust_and_decide, there, failed)
                  (decide-IsSound e epoch assist ssm true (rank fl cs) (rank-IsFrom fl P cs h))
            | inr (done, fine) ↦
                simp (adjust_and_decide, there, fine)
                  (decide-IsSound e epoch assist ssm false (rank fl done)
                    (rank-IsFrom fl P done (rw fine at (adjusted-AllDone fl P adjust tags cs h))))
          ]
        ]

    signal_and_decide-IsSound :
        (e : PolicyEngineV2 F) (epoch : ℕ) (input : PolicyInput F) (assist : Bool)
        (cs : List (ScoredCandidate F)) (found : Signal)
        → All (IsFrom fl P) cs
        → IsSound fl P e.cfg.baseline_provider_id
            (signal_and_decide fl e epoch input assist cs found)
    unfolding signal_and_decide
    signal_and_decide-IsSound e epoch input assist cs no_signal h =
        adjust_and_decide-IsSound e epoch input assist false cs h
    signal_and_decide-IsSound e epoch input assist cs invalid_signal h =
        baseline_decision-IsSound fl P e epoch _ _
    signal_and_decide-IsSound e epoch input assist cs (sequence_length n) h =
        elim (Bool-cases (
          int_less (pos n) e.cfg.ssm.min_sequence_length
          || int_less e.cfg.ssm.max_sequence_length (pos n))) [
            | inl k ↦ simp (signal_and_decide, k) (baseline_decision-IsSound fl P e epoch _ _)
            | inr k ↦
                simp (signal_and_decide, k)
                  (adjust_and_decide-IsSound e epoch input assist _ _
                    (map-IsFrom fl P (ssm_boosted fl e.cfg n) cs (ssm_boosted-id fl e.cfg n) h))
          ]

    assist_and_decide-IsSound :
        (e : PolicyEngineV2 F) (epoch : ℕ) (input : PolicyInput F) (assist : Bool)
        (cs : List (ScoredCandidate F))
        → All (IsFrom fl P) cs
        → IsSound fl P e.cfg.baseline_provider_id (assist_and_decide fl e epoch input assist cs)
    unfolding assist_and_decide
    assist_and_decide-IsSound e epoch input assist cs h =
        elim (Bool-cases (e.cfg.ssm.enabled && has_long_context_workload input.workload_tags)) [
          | inr off ↦
              simp (assist_and_decide, off)
                (adjust_and_decide-IsSound e epoch input assist false cs h)
          | inl on ↦
              simp (assist_and_decide, on)
                (signal_and_decide-IsSound e epoch input assist cs
                  (extract_sequence_length_signal input.request_labels) h)
        ]

    select_of-IsSound :
        (e : PolicyEngineV2 F) (epoch : ℕ) (input : PolicyInput F) (cs : List (ScoredCandidate F))
        → All (IsFrom fl P) cs
        → IsSound fl P e.cfg.baseline_provider_id (select_of fl e epoch input cs).1
    unfolding select_of
    select_of-IsSound e epoch input cs h =
        let tags = dedupe_and_sort input.workload_tags in
        elim (Bool-cases (length cs == 0)) [
          | inl k ↦ simp (select_of, k) (baseline_decision-IsSound fl P e epoch _ _)
          | inr k ↦ elim (Bool-cases (should_auto_disable fl e input)) [
            | inl l ↦ simp (select_of, k, l) (baseline_decision-IsSound fl P e epoch _ _)
            | inr l ↦ elim (Bool-cases (is_sparse_quantized_active fl e)) [
              | inl a ↦
                  simp (select_of, k, l, a)
                    (assist_and_decide-IsSound e epoch input true _ (
                      map-IsFrom fl P (sparse_boosted fl e.cfg tags) cs
                        (sparse_boosted-id fl e.cfg tags) h))
              | inr a ↦
                  simp (select_of, k, l, a) (assist_and_decide-IsSound e epoch input false cs h)
            ]
          ]
        ]

  -- Whatever the engine, the snapshot and the request, and whatever float64 computes: the chain of
  -- the decision names no provider twice, starts with the selected one, holds the baseline, and
  -- otherwise names only providers of the snapshot that are eligible for the request.
  pub select-IsSound :
      (e : PolicyEngineV2 F) (snapshot : CapabilitySnapshot) (input : PolicyInput F)
      → let tags = dedupe_and_sort input.workload_tags in
        IsSound fl
          (IsOffered snapshot.providers tags e.cfg.baseline_provider_id)
          e.cfg.baseline_provider_id
          (select fl e snapshot input).1
  unfolding select score_candidates
  select-IsSound e snapshot input =
      let tags = dedupe_and_sort input.workload_tags in
      let P = IsOffered snapshot.providers tags e.cfg.baseline_provider_id in
      elim (Bool-cases e.cfg.enabled) [
        | inr off ↦ simp (select, off) (baseline_decision-IsSound fl P e snapshot.epoch _ _)
        | inl on ↦
            simp (select, on)
              (select_of-IsSound P e snapshot.epoch input _ (
                score_eligible-All fl e.cfg tags snapshot.providers snapshot.providers (λ id k. k)))
      ]
