-- ===== src/Dispatch/Select.antt =====
-- The decisions of the policy engine, `Select` and `FallbackOnFailure` of
-- orchestrator/internal/dispatch/policy_engine_v2.go.
use emage_code_cwso.Prelude.{
  ℕ, Bool, true, false, not, ◌&&◌, ◌||◌, Option, none, some, List, [], ◌∷◌, ◌++◌, map, any, length,
  Text, text, if◌then◌else◌, ltb, ◌==◌, nat_eq, text_eq,
}
use emage_code_cwso.Prelude.Int.{pos}
use emage_code_cwso.Prelude.Members.{mem}
use emage_code_cwso.Prelude.Strings.{trim_space, text_ltb}
use emage_code_cwso.Capability.{CapabilitySnapshot, dedupe_and_sort}
use emage_code_cwso.Dispatch.{
  Floats, PolicyInput, PolicyDecision, PolicyEngineV2, ScoredCandidate, clamp01, one_f, int_less,
}
use emage_code_cwso.Dispatch.Score.{
  folded, score_candidates, has_long_context_workload, Signal, no_signal, invalid_signal,
  sequence_length, extract_sequence_length_signal,
}
use emage_code_cwso.Dispatch.Assist.{sparse_boosted, ssm_applies, ssm_boosted}

-- `normalizeFailureClass`
unfoldable pub normalize_failure_class : Text → Text
normalize_failure_class raw =
    if mem (folded raw) (
      text "unavailable"
      ∷ text "capacity_exhausted"
      ∷ text "timeout"
      ∷ text "contract_incompatible"
      ∷ text "quality_guardrail"
      ∷ [])
    then folded raw
    else text "provider_failure"

-- The loop that builds the chain of fallbacks, with the baseline at the end unless it was seen.
unfoldable pub chain_loop : Text → List Text → List Text → List Text
chain_loop baseline seen [] = if mem baseline seen then [] else baseline ∷ []
chain_loop baseline seen (id ∷ ids) =
    let skipped = chain_loop baseline seen ids in
    let taken = id ∷ chain_loop baseline (id ∷ seen) ids in if mem id seen then skipped else taken

-- The chain of `Select`.
unfoldable pub fallback_chain : Text → Text → List Text → List Text
fallback_chain baseline selected ids =
    if selected == baseline
    then baseline ∷ chain_loop baseline (baseline ∷ []) ids
    else chain_loop baseline [] ids

-- The entry after the first that failed, the baseline where there is none.
unfoldable pub next_after : Text → Text → List Text → Text
next_after baseline failed [] = baseline
next_after baseline failed (id ∷ []) = baseline
next_after baseline failed (id ∷ next ∷ ids) =
    let later = next_after baseline failed (next ∷ ids) in if id == failed then next else later

module _ {F : Type 0} (fl : Floats F) where
  -- The loop of `applyScoreAdjustments`.
  unfoldable pub apply_score_adjustments :
      (Text → F → List Text → Option F)
      → List Text
      → List (ScoredCandidate F)
      → Option (List (ScoredCandidate F))
  apply_score_adjustments adjust tags [] = some []
  apply_score_adjustments adjust tags (c ∷ cs) =
      let rest = apply_score_adjustments adjust tags cs in
      elim (adjust c.provider_id c.score tags) [
        | none ↦ none
        | some score ↦ elim rest [
          | none ↦ none
          | some done ↦ some (record c { score = score; confidence = clamp01 fl score } ∷ done)
        ]
      ]

  -- The comparison of the ranking.
  unfoldable pub ranks_before : ScoredCandidate F → ScoredCandidate F → Bool
  ranks_before a b =
      if not (fl.equal a.score b.score)
      then fl.less b.score a.score
      else if not (a.health_rank == b.health_rank)
      then ltb b.health_rank a.health_rank
      else if not (a.reliability_rank == b.reliability_rank)
      then ltb b.reliability_rank a.reliability_rank
      else text_ltb a.provider_id b.provider_id

  unfoldable pub insert_ranked :
      ScoredCandidate F → List (ScoredCandidate F) → List (ScoredCandidate F)
  insert_ranked c [] = c ∷ []
  insert_ranked c (d ∷ ds) =
      let later = insert_ranked c ds in if ranks_before d c then d ∷ later else c ∷ d ∷ ds

  unfoldable pub rank : List (ScoredCandidate F) → List (ScoredCandidate F)
  rank [] = []
  rank (c ∷ cs) = insert_ranked c (rank cs)

  -- `baselineDecision`
  unfoldable pub baseline_decision : PolicyEngineV2 F → ℕ → Text → Text → PolicyDecision F
  baseline_decision e epoch version reason = record {
    policy_version = if trim_space version == [] then e.cfg.policy_version else version;
    capability_epoch = epoch;
    selected_provider = e.cfg.baseline_provider_id;
    ranked_fallback_chain = e.cfg.baseline_provider_id ∷ [];
    confidence = one_f fl;
    reason_code = reason;
  }

  -- `isSparseQuantizedActive`
  unfoldable pub is_sparse_quantized_active : PolicyEngineV2 F → Bool
  is_sparse_quantized_active e = e.cfg.sparse_quantized.enabled && not e.auto_disabled

  -- `shouldAutoDisableSparseQuantized`, with `QualityGuardrailBreached`
  unfoldable pub should_auto_disable : PolicyEngineV2 F → PolicyInput F → Bool
  should_auto_disable e input = is_sparse_quantized_active e && elim input.quality_score [
    | none ↦ false
    | some q ↦ fl.less q e.cfg.sparse_quantized.quality_guardrail_min_score
  ]

  abbrev pub ids : List (ScoredCandidate F) → List Text
  ids [] = []
  ids (c ∷ cs) = c.provider_id ∷ ids cs

  abbrev pub head_or : List Text → Text → Text
  head_or [] d = d
  head_or (x ∷ xs) d = x

  -- The end of `Select`, from the ranked candidates on.
  unfoldable pub decide :
      PolicyEngineV2 F → ℕ → Bool → Bool → Bool → List (ScoredCandidate F) → PolicyDecision F
  decide e epoch assist ssm plugin_failed [] =
      baseline_decision e epoch e.cfg.policy_version (text "no_eligible_provider")
  decide e epoch assist ssm plugin_failed (c ∷ cs) =
      let baseline = e.cfg.baseline_provider_id in
      let low = fl.less c.confidence e.cfg.min_confidence in
      let selected : Text = if low then baseline else c.provider_id in
      let chain = fallback_chain baseline selected (ids (c ∷ cs)) in
      record {
        policy_version = e.cfg.policy_version;
        capability_epoch = epoch;
        selected_provider = if selected == [] then head_or chain selected else selected;
        ranked_fallback_chain = chain;
        confidence = if low then one_f fl else c.confidence;
        reason_code =
            if low
            then text "low_confidence_baseline"
            else if plugin_failed
            then text "plugin_failed_fallback"
            else if e.cfg.sparse_quantized.enabled && e.auto_disabled
            then text "sparse_quantized_auto_disabled"
            else if assist
            then text "sparse_quantized_assist_selected"
            else if ssm
            then text "ssm_assist_selected"
            else text "selected";
      }

  -- The score plugin and the ranking.
  unfoldable pub adjust_and_decide :
      PolicyEngineV2 F
      → ℕ
      → PolicyInput F
      → Bool
      → Bool
      → List (ScoredCandidate F)
      → PolicyDecision F
  adjust_and_decide e epoch input assist ssm cs = elim e.cfg.score_adjuster [
    | none ↦ decide e epoch assist ssm false (rank cs)
    | some adjust ↦ elim (apply_score_adjustments adjust (dedupe_and_sort input.workload_tags) cs) [
      | none ↦ decide e epoch assist ssm true (rank cs)
      | some done ↦ decide e epoch assist ssm false (rank done)
    ]
  ]

  -- What follows from the sequence length that the request names.
  unfoldable pub signal_and_decide :
      PolicyEngineV2 F
      → ℕ
      → PolicyInput F
      → Bool
      → List (ScoredCandidate F)
      → Signal
      → PolicyDecision F
  signal_and_decide e epoch input assist cs no_signal =
      adjust_and_decide e epoch input assist false cs
  signal_and_decide e epoch input assist cs invalid_signal =
      baseline_decision e epoch e.cfg.policy_version (text "ssm_signal_invalid_fallback")
  signal_and_decide e epoch input assist cs (sequence_length n) =
      if int_less (pos n) e.cfg.ssm.min_sequence_length
        || int_less e.cfg.ssm.max_sequence_length (pos n)
      then baseline_decision e epoch e.cfg.policy_version
          (text "ssm_signal_out_of_threshold_fallback")
      else adjust_and_decide e epoch input assist (any (ssm_applies fl e.cfg n) cs)
          (map (ssm_boosted fl e.cfg n) cs)

  -- The sequence assist.
  unfoldable pub assist_and_decide :
      PolicyEngineV2 F → ℕ → PolicyInput F → Bool → List (ScoredCandidate F) → PolicyDecision F
  assist_and_decide e epoch input assist cs =
      if not (e.cfg.ssm.enabled && has_long_context_workload input.workload_tags)
      then adjust_and_decide e epoch input assist false cs
      else signal_and_decide e epoch input assist cs
          (extract_sequence_length_signal input.request_labels)

  -- `Select` of the candidates, which are not none.
  unfoldable pub select_of :
      PolicyEngineV2 F
      → ℕ
      → PolicyInput F
      → List (ScoredCandidate F)
      → PolicyEngineV2 F × PolicyDecision F
  select_of e epoch input cs =
      let tags = dedupe_and_sort input.workload_tags in
      let assist = is_sparse_quantized_active e in
      let version = e.cfg.policy_version in
      if length cs == 0
      then (e, baseline_decision e epoch version (text "no_eligible_provider"))
      else if should_auto_disable e input
      then (
        record e { auto_disabled = true },
        baseline_decision e epoch version (text "quality_guardrail_autodisable"),
      )
      else (
        e,
        assist_and_decide e epoch input assist
            (if assist then map (sparse_boosted fl e.cfg tags) cs else cs),
      )

  -- `Select`
  unfoldable pub select :
      PolicyEngineV2 F → CapabilitySnapshot → PolicyInput F → PolicyEngineV2 F × PolicyDecision F
  select e snapshot input =
      if not e.cfg.enabled
      then (
        e,
        baseline_decision e snapshot.epoch (text "cpu-baseline-default") (text "feature_disabled"),
      )
      else select_of e snapshot.epoch input (score_candidates fl snapshot.providers input e.cfg)

  -- `FallbackOnFailure`
  unfoldable pub fallback_on_failure :
      PolicyEngineV2 F → PolicyDecision F → Text → Text → PolicyDecision F
  fallback_on_failure e d failed_provider failure_class =
      let baseline = e.cfg.baseline_provider_id in
      let chain : List Text =
        if length d.ranked_fallback_chain == 0 then baseline ∷ [] else d.ranked_fallback_chain in
      let failed : Text =
        if trim_space failed_provider == []
        then d.selected_provider
        else trim_space failed_provider in
      let next = next_after baseline failed chain in
      record d {
        ranked_fallback_chain = chain;
        selected_provider = if trim_space next == [] then baseline else next;
        confidence = one_f fl;
        reason_code = text "fallback_" ++ normalize_failure_class failure_class;
      }
