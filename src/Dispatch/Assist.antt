-- ===== src/Dispatch/Assist.antt =====
-- The two assists that raise or lower scores, the sparse or quantized one and the sequence one, of
-- orchestrator/internal/dispatch/policy_engine_v2.go.
use emage_code_cwso.Prelude.{
  ℕ, ◌+◌, ◌-◌, Bool, not, ◌&&◌, ◌||◌, List, any, Text, text, if◌then◌else◌, leb, ◌==◌, nat_eq,
  text_eq,
}
use emage_code_cwso.Prelude.Int.{ℤ, pos, negsuc}
use emage_code_cwso.Dispatch.{
  Floats, PolicyV2Config, ScoredCandidate, clamp01, zero_f, one_f, int_less,
}
use emage_code_cwso.Dispatch.Score.{folded, provider_has_feature_flag}

-- `a - b`, which does not overflow for the lengths that it is used on.
unfoldable pub int_sub : ℤ → ℤ → ℤ
int_sub (pos a) (pos b) = if leb b a then pos (a - b) else negsuc (b - a - 1)
int_sub (pos a) (negsuc b) = pos (a + b + 1)
int_sub (negsuc a) (pos b) = negsuc (a + b)
int_sub (negsuc a) (negsuc b) = if leb a b then pos (b - a) else negsuc (a - b - 1)

module _ {F : Type 0} (fl : Floats F) where
  -- `sparseQuantizedTradeoffDelta`
  unfoldable pub sparse_quantized_tradeoff_delta : F → F → F → List Text → F
  sparse_quantized_tradeoff_delta tradeoff cost latency tags =
      if fl.equal tradeoff (zero_f fl)
      then zero_f fl
      else if not (
          any (λ tag. folded tag == text "merge-assist" || folded tag == text "inference-heavy")
            tags)
      then zero_f fl
      else fl.mul tradeoff (fl.sub cost latency)

  -- `normalizeSequenceLength`
  unfoldable pub normalize_sequence_length : ℕ → ℤ → ℤ → F
  normalize_sequence_length len least most =
      if not (int_less least most)
      then one_f fl
      else clamp01 fl
          (fl.div (fl.of_int (int_sub (pos len) least)) (fl.of_int (int_sub most least)))

  -- `ssmThroughputDelta`
  unfoldable pub ssm_throughput_delta : F → F → F → F → F → F
  ssm_throughput_delta bias sensitivity normalized latency queue =
      if fl.equal bias (zero_f fl)
      then zero_f fl
      else fl.mul (fl.mul bias (clamp01 fl (fl.div (fl.add latency queue) (fl.lit 2 0))))
          (fl.add (one_f fl) (fl.mul (clamp01 fl normalized) sensitivity))

  -- A delta added to the score and the confidence of a candidate.
  unfoldable pub boosted : ScoredCandidate F → F → ScoredCandidate F
  boosted c delta = record c {
    score = fl.add c.score delta;
    confidence = clamp01 fl (fl.add c.confidence delta);
  }

  unfoldable pub sparse_boosted :
      PolicyV2Config F → List Text → ScoredCandidate F → ScoredCandidate F
  sparse_boosted cfg tags c =
      if provider_has_feature_flag c.feature_flags cfg.sparse_quantized.provider_feature_flag
      then boosted c (
          sparse_quantized_tradeoff_delta cfg.sparse_quantized.cost_latency_tradeoff c.cost_score
            c.latency_score tags)
      else c

  unfoldable pub ssm_delta : PolicyV2Config F → ℕ → ScoredCandidate F → F
  ssm_delta cfg len c =
      ssm_throughput_delta cfg.ssm.throughput_bias cfg.ssm.sequence_sensitivity
        (normalize_sequence_length len cfg.ssm.min_sequence_length cfg.ssm.max_sequence_length)
        c.latency_score c.queue_score

  -- Whether the sequence assist changes a candidate.
  unfoldable pub ssm_applies : PolicyV2Config F → ℕ → ScoredCandidate F → Bool
  ssm_applies cfg len c =
      provider_has_feature_flag c.feature_flags cfg.ssm.provider_feature_flag
      && not (fl.equal (ssm_delta cfg len c) (zero_f fl))

  unfoldable pub ssm_boosted : PolicyV2Config F → ℕ → ScoredCandidate F → ScoredCandidate F
  ssm_boosted cfg len c = if ssm_applies cfg len c then boosted c (ssm_delta cfg len c) else c
