-- ===== src/Dispatch.antt =====
-- The dispatch policy engine, orchestrator/internal/dispatch/policy_engine_v2.go: providers are
-- filtered, scored and ranked, and a decision carries a chain of fallbacks. float64 is a parameter,
-- the record `Floats` of its literals and operations: nothing here depends on its arithmetic. Letters
-- beyond ASCII are compared without folding their case.
pub mod Score
pub mod Assist
pub mod Select
pub mod Chain
mod Ranked
pub mod Sound
pub mod Fallback
mod Tests
use emage_code_cwso.Prelude.{
  ℕ, Bool, true, false, not, ◌&&◌, ◌||◌, Option, none, some, List, [], ◌∷◌, Text, text,
  if◌then◌else◌, leb, ◌==◌, text_eq,
}
use emage_code_cwso.Prelude.Int.{ℤ, pos, is_pos}
use emage_code_cwso.Prelude.Strings.{trim_space}

-- Decimal literals `lit m e`, which is m / 10^e, and the operations on float64.
pub record Floats (F : Type 0) : Type 0 where
  pub lit : ℕ → ℕ → F
  pub of_int : ℤ → F
  pub add : F → F → F
  pub sub : F → F → F
  pub mul : F → F → F
  pub div : F → F → F
  pub less : F → F → Bool
  pub equal : F → F → Bool

-- `PolicyInput`
pub record PolicyInput (F : Type 0) : Type 0 where
  pub workload_tags : List Text
  pub quality_score : Option F
  pub request_labels : List Text

-- `PolicyWeights`
pub record PolicyWeights (F : Type 0) : Type 0 where
  pub health : F
  pub reliability : F
  pub cost : F
  pub latency : F
  pub queue_depth : F
  pub workload : F

-- `SparseQuantizedAssistConfig`
pub record SparseConfig (F : Type 0) : Type 0 where
  pub enabled : Bool
  pub provider_feature_flag : Text
  pub cost_latency_tradeoff : F
  pub quality_guardrail_min_score : F

-- `SSMAssistConfig`
pub record SsmConfig (F : Type 0) : Type 0 where
  pub enabled : Bool
  pub provider_feature_flag : Text
  pub throughput_bias : F
  pub min_sequence_length : ℤ
  pub max_sequence_length : ℤ
  pub sequence_sensitivity : F

-- `PolicyV2Config`. A score adjuster answers for a provider, its score and the tags, or fails.
pub record PolicyV2Config (F : Type 0) : Type 0 where
  pub enabled : Bool
  pub policy_version : Text
  pub baseline_provider_id : Text
  pub min_confidence : F
  pub max_queue_depth : ℤ
  pub weights : PolicyWeights F
  pub score_adjuster : Option (Text → F → List Text → Option F)
  pub sparse_quantized : SparseConfig F
  pub ssm : SsmConfig F

-- `PolicyDecision`
pub record PolicyDecision (F : Type 0) : Type 0 where
  pub policy_version : Text
  pub capability_epoch : ℕ
  pub selected_provider : Text
  pub ranked_fallback_chain : List Text
  pub confidence : F
  pub reason_code : Text

-- `PolicyEngineV2`
pub record PolicyEngineV2 (F : Type 0) : Type 0 where
  pub cfg : PolicyV2Config F
  pub auto_disabled : Bool

-- `scoredCandidate`
pub record ScoredCandidate (F : Type 0) : Type 0 where
  pub provider_id : Text
  pub score : F
  pub confidence : F
  pub health_rank : ℕ
  pub reliability_rank : ℕ
  pub cost_score : F
  pub latency_score : F
  pub queue_score : F
  pub feature_flags : List Text

-- `a < b` on the integers.
abbrev pub int_less : ℤ → ℤ → Bool
int_less (pos a) (pos b) = not (leb b a)
int_less (ℤ.negsuc a) (pos b) = true
int_less (pos a) (ℤ.negsuc b) = false
int_less (ℤ.negsuc a) (ℤ.negsuc b) = not (leb a b)

module _ {F : Type 0} (fl : Floats F) where
  abbrev pub zero_f : F
  zero_f = fl.lit 0 0

  abbrev pub one_f : F
  one_f = fl.lit 1 0

  -- `clamp01`
  unfoldable pub clamp01 : F → F
  clamp01 v = if fl.less v zero_f then zero_f else if fl.less one_f v then one_f else v

  -- `DefaultPolicyV2Config`
  unfoldable pub default_weights : PolicyWeights F
  default_weights = record {
    health = fl.lit 35 2;
    reliability = fl.lit 25 2;
    cost = fl.lit 10 2;
    latency = fl.lit 10 2;
    queue_depth = fl.lit 10 2;
    workload = fl.lit 10 2;
  }

  -- `normalizeWeights`
  unfoldable pub normalize_weights : PolicyWeights F → PolicyWeights F → PolicyWeights F
  normalize_weights raw fallback =
      let keep : F → F → F = λ own other. if fl.less own zero_f then other else own in
      let out : PolicyWeights F = record {
        health = keep raw.health fallback.health;
        reliability = keep raw.reliability fallback.reliability;
        cost = keep raw.cost fallback.cost;
        latency = keep raw.latency fallback.latency;
        queue_depth = keep raw.queue_depth fallback.queue_depth;
        workload = keep raw.workload fallback.workload;
      } in
      let sum =
        fl.add
          (fl.add (fl.add (fl.add (fl.add out.health out.reliability) out.cost) out.latency)
            out.queue_depth)
          out.workload in
      if fl.equal sum zero_f then fallback else out

  -- A value outside of `low` to `high` gives way to a default; `low` is 0 or -1.
  unfoldable pub in_range : F → F → F → F → F
  in_range low high v d = if fl.less v low || fl.less high v then d else v

  -- `normalizePolicyV2Config`
  unfoldable pub normalize_policy_v2_config : PolicyV2Config F → PolicyV2Config F
  unfolding in_range normalize_weights default_weights
  normalize_policy_v2_config cfg =
      let minus_one = fl.sub zero_f one_f in
      let sparse = cfg.sparse_quantized in
      let ssm = cfg.ssm in
      let least : ℤ =
        if is_pos ssm.min_sequence_length then ssm.min_sequence_length else pos 2048 in
      record cfg {
        policy_version =
            if trim_space cfg.policy_version == [] then text "policy-v2" else cfg.policy_version;
        baseline_provider_id =
            if trim_space cfg.baseline_provider_id == []
            then text "cpu-baseline"
            else cfg.baseline_provider_id;
        min_confidence = in_range zero_f one_f cfg.min_confidence (fl.lit 50 2);
        max_queue_depth = if is_pos cfg.max_queue_depth then cfg.max_queue_depth else pos 32;
        weights = normalize_weights cfg.weights default_weights;
        sparse_quantized = record sparse {
          provider_feature_flag =
              if sparse.provider_feature_flag == []
              then text "hhd.sparse_quantized_assist"
              else sparse.provider_feature_flag;
          quality_guardrail_min_score =
              in_range zero_f one_f sparse.quality_guardrail_min_score (fl.lit 98 2);
          cost_latency_tradeoff = in_range minus_one one_f sparse.cost_latency_tradeoff zero_f;
        };
        ssm = record ssm {
          provider_feature_flag =
              if ssm.provider_feature_flag == []
              then text "hhd.ssm_sequence_assist"
              else ssm.provider_feature_flag;
          throughput_bias = in_range minus_one one_f ssm.throughput_bias zero_f;
          min_sequence_length = least;
          max_sequence_length =
              if int_less least ssm.max_sequence_length then ssm.max_sequence_length else pos 32768;
          sequence_sensitivity = in_range zero_f (fl.lit 2 0) ssm.sequence_sensitivity one_f;
        };
      }

  -- `NewPolicyEngineV2`
  unfoldable pub new_policy_engine_v2 : PolicyV2Config F → PolicyEngineV2 F
  new_policy_engine_v2 cfg = record { cfg = normalize_policy_v2_config cfg; auto_disabled = false }
