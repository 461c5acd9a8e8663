-- ===== src/Dispatch/Tests.antt =====
-- Small runs of the policy engine (orchestrator/internal/dispatch/policy_engine_v2.go), with numbers
-- in the place of float64.
use emage_code_cwso.Prelude.{
  ℕ, ◌+◌, ◌-◌, ◌*◌, ◌/◌, ◌≡◌, ◌≢◌, refl, true, false, none, [], ◌∷◌, ltb, ◌==◌, nat_eq, text,
}
use emage_code_cwso.Prelude.Int.{pos, pos_part}
use emage_code_cwso.Prelude.Strings.{trim_space}
use emage_code_cwso.Capability.{ProviderCapability, CapabilitySnapshot, dedupe_and_sort}
use emage_code_cwso.Dispatch.{Floats, PolicyInput, PolicyDecision, PolicyEngineV2}
use emage_code_cwso.Dispatch.Select.{select}
use emage_code_cwso.Dispatch.Chain.{IsSound, IsOffered}
use emage_code_cwso.Dispatch.Sound.{select-IsSound}

abbrev naturals : Floats ℕ
naturals = record {
  lit = λ m e. m;
  of_int = pos_part;
  add = λ a b. a + b;
  sub = λ a b. a - b;
  mul = λ a b. a * b;
  div = λ a b. a / b;
  less = ltb;
  equal = λ a b. a == b;
}

abbrev engine : PolicyEngineV2 ℕ
engine = record {
  cfg = record {
    enabled = true;
    policy_version = text "policy-v2";
    baseline_provider_id = text "cpu";
    min_confidence = 0;
    max_queue_depth = pos 32;
    weights = record {
      health = 1;
      reliability = 1;
      cost = 1;
      latency = 1;
      queue_depth = 1;
      workload = 1;
    };
    score_adjuster = none;
    sparse_quantized = record {
      enabled = false;
      provider_feature_flag = text "q";
      cost_latency_tradeoff = 0;
      quality_guardrail_min_score = 0;
    };
    ssm = record {
      enabled = false;
      provider_feature_flag = text "s";
      throughput_bias = 0;
      min_sequence_length = pos 1;
      max_sequence_length = pos 9;
      sequence_sensitivity = 1;
    };
  };
  auto_disabled = false;
}

abbrev gpu : ProviderCapability
gpu = record {
  provider_id = text "gpu";
  contract_version = text "v1";
  health_state = text "healthy";
  latency_class = text "fast";
  cost_class = text "low";
  queue_depth = pos 0;
  supported_workload_tags = text "a" ∷ [];
  reliability_class = text "gold";
  feature_flags = [];
  last_updated_at = 3;
}

abbrev offered : CapabilitySnapshot
offered = record { epoch = 7; captured_at = 9; providers = gpu ∷ [] }

abbrev request : PolicyInput ℕ
request = record { workload_tags = text "a" ∷ []; quality_score = none; request_labels = [] }

select-IsSound_example :
    IsSound naturals
      (IsOffered (gpu ∷ []) (dedupe_and_sort (text "a" ∷ [])) (text "cpu"))
      (text "cpu")
      (select naturals engine offered request).1
select-IsSound_example = select-IsSound naturals engine offered request

abbrev decided : PolicyDecision ℕ
decided = record {
  policy_version = text "policy-v2";
  capability_epoch = 7;
  selected_provider = text "gpu";
  ranked_fallback_chain = text "gpu" ∷ text "cpu" ∷ [];
  confidence = 1;
  reason_code = text "selected";
}

gpu_plain : trim_space (text "gpu") ≡ text "gpu"
unfolding trim_space
gpu_plain = refl

cpu_plain : trim_space (text "cpu") ≡ text "cpu"
unfolding trim_space
cpu_plain = refl

gpu_named : text "gpu" ≢ []
gpu_named e = cc e

cpu_named : text "cpu" ≢ []
cpu_named e = cc e

cpu_not_blank : trim_space (text "cpu") ≢ []
unfolding trim_space
cpu_not_blank e = cc e
