-- ===== src/Dispatch/Score.antt =====
-- Eligibility and scores of providers, orchestrator/internal/dispatch/policy_engine_v2.go.
use emage_code_cwso.Prelude.{
  ℕ, ◌+◌, ◌-◌, ◌*◌, ◌^◌, Bool, true, false, not, ◌&&◌, ◌||◌, Option, none, some, List, [], ◌∷◌, any,
  count_if, length, Text, text, if◌then◌else◌, ltb, leb, ◌==◌, nat_eq, text_eq,
}
use emage_code_cwso.Prelude.Int.{ℤ, pos, is_pos}
use emage_code_cwso.Prelude.Members.{mem}
use emage_code_cwso.Prelude.Strings.{trim_space, to_lower}
use emage_code_cwso.Capability.{ProviderCapability, healthy, degraded, unavailable, dedupe_and_sort}
use emage_code_cwso.Dispatch.{
  Floats, PolicyInput, PolicyV2Config, ScoredCandidate, clamp01, zero_f, one_f,
}

-- `strings.ToLower(strings.TrimSpace(s))`; in the source some tags are lowered first and trimmed
-- then, which gives the same.
unfoldable pub folded : Text → Text
folded s = to_lower (trim_space s)

-- The tags of a set that are not empty.
unfoldable pub folded_tags : List Text → List Text
folded_tags [] = []
folded_tags (t ∷ ts) = let rest = folded_tags ts in if folded t == [] then rest else folded t ∷ rest

-- `isPolicyEligible`
unfoldable pub is_policy_eligible : ProviderCapability → List Text → Text → Bool
is_policy_eligible p required baseline =
    let supported = folded_tags p.supported_workload_tags in
    if trim_space p.provider_id == []
    then false
    else if to_lower p.health_state == unavailable
    then false
    else if p.provider_id == baseline
    then true
    else if length required == 0
    then true
    else any (λ tag. not (folded tag == []) && mem (folded tag) supported) required

-- `healthRank`
unfoldable pub health_rank : Text → ℕ
health_rank raw = if folded raw == healthy then 2 else if folded raw == degraded then 1 else 0

-- `reliabilityRank`
unfoldable pub reliability_rank : Text → ℕ
reliability_rank raw =
    if folded raw == text "platinum"
    then 5
    else if folded raw == text "gold"
    then 4
    else if folded raw == text "standard"
    then 3
    else if folded raw == text "silver"
    then 2
    else if folded raw == text "bronze"
    then 1
    else 0

-- `providerHasFeatureFlag`
unfoldable pub provider_has_feature_flag : List Text → Text → Bool
provider_has_feature_flag flags target =
    if folded target == [] then false else any (λ flag. folded flag == folded target) flags

-- `hasLongContextWorkload`
unfoldable pub has_long_context_workload : List Text → Bool
has_long_context_workload tags =
    any
      (λ tag.
        folded tag == text "long-context"
        || folded tag == text "sequence-heavy"
        || folded tag == text "ssm-assist")
      tags

-- The parts before and after the first separator.
unfoldable pub cut : ℕ → Text → Option (Text × Text)
cut sep [] = none
cut sep (c ∷ s) =
    let rest : Option (Text × Text) = elim (cut sep s) [
      | none ↦ none
      | some (a, b) ↦ some (c ∷ a, b)
    ] in
    if c == sep then some ([], s) else rest

-- `parseLabelKeyValue`
unfoldable pub parse_label_key_value : Text → Option (Text × Text)
parse_label_key_value label =
    let raw = folded label in
    let sep : ℕ = if mem b'=' raw then b'=' else b':' in
    elim (cut sep raw) [
      | none ↦ none
      | some (a, b) ↦
          if trim_space a == [] || trim_space b == []
          then none
          else some (trim_space a, trim_space b)
    ]

-- The value of decimal digits, none where another byte stands among them.
unfoldable pub digits_value : ℕ → Text → Option ℕ
digits_value acc [] = some acc
digits_value acc (c ∷ s) =
    let rest = digits_value (acc * 10 + (c - b'0')) s in
    if leb b'0' c && leb c b'9' then rest else none

-- `strconv.Atoi`, where the result is positive.
unfoldable pub positive_int : Text → Option ℕ
positive_int [] = none
positive_int (c ∷ s) =
    let digits : Text = if c == b'+' then s else c ∷ s in
    elim (digits_value 0 digits) [
      | none ↦ none
      | some n ↦ if ltb 0 n && ltb n (2 ^ 63) then some n else none
    ]

-- What `extractSequenceLengthSignal` finds.
pub data Signal : Type 0 where
  no_signal invalid_signal : Signal
  sequence_length : ℕ → Signal

unfoldable pub is_length_key : Text → Bool
is_length_key key =
    key == text "sequence_length"
    || key == text "sequence.length"
    || key == text "context_tokens"
    || key == text "context.tokens"

unfoldable pub signal_of : Text → Signal
signal_of value = elim (positive_int value) [ none ↦ invalid_signal | some n ↦ sequence_length n ]

-- `extractSequenceLengthSignal`
unfoldable pub extract_sequence_length_signal : List Text → Signal
extract_sequence_length_signal [] = no_signal
extract_sequence_length_signal (label ∷ labels) =
    let rest = extract_sequence_length_signal labels in
    elim (parse_label_key_value label) [
      | none ↦ rest
      | some (key, value) ↦ if is_length_key key then signal_of value else rest
    ]

module _ {F : Type 0} (fl : Floats F) where
  -- `healthScore`
  unfoldable pub health_score : Text → F
  health_score raw =
      if folded raw == healthy
      then one_f fl
      else if folded raw == degraded
      then fl.lit 5 1
      else zero_f fl

  -- `reliabilityScore`
  unfoldable pub reliability_score : Text → F
  reliability_score raw =
      if folded raw == text "platinum"
      then one_f fl
      else if folded raw == text "gold"
      then fl.lit 9 1
      else if folded raw == text "standard"
      then fl.lit 7 1
      else if folded raw == text "silver"
      then fl.lit 6 1
      else if folded raw == text "bronze"
      then fl.lit 4 1
      else fl.lit 5 1

  -- `costScore`
  unfoldable pub cost_score : Text → F
  cost_score raw =
      if folded raw == text "low"
      then one_f fl
      else if folded raw == text "medium"
      then fl.lit 7 1
      else if folded raw == text "high"
      then fl.lit 4 1
      else fl.lit 6 1

  -- `latencyScore`
  unfoldable pub latency_score : Text → F
  latency_score raw =
      if folded raw == text "ultra"
      then one_f fl
      else if folded raw == text "fast"
      then fl.lit 9 1
      else if folded raw == text "baseline"
      then fl.lit 7 1
      else if folded raw == text "slow"
      then fl.lit 4 1
      else fl.lit 6 1

  -- `queueDepthScore`
  unfoldable pub queue_depth_score : ℤ → ℤ → F
  queue_depth_score depth max_depth =
      let limit : ℤ = if is_pos max_depth then max_depth else pos 1 in
      if is_pos depth
      then clamp01 fl (fl.sub (one_f fl) (fl.div (fl.of_int depth) (fl.of_int limit)))
      else one_f fl

  -- `workloadScore`
  unfoldable pub workload_score : List Text → List Text → F
  workload_score required supported =
      let known = folded_tags supported in
      let matched = count_if (λ tag. mem (folded tag) known) required in
      if length required == 0
      then one_f fl
      else if length supported == 0
      then zero_f fl
      else clamp01 fl (fl.div (fl.of_int (pos matched)) (fl.of_int (pos (length required))))

  abbrev pub sum_of : F → F → F → F → F → F → F
  sum_of a b c d e f = fl.add (fl.add (fl.add (fl.add (fl.add a b) c) d) e) f

  -- A provider with its scores, as in the loop of `scoreCandidates`.
  unfoldable pub candidate_of :
      PolicyV2Config F → List Text → ProviderCapability → ScoredCandidate F
  candidate_of cfg tags p =
      let w = cfg.weights in
      let health = health_score p.health_state in
      let reliability = reliability_score p.reliability_class in
      let cost = cost_score p.cost_class in
      let latency = latency_score p.latency_class in
      let queue = queue_depth_score p.queue_depth cfg.max_queue_depth in
      let workload = workload_score tags p.supported_workload_tags in
      let total = sum_of w.health w.reliability w.cost w.latency w.queue_depth w.workload in
      let total_weight : F =
        if fl.less total (zero_f fl) || fl.equal total (zero_f fl) then one_f fl else total in
      let score =
        sum_of (fl.mul w.health health) (fl.mul w.reliability reliability) (fl.mul w.cost cost)
          (fl.mul w.latency latency) (fl.mul w.queue_depth queue) (fl.mul w.workload workload) in
      record {
        provider_id = p.provider_id;
        score = score;
        confidence = clamp01 fl (fl.div score total_weight);
        health_rank = health_rank p.health_state;
        reliability_rank = reliability_rank p.reliability_class;
        cost_score = cost;
        latency_score = latency;
        queue_score = queue;
        feature_flags = p.feature_flags;
      }

  unfoldable pub score_eligible :
      PolicyV2Config F → List Text → List ProviderCapability → List (ScoredCandidate F)
  score_eligible cfg tags [] = []
  score_eligible cfg tags (p ∷ ps) =
      let rest = score_eligible cfg tags ps in
      if is_policy_eligible p tags cfg.baseline_provider_id
      then candidate_of cfg tags p ∷ rest
      else rest

  -- `scoreCandidates`
  unfoldable pub score_candidates :
      List ProviderCapability → PolicyInput F → PolicyV2Config F → List (ScoredCandidate F)
  score_candidates providers input cfg =
      score_eligible cfg (dedupe_and_sort input.workload_tags) providers
