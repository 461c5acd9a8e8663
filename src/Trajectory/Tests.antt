-- ===== src/Trajectory/Tests.antt =====
-- Small runs of the trajectory builders (orchestrator/internal/rollout/trajectory_builder.go).
use emage_code_cwso.Prelude.{ℕ, ◌≡◌, Bool, true, none, List, [], ◌∷◌, count_if, select, text}
use emage_code_cwso.Trajectory.{CompletionRecord, build_prefix_merge_polar}
use emage_code_cwso.Trajectory.Build.{build_trajectory}
use emage_code_cwso.Trajectory.Check.{validate_trajectory_group}
use emage_code_cwso.Trajectory.Shape.{build_trajectory_valid}
use emage_code_cwso.Trajectory.Covers.{Covered, total}
use emage_code_cwso.Trajectory.Merge.{sampled, build_prefix_merge_polar_lem}

abbrev turn : ℕ → List ℕ → List ℕ → CompletionRecord
turn t prompt answer = record {
  request_id = text "r";
  provider = [];
  prompt_token_ids = prompt;
  sampled_token_ids = answer;
  logprobs = [];
  finish_reason = none;
  timestamp_ns = t;
  partition_key = [];
  message_group_id = [];
}

abbrev session : List CompletionRecord
session = turn 2 (1 ∷ 2 ∷ 3 ∷ []) (4 ∷ []) ∷ turn 1 (1 ∷ []) (2 ∷ []) ∷ []

build_prefix_merge_polar_lem_example :
    (split : List (List CompletionRecord)) × Covered
      (build_prefix_merge_polar (text "s") session true).chains
      split
    × ((p : CompletionRecord → Bool) → total p split ≡ count_if p (select sampled session))
build_prefix_merge_polar_lem_example = build_prefix_merge_polar_lem (text "s") session

build_trajectory_valid_example :
    validate_trajectory_group (build_trajectory (text "s") session (text "prefix_merge") true)
    ≡ none
build_trajectory_valid_example =
    build_trajectory_valid (text "s") session (text "prefix_merge") true
