-- ===== src/Trajectory/Build.antt =====
-- The two builders and the strategy between them, `BuildTrajectory` and `BuildTrajectoryGroup` of
-- orchestrator/internal/rollout/trajectory_builder.go and trajectory.go.
use emage_code_cwso.Prelude.{
  Bool, none, some, List, [], ◌∷◌, ◌++◌, length, Text, text, if◌then◌else◌, ◌==◌, nat_eq, text_eq,
}
use emage_code_cwso.Trajectory.{
  CompletionRecord, Step, Chain, TrajectoryGroup, sort_completion_records, normalize_session_id,
  loss_mask_ones, find_extendable_chain, modify, add_step, new_chain, build_prefix_merge_polar,
}

-- The step of the other two builders, which leaves the message group out.
unfoldable pub plain_step : CompletionRecord → Step
plain_step rec = record {
  token_ids = rec.sampled_token_ids;
  loss_mask = loss_mask_ones (length rec.sampled_token_ids);
  logprobs = rec.logprobs;
  message_group_id = [];
}

-- The loop of `buildPerRequest`.
unfoldable pub per_request_chains : List CompletionRecord → List Chain
per_request_chains [] = []
per_request_chains (rec ∷ recs) =
    let rest = per_request_chains recs in
    if length rec.sampled_token_ids == 0 then rest else new_chain rec [] (plain_step rec) ∷ rest

-- `buildPerRequest`
unfoldable pub build_per_request : Text → List CompletionRecord → TrajectoryGroup
build_per_request session_id records = record {
  session_id = normalize_session_id session_id;
  chains = per_request_chains (sort_completion_records records);
  rewards = [];
  metadata = (text "builder", text "per_request") ∷ (text "builder_version", text "v2") ∷ [];
}

abbrev pub strategy_per_request : Text
strategy_per_request = text "per_request"

-- `BuildTrajectory`
unfoldable pub build_trajectory : Text → List CompletionRecord → Text → Bool → TrajectoryGroup
build_trajectory session_id records strategy interstitial_eots =
    if strategy == strategy_per_request
    then build_per_request session_id records
    else build_prefix_merge_polar session_id records interstitial_eots

-- One round of the loop in `BuildTrajectoryGroup`, the first builder.
unfoldable pub group_record : List Chain → CompletionRecord → List Chain
group_record chains rec =
    if length rec.sampled_token_ids == 0
    then chains
    else elim (find_extendable_chain chains rec.prompt_token_ids) [
      | some i ↦ modify chains i (λ c. add_step c (plain_step rec))
      | none ↦ chains ++ new_chain rec [] (plain_step rec) ∷ []
    ]

unfoldable pub group_records : List Chain → List CompletionRecord → List Chain
group_records chains [] = chains
group_records chains (rec ∷ recs) = group_records (group_record chains rec) recs

-- `BuildTrajectoryGroup`
unfoldable pub build_trajectory_group : Text → List CompletionRecord → TrajectoryGroup
build_trajectory_group session_id records = record {
  session_id = normalize_session_id session_id;
  chains = group_records [] (sort_completion_records records);
  rewards = [];
  metadata = (text "builder", text "v1") ∷ [];
}
