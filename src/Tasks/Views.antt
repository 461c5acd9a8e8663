-- ===== src/Tasks/Views.antt =====
-- What the rollout service shows of its tasks: `GetTask` and `FleetStatus` of
-- orchestrator/internal/rollout/service.go.
use emage_code_cwso.Prelude.{
  ℕ, ◌+◌, ◌-◌, Bool, true, false, not, ◌&&◌, Option, none, some, List, [], ◌∷◌, ◌++◌, map, length,
  count_if, Text, text, if◌then◌else◌, ltb, ◌==◌, nat_eq, text_eq,
}
use emage_code_cwso.Prelude.Int.{pos}
use emage_code_cwso.Prelude.Map.{Map, lookup, insert}
use emage_code_cwso.Trajectory.{TrajectoryGroup, Chain, Step}
use emage_code_cwso.Tasks.{
  TaskStatus, queued, running, PartialResult, RewardEvent, Task, Service, Codec, Built, built,
  build_failed, session_ids_for_task, task_session_count,
}

-- `TrajectorySummary`
pub record TrajectorySummary : Type 0 where
  pub chain_id : Text
  pub loss_mask_token_count : ℕ
  pub total_reward : ℕ

-- `TaskStatusResponse`
pub record TaskStatusResponse : Type 0 where
  pub task_id : Text
  pub status : TaskStatus
  pub partial_results : List PartialResult
  pub trajectories : List TrajectorySummary
  pub error : Text
  pub num_samples : ℕ
  pub session_ids : List Text
  pub sessions_completed : ℕ

-- `FleetStatus`
pub record FleetStatus : Type 0 where
  pub pending_sessions : ℕ
  pub running_sessions : ℕ
  pub registered_nodes : ℕ
  pub cache_hit_rate : ℕ

unfoldable pub total : Codec → ℕ → List ℕ → ℕ
total c acc [] = acc
total c acc (r ∷ rs) = total c (c.add acc r) rs

unfoldable pub mask_count : List Step → ℕ
mask_count [] = 0
mask_count (step ∷ steps) = count_if (λ m. m == 1) step.loss_mask + mask_count steps

-- `summariesFromGroup`
unfoldable pub summaries_from_group : Codec → TrajectoryGroup → List TrajectorySummary
summaries_from_group c group =
    map
      (λ (ch : Chain). record {
        chain_id = ch.chain_id;
        loss_mask_token_count = mask_count ch.steps;
        total_reward = total c 0 group.rewards;
      })
      group.chains

unfoldable pub session_summaries :
    Codec → Map Text (Option TrajectoryGroup) → List Text → List TrajectorySummary
session_summaries c groups [] = []
session_summaries c groups (sid ∷ sids) = elim (lookup sid groups) [
  | none ↦ session_summaries c groups sids
  | some none ↦ session_summaries c groups sids
  | some (some g) ↦ summaries_from_group c g ++ session_summaries c groups sids
]

-- `readTrajectorySummaries`
unfoldable pub read_trajectory_summaries : Codec → Task → List TrajectorySummary
read_trajectory_summaries c t =
    if ltb 1 t.num_samples
    then session_summaries c t.session_groups t.session_ids
    else elim t.trajectory_group [ none ↦ [] | some g ↦ summaries_from_group c g ]

-- `collectRewards` over the payloads that the query gives.
unfoldable pub collect_rewards : Codec → List Text → Text → List RewardEvent
collect_rewards c [] sid = []
collect_rewards c (payload ∷ payloads) sid =
    let rest = collect_rewards c payloads sid in
    elim (c.reward_of payload) [
      | none ↦ rest
      | some ev ↦ if ev.session_id == sid then ev ∷ rest else rest
    ]

-- `collectRewardsForTask`; none stands for a service without a reader.
unfoldable pub rewards_of_sessions : Codec → Option (List Text) → List Text → List RewardEvent
rewards_of_sessions c none sids = []
rewards_of_sessions c (some payloads) [] = []
rewards_of_sessions c (some payloads) (sid ∷ sids) =
    (if sid == [] then [] else collect_rewards c payloads sid)
    ++ rewards_of_sessions c (some payloads) sids

-- `mergeOutcomeFromReward`
unfoldable pub merge_outcome_from_reward : RewardEvent → Text
merge_outcome_from_reward ev =
    if ev.kind == text "merge_success"
    then text "success"
    else if ev.kind == text "syntax_fail"
    then text "syntax_fail"
    else text "conflict"

unfoldable pub numbered_results : ℕ → List RewardEvent → List PartialResult
numbered_results i [] = []
numbered_results i (ev ∷ evs) =
    record { step = pos i; reward = ev.reward; merge_outcome = merge_outcome_from_reward ev }
    ∷ numbered_results (i + 1) evs

-- `mergePartialResults`
unfoldable pub merge_partial_results : Task → List RewardEvent → List PartialResult
merge_partial_results t rewards = elim t.partial_results [
  | p ∷ ps ↦ p ∷ ps
  | [] ↦ numbered_results 0 rewards
]

-- `GetTask` under its first lock.
unfoldable pub show_task : Codec → Option (List Text) → Text → Task → TaskStatusResponse
show_task c payloads task_id t = record {
  task_id = task_id;
  status = t.status;
  partial_results =
      merge_partial_results t (rewards_of_sessions c payloads (session_ids_for_task t));
  trajectories = read_trajectory_summaries c t;
  error = t.last_error;
  num_samples = if ltb 1 t.num_samples then t.num_samples else 0;
  session_ids = if ltb 1 t.num_samples then t.session_ids else [];
  sessions_completed = if ltb 1 t.num_samples then length t.session_groups else 0;
}

-- Whether `GetTask` asks the client for a group.
unfoldable pub wants_group : Codec → Task → Bool
wants_group c t =
    length (read_trajectory_summaries c t) == 0
    && (elim t.trajectory_group [ none ↦ true | some g ↦ false ])
    && not (t.session_id == [])

-- `GetTask` under its second lock.
unfoldable pub keep_group :
    Codec → Service → Text → TrajectoryGroup → TaskStatusResponse → Service × TaskStatusResponse
keep_group c s task_id group resp = elim (lookup task_id s.tasks) [
  | none ↦ (s, resp)
  | some t ↦ elim t.trajectory_group [
    | some g ↦ (s, resp)
    | none ↦ (
      record s { tasks = insert task_id (record t { trajectory_group = some group }) s.tasks },
      record resp { trajectories = summaries_from_group c group },
    )
  ]
]

-- `GetTask`, with the client's answer for a session where there is a client; none is not found.
unfoldable pub get_task :
    Codec
    → Service
    → Option (List Text)
    → Option (Text → Built)
    → Text
    → Service × Option TaskStatusResponse
get_task c s payloads client task_id = elim (lookup task_id s.tasks) [
  | none ↦ (s, none)
  | some t ↦
      let resp = show_task c payloads task_id t in
      elim client [
        | none ↦ (s, some resp)
        | some build ↦ elim (build t.session_id) [
          | build_failed e ↦ (s, some resp)
          | built group ↦
              let (s', resp') = keep_group c s task_id group resp in
              if wants_group c t && not (length group.chains == 0)
              then (s', some resp')
              else (s, some resp)
        ]
      ]
]

-- The sessions of a running task that are counted. A task that runs has fewer groups than samples
-- where it has several, so that the difference is the source's.
unfoldable pub running_count : Task → ℕ
running_count t =
    if ltb 1 t.num_samples && ltb 0 (length t.session_groups)
    then t.num_samples - length t.session_groups
    else task_session_count t

unfoldable pub pending_total : Map Text Task → ℕ
pending_total [] = 0
pending_total ((id, t) ∷ tasks) =
    (elim t.status [ queued ↦ task_session_count t | _ ↦ 0 ]) + pending_total tasks

unfoldable pub running_total : Map Text Task → ℕ
running_total [] = 0
running_total ((id, t) ∷ tasks) =
    (elim t.status [ running ↦ running_count t | _ ↦ 0 ]) + running_total tasks

-- `FleetStatus`, with the client's hit rate where it answers.
unfoldable pub fleet_status : Service → Option ℕ → FleetStatus
fleet_status s hit_rate = record {
  pending_sessions = pending_total s.tasks;
  running_sessions = running_total s.tasks;
  registered_nodes = length s.nodes;
  cache_hit_rate = elim hit_rate [ none ↦ 0 | some rate ↦ rate ];
}
