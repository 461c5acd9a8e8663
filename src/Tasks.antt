-- ===== src/Tasks.antt =====
-- The rollout service, orchestrator/internal/rollout/service.go: its tasks, requests and answers.
-- The operations are in Tasks/Ops and Tasks/Outcome, what is shown of a task in Tasks/Views, and the
-- fleet of nodes in Tasks/Fleet. A float64 is its bit pattern.
pub mod Ids
pub mod Ops
pub mod Outcome
pub mod Views
pub mod Fleet
pub mod Steps
mod Changes
pub mod Invariant
pub mod Ends
pub mod Refusals
mod Tests
use emage_code_cwso.Prelude.{
  ℕ, ◌≡◌, Bool, true, false, Option, none, some, List, [], ◌∷◌, ◌++◌, Text, text, if◌then◌else◌,
  ◌==◌, leb, text_eq,
}
use emage_code_cwso.Prelude.Int.{ℤ, pos_or}
use emage_code_cwso.Prelude.Map.{Map}
use emage_code_cwso.Evaluators.{TaskSpec, Registry}
use emage_code_cwso.Nodes.{NodeRegistry}
use emage_code_cwso.Trajectory.{TrajectoryGroup}

-- `TaskStatus`
pub data TaskStatus : Type 0 where
  queued running completed failed cancelled : TaskStatus

abbrev pub default_num_samples : ℕ
default_num_samples = 1

abbrev pub max_num_samples : ℕ
max_num_samples = 32

abbrev pub default_drain_limit : ℕ
default_drain_limit = 64

-- `SubmitRequest`
pub record SubmitRequest : Type 0 where
  pub task_spec : TaskSpec
  pub trainer_callback_url : Text
  pub prewarm_kv_prefix : Option Bool
  pub num_samples : ℤ
  pub trajectory_builder_strategy : Text

-- `SubmitResponse`, of a task that is running.
pub record SubmitResponse : Type 0 where
  pub task_id : Text
  pub prefix_key : Text
  pub num_samples : ℕ
  pub session_ids : List Text

-- `OfflineGenerateRequest`
pub record OfflineGenerateRequest : Type 0 where
  pub task_spec : TaskSpec
  pub source_session_ids : List Text
  pub drain_limit : ℕ
  pub trajectory_builder_strategy : Text

-- `PartialResult`
pub record PartialResult : Type 0 where
  pub step : ℤ
  pub reward : ℕ
  pub merge_outcome : Text

-- What is read of `RewardEvent`.
pub record RewardEvent : Type 0 where
  pub kind : Text
  pub reward : ℕ
  pub session_id : Text

-- `Task`. A session may have been stored with no group.
pub record Task : Type 0 where
  pub id : Text
  pub status : TaskStatus
  pub spec : TaskSpec
  pub num_samples : ℕ
  pub session_id : Text
  pub session_ids : List Text
  pub session_groups : Map Text (Option TrajectoryGroup)
  pub callback_url : Text
  pub prefix_key : Text
  pub trajectory_builder_strategy : Text
  pub created_at : ℕ
  pub updated_at : ℕ
  pub last_error : Text
  pub partial_results : List PartialResult
  pub trajectory_group : Option TrajectoryGroup

-- `Node`
pub record Node : Type 0 where
  pub id : Text
  pub last_heartbeat : ℕ

-- `Service`, its state; the client, the rewards and the router are arguments of the operations.
pub record Service : Type 0 where
  pub tasks : Map Text Task
  pub nodes : Map Text Node
  pub node_registry : NodeRegistry
  pub gateway : Bool
  pub evaluators : Option Registry

-- What the service uses of `encoding/json`, of `fmt` and of float64.
pub record Codec : Type 0 where
  pub format_g : ℕ → Text
  pub partial_of : Text → Option PartialResult
  pub reward_of : Text → Option RewardEvent
  pub add : ℕ → ℕ → ℕ

-- A session that is handed to the gateway.
pub record SessionStart : Type 0 where
  pub task_id : Text
  pub session_id : Text
  pub spec : TaskSpec

pub data SubmitError : Type 0 where
  client_unavailable spec_required sessions_required too_many_samples empty_session no_entropy :
      SubmitError
  prefix_failed bad_strategy : SubmitError

pub data SessionError : Type 0 where
  not_found session_required unknown_session : SessionError

-- The text of such an error.
abbrev pub error_text : SessionError → Text
error_text not_found = text "not found"
error_text session_required = text "session_id required when num_samples > 1"
error_text unknown_session = text "unknown session_id for task"

-- What the trajectory client answers: a group, or the text of an error.
pub data Built : Type 0 where
  built : TrajectoryGroup → Built
  build_failed : Text → Built

-- `SessionOutcome`
pub record SessionOutcome : Type 0 where
  pub status : TaskStatus
  pub error : Text
  pub group : Option TrajectoryGroup
  pub timed_out : Bool

-- `NewService`
unfoldable pub new_service : NodeRegistry → Service
new_service registry = record {
  tasks = [];
  nodes = [];
  node_registry = registry;
  gateway = false;
  evaluators = none;
}

-- `AttachGateway`
unfoldable pub attach_gateway : Service → Bool → Service
attach_gateway s gateway = record s { gateway = gateway }

-- `SetEvaluatorRegistry`
unfoldable pub set_evaluator_registry : Service → Option Registry → Service
set_evaluator_registry s registry = record s { evaluators = registry }

-- `normalizeBuilderStrategy`
unfoldable pub normalize_builder_strategy : Text → Option Text
normalize_builder_strategy strategy =
    if strategy == []
    then some []
    else if strategy == text "per_request"
    then some strategy
    else if strategy == text "prefix_merge"
    then some strategy
    else none

-- The number of samples that is asked for, with its default.
unfoldable pub sample_count : ℤ → ℕ
sample_count n = pos_or n default_num_samples

-- `taskSessionCount`; the number of samples is not negative.
unfoldable pub task_session_count : Task → ℕ
task_session_count t = if leb 1 t.num_samples then t.num_samples else 1

-- `sessionIDsForTask`
unfoldable pub session_ids_for_task : Task → List Text
session_ids_for_task t = elim t.session_ids [
  | s ∷ ss ↦ s ∷ ss
  | [] ↦ if t.session_id == [] then [] else t.session_id ∷ []
]

-- `sessionIDForComplete`
unfoldable pub session_id_for_complete : Task → Text → Text
session_id_for_complete t session_id = if session_id == [] then t.session_id else session_id
