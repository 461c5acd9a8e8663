-- ===== src/Tasks/Steps.antt =====
-- The tasks of the rollout service under any calls, orchestrator/internal/rollout/service.go and
-- gateway_session.go. Each step holds the lock of the service once: `GenerateOfflineTask` is the
-- opening of its task, then the end of a session or a failure at a time, and `GetTask` may keep a
-- group that the client has built in between.
use emage_code_cwso.Prelude.{
  ℕ, ◌≤◌, ◌<◌, ◌≡◌, Bool, Option, none, some, List, [], ◌∷◌, length, Text, nat_eq, text_eq,
}
use emage_code_cwso.Prelude.Map.{insert}
use emage_code_cwso.Evaluators.{Registry}
use emage_code_cwso.Trajectory.{TrajectoryGroup}
use emage_code_cwso.Tasks.{
  running, Task, Service, Codec, SubmitRequest, OfflineGenerateRequest, SessionOutcome,
  normalize_builder_strategy,
}
use emage_code_cwso.Tasks.Ids.{new_uuid}
use emage_code_cwso.Tasks.Outcome.{complete_session, apply_session_outcome, mark_task_failed}
use emage_code_cwso.Tasks.Views.{TaskStatusResponse, keep_group}
use emage_code_cwso.Tasks.Ops.{submit_task, offline_error, offline_task}

-- `GenerateOfflineTask` up to the release of the lock.
unfoldable pub open_offline : Service → OfflineGenerateRequest → (ℕ → Option (List ℕ)) → ℕ → Service
open_offline s req draw now = elim (offline_error req) [
  | some e ↦ s
  | none ↦ elim (normalize_builder_strategy req.trajectory_builder_strategy) [
    | none ↦ s
    | some strategy ↦ elim (new_uuid draw 0) [
      | none ↦ s
      | some id ↦ record s { tasks = insert id (offline_task req id strategy now) s.tasks }
    ]
  ]
]

pub data Event : Type 0 where
  submits : SubmitRequest → (ℕ → Option (List ℕ)) → (Text → Option Text) → ℕ → Event
  opens : OfflineGenerateRequest → (ℕ → Option (List ℕ)) → ℕ → Event
  completes : Codec → Text → Text → Option TrajectoryGroup → ℕ → Event
  reports : Text → Text → SessionOutcome → ℕ → Event
  fails : Text → Text → ℕ → Event
  keeps : Codec → Text → TrajectoryGroup → TaskStatusResponse → Event
  attaches : Bool → Event
  sets_evaluators : Option Registry → Event

unfoldable pub step : Service → Event → Service
step s (submits req draw resolve now) = (submit_task s req draw resolve now).0
step s (opens req draw now) = open_offline s req draw now
step s (completes c id sid group now) = (complete_session c s id sid group now).0
step s (reports id sid out now) = (apply_session_outcome s id sid out now).0
step s (fails id reason now) = mark_task_failed s id reason now
step s (keeps c id group resp) = (keep_group c s id group resp).0
step s (attaches gateway) = record s { gateway = gateway }
step s (sets_evaluators registry) = record s { evaluators = registry }

unfoldable pub run : Service → List Event → Service
run s [] = s
run s (e ∷ es) = run (step s e) es

-- A task under its id: its samples are within bounds, a task of several samples has a session for
-- each, and while it runs fewer of them have a group.
pub record IsTask (e : Text × Task) : Type 0 where
  pub own_id : e.1.id ≡ e.0
  pub at_least_one : 1 ≤ e.1.num_samples
  pub at_most : e.1.num_samples ≤ 32
  pub sessions : 1 < e.1.num_samples → length e.1.session_ids ≡ e.1.num_samples
  pub unfinished :
      e.1.status ≡ running → 1 < e.1.num_samples → length e.1.session_groups < e.1.num_samples
