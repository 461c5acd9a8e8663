-- ===== src/Tasks/Outcome.antt =====
-- How a session of a task ends: `CompleteSession` of orchestrator/internal/rollout/service.go for the
-- trainer's callback, and `ApplySessionOutcome` of gateway_session.go for the gateway.
use emage_code_cwso.Prelude.{
  ℕ, false, not, Option, none, some, List, [], ◌∷◌, ◌++◌, length, Text, text, if◌then◌else◌, leb,
  ltb, ◌==◌, text_eq,
}
use emage_code_cwso.Prelude.Int.{int_eq}
use emage_code_cwso.Prelude.Map.{lookup, insert}
use emage_code_cwso.Prelude.Members.{mem}
use emage_code_cwso.Evaluators.{Registry, apply_evaluations}
use emage_code_cwso.Trajectory.{TrajectoryGroup}
use emage_code_cwso.Tasks.{
  TaskStatus, completed, failed, PartialResult, Task, Service, Codec, SessionError, not_found,
  session_required, unknown_session, SessionOutcome, session_id_for_complete,
}

-- `partialResultFromGroup`
unfoldable pub partial_result_from_group : Codec → Option TrajectoryGroup → Option PartialResult
partial_result_from_group c none = none
partial_result_from_group c (some group) = elim (lookup (text "partial_result") group.metadata) [
  | none ↦ none
  | some raw ↦ if raw == [] then none else c.partial_of raw
]

-- A partial result takes the place of the first of its step, or the last place.
unfoldable pub put_partial : PartialResult → List PartialResult → List PartialResult
put_partial p [] = p ∷ []
put_partial p (q ∷ qs) =
    let rest = q ∷ put_partial p qs in if q.step == p.step then p ∷ qs else rest

unfoldable pub with_partial : Task → Option PartialResult → Task
with_partial t none = t
with_partial t (some p) = record t {
  partial_results = if ltb 1 t.num_samples then put_partial p t.partial_results else p ∷ [];
}

-- The status once the groups are stored.
abbrev pub status_after : Task → TaskStatus
status_after t = if leb t.num_samples (length t.session_groups) then completed else t.status

-- `task.SessionGroups[sessionID] = group`
unfoldable pub put_group : Task → Text → Option TrajectoryGroup → Task
put_group t session_id group = record t {
  session_groups = insert session_id group t.session_groups;
}

-- `CompleteSession`, from the test of the number of samples on.
unfoldable pub finish_session :
    Task → Text → Option TrajectoryGroup → ℕ → Task × Option SessionError
finish_session t session_id group now =
    let single : Task = record t {
      status = completed;
      updated_at = now;
      trajectory_group = elim group [ none ↦ t.trajectory_group | some g ↦ some g ];
    } in
    let stored = put_group t session_id group in
    if leb t.num_samples 1
    then (single, none)
    else if session_id == []
    then (t, some session_required)
    else if not (mem session_id t.session_ids)
    then (t, some unknown_session)
    else (record stored { status = status_after stored; updated_at = now }, none)

-- The group once the evaluators have run.
unfoldable pub evaluated :
    Codec → Option Registry → Task → Text → Option TrajectoryGroup → Option TrajectoryGroup
evaluated c none t session_id group = group
evaluated c (some registry) t session_id none = none
evaluated c (some registry) t session_id (some group) = some (
    apply_evaluations c.format_g registry (record {
      task_id = t.id;
      session_id = session_id_for_complete t session_id;
      spec = t.spec;
      group = group;
      timed_out = false;
    }))

-- What `CompleteSession` makes of the task.
unfoldable pub complete_task :
    Codec → Option Registry → Task → Text → Option TrajectoryGroup → ℕ → Task × Option SessionError
complete_task c registry t session_id group now =
    let scored = evaluated c registry t session_id group in
    finish_session (with_partial t (partial_result_from_group c scored)) session_id scored now

-- `CompleteSession`
unfoldable pub complete_session :
    Codec → Service → Text → Text → Option TrajectoryGroup → ℕ → Service × Option SessionError
complete_session c s task_id session_id group now = elim (lookup task_id s.tasks) [
  | none ↦ (s, some not_found)
  | some t ↦
      let (t', e) = complete_task c s.evaluators t session_id group now in
      (record s { tasks = insert task_id t' s.tasks }, e)
]

-- `storeSessionGroup`
unfoldable pub store_session_group : Task → Text → Option TrajectoryGroup → Task
store_session_group t session_id none = t
store_session_group t session_id (some group) =
    if ltb 1 t.num_samples
    then put_group t session_id (some group)
    else record t { trajectory_group = some group }

-- `applyTerminalStatus`
unfoldable pub apply_terminal_status : Task → Text → SessionOutcome → Task
apply_terminal_status t session_id out =
    let late : Task = record t {
      status = failed;
      last_error =
          if t.last_error == []
          then text "session " ++ (session_id ++ text " timeout")
          else t.last_error;
    } in
    if ltb 1 t.num_samples
    then (if out.timed_out then late else record t { status = status_after t })
    else record t { status = out.status }

-- What `ApplySessionOutcome` makes of the task.
unfoldable pub outcome_task : Task → Text → SessionOutcome → ℕ → Task
outcome_task t session_id out now =
    let noted : Task = record t {
      last_error = if out.error == [] then t.last_error else out.error;
    } in
    let ended =
      apply_terminal_status (store_session_group noted session_id out.group) session_id out in
    record ended { updated_at = now }

-- `ApplySessionOutcome`
unfoldable pub apply_session_outcome :
    Service → Text → Text → SessionOutcome → ℕ → Service × Option SessionError
apply_session_outcome s task_id session_id out now = elim (lookup task_id s.tasks) [
  | none ↦ (s, some not_found)
  | some t ↦ (record s { tasks = insert task_id (outcome_task t session_id out now) s.tasks }, none)
]

-- `markTaskFailed`
unfoldable pub mark_task_failed : Service → Text → Text → ℕ → Service
mark_task_failed s task_id reason now = elim (lookup task_id s.tasks) [
  | none ↦ s
  | some t ↦
      let lost : Task = record t { status = failed; last_error = reason; updated_at = now } in
      record s { tasks = insert task_id lost s.tasks }
]
