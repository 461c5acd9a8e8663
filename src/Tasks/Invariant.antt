-- ===== src/Tasks/Invariant.antt =====
-- The tasks of the rollout service stay well formed, orchestrator/internal/rollout/service.go.
use emage_code_cwso.Prelude.{
  ℕ, ◌≡◌, refl, ap, inl, inr, Option-cases, Option, none, some, List, [], ◌∷◌, length, All, Text,
  nat_eq, text_eq, arith,
}
use emage_code_cwso.Prelude.Entries.{insert-All, lookup-All}
use emage_code_cwso.Prelude.Map.{lookup, insert}
use emage_code_cwso.Trajectory.{TrajectoryGroup}
use emage_code_cwso.Tasks.{
  Task, Service, Codec, SubmitRequest, OfflineGenerateRequest, SessionOutcome,
  normalize_builder_strategy,
}
use emage_code_cwso.Tasks.Ids.{new_uuid}
use emage_code_cwso.Tasks.Outcome.{complete_session, apply_session_outcome, mark_task_failed}
use emage_code_cwso.Tasks.Views.{TaskStatusResponse, keep_group}
use emage_code_cwso.Tasks.Ops.{submit_task, new_task, offline_error, offline_task}
use emage_code_cwso.Tasks.Ops.Submitted.{IsSubmitted, new_task-IsSubmitted, Reply-cases}
use emage_code_cwso.Tasks.Steps.{
  Event, submits, opens, completes, reports, fails, keeps, attaches, sets_evaluators, step, run,
  open_offline, IsTask,
}
use emage_code_cwso.Tasks.Changes.{Keeps, Keeps-IsTask, complete_task-Keeps, outcome_task-Keeps}

offline_task-IsTask :
    (req : OfflineGenerateRequest) (id strategy : Text) (now : ℕ)
    → offline_error req ≡ none
    → IsTask (id, offline_task req id strategy now)
unfolding offline_task offline_error
offline_task-IsTask req id strategy now fine = record {
  own_id = refl;
  at_least_one = ground arith;
  at_most = ground arith;
  sessions = λ h. refl;
  unfinished = λ r h. omega arith;
}

abbrev IsTasks : Service → Type 0
IsTasks s = All IsTask s.tasks

changed-IsTasks :
    (s : Service) (id : Text) (t t' : Task)
    → IsTasks s
    → lookup id s.tasks ≡ some t
    → Keeps t t'
    → All IsTask (insert id t' s.tasks)
changed-IsTasks s id t t' v found k =
    insert-All IsTask id t' s.tasks
      (Keeps-IsTask id t t' k (lookup-All IsTask id t s.tasks found v)) v

complete_session-IsTasks :
    (c : Codec) (s : Service) (id sid : Text) (group : Option TrajectoryGroup) (now : ℕ)
    → IsTasks s
    → IsTasks (complete_session c s id sid group now).0
unfolding complete_session
complete_session-IsTasks c s id sid group now v = elim (Option-cases (lookup id s.tasks)) [
  | inl missing ↦ simp (complete_session, missing) v
  | inr (t, found) ↦
      simp (complete_session, found)
        (changed-IsTasks s id t _ v found (complete_task-Keeps c s.evaluators t sid group now))
]

apply_session_outcome-IsTasks :
    (s : Service) (id sid : Text) (out : SessionOutcome) (now : ℕ)
    → IsTasks s
    → IsTasks (apply_session_outcome s id sid out now).0
unfolding apply_session_outcome
apply_session_outcome-IsTasks s id sid out now v = elim (Option-cases (lookup id s.tasks)) [
  | inl missing ↦ simp (apply_session_outcome, missing) v
  | inr (t, found) ↦
      simp (apply_session_outcome, found)
        (changed-IsTasks s id t _ v found (outcome_task-Keeps t sid out now))
]

mark_task_failed-IsTasks :
    (s : Service) (id reason : Text) (now : ℕ)
    → IsTasks s
    → IsTasks (mark_task_failed s id reason now)
unfolding mark_task_failed
mark_task_failed-IsTasks s id reason now v = elim (Option-cases (lookup id s.tasks)) [
  | inl missing ↦ simp (mark_task_failed, missing) v
  | inr (t, found) ↦
      simp (mark_task_failed, found)
        (changed-IsTasks s id t _ v found (record {
          id_kept = refl;
          samples_kept = refl;
          sessions_kept = refl;
          runs_on = λ w r h. absurd (ground arith);
        }))
]

keep_group-IsTasks :
    (c : Codec) (s : Service) (id : Text) (group : TrajectoryGroup) (resp : TaskStatusResponse)
    → IsTasks s
    → IsTasks (keep_group c s id group resp).0
unfolding keep_group
keep_group-IsTasks c s id group resp v = elim (Option-cases (lookup id s.tasks)) [
  | inl missing ↦ simp (keep_group, missing) v
  | inr (t, found) ↦ elim (Option-cases t.trajectory_group) [
    | inr (g, there) ↦ simp (keep_group, found, there) v
    | inl none_yet ↦
        simp (keep_group, found, none_yet)
          (changed-IsTasks s id t _ v found (record {
            id_kept = refl;
            samples_kept = refl;
            sessions_kept = refl;
            runs_on = λ w. w;
          }))
  ]
]

open_offline-IsTasks :
    (s : Service) (req : OfflineGenerateRequest) (draw : ℕ → Option (List ℕ)) (now : ℕ)
    → IsTasks s
    → IsTasks (open_offline s req draw now)
unfolding open_offline
open_offline-IsTasks s req draw now v = elim (Option-cases (offline_error req)) [
  | inr (e, refused) ↦ simp (open_offline, refused) v
  | inl fine ↦ elim (Option-cases (normalize_builder_strategy req.trajectory_builder_strategy)) [
    | inl unknown ↦ simp (open_offline, fine, unknown) v
    | inr (strategy, known) ↦ elim (Option-cases (new_uuid draw 0)) [
      | inl dry ↦ simp (open_offline, fine, known, dry) v
      | inr (id, drawn) ↦
          simp (open_offline, fine, known, drawn)
            (insert-All IsTask id (offline_task req id strategy now) s.tasks
              (offline_task-IsTask req id strategy now fine) v)
    ]
  ]
]

IsSubmitted-IsTask : (req : SubmitRequest) (t : Task) → IsSubmitted req t → IsTask (t.id, t)
IsSubmitted-IsTask req t v = record {
  own_id = refl;
  at_least_one = v.some_samples;
  at_most = v.few;
  sessions = v.several;
  unfinished = λ r h. omega (arith, ap length v.none_ended);
}

submit_task-IsTasks :
    (s : Service) (req : SubmitRequest) (draw : ℕ → Option (List ℕ)) (resolve : Text → Option Text)
    (now : ℕ)
    → IsTasks s
    → IsTasks (submit_task s req draw resolve now).0
unfolding submit_task
submit_task-IsTasks s req draw resolve now v = elim (Reply-cases (new_task req draw resolve now)) [
  | inr (e, refused) ↦ simp (submit_task, refused) v
  | inl (t, accepted) ↦
      simp (submit_task, accepted)
        (insert-All IsTask t.id t s.tasks
          (IsSubmitted-IsTask req t (rw accepted at (new_task-IsSubmitted req draw resolve now))) v)
]

step-IsTasks : (s : Service) (e : Event) → IsTasks s → IsTasks (step s e)
unfolding step
step-IsTasks s (submits req draw resolve now) v = submit_task-IsTasks s req draw resolve now v
step-IsTasks s (opens req draw now) v = open_offline-IsTasks s req draw now v
step-IsTasks s (completes c id sid group now) v = complete_session-IsTasks c s id sid group now v
step-IsTasks s (reports id sid out now) v = apply_session_outcome-IsTasks s id sid out now v
step-IsTasks s (fails id reason now) v = mark_task_failed-IsTasks s id reason now v
step-IsTasks s (keeps c id group resp) v = keep_group-IsTasks c s id group resp v
step-IsTasks s (attaches gateway) v = v
step-IsTasks s (sets_evaluators registry) v = v

-- Whatever requests, callbacks, gateway reports and failures come in, in any order, each task stands
-- under its own id with 1 to 32 samples, a task of several samples has a session for each, and while
-- it runs fewer of its sessions have ended than it has samples.
pub run-IsTask : (s : Service) (es : List Event) → All IsTask s.tasks → All IsTask (run s es).tasks
unfolding run
run-IsTask s [] v = v
run-IsTask s (e ∷ es) v = run-IsTask (step s e) es (step-IsTasks s e v)
