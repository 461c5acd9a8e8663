-- ===== src/Tasks/Changes.antt =====
-- What the end of a session changes of a task, orchestrator/internal/rollout/service.go and
-- gateway_session.go.
use emage_code_cwso.Prelude.{
  ℕ, ◌<◌, ◌≡◌, refl, sym, ap, ◌∙◌, inl, inr, Bool, true, false, Bool-cases, Option, none, some, [],
  length, Text, if◌then◌else◌, leb, ltb, ◌==◌, nat_eq, text_eq, arith,
}
use emage_code_cwso.Prelude.Members.{mem}
use emage_code_cwso.Evaluators.{Registry}
use emage_code_cwso.Trajectory.{TrajectoryGroup}
use emage_code_cwso.Tasks.{TaskStatus, running, completed, Task, Codec, SessionOutcome}
use emage_code_cwso.Tasks.Outcome.{
  partial_result_from_group, put_group, status_after, finish_session, evaluated, complete_task,
  outcome_task, store_session_group, apply_terminal_status,
}
use emage_code_cwso.Tasks.Ops.Builds.{with_partial-eq}
use emage_code_cwso.Tasks.Steps.{IsTask}

-- What a change of a task leaves alone, and that it runs on only with fewer groups than samples.
pub record Keeps (t t' : Task) : Type 0 where
  pub id_kept : t'.id ≡ t.id
  pub samples_kept : t'.num_samples ≡ t.num_samples
  pub sessions_kept : t'.session_ids ≡ t.session_ids
  pub runs_on :
      (t.status ≡ running → 1 < t.num_samples → length t.session_groups < t.num_samples)
      → t'.status ≡ running
      → 1 < t.num_samples
      → length t'.session_groups < t.num_samples

pub Keeps-IsTask : (id : Text) (t t' : Task) → Keeps t t' → IsTask (id, t) → IsTask (id, t')
Keeps-IsTask id t t' k v = record {
  own_id = k.id_kept ∙ v.own_id;
  at_least_one = omega (arith, k.samples_kept, v.at_least_one);
  at_most = omega (arith, k.samples_kept, v.at_most);
  sessions = λ h.
      ap length k.sessions_kept ∙ v.sessions (omega (arith, k.samples_kept)) ∙ sym k.samples_kept;
  unfinished = λ r h.
      let less = k.runs_on v.unfinished r (omega (arith, k.samples_kept)) in
      omega (arith, k.samples_kept);
}

TaskStatus_ends :
    (full : Bool) (status : TaskStatus)
    → (if full then completed else status) ≡ running
    → (full ≡ false) × (status ≡ running)
TaskStatus_ends true status h = cc
TaskStatus_ends false status h = (refl, h)

status_after-less : (t : Task) → status_after t ≡ running → length t.session_groups < t.num_samples
status_after-less t h =
    let (open_still, _) =
      TaskStatus_ends (leb t.num_samples (length t.session_groups)) t.status h in
    ground arith

finish_session-Keeps :
    (t : Task) (sid : Text) (group : Option TrajectoryGroup) (now : ℕ)
    → Keeps t (finish_session t sid group now).0
unfolding finish_session put_group
finish_session-Keeps t sid group now = elim (Bool-cases (leb t.num_samples 1)) [
  | inl one ↦
      simp (finish_session, one)
        (record {
          id_kept = refl;
          samples_kept = refl;
          sessions_kept = refl;
          runs_on = λ v r h. absurd (ground arith);
        })
  | inr many ↦ elim (Bool-cases (sid == [])) [
    | inl unnamed ↦
        simp (finish_session, many, unnamed)
          (record { id_kept = refl; samples_kept = refl; sessions_kept = refl; runs_on = λ v. v })
    | inr named ↦ elim (Bool-cases (mem sid t.session_ids)) [
      | inr unknown ↦
          simp (finish_session, many, named, unknown)
            (record { id_kept = refl; samples_kept = refl; sessions_kept = refl; runs_on = λ v. v })
      | inl known ↦
          simp (finish_session, many, named, known)
            (record {
              id_kept = refl;
              samples_kept = refl;
              sessions_kept = refl;
              runs_on = λ v r h. status_after-less (put_group t sid group) r;
            })
    ]
  ]
]

pub complete_task-Keeps :
    (c : Codec) (registry : Option Registry) (t : Task) (sid : Text)
    (group : Option TrajectoryGroup) (now : ℕ)
    → Keeps t (complete_task c registry t sid group now).0
unfolding complete_task
complete_task-Keeps c registry t sid group now =
    let scored = evaluated c registry t sid group in
    let (ps, e) = with_partial-eq t (partial_result_from_group c scored) in
    let k = finish_session-Keeps (record t { partial_results = ps }) sid scored now in
    rw (complete_task, e)
      (record {
        id_kept = k.id_kept;
        samples_kept = k.samples_kept;
        sessions_kept = k.sessions_kept;
        runs_on = k.runs_on;
      })

store_session_group-Keeps :
    (t : Task) (sid : Text) (group : Option TrajectoryGroup)
    → ((store_session_group t sid group).id ≡ t.id)
      × ((store_session_group t sid group).num_samples ≡ t.num_samples)
      × ((store_session_group t sid group).session_ids ≡ t.session_ids)
unfolding store_session_group put_group
store_session_group-Keeps t sid none = (refl, refl, refl)
store_session_group-Keeps t sid (some group) = elim (Bool-cases (ltb 1 t.num_samples)) [
  | inl k ↦ simp (store_session_group, k) (refl, refl, refl)
  | inr k ↦ simp (store_session_group, k) (refl, refl, refl)
]

apply_terminal_status-Keeps :
    (t u : Task) (sid : Text) (out : SessionOutcome)
    → (u.id ≡ t.id) × (u.num_samples ≡ t.num_samples) × (u.session_ids ≡ t.session_ids)
    → Keeps t (apply_terminal_status u sid out)
unfolding apply_terminal_status
apply_terminal_status-Keeps t u sid out same = elim (Bool-cases (ltb 1 u.num_samples)) [
  | inr one ↦
      simp (apply_terminal_status, one)
        (record {
          id_kept = same.0;
          samples_kept = same.1;
          sessions_kept = same.2;
          runs_on = λ v r h. absurd (ground (arith, same.1));
        })
  | inl many ↦ elim (Bool-cases out.timed_out) [
    | inl late ↦
        simp (apply_terminal_status, many, late)
          (record {
            id_kept = same.0;
            samples_kept = same.1;
            sessions_kept = same.2;
            runs_on = λ v r h. absurd (ground arith);
          })
    | inr fine ↦
        simp (apply_terminal_status, many, fine)
          (record {
            id_kept = same.0;
            samples_kept = same.1;
            sessions_kept = same.2;
            runs_on = λ v r h. omega (arith, status_after-less u r, same.1);
          })
  ]
]

pub outcome_task-Keeps :
    (t : Task) (sid : Text) (out : SessionOutcome) (now : ℕ) → Keeps t (outcome_task t sid out now)
unfolding outcome_task
outcome_task-Keeps t sid out now =
    let noted : Task = record t {
      last_error = if out.error == [] then t.last_error else out.error;
    } in
    let k =
      apply_terminal_status-Keeps t (store_session_group noted sid out.group) sid out
        (store_session_group-Keeps noted sid out.group) in
    record {
      id_kept = k.id_kept;
      samples_kept = k.samples_kept;
      sessions_kept = k.sessions_kept;
      runs_on = k.runs_on;
    }
