-- ===== src/Tasks/Refusals.antt =====
-- Callbacks that are refused, and reports that hide an earlier one, `CompleteSession` of
-- orchestrator/internal/rollout/service.go and `ApplySessionOutcome` of gateway_session.go.
use emage_code_cwso.Prelude.{
  ℕ, ◌+◌, ◌≤◌, ◌<◌, ◌≡◌, ◌≢◌, refl, ◌⊎◌, inl, inr, Bool, true, false, ap, ◌∙◌, ◌++◌, text,
  if◌then◌else◌, Bool-cases, Option-cases, Option, none, some, List, [], ◌∷◌, length, Text, leb,
  ltb, ◌==◌, eq_refl, nat_eq, text_eq, arith,
}
use emage_code_cwso.Prelude.Map.{Map, lookup, insert, lookup-insert}
use emage_code_cwso.Prelude.Members.{mem}
use emage_code_cwso.Trajectory.{TrajectoryGroup}
use emage_code_cwso.Tasks.{
  completed, failed, PartialResult, Task, Service, Codec, SessionError, not_found, session_required,
  unknown_session, SessionOutcome,
}
use emage_code_cwso.Tasks.Outcome.{
  partial_result_from_group, put_group, finish_session, evaluated, complete_task, complete_session,
  store_session_group, apply_terminal_status, outcome_task, apply_session_outcome,
}
use emage_code_cwso.Tasks.Ops.Builds.{with_partial-eq}

-- A refusal changes at most the partial results of a task.
pub record IsRefused (s : Service) (id : Text) (s' : Service) : Type 0 where
  pub task : Task
  pub found : lookup id s.tasks ≡ some task
  pub results : List PartialResult
  pub changed :
      s' ≡ record s { tasks = insert id (record task { partial_results = results }) s.tasks }

not_missing : (why e : SessionError) → some why ≡ some e → why ≢ not_found → e ≢ not_found
not_missing why e h n k = n (cc)

finish_session-refused :
    (t : Task) (sid : Text) (group : Option TrajectoryGroup) (now : ℕ) (e : SessionError)
    → (finish_session t sid group now).1 ≡ some e
    → ((finish_session t sid group now).0 ≡ t) × (e ≢ not_found)
unfolding finish_session
finish_session-refused t sid group now e h = elim (Bool-cases (leb t.num_samples 1)) [
  | inl one ↦ absurd (ground (arith, one))
  | inr many ↦ elim (Bool-cases (sid == [])) [
    | inl unnamed ↦ (
      simp (finish_session, many, unnamed) refl,
      not_missing session_required e (simp (finish_session, many, unnamed) at h) (λ k. cc),
    )
    | inr named ↦ elim (Bool-cases (mem sid t.session_ids)) [
      | inr unknown ↦ (
        simp (finish_session, many, named, unknown) refl,
        not_missing unknown_session e (simp (finish_session, many, named, unknown) at h) (λ k. cc),
      )
      | inl known ↦ absurd (ground (arith, many, named, known))
    ]
  ]
]

missing_told : (e : SessionError) → some not_found ≡ some e → e ≡ not_found
missing_told e h = cc

-- A callback that is refused leaves the service as it was where the task is not known, and else
-- changes nothing but the partial results of the task.
pub complete_session-IsRefused :
    (c : Codec) (s : Service) (id sid : Text) (group : Option TrajectoryGroup) (now : ℕ)
    (e : SessionError)
    → (complete_session c s id sid group now).1 ≡ some e
    → ((e ≡ not_found) × ((complete_session c s id sid group now).0 ≡ s))
      ⊎ ((e ≢ not_found) × IsRefused s id (complete_session c s id sid group now).0)
unfolding complete_session complete_task
complete_session-IsRefused c s id sid group now e h = elim (Option-cases (lookup id s.tasks)) [
  | inl missing ↦ inl (
    missing_told e (simp (complete_session, missing) at h),
    simp (complete_session, missing) refl,
  )
  | inr (t, found) ↦
      let scored = evaluated c s.evaluators t sid group in
      let (ps, noted) = with_partial-eq t (partial_result_from_group c scored) in
      let (same, told) =
        finish_session-refused (record t { partial_results = ps }) sid scored now e
          (simp (complete_session, found, complete_task, noted) at h) in
      inr (
        told,
        record {
          task = t;
          found = found;
          results = ps;
          changed = simp (complete_session, found, complete_task, noted, same) refl;
        },
      )
]

length-insert_new :
    (k : Text) (v : Option TrajectoryGroup) (m : Map Text (Option TrajectoryGroup))
    → lookup k m ≡ none
    → length (insert k v m) ≡ length m + 1
unfolding lookup insert
length-insert_new k v [] h = refl
length-insert_new k v ((j, w) ∷ m) h = ground (arith, length-insert_new k v m)

-- A report with a group, of a session that timed out or not.
abbrev pub IsReport : SessionOutcome → TrajectoryGroup → Bool → Type 0
IsReport out group late = (out.group ≡ some group) × (out.timed_out ≡ late)

-- The error of a task once the timeout of a session of it is reported.
abbrev pub timeout_error : Task → Text → SessionOutcome → Text
timeout_error t sid out =
    let told = if out.error == [] then t.last_error else out.error in
    if told == [] then text "session " ++ (sid ++ text " timeout") else told

outcome_hidden :
    (t : Task) (sid : Text) (out : SessionOutcome) (group : TrajectoryGroup) (now : ℕ)
    → 1 < t.num_samples
    → t.num_samples ≤ length t.session_groups + 1
    → lookup sid t.session_groups ≡ none
    → out.group ≡ some group
    → out.timed_out ≡ false
    → out.error ≡ []
    → ((outcome_task t sid out now).status ≡ completed)
      × ((outcome_task t sid out now).last_error ≡ t.last_error)
unfolding outcome_task store_session_group apply_terminal_status put_group
outcome_hidden t sid out group now several last new there in_time quiet =
    let more : ltb 1 t.num_samples ≡ true = ground arith in
    let size = length-insert_new sid (some group) t.session_groups new in
    let full : leb t.num_samples (length (insert sid (some group) t.session_groups)) ≡ true =
      ground (arith, size) in
    simp
      (outcome_task, there, quiet, store_session_group, more, apply_terminal_status, in_time, full)
      (refl, refl)

-- What the report of a timeout, with a group for the session, makes of a task of several.
outcome_timeout :
    (t : Task) (sid : Text) (out : SessionOutcome) (group : TrajectoryGroup) (now : ℕ)
    → 1 < t.num_samples
    → out.group ≡ some group
    → out.timed_out ≡ true
    → let t' = outcome_task t sid out now in
      (t'.status ≡ failed)
      × (t'.last_error ≡ timeout_error t sid out)
      × (t'.num_samples ≡ t.num_samples)
      × (t'.session_groups ≡ insert sid (some group) t.session_groups)
unfolding outcome_task store_session_group apply_terminal_status put_group
outcome_timeout t sid out group now several there late =
    let more : ltb 1 t.num_samples ≡ true = ground arith in
    simp (outcome_task, there, store_session_group, more, apply_terminal_status, late)
      (refl, refl, refl, refl)

outcome_found :
    (s : Service) (id sid : Text) (out : SessionOutcome) (now : ℕ) (t : Task)
    → lookup id s.tasks ≡ some t
    → lookup id (apply_session_outcome s id sid out now).0.tasks ≡ some (outcome_task t sid out now)
unfolding apply_session_outcome
outcome_found s id sid out now t found =
    simp (apply_session_outcome, found)
      (ground (arith, lookup-insert id id (outcome_task t sid out now) s.tasks, eq_refl id))

-- A task of several sessions of which all but two have reported: the report of a timeout of one of
-- the two, which carries a group as those of the gateway do, fails the task, with the error of the
-- report or that of the task, or else one that names the session; the report of the other, in time
-- and without an error, then completes the task, with that error kept.
pub timeout_hidden :
    (s : Service) (id lost sid : Text) (out later : SessionOutcome)
    (cut_off group : TrajectoryGroup) (now after : ℕ) (t : Task)
    → lookup id s.tasks ≡ some t
    → t.num_samples ≡ length t.session_groups + 2
    → lookup lost t.session_groups ≡ none
    → lookup sid t.session_groups ≡ none
    → (lost == sid) ≡ false
    → IsReport out cut_off true
    → IsReport later group false
    → later.error ≡ []
    → let s1 = (apply_session_outcome s id lost out now).0 in
      let s2 = (apply_session_outcome s1 id sid later after).0 in
      (t1 t2 : Task) × (lookup id s1.tasks ≡ some t1)
      × (t1.status ≡ failed)
      × (t1.last_error ≡ timeout_error t lost out)
      × (lookup id s2.tasks ≡ some t2)
      × (t2.status ≡ completed)
      × (t2.last_error ≡ timeout_error t lost out)
timeout_hidden s id lost sid out later cut_off group now after t found size new_lost new apart r q
      quiet =
    let s1 = (apply_session_outcome s id lost out now).0 in
    let t1 = outcome_task t lost out now in
    let (status, error, samples, groups) =
      outcome_timeout t lost out cut_off now (omega (arith, size)) r.0 r.1 in
    let here = outcome_found s id lost out now t found in
    let room : t1.num_samples ≤ length t1.session_groups + 1 = omega (
      arith,
      samples,
      ap length groups,
      length-insert_new lost (some cut_off) t.session_groups new_lost,
      size,
    ) in
    let new1 : lookup sid t1.session_groups ≡ none =
      ap (lookup sid) groups
      ∙ lookup-insert lost sid (some cut_off) t.session_groups
      ∙ ground (arith, apart, new) in
    let (done, kept) =
      outcome_hidden t1 sid later group after (omega (arith, samples, size)) room new1 q.0 q.1
        quiet in
    (
      t1,
      outcome_task t1 sid later after,
      here,
      status,
      error,
      outcome_found s1 id sid later after t1 here,
      done,
      kept ∙ error,
    )
