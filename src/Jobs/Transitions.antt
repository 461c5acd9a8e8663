-- ===== src/Jobs/Transitions.antt =====
-- The transitions of a job and what is published of them, `transitionWithResult` and `publish` of
-- orchestrator/internal/jobs/manager.go.
use emage_code_cwso.Prelude.{
  ℕ, ◌+◌, Bool, true, false, Option, none, some, [], ◌∷◌, ◌++◌, Text, text, if◌then◌else◌, ◌==◌,
  nat_eq, text_eq,
}
use emage_code_cwso.Prelude.Map.{lookup, insert}
use emage_code_cwso.Prelude.Strings.{decimal}
use emage_code_cwso.Jobs.{
  State, cancelled, canceled, Job, CtxError, Record, Notice, Manager, u64, is_running, is_completed,
  is_failed, is_terminal, can_transition, sanitize_error,
}

-- A map entry that is set only for a text that is not empty.
abbrev pub non_empty : Text → Option Text
non_empty [] = none
non_empty (c ∷ s) = some (c ∷ s)

unfoldable pub publish : Manager → Notice → Manager
publish m n = record m {
  published = if m.has_publisher then m.published ++ n ∷ [] else m.published;
}

pub transition_notice : Job → State → Notice
transition_notice j previous = record {
  job_id = j.id;
  name = j.name;
  state = j.state;
  previous_state = some previous;
  created_at = j.created_at;
  started_at = j.started_at;
  finished_at = j.finished_at;
  error = elim (non_empty j.error) [ none ↦ none | some e ↦ some (sanitize_error e) ];
  result = non_empty j.result;
}

unfoldable pub publish_transition : Manager → Job → State → Manager
unfolding publish transition_notice
publish_transition m j previous = publish m (transition_notice j previous)

unfoldable pub publish_queued : Manager → Job → Manager
unfolding publish
publish_queued m j = publish m (record {
  job_id = j.id;
  name = j.name;
  state = j.state;
  previous_state = none;
  created_at = j.created_at;
  started_at = none;
  finished_at = none;
  error = none;
  result = none;
})

-- `job-<nanoseconds>-<sequence number>`
unfoldable pub job_id : ℕ → ℕ → Text
job_id now seq = text "job-" ++ (decimal now ++ (b'-' ∷ decimal seq))

-- The job after a transition to `next`.
unfoldable pub moved : Job → State → Text → Text → ℕ → Job
unfolding is_terminal
moved j next msg result now = record j {
  started_at = if is_running next then some now else j.started_at;
  finished_at = if is_terminal next then some now else j.finished_at;
  state = next;
  error = msg;
  result = if result == [] then j.result else result;
}

-- The counters that a transition to `next` raises.
unfoldable pub count_total : Manager → State → Manager
count_total m next = record m {
  total_completed = if is_completed next then u64 (m.total_completed + 1) else m.total_completed;
  total_failed = if is_failed next then u64 (m.total_failed + 1) else m.total_failed;
}

unfoldable pub store_record : Manager → Text → Record → Manager
store_record m id r = record m { jobs = insert id r m.jobs }

pub transition_found : Manager → Text → Option Record → State → Text → Text → ℕ → Manager × Bool
unfolding can_transition moved count_total store_record publish_transition
transition_found m id none next msg result now = (m, false)
transition_found m id (some r) next msg result now =
    let j = moved r.job next msg result now in
    let stored = store_record m id (record r { job = j }) in
    if can_transition r.job.state next
    then (publish_transition (count_total stored next) j r.job.state, true)
    else (m, false)

-- `transitionWithResult`
unfoldable pub transition_with_result : Manager → Text → State → Text → Text → ℕ → Manager × Bool
unfolding transition_found
transition_with_result m id next msg result now =
    transition_found m id (lookup id m.jobs) next msg result now

-- `transition`
unfoldable pub transition : Manager → Text → State → Text → ℕ → Manager × Bool
unfolding transition_with_result
transition m id next msg now = transition_with_result m id next msg [] now

abbrev pub canceled_text : Text
canceled_text = text "context canceled"

-- `cancel()`: only a live context changes.
abbrev pub cancel_ctx : Option CtxError → Option CtxError
cancel_ctx none = some canceled
cancel_ctx (some e) = some e

-- A cancelled record of a job that has not started, as `Cancel` and `Close` leave it.
unfoldable pub cancelled_record : Record → ℕ → Record
cancelled_record r now = record r {
  job = record r.job { state = cancelled; error = canceled_text; finished_at = some now };
  ctx = cancel_ctx r.ctx;
}
