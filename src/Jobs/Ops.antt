-- ===== src/Jobs/Ops.antt =====
-- The methods of the job manager, orchestrator/internal/jobs/manager.go, and the steps that its
-- callers, workers and timers take in any order.
use emage_code_cwso.Prelude.{
  ℕ, ◌+◌, Bool, true, not, ◌&&◌, Option, none, some, List, [], ◌∷◌, ◌++◌, map, length, Text,
  if◌then◌else◌, ltb, ◌==◌, nat_eq, text_eq,
}
use emage_code_cwso.Prelude.Int.{is_neg, pos_part}
use emage_code_cwso.Prelude.Map.{lookup, remove, count_values}
use emage_code_cwso.Prelude.Members.{mem, erase_one}
use emage_code_cwso.Jobs.{
  State, queued, running, completed, failed, cancelled, JobsError, queue_full, job_not_found,
  invalid_job, closed_manager, Result, ok, err, Request, Job, canceled, deadline_exceeded, Record,
  Manager, u64, is_queued, is_running, is_terminal,
}
use emage_code_cwso.Jobs.Transitions.{
  publish_transition, publish_queued, job_id, transition, transition_with_result, store_record,
  cancel_ctx, cancelled_record, canceled_text,
}

-- `nextID`
unfoldable pub next_id : Manager → ℕ → Text
next_id m now = job_id now (u64 (m.id_seq + 1))

-- The checks of `Enqueue`, in order.
unfoldable pub enqueue_error : Manager → Request → Option JobsError
enqueue_error m req =
    if m.closed
    then some closed_manager
    else if not req.run && not req.run_result
    then some invalid_job
    else if req.run && req.run_result
    then some invalid_job
    else if is_neg req.timeout
    then some invalid_job
    else none

unfoldable pub new_record : Manager → Request → ℕ → Record
unfolding next_id
new_record m req now = record {
  job = record {
    id = next_id m now;
    name = req.name;
    state = queued;
    error = [];
    result = [];
    created_at = now;
    started_at = none;
    finished_at = none;
    timeout = pos_part req.timeout;
  };
  with_result = req.run_result;
  ctx = if m.root_done then some canceled else none;
}

-- `Enqueue` after its checks: the record is stored, and taken out again if the queue is full.
unfoldable pub admit : Manager → Record → Text → Manager × Result Job
unfolding store_record publish_queued
admit m r id =
    let stored = store_record (record m { id_seq = u64 (m.id_seq + 1) }) id r in
    if ltb (length m.queue) m.queue_cap
    then (publish_queued (record stored { queue = m.queue ++ id ∷ [] }) r.job, ok r.job)
    else (record stored { jobs = remove id stored.jobs }, err queue_full)

-- `Enqueue`
unfoldable pub enqueue : Manager → Request → ℕ → Manager × Result Job
enqueue m req now = elim (enqueue_error m req) [
  | some e ↦ (m, err e)
  | none ↦ admit m (new_record m req now) (next_id m now)
]

-- `Cancel` of a record that is there.
unfoldable pub cancel_found : Manager → Text → Record → ℕ → Manager
unfolding is_terminal store_record publish_transition cancelled_record
cancel_found m id r now =
    let gone = cancelled_record r now in
    if is_terminal r.job.state
    then m
    else if is_queued r.job.state
    then publish_transition (store_record m id gone) gone.job queued
    else store_record m id (record r { ctx = cancel_ctx r.ctx })

-- `Cancel`
unfoldable pub cancel : Manager → Text → ℕ → Manager × Result (Unit {0})
cancel m id now = if id == [] then (m, err invalid_job) else elim (lookup id m.jobs) [
  | none ↦ (m, err job_not_found)
  | some r ↦ (cancel_found m id r now, ok tt)
]

-- `Get`
unfoldable pub get : Manager → Text → Option Job
get m id = elim (lookup id m.jobs) [ none ↦ none | some r ↦ some r.job ]

-- `cancelQueuedRecord`: the context of a record is cancelled whatever its state.
unfoldable pub cancel_queued : Manager → Text → ℕ → Manager
unfolding store_record publish_transition cancelled_record
cancel_queued m id now = elim (lookup id m.jobs) [
  | none ↦ m
  | some r ↦
      let gone = cancelled_record r now in
      if is_queued r.job.state
      then publish_transition (store_record m id gone) gone.job queued
      else store_record m id (record r { ctx = cancel_ctx r.ctx })
]

-- `cancelQueuedJobsOnClose`, over what the queue holds.
unfoldable pub cancel_all_queued : Manager → List Text → ℕ → Manager
cancel_all_queued m [] now = m
cancel_all_queued m (id ∷ ids) now = cancel_all_queued (cancel_queued m id now) ids now

-- `rootCancel()` cancels every context that is derived from the root.
unfoldable pub cancel_root : Manager → Manager
cancel_root m = record m {
  root_done = true;
  jobs = map (λ (e : Text × Record). (e.0, record (e.1) { ctx = cancel_ctx (e.1).ctx })) m.jobs;
}

-- `Close`, up to the wait for the workers.
unfoldable pub close : Manager → ℕ → Manager
close m now =
    if m.closed
    then m
    else cancel_root (cancel_all_queued (record m { closed = true; queue = [] }) m.queue now)

-- A free worker takes the head of the queue and starts it: the first half of `runRecord`.
unfoldable pub start_record : Manager → List Text → ℕ → Manager
unfolding transition
start_record m [] now = m
start_record m (id ∷ rest) now =
    let (m', started) = transition (record m { queue = rest }) id running [] now in
    if started then record m' { busy = id ∷ m'.busy } else m'

unfoldable pub take_job : Manager → ℕ → Manager
take_job m now = if ltb (length m.busy) m.workers then start_record m m.queue now else m

-- The error that the caller's function returned.
pub record RunError : Type 0 where
  pub is_canceled : Bool
  pub message : Text

-- What the caller's function returned.
pub record Outcome : Type 0 where
  pub result : Text
  pub error : Option RunError

-- The state, error text and result that the end of `runRecord` moves a job to.
unfoldable pub verdict : Record → Outcome → State × Text × Text
verdict r o = elim o.error [
  | none ↦ (completed, [], if r.with_result then o.result else [])
  | some e ↦ elim r.ctx [
    | some c ↦ (cancelled, canceled_text, [])
    | none ↦ if e.is_canceled then (cancelled, canceled_text, []) else (failed, e.message, [])
  ]
]

-- The second half of `runRecord`, after the caller's function has returned; the worker is free.
unfoldable pub finish_record : Manager → Text → Record → Outcome → ℕ → Manager
unfolding store_record
finish_record m id r o now =
    let (next, msg, result) = verdict r o in
    let done = store_record m id (record r { ctx = cancel_ctx r.ctx }) in
    let m' = (transition_with_result done id next msg result now).0 in
    record m' { busy = erase_one id m'.busy }

unfoldable pub finish : Manager → Text → Outcome → ℕ → Manager
finish m id o now =
    if mem id m.busy
    then elim (lookup id m.jobs) [ none ↦ m | some r ↦ finish_record m id r o now ]
    else m

-- The timer of a job with a timeout fires.
unfoldable pub expire : Manager → Text → Manager
unfolding store_record
expire m id = elim (lookup id m.jobs) [
  | none ↦ m
  | some r ↦
      if ltb 0 r.job.timeout
      then store_record m id
          (record r { ctx = elim r.ctx [ none ↦ some deadline_exceeded | some c ↦ some c ] })
      else m
]

-- What callers, workers and timers do; any list of events is an interleaving of them.
pub data Event : Type 0 where
  enqueues : Request → ℕ → Event
  cancels : Text → ℕ → Event
  takes : ℕ → Event
  finishes : Text → Outcome → ℕ → Event
  expires : Text → Event
  closes : ℕ → Event

unfoldable pub step : Manager → Event → Manager
step m (enqueues req now) = (enqueue m req now).0
step m (cancels id now) = (cancel m id now).0
step m (takes now) = take_job m now
step m (finishes id o now) = finish m id o now
step m (expires id) = expire m id
step m (closes now) = close m now

unfoldable pub run : Manager → List Event → Manager
run m [] = m
run m (e ∷ es) = run (step m e) es

-- `JobsSnapshot`
pub record Stats : Type 0 where
  pub workers : ℕ
  pub queue_capacity : ℕ
  pub queue_depth : ℕ
  pub active : ℕ
  pub total_completed : ℕ
  pub total_failed : ℕ

abbrev pub record_running : Record → Bool
record_running r = is_running r.job.state

-- `Stats`
unfoldable pub stats : Manager → Stats
stats m = record {
  workers = m.workers;
  queue_capacity = m.queue_cap;
  queue_depth = length m.queue;
  active = count_values record_running m.jobs;
  total_completed = m.total_completed;
  total_failed = m.total_failed;
}
