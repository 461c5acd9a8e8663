-- ===== src/Jobs.antt =====
-- The asynchronous job manager, orchestrator/internal/jobs/manager.go: a bounded queue, a bounded
-- pool of workers and the life cycle of a job. A method returns the new manager beside its result;
-- `now` is the reading of the clock that the method makes. The proofs are in the modules below.
pub mod Transitions
pub mod Ops
mod Ids
pub mod Invariant
mod Changes
mod Work
mod Closing
pub mod Steps
pub mod Lifecycle
pub mod Replies
pub mod Redact
mod Tests
use emage_code_cwso.Prelude.{
  ℕ, zero, suc, ◌+◌, ◌%◌, ◌^◌, ◌≤◌, Bool, true, false, not, ◌&&◌, ◌||◌, Option, none, some, List,
  [], ◌∷◌, ◌++◌, map, length, take, any, count_if, Text, text, if◌then◌else◌, ltb, leb, ◌==◌,
  nat_eq, text_eq,
}
use emage_code_cwso.Prelude.Int.{ℤ, pos, negsuc, is_neg, pos_part, pos_or}
use emage_code_cwso.Prelude.Map.{Map, lookup, insert, remove, count_values}
use emage_code_cwso.Prelude.Strings.{trim_space, to_lower, contains, has_prefix, decimal}

pub data State : Type 0 where
  queued running completed failed cancelled : State

abbrev pub default_workers : ℕ
default_workers = 4

abbrev pub default_queue_size : ℕ
default_queue_size = 64

pub data JobsError : Type 0 where
  queue_full job_not_found invalid_job closed_manager : JobsError

pub data Result {ℓ} (A : Type ℓ) : Type ℓ where
  ok : A → Result A
  err : JobsError → Result A

-- `Request`: of the two functions it is only recorded which are set. What the caller's function
-- returns comes with `finish_record`.
pub record Request : Type 0 where
  pub name : Text
  pub timeout : ℤ
  pub run : Bool
  pub run_result : Bool

-- `Job`, a snapshot; times are nanoseconds.
pub record Job : Type 0 where
  pub id : Text
  pub name : Text
  pub state : State
  pub error : Text
  pub result : Text
  pub created_at : ℕ
  pub started_at : Option ℕ
  pub finished_at : Option ℕ
  pub timeout : ℕ

-- What `ctx.Err()` is once the context of a job is done.
pub data CtxError : Type 0 where
  canceled deadline_exceeded : CtxError

-- `record`
pub record Record : Type 0 where
  pub job : Job
  pub with_result : Bool
  pub ctx : Option CtxError

-- The payload of a job-state notification, field by field as `publishTransition` fills it.
pub record Notice : Type 0 where
  pub job_id : Text
  pub name : Text
  pub state : State
  pub previous_state : Option State
  pub created_at : ℕ
  pub started_at : Option ℕ
  pub finished_at : Option ℕ
  pub error : Option Text
  pub result : Option Text

-- `Manager`. `busy` holds the records that workers are running, and `published` what the
-- publisher, where there is one, has been given.
pub record Manager : Type 0 where
  pub queue : List Text
  pub queue_cap : ℕ
  pub workers : ℕ
  pub has_publisher : Bool
  pub root_done : Bool
  pub closed : Bool
  pub id_seq : ℕ
  pub total_completed : ℕ
  pub total_failed : ℕ
  pub jobs : Map Text Record
  pub busy : List Text
  pub published : List Notice

abbrev pub u64 : ℕ → ℕ
u64 n = n % 2 ^ 64

unfoldable pub new_manager : ℤ → ℤ → Bool → Manager
new_manager cfg_workers cfg_queue has_publisher = record {
  queue = [];
  queue_cap = pos_or cfg_queue default_queue_size;
  workers = pos_or cfg_workers default_workers;
  has_publisher = has_publisher;
  root_done = false;
  closed = false;
  id_seq = 0;
  total_completed = 0;
  total_failed = 0;
  jobs = [];
  busy = [];
  published = [];
}

abbrev pub is_queued : State → Bool
is_queued queued = true
is_queued _ = false

abbrev pub is_running : State → Bool
is_running running = true
is_running _ = false

abbrev pub is_completed : State → Bool
is_completed completed = true
is_completed _ = false

abbrev pub is_failed : State → Bool
is_failed failed = true
is_failed _ = false

pub is_terminal : State → Bool
is_terminal completed = true
is_terminal failed = true
is_terminal cancelled = true
is_terminal _ = false

pub can_transition : State → State → Bool
can_transition queued running = true
can_transition queued cancelled = true
can_transition running completed = true
can_transition running failed = true
can_transition running cancelled = true
can_transition _ _ = false

abbrev pub sensitive_hints : List Text
sensitive_hints =
    text "authorization"
    ∷ text "bearer "
    ∷ text "token"
    ∷ text "secret"
    ∷ text "password"
    ∷ text "api_key"
    ∷ text "apikey"
    ∷ []

abbrev pub redacted : Text
redacted = text "error details redacted"

-- The end of `sanitizeErrorForBroadcast`: at most 256 bytes, and an ellipsis where any are cut.
unfoldable pub clip : Text → Text
clip trimmed = if ltb 256 (length trimmed) then take 256 trimmed ++ text "..." else trimmed

unfoldable pub sanitize_error : Text → Text
unfolding clip
sanitize_error msg =
    let trimmed = trim_space msg in
    if trimmed == []
    then []
    else if any (λ hint. contains (to_lower trimmed) hint) sensitive_hints
    then redacted
    else clip trimmed
