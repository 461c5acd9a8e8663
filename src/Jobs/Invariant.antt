-- ===== src/Jobs/Invariant.antt =====
-- What holds of the job manager between two steps, and the changes that keep it
-- (orchestrator/internal/jobs/manager.go).
use emage_code_cwso.Prelude.{
  ℕ, ◌≤◌, ◌<◌, ◌≡◌, ◌≢◌, Bool, true, Option, none, some, List, length, Text, if◌then◌else◌, ◌==◌,
  text_eq, arith, eq_iff,
}
use emage_code_cwso.Prelude.Map.{
  Map, lookup, insert, count_values, lookup-insert, count_values-insert_old,
}
use emage_code_cwso.Prelude.Members.{mem, Distinct}
use emage_code_cwso.Jobs.{State, queued, running, Record, Manager, u64, is_completed, is_failed}
use emage_code_cwso.Jobs.Transitions.{job_id}
use emage_code_cwso.Jobs.Ops.{record_running}

abbrev pub state_in : Option Record → Option State
state_in none = none
state_in (some r) = some r.job.state

abbrev pub state_at : Text → Map Text Record → Option State
state_at id jobs = state_in (lookup id jobs)

abbrev pub record_completed : Record → Bool
record_completed r = is_completed r.job.state

abbrev pub record_failed : Record → Bool
record_failed r = is_failed r.job.state

-- The fields of a manager, but for its constants and what it has published.
pub record Valid (queue : List Text) (cap : ℕ) (busy : List Text) (workers : ℕ)
    (jobs : Map Text Record) (seq done lost : ℕ) : Type 0 where
  pub queue_bounded : length queue ≤ cap
  pub busy_bounded : length busy ≤ workers
  pub busy_distinct : Distinct busy
  pub busy_runs : (id : Text) → mem id busy ≡ true → state_at id jobs ≡ some running
  pub active_busy : count_values record_running jobs ≡ length busy
  pub queued_waits : (id : Text) → state_at id jobs ≡ some queued → mem id queue ≡ true
  pub waits_known : (id : Text) → mem id queue ≡ true → lookup id jobs ≢ none
  pub fresh : (now s : ℕ) → seq < s → lookup (job_id now s) jobs ≡ none
  pub completed_counted : done ≡ u64 (count_values record_completed jobs)
  pub failed_counted : lost ≡ u64 (count_values record_failed jobs)

abbrev pub IsValid : Manager → Type 0
IsValid m =
    Valid m.queue m.queue_cap m.busy m.workers m.jobs m.id_seq m.total_completed m.total_failed

-- How storing a record changes what the map shows.
pub state_at-insert :
    (id j : Text) (r : Record) (jobs : Map Text Record)
    → state_at j (insert id r jobs) ≡ (if id == j then some r.job.state else state_at j jobs)
state_at-insert id j r jobs = ground (arith, lookup-insert id j r jobs)

module _ {queue : List Text} {cap : ℕ} {busy : List Text} {workers : ℕ} {jobs : Map Text Record}
    {seq done lost : ℕ} (v : Valid queue cap busy workers jobs seq done lost) (id : Text)
    (r r' : Record) (found : lookup id jobs ≡ some r) where
  pub insert-fresh : (now s : ℕ) → seq < s → lookup (job_id now s) (insert id r' jobs) ≡ none
  insert-fresh now s h =
      ground
        (arith, lookup-insert id (job_id now s) r' jobs, v.fresh now s h, eq_iff id (job_id now s))

  pub insert-known : (j : Text) → lookup j jobs ≢ none → lookup j (insert id r' jobs) ≢ none
  insert-known j h = ground (arith, lookup-insert id j r' jobs)

  -- A record may change as long as its job keeps its state.
  pub Valid-same_state :
      r'.job.state ≡ r.job.state → Valid queue cap busy workers (insert id r' jobs) seq done lost
  Valid-same_state e = record {
    queue_bounded = v.queue_bounded;
    busy_bounded = v.busy_bounded;
    busy_distinct = v.busy_distinct;
    busy_runs = λ j h. ground (arith, state_at-insert id j r' jobs, v.busy_runs j h, eq_iff id j);
    active_busy =
        ground (arith, count_values-insert_old record_running id r' r jobs, v.active_busy);
    queued_waits =
        λ j h. ground (arith, state_at-insert id j r' jobs, v.queued_waits j, eq_iff id j);
    waits_known = λ j h. insert-known j (v.waits_known j h);
    fresh = insert-fresh;
    completed_counted =
        ground (arith, count_values-insert_old record_completed id r' r jobs, v.completed_counted);
    failed_counted =
        ground (arith, count_values-insert_old record_failed id r' r jobs, v.failed_counted);
  }
