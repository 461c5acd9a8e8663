-- ===== src/Jobs/Changes.antt =====
-- The changes that the methods of the job manager make, each of which keeps the invariant
-- (orchestrator/internal/jobs/manager.go).
use emage_code_cwso.Prelude.{
  ℕ, ◌+◌, ◌<◌, ◌≡◌, ◌≢◌, true, false, none, some, List, [], ◌∷◌, ◌++◌, length, length-append, Text,
  if◌then◌else◌, text_eq, arith, eq_iff,
}
use emage_code_cwso.Prelude.Map.{
  Map, lookup, insert, lookup-insert, count_values-insert_old, count_values-insert_new,
}
use emage_code_cwso.Prelude.Members.{
  mem, erase_one, mem-append, mem-erase_one, Distinct-erase_one, length-erase_one,
}
use emage_code_cwso.Jobs.{
  queued, running, cancelled, Record, u64, is_completed, is_failed, is_terminal,
}
use emage_code_cwso.Jobs.Transitions.{job_id}
use emage_code_cwso.Jobs.Ids.{job_id_ne}
use emage_code_cwso.Jobs.Ops.{record_running}
use emage_code_cwso.Jobs.Invariant.{
  Valid, state_at, state_at-insert, insert-fresh, insert-known, record_completed, record_failed,
}

module _ {ids : List Text} {cap : ℕ} {busy : List Text} {workers : ℕ} {jobs : Map Text Record}
    {seq done lost : ℕ} (id : Text) (v : Valid (id ∷ ids) cap busy workers jobs seq done lost) where
  -- The head of the queue is dropped where its job is no longer queued.
  pub Valid-skip : state_at id jobs ≢ some queued → Valid ids cap busy workers jobs seq done lost
  unfolding mem
  Valid-skip n = record {
    queue_bounded = omega (arith, v.queue_bounded);
    busy_bounded = v.busy_bounded;
    busy_distinct = v.busy_distinct;
    busy_runs = v.busy_runs;
    active_busy = v.active_busy;
    queued_waits = λ j h. ground (arith, v.queued_waits j h, eq_iff id j);
    waits_known = λ j h. v.waits_known j (ground arith);
    fresh = v.fresh;
    completed_counted = v.completed_counted;
    failed_counted = v.failed_counted;
  }

module _ {queue : List Text} {cap : ℕ} {busy : List Text} {workers : ℕ} {jobs : Map Text Record}
    {seq done lost : ℕ} (v : Valid queue cap busy workers jobs seq done lost) (id : Text)
    (r r' : Record) (found : lookup id jobs ≡ some r) where
  not_busy : r.job.state ≡ queued → mem id busy ≡ false
  not_busy q = ground (arith, v.busy_runs id)

  -- A queued job is cancelled.
  pub Valid-cancel :
      r.job.state ≡ queued
      → r'.job.state ≡ cancelled
      → Valid queue cap busy workers (insert id r' jobs) seq done lost
  Valid-cancel q c = record {
    queue_bounded = v.queue_bounded;
    busy_bounded = v.busy_bounded;
    busy_distinct = v.busy_distinct;
    busy_runs = λ j h. ground (arith, state_at-insert id j r' jobs, v.busy_runs j h, eq_iff id j);
    active_busy =
        ground (arith, count_values-insert_old record_running id r' r jobs, v.active_busy);
    queued_waits =
        λ j h. ground (arith, state_at-insert id j r' jobs, v.queued_waits j, eq_iff id j);
    waits_known = λ j h. insert-known v id r r' found j (v.waits_known j h);
    fresh = insert-fresh v id r r' found;
    completed_counted =
        ground (arith, count_values-insert_old record_completed id r' r jobs, v.completed_counted);
    failed_counted =
        ground (arith, count_values-insert_old record_failed id r' r jobs, v.failed_counted);
  }

  -- A worker starts a queued job.
  pub Valid-start :
      r.job.state ≡ queued
      → r'.job.state ≡ running
      → length busy < workers
      → Valid queue cap (id ∷ busy) workers (insert id r' jobs) seq done lost
  unfolding mem
  Valid-start q c room = record {
    queue_bounded = v.queue_bounded;
    busy_bounded = room;
    busy_distinct = (not_busy q, v.busy_distinct);
    busy_runs = λ j h. ground (arith, state_at-insert id j r' jobs, v.busy_runs j, eq_iff id j);
    active_busy =
        ground (arith, count_values-insert_old record_running id r' r jobs, v.active_busy);
    queued_waits =
        λ j h. ground (arith, state_at-insert id j r' jobs, v.queued_waits j, eq_iff id j);
    waits_known = λ j h. insert-known v id r r' found j (v.waits_known j h);
    fresh = insert-fresh v id r r' found;
    completed_counted =
        ground (arith, count_values-insert_old record_completed id r' r jobs, v.completed_counted);
    failed_counted =
        ground (arith, count_values-insert_old record_failed id r' r jobs, v.failed_counted);
  }

  -- A worker ends a running job, and the counter of its new state is raised.
  pub Valid-stop :
      mem id busy ≡ true
      → r.job.state ≡ running
      → is_terminal r'.job.state ≡ true
      → Valid queue cap
          (erase_one id busy)
          workers
          (insert id r' jobs)
          seq
          (if is_completed r'.job.state then u64 (done + 1) else done)
          (if is_failed r'.job.state then u64 (lost + 1) else lost)
  unfolding is_terminal
  Valid-stop b q c = record {
    queue_bounded = v.queue_bounded;
    busy_bounded = omega (arith, length-erase_one id busy b, v.busy_bounded);
    busy_distinct = Distinct-erase_one id busy v.busy_distinct;
    busy_runs = λ j h. ground (
      arith,
      state_at-insert id j r' jobs,
      mem-erase_one id j busy v.busy_distinct,
      v.busy_runs j,
      eq_iff id j,
    );
    active_busy = ground (
      arith,
      count_values-insert_old record_running id r' r jobs,
      v.active_busy,
      length-erase_one id busy b,
    );
    queued_waits =
        λ j h. ground (arith, state_at-insert id j r' jobs, v.queued_waits j, eq_iff id j);
    waits_known = λ j h. insert-known v id r r' found j (v.waits_known j h);
    fresh = insert-fresh v id r r' found;
    completed_counted =
        ground (arith, count_values-insert_old record_completed id r' r jobs, v.completed_counted);
    failed_counted =
        ground (arith, count_values-insert_old record_failed id r' r jobs, v.failed_counted);
  }

module _ {queue : List Text} {cap : ℕ} {busy : List Text} {workers : ℕ} {jobs : Map Text Record}
    {seq done lost : ℕ} (v : Valid queue cap busy workers jobs seq done lost) where
  -- A sequence number is used up.
  pub Valid-numbered : Valid queue cap busy workers jobs (seq + 1) done lost
  Valid-numbered = record {
    queue_bounded = v.queue_bounded;
    busy_bounded = v.busy_bounded;
    busy_distinct = v.busy_distinct;
    busy_runs = v.busy_runs;
    active_busy = v.active_busy;
    queued_waits = v.queued_waits;
    waits_known = v.waits_known;
    fresh = λ now s h. v.fresh now s (omega arith);
    completed_counted = v.completed_counted;
    failed_counted = v.failed_counted;
  }

  -- A new job is stored under the next number and waits at the end of the queue.
  pub Valid-admit :
      (now : ℕ) (r : Record)
      → r.job.state ≡ queued
      → length queue < cap
      → Valid
          (queue ++ job_id now (seq + 1) ∷ [])
          cap
          busy
          workers
          (insert (job_id now (seq + 1)) r jobs)
          (seq + 1)
          done
          lost
  unfolding mem
  Valid-admit now r q room =
      let id = job_id now (seq + 1) in
      let new : lookup id jobs ≡ none = v.fresh now (seq + 1) (omega arith) in
      record {
        queue_bounded = omega (arith, length-append queue (id ∷ []));
        busy_bounded = v.busy_bounded;
        busy_distinct = v.busy_distinct;
        busy_runs =
            λ j h. ground (arith, state_at-insert id j r jobs, v.busy_runs j h, eq_iff id j);
        active_busy =
            ground (arith, count_values-insert_new record_running id r jobs, v.active_busy);
        queued_waits = λ j h. ground (
          arith,
          state_at-insert id j r jobs,
          v.queued_waits j,
          eq_iff id j,
          mem-append j queue (id ∷ []),
        );
        waits_known = λ j h.
            ground
              (arith, lookup-insert id j r jobs, v.waits_known j, mem-append j queue (id ∷ []));
        fresh = λ now' s h. ground (
          arith,
          lookup-insert id (job_id now' s) r jobs,
          v.fresh now' s (omega arith),
          eq_iff id (job_id now' s),
          job_id_ne now now' (seq + 1) s h,
        );
        completed_counted =
            ground (arith, count_values-insert_new record_completed id r jobs, v.completed_counted);
        failed_counted =
            ground (arith, count_values-insert_new record_failed id r jobs, v.failed_counted);
      }
