-- ===== src/Jobs/Closing.antt =====
-- `Close` keeps the invariant and empties the queue, orchestrator/internal/jobs/manager.go.
use emage_code_cwso.Prelude.{
  ℕ, ◌≡◌, refl, sym, ap, ◌∙◌, Bool, true, false, Option, none, some, List, [], ◌∷◌, map, Text,
  text_eq, arith, eq_refl, Option-cases, Bool-cases, inl, inr,
}
use emage_code_cwso.Prelude.Map.{Map, lookup, count_values}
use emage_code_cwso.Prelude.Members.{mem}
use emage_code_cwso.Jobs.{
  State, Record, Manager, u64, is_queued, is_running, is_completed, is_failed,
}
use emage_code_cwso.Jobs.Transitions.{job_id, cancel_ctx}
use emage_code_cwso.Jobs.Ops
use emage_code_cwso.Jobs.Ops.{
  Event, enqueues, cancels, takes, finishes, expires, closes, Outcome, record_running, verdict,
  next_id, new_record,
}
use emage_code_cwso.Jobs.Invariant.{IsValid, Valid-same_state}
use emage_code_cwso.Jobs.Changes.{Valid-skip, Valid-cancel}
use emage_code_cwso.Jobs.Work.{left_queue}

cancel_queued-IsValid :
    (m : Manager) (id : Text) (ids : List Text) (now : ℕ)
    → IsValid (record m { queue = id ∷ ids })
    → IsValid (record (Ops.cancel_queued m id now) { queue = ids })
unfolding Ops.cancel_queued
cancel_queued-IsValid m id ids now v = elim (Option-cases (lookup id m.jobs)) [
  | inl gone ↦ absurd (v.waits_known id (unfold mem in ground (arith, eq_refl id)) gone)
  | inr (r, found) ↦
      rw (found, Ops.cancel_queued)
        (elim (Bool-cases (is_queued r.job.state)) [
          | inl waits ↦ rw waits (
              Valid-skip id (Valid-cancel v id r _ found (ground arith) refl)
                (left_queue id _ m.jobs (λ q. cc)))
          | inr left ↦ rw left (
              Valid-skip id (Valid-same_state v id r _ found refl)
                (left_queue id _ m.jobs (ground arith)))
        ])
]

cancel_all_queued-IsValid :
    (m : Manager) (ids : List Text) (now : ℕ)
    → IsValid (record m { queue = ids })
    → IsValid (record (Ops.cancel_all_queued m ids now) { queue = [] })
unfolding Ops.cancel_all_queued
cancel_all_queued-IsValid m [] now v = v
cancel_all_queued-IsValid m (id ∷ ids) now v =
    cancel_all_queued-IsValid (Ops.cancel_queued m id now) ids now
      (cancel_queued-IsValid m id ids now v)

queue-cancel_all_queued :
    (m : Manager) (ids : List Text) (now : ℕ) → (Ops.cancel_all_queued m ids now).queue ≡ m.queue
unfolding Ops.cancel_all_queued Ops.cancel_queued
queue-cancel_all_queued m [] now = refl
queue-cancel_all_queued m (id ∷ ids) now =
    ground (arith, queue-cancel_all_queued (Ops.cancel_queued m id now) ids now)

abbrev pub done_ctx : Text × Record → Text × Record
done_ctx e = (e.0, record (e.1) { ctx = cancel_ctx (e.1).ctx })

abbrev pub done_record : Option Record → Option Record
done_record none = none
done_record (some r) = some (record r { ctx = cancel_ctx r.ctx })

pub lookup-done_ctx :
    (id : Text) (jobs : Map Text Record)
    → lookup id (map done_ctx jobs) ≡ done_record (lookup id jobs)
unfolding lookup
lookup-done_ctx id [] = refl
lookup-done_ctx id ((k, r) ∷ jobs) = ground (arith, lookup-done_ctx id jobs)

count_values-done_ctx :
    (p : State → Bool) (jobs : Map Text Record)
    → count_values (λ r. p r.job.state) (map done_ctx jobs) ≡ count_values (λ r. p r.job.state) jobs
count_values-done_ctx p [] = refl
count_values-done_ctx p ((k, r) ∷ jobs) = ground (arith, count_values-done_ctx p jobs)

cancel_root-IsValid : (m : Manager) → IsValid m → IsValid (Ops.cancel_root m)
unfolding Ops.cancel_root
cancel_root-IsValid m v = record {
  queue_bounded = v.queue_bounded;
  busy_bounded = v.busy_bounded;
  busy_distinct = v.busy_distinct;
  busy_runs = λ id h. ground (arith, lookup-done_ctx id m.jobs, v.busy_runs id h);
  active_busy = count_values-done_ctx is_running m.jobs ∙ v.active_busy;
  queued_waits = λ id h. ground (arith, lookup-done_ctx id m.jobs, v.queued_waits id);
  waits_known = λ id h. ground (arith, lookup-done_ctx id m.jobs, v.waits_known id h);
  fresh = λ now s h. ground (arith, lookup-done_ctx (job_id now s) m.jobs, v.fresh now s h);
  completed_counted =
      v.completed_counted ∙ ap u64 (sym (count_values-done_ctx is_completed m.jobs));
  failed_counted = v.failed_counted ∙ ap u64 (sym (count_values-done_ctx is_failed m.jobs));
}

-- Closing keeps the invariant, with the queue drained.
pub close-IsValid : (m : Manager) (now : ℕ) → IsValid m → IsValid (Ops.close m now)
unfolding Ops.close
close-IsValid m now v = elim (Bool-cases m.closed) [
  | inl twice ↦ rw twice v
  | inr first ↦
      let drained = Ops.cancel_all_queued (record m { closed = true; queue = [] }) m.queue now in
      let empty : drained.queue ≡ [] = queue-cancel_all_queued _ m.queue now in
      rw first (
        cancel_root-IsValid drained (
          rw empty
            (cancel_all_queued-IsValid (record m { closed = true; queue = [] }) m.queue now v)))
]

-- `Close` leaves nothing in the queue.
pub queue-close : (m : Manager) (now : ℕ) → m.closed ≡ false → (Ops.close m now).queue ≡ []
unfolding Ops.close Ops.cancel_root
queue-close m now first =
    rw first (queue-cancel_all_queued (record m { closed = true; queue = [] }) m.queue now)

constants-cancel_all_queued :
    (m : Manager) (ids : List Text) (now : ℕ)
    → let m' = Ops.cancel_all_queued m ids now in
      (m'.closed ≡ m.closed) × (m'.queue_cap ≡ m.queue_cap)
unfolding Ops.cancel_all_queued Ops.cancel_queued
constants-cancel_all_queued m [] now = (refl, refl)
constants-cancel_all_queued m (id ∷ ids) now =
    ground (arith, constants-cancel_all_queued (Ops.cancel_queued m id now) ids now)

-- `Close` sets the flag, and the capacity of the queue stays.
pub constants-close :
    (m : Manager) (now : ℕ)
    → m.closed ≡ false
    → ((Ops.close m now).closed ≡ true) × ((Ops.close m now).queue_cap ≡ m.queue_cap)
unfolding Ops.close Ops.cancel_root
constants-close m now first =
    rw first (constants-cancel_all_queued (record m { closed = true; queue = [] }) m.queue now)
