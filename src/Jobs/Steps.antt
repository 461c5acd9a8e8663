-- ===== src/Jobs/Steps.antt =====
-- Every step of the job manager keeps the invariant (orchestrator/internal/jobs/manager.go).
use emage_code_cwso.Prelude.{
  ℕ, ◌+◌, ◌^◌, ◌≤◌, ◌<◌, ◌≡◌, refl, Bool, true, some, List, [], ◌∷◌, length, Text, ltb, ◌==◌,
  text_eq, arith, Option-cases, Bool-cases, inl, inr,
}
use emage_code_cwso.Prelude.Int.{ℤ}
use emage_code_cwso.Prelude.Map.{lookup, remove-insert_new}
use emage_code_cwso.Prelude.Members.{mem}
use emage_code_cwso.Jobs.{
  queued, Request, Record, Manager, u64, is_queued, is_terminal, new_manager,
}
use emage_code_cwso.Jobs.Transitions.{transition_with_result}
use emage_code_cwso.Jobs.Ops
use emage_code_cwso.Jobs.Ops.{
  Event, enqueues, cancels, takes, finishes, expires, closes, Outcome, record_running, verdict,
  next_id, new_record,
}
use emage_code_cwso.Jobs.Invariant.{IsValid, Valid-same_state}
use emage_code_cwso.Jobs.Changes.{Valid-cancel, Valid-numbered, Valid-admit}
use emage_code_cwso.Jobs.Work.{take_job-IsValid, finish-IsValid, expire-IsValid}
use emage_code_cwso.Jobs.Closing.{close-IsValid}

pub new_manager-IsValid : (w q : ℤ) (p : Bool) → IsValid (new_manager w q p)
unfolding new_manager lookup mem
new_manager-IsValid w q p = record {
  queue_bounded = omega arith;
  busy_bounded = omega arith;
  busy_distinct = tt;
  busy_runs = λ id h. cc;
  active_busy = refl;
  queued_waits = λ id h. cc;
  waits_known = λ id h. cc;
  fresh = λ now s h. refl;
  completed_counted = refl;
  failed_counted = refl;
}

admit-IsValid :
    (m : Manager) (now : ℕ) (r : Record)
    → m.id_seq + 1 < 2 ^ 64
    → r.job.state ≡ queued
    → IsValid m
    → IsValid (Ops.admit m r (next_id m now)).0
unfolding Ops.admit next_id
admit-IsValid m now r small q v =
    let e : u64 (m.id_seq + 1) ≡ m.id_seq + 1 = omega arith in
    rw e (elim (Bool-cases (ltb (length m.queue) m.queue_cap)) [
      | inl room ↦ rw room (Valid-admit v now r q (ground arith))
      | inr full ↦ rw full (
          rw (remove-insert_new _ r m.jobs (v.fresh now (m.id_seq + 1) (omega arith)))
            (Valid-numbered v))
    ])

-- `Enqueue` keeps the invariant while sequence numbers do not wrap.
pub enqueue-IsValid :
    (m : Manager) (req : Request) (now : ℕ)
    → m.id_seq + 1 < 2 ^ 64
    → IsValid m
    → IsValid (Ops.enqueue m req now).0
unfolding Ops.enqueue
enqueue-IsValid m req now small v = elim (Option-cases (Ops.enqueue_error m req)) [
  | inl free ↦
      rw (free, Ops.enqueue)
        (unfold new_record in admit-IsValid m now (new_record m req now) small refl v)
  | inr (e, bad) ↦ rw (bad, Ops.enqueue) v
]

cancel_found-IsValid :
    (m : Manager) (id : Text) (r : Record) (now : ℕ)
    → lookup id m.jobs ≡ some r
    → IsValid m
    → IsValid (Ops.cancel_found m id r now)
unfolding Ops.cancel_found
cancel_found-IsValid m id r now found v = elim (Bool-cases (is_terminal r.job.state)) [
  | inl over ↦ rw over v
  | inr live ↦ rw live (elim (Bool-cases (is_queued r.job.state)) [
    | inl waits ↦ rw waits (Valid-cancel v id r _ found (ground arith) refl)
    | inr runs ↦ rw runs (Valid-same_state v id r _ found refl)
  ])
]

-- `Cancel` keeps the invariant.
pub cancel-IsValid :
    (m : Manager) (id : Text) (now : ℕ) → IsValid m → IsValid (Ops.cancel m id now).0
unfolding Ops.cancel
cancel-IsValid m id now v = elim (Bool-cases (id == [])) [
  | inl blank ↦ rw blank v
  | inr named ↦ rw named (elim (Option-cases (lookup id m.jobs)) [
    | inl gone ↦ rw gone v
    | inr (r, found) ↦ rw found (cancel_found-IsValid m id r now found v)
  ])
]

pub step-IsValid :
    (m : Manager) (e : Event) → m.id_seq + 1 < 2 ^ 64 → IsValid m → IsValid (Ops.step m e)
unfolding Ops.step
step-IsValid m (enqueues req now) small v = enqueue-IsValid m req now small v
step-IsValid m (cancels id now) small v = cancel-IsValid m id now v
step-IsValid m (takes now) small v = take_job-IsValid m now v
step-IsValid m (finishes id o now) small v = finish-IsValid m id o now v
step-IsValid m (expires id) small v = expire-IsValid m id v
step-IsValid m (closes now) small v = close-IsValid m now v

id_seq-cancel_all_queued :
    (m : Manager) (ids : List Text) (now : ℕ) → (Ops.cancel_all_queued m ids now).id_seq ≡ m.id_seq
unfolding Ops.cancel_all_queued Ops.cancel_queued
id_seq-cancel_all_queued m [] now = refl
id_seq-cancel_all_queued m (id ∷ ids) now =
    ground (arith, id_seq-cancel_all_queued (Ops.cancel_queued m id now) ids now)

id_seq-start_record :
    (m : Manager) (ids : List Text) (now : ℕ) → (Ops.start_record m ids now).id_seq ≡ m.id_seq
unfolding Ops.start_record
id_seq-start_record m [] now = refl
id_seq-start_record m (id ∷ ids) now = ground arith

-- Only `Enqueue` uses a sequence number, and only one.
pub id_seq-step :
    (m : Manager) (e : Event) → m.id_seq + 1 < 2 ^ 64 → (Ops.step m e).id_seq ≤ m.id_seq + 1
unfolding Ops.step
id_seq-step m (enqueues req now) h = unfold Ops.enqueue Ops.admit in ground arith
id_seq-step m (cancels id now) h = unfold Ops.cancel Ops.cancel_found in ground arith
id_seq-step m (takes now) h =
    unfold Ops.take_job in ground (arith, id_seq-start_record m m.queue now)
id_seq-step m (finishes id o now) h =
    unfold Ops.finish Ops.finish_record transition_with_result in ground arith
id_seq-step m (expires id) h = unfold Ops.expire in ground arith
id_seq-step m (closes now) h =
    unfold Ops.close Ops.cancel_root in
    ground (arith, id_seq-cancel_all_queued (record m { closed = true; queue = [] }) m.queue now)

-- Every interleaving of the steps of callers, workers and timers, up to 2^64 - 1 of them, keeps the
-- invariant: the queue and the busy workers within their bounds, each busy worker with its own job,
-- which runs, every queued job in the queue, no id stored beyond the counter, and both totals exact.
pub run-IsValid :
    (m : Manager) (es : List Event)
    → m.id_seq + length es < 2 ^ 64
    → IsValid m
    → IsValid (Ops.run m es)
unfolding Ops.run
run-IsValid m [] h v = v
run-IsValid m (e ∷ es) h v =
    run-IsValid (Ops.step m e) es (omega (arith, id_seq-step m e (omega arith)))
      (step-IsValid m e (omega arith) v)
