-- ===== src/Jobs/Work.antt =====
-- The worker steps keep the invariant: `worker`, `runRecord` and `transitionWithResult` of
-- orchestrator/internal/jobs/manager.go.
use emage_code_cwso.Prelude.{
  ℕ, ◌<◌, ◌≡◌, ◌≢◌, refl, ap, Bool, true, some, List, [], ◌∷◌, length, Text, ltb, text_eq, arith,
  eq_refl, Option-cases, Bool-cases, inl, inr,
}
use emage_code_cwso.Prelude.Map.{Map, lookup, insert, lookup-insert}
use emage_code_cwso.Prelude.Members.{mem, erase_one}
use emage_code_cwso.Jobs.{State, queued, running, Record, Manager, is_terminal, can_transition}
use emage_code_cwso.Jobs.Transitions.{
  publish_transition, transition_with_result, store_record, cancel_ctx, moved, count_total,
}
use emage_code_cwso.Jobs.Ops
use emage_code_cwso.Jobs.Ops.{
  Event, enqueues, cancels, takes, finishes, expires, closes, Outcome, record_running, verdict,
  next_id, new_record,
}
use emage_code_cwso.Jobs.Invariant.{IsValid, state_at, state_at-insert, Valid-same_state}
use emage_code_cwso.Jobs.Changes.{Valid-skip, Valid-start, Valid-stop}

pub left_queue :
    (id : Text) (r : Record) (jobs : Map Text Record)
    → r.job.state ≢ queued
    → state_at id (insert id r jobs) ≢ some queued
left_queue id r jobs n = ground (arith, state_at-insert id id r jobs, eq_refl id)

start_record-IsValid :
    (m : Manager) (ids : List Text) (now : ℕ)
    → length m.busy < m.workers
    → ids ≡ m.queue
    → IsValid m
    → IsValid (Ops.start_record m ids now)
unfolding Ops.start_record
start_record-IsValid m [] now room e v = v
start_record-IsValid m (id ∷ rest) now room e v =
    let v' : IsValid (record m { queue = id ∷ rest }) = rw e v in
    elim (Option-cases (lookup id m.jobs)) [
      | inl gone ↦ absurd (v'.waits_known id (unfold mem in ground (arith, eq_refl id)) gone)
      | inr (r, found) ↦ rw found (elim (Bool-cases (can_transition r.job.state running)) [
        | inl may ↦ rw may (
            Valid-skip id
              (Valid-start v' id r _ found (unfold can_transition in ground arith) refl room)
              (left_queue id _ m.jobs (λ q. cc)))
        | inr never ↦ rw never (Valid-skip id v' (unfold can_transition in ground arith))
      ])
    ]

-- A worker that takes a job keeps the invariant.
pub take_job-IsValid : (m : Manager) (now : ℕ) → IsValid m → IsValid (Ops.take_job m now)
unfolding Ops.take_job
take_job-IsValid m now v = elim (Bool-cases (ltb (length m.busy) m.workers)) [
  | inl room ↦ rw room (start_record-IsValid m m.queue now (ground arith) refl v)
  | inr full ↦ rw full v
]

pub verdict_terminal :
    (r : Record) (o : Outcome)
    → r.job.state ≡ running
    → (is_terminal (verdict r o).0 ≡ true) × (can_transition r.job.state (verdict r o).0 ≡ true)
unfolding verdict is_terminal can_transition
verdict_terminal r o h = ground arith

-- What a transition does where the state of the job allows it.
pub transition_allowed :
    (m : Manager) (id : Text) (r : Record) (next : State) (msg result : Text) (now : ℕ)
    → lookup id m.jobs ≡ some r
    → can_transition r.job.state next ≡ true
    → let j = moved r.job next msg result now in
      transition_with_result m id next msg result now ≡ (
        publish_transition
            (count_total (store_record m id (record r { job = j })) next)
            j
            r.job.state,
        true,
      )
unfolding transition_with_result
transition_allowed m id r next msg result now found may = rw found (rw may)

-- What the end of a job leaves, where its state allows the transition.
pub finish_record_allowed :
    (m : Manager) (id : Text) (r : Record) (o : Outcome) (now : ℕ)
    → can_transition r.job.state (verdict r o).0 ≡ true
    → let (next, msg, result) = verdict r o in
      let j = moved r.job next msg result now in
      let r' = record r { ctx = cancel_ctx r.ctx } in
      let done = store_record (store_record m id r') id (record r' { job = j }) in
      Ops.finish_record m id r o now
      ≡ record (publish_transition (count_total done next) j r.job.state) {
        busy = erase_one id m.busy;
      }
unfolding Ops.finish_record publish_transition count_total store_record
finish_record_allowed m id r o now may =
    let r' = record r { ctx = cancel_ctx r.ctx } in
    let found' : lookup id (insert id r' m.jobs) ≡ some r' =
      ground (arith, lookup-insert id id r' m.jobs, eq_refl id) in
    let (next, msg, result) = verdict r o in
    ap (λ (x : Manager × Bool). record (x.0) { busy = erase_one id (x.0).busy })
      (transition_allowed (store_record m id r') id r' next msg result now found' may)

finish_record-IsValid :
    (m : Manager) (id : Text) (r : Record) (o : Outcome) (now : ℕ)
    → lookup id m.jobs ≡ some r
    → mem id m.busy ≡ true
    → IsValid m
    → IsValid (Ops.finish_record m id r o now)
unfolding publish_transition count_total store_record moved
finish_record-IsValid m id r o now found busy v =
    let r' = record r { ctx = cancel_ctx r.ctx } in
    let runs : r.job.state ≡ running = ground (arith, v.busy_runs id busy) in
    let found' : lookup id (insert id r' m.jobs) ≡ some r' =
      ground (arith, lookup-insert id id r' m.jobs, eq_refl id) in
    let (ends, may) = verdict_terminal r o runs in
    rw (finish_record_allowed m id r o now may)
      (Valid-stop (Valid-same_state v id r r' found refl) id r' _ found' busy runs ends)

pub finish-IsValid :
    (m : Manager) (id : Text) (o : Outcome) (now : ℕ) → IsValid m → IsValid (Ops.finish m id o now)
unfolding Ops.finish
finish-IsValid m id o now v = elim (Bool-cases (mem id m.busy)) [
  | inr idle ↦ rw idle v
  | inl busy ↦ rw busy (elim (Option-cases (lookup id m.jobs)) [
    | inl gone ↦ rw gone v
    | inr (r, found) ↦ rw found (finish_record-IsValid m id r o now found busy v)
  ])
]

pub expire-IsValid : (m : Manager) (id : Text) → IsValid m → IsValid (Ops.expire m id)
unfolding Ops.expire
expire-IsValid m id v = elim (Option-cases (lookup id m.jobs)) [
  | inl gone ↦ rw (gone, Ops.expire) v
  | inr (r, found) ↦
      rw (found, Ops.expire)
        (elim (Bool-cases (ltb 0 r.job.timeout)) [
          | inl timed ↦ rw timed (Valid-same_state v id r _ found refl)
          | inr free ↦ rw free v
        ])
]
