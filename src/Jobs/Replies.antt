-- ===== src/Jobs/Replies.antt =====
-- What callers of the job manager can rely on (orchestrator/internal/jobs/manager.go).
use emage_code_cwso.Prelude.{
  ℕ, ◌+◌, ◌^◌, ◌≤◌, ◌<◌, ◌≡◌, ◌≢◌, refl, ap, ◌∙◌, Bool, true, false, Option, none, some, List, [],
  ◌∷◌, ◌++◌, length, Text, text_eq, arith, eq_refl, Option-cases, inl, inr, lt→ltb,
}
use emage_code_cwso.Prelude.Int.{ℤ}
use emage_code_cwso.Prelude.Map.{lookup, lookup-insert, remove-insert_new}
use emage_code_cwso.Prelude.Members.{mem}
use emage_code_cwso.Jobs.{
  State, queued, running, completed, failed, cancelled, Request, Job, Record, Manager, u64,
  is_terminal, can_transition, ok, err, JobsError, new_manager,
}
use emage_code_cwso.Jobs.Transitions.{job_id, publish_queued, store_record}
use emage_code_cwso.Jobs.Ops
use emage_code_cwso.Jobs.Ops.{Event, next_id, new_record, Stats, record_running}
use emage_code_cwso.Jobs.Invariant.{IsValid, state_at}
use emage_code_cwso.Jobs.Steps.{step-IsValid, id_seq-step, run-IsValid, new_manager-IsValid}
use emage_code_cwso.Jobs.Closing.{close-IsValid, queue-close, constants-close}
use emage_code_cwso.Jobs.Lifecycle.{Follows, step-Follows}

-- A terminal state has no edge out.
terminal_stuck : (s t : State) → is_terminal s ≡ true → can_transition s t ≡ false
unfolding is_terminal can_transition
terminal_stuck completed t h = refl
terminal_stuck failed t h = refl
terminal_stuck cancelled t h = refl
terminal_stuck queued t h = cc
terminal_stuck running t h = cc

Follows-final :
    (r : Record) (o : Option Record)
    → is_terminal r.job.state ≡ true
    → Follows r o
    → (r' : Record) × (o ≡ some r') × (r'.job ≡ r.job)
Follows-final r none f h = absurd h
Follows-final r (some r') f h =
    (r', refl, ground (arith, terminal_stuck r.job.state r'.job.state f))

run-final :
    (m : Manager) (es : List Event) (id : Text) (r : Record)
    → m.id_seq + length es < 2 ^ 64
    → IsValid m
    → is_terminal r.job.state ≡ true
    → lookup id m.jobs ≡ some r
    → Ops.get (Ops.run m es) id ≡ some r.job
unfolding Ops.run Ops.get
run-final m [] id r small v f known = rw (known, Ops.get)
run-final m (e ∷ es) id r small v f known =
    let (r', there, same) =
      Follows-final r (lookup id (Ops.step m e).jobs) f
        (step-Follows m e id r (omega arith) v known) in
    run-final (Ops.step m e) es id r' (omega (arith, id_seq-step m e (omega arith)))
      (step-IsValid m e (omega arith) v) (rw same f) there
    ∙ ap some same

-- Once `Get` shows a job in a terminal state, it shows that same snapshot after any steps.
pub get-run_final :
    (m : Manager) (es : List Event) (id : Text) (j : Job)
    → m.id_seq + length es < 2 ^ 64
    → IsValid m
    → is_terminal j.state ≡ true
    → Ops.get m id ≡ some j
    → Ops.get (Ops.run m es) id ≡ some j
unfolding Ops.get
get-run_final m es id j small v f known = elim (Option-cases (lookup id m.jobs)) [
  | inl gone ↦ cc
  | inr (r, found) ↦
      let same : r.job ≡ j = ground arith in
      unfold Ops.get in run-final m es id r small v (rw same f) found ∙ ap some same
]

-- From a new manager, after any steps, no more jobs run than there are workers, no more wait than
-- the queue holds.
pub stats_bounded :
    (w q : ℤ) (p : Bool) (es : List Event)
    → length es < 2 ^ 64
    → let s = Ops.stats (Ops.run (new_manager w q p) es) in
      (s.active ≤ s.workers) × (s.queue_depth ≤ s.queue_capacity)
unfolding Ops.stats
stats_bounded w q p es small =
    let m = new_manager w q p in
    let v = run-IsValid m es (unfold new_manager in omega arith) (new_manager-IsValid w q p) in
    (omega (arith, v.active_busy, v.busy_bounded), v.queue_bounded)

-- An accepted job is stored as it was returned, queued, at the end of the queue, under a new id.
pub enqueue_ok :
    (m : Manager) (req : Request) (now : ℕ) (j : Job)
    → m.id_seq + 1 < 2 ^ 64
    → IsValid m
    → (Ops.enqueue m req now).1 ≡ ok j
    → let m' = (Ops.enqueue m req now).0 in
      (m.closed ≡ false)
      × (Ops.get m j.id ≡ none)
      × (Ops.get m' j.id ≡ some j)
      × (j.state ≡ queued)
      × (m'.queue ≡ m.queue ++ j.id ∷ [])
unfolding Ops.enqueue Ops.admit Ops.enqueue_error new_record next_id Ops.get store_record
    publish_queued
enqueue_ok m req now j small v h = ground (
  arith,
  lookup-insert (job_id now (u64 (m.id_seq + 1))) (job_id now (u64 (m.id_seq + 1)))
      (new_record m req now) m.jobs,
  v.fresh now (u64 (m.id_seq + 1)) (omega arith),
  eq_refl (job_id now (u64 (m.id_seq + 1))),
)

-- A refused job leaves the stored jobs, the queue and the notifications as they were.
pub enqueue_err :
    (m : Manager) (req : Request) (now : ℕ) (e : JobsError)
    → m.id_seq + 1 < 2 ^ 64
    → IsValid m
    → (Ops.enqueue m req now).1 ≡ err e
    → let m' = (Ops.enqueue m req now).0 in
      (m'.jobs ≡ m.jobs) × (m'.queue ≡ m.queue) × (m'.published ≡ m.published)
unfolding Ops.enqueue Ops.admit Ops.enqueue_error new_record next_id store_record publish_queued
enqueue_err m req now e small v h = ground (
  arith,
  remove-insert_new (job_id now (u64 (m.id_seq + 1))) (new_record m req now) m.jobs
      (v.fresh now (u64 (m.id_seq + 1)) (omega arith)),
)

-- The first `Close` leaves no job queued: what was queued is cancelled.
pub close_drains :
    (m : Manager) (now : ℕ) (id : Text)
    → IsValid m
    → m.closed ≡ false
    → state_at id (Ops.close m now).jobs ≢ some queued
close_drains m now id v first h =
    let waits = (close-IsValid m now v).queued_waits id h in
    cc (rw (queue-close m now first) at waits, empty id)
  where
    empty : (id : Text) → mem id [] ≡ false
    empty id = unfold mem in refl

admit_closed :
    (c : Manager) (req : Request) (now later : ℕ)
    → c.queue ≡ []
    → 0 < c.queue_cap
    → c.closed ≡ true
    → let (s, reply) = Ops.admit c (new_record c req now) (next_id c now) in
      (reply ≡ ok (new_record c req now).job)
      × (state_at (next_id c now) s.jobs ≡ some queued)
      × (s.closed ≡ true)
      × (Ops.close s later ≡ s)
unfolding Ops.admit Ops.close store_record publish_queued
admit_closed c req now later empty room shut =
    let id = next_id c now in
    let r = new_record c req now in
    rw (empty, lt→ltb 0 c.queue_cap room, shut)
      (
        refl,
        unfold new_record in ground (arith, lookup-insert id id r c.jobs, eq_refl id),
        refl,
        refl,
      )

-- `Enqueue` reads `closed` before it takes any lock. Where `Close` drains the queue between that check
-- and the send, the job is accepted, is queued in the closed manager, and closing once more does not
-- cancel it.
pub late_enqueue_stuck :
    (m : Manager) (req : Request) (closing now later : ℕ)
    → Ops.enqueue_error m req ≡ none
    → 0 < m.queue_cap
    → m.closed ≡ false
    → let c = Ops.close m closing in
      let (s, reply) = Ops.admit c (new_record c req now) (next_id c now) in
      (reply ≡ ok (new_record c req now).job)
      × (state_at (next_id c now) s.jobs ≡ some queued)
      × (s.closed ≡ true)
      × (Ops.close s later ≡ s)
late_enqueue_stuck m req closing now later free room first =
    let c = Ops.close m closing in
    let (shut, cap) = constants-close m closing first in
    admit_closed c req now later (queue-close m closing first) (rw cap room) shut
