-- ===== src/Jobs/Lifecycle.antt =====
-- The life of one job (orchestrator/internal/jobs/manager.go): each step leaves its snapshot as it
-- was or moves its state along an edge of `canTransition`.
use emage_code_cwso.Prelude.{
  ℕ, ◌+◌, ◌^◌, ◌<◌, ◌≡◌, ◌⊎◌, refl, ap, true, Option, none, some, List, [], ◌∷◌, length, Text, ltb,
  ◌==◌, text_eq, arith, eq_iff, Option-cases, Bool-cases, inl, inr,
}
use emage_code_cwso.Prelude.Map.{lookup, insert, lookup-insert, lookup-remove}
use emage_code_cwso.Prelude.Members.{mem}
use emage_code_cwso.Jobs.{
  queued, running, cancelled, Request, Record, Manager, u64, is_queued, is_terminal, can_transition,
}
use emage_code_cwso.Jobs.Transitions.{
  job_id, publish_transition, count_total, store_record, moved, cancel_ctx, cancelled_record,
}
use emage_code_cwso.Jobs.Ops
use emage_code_cwso.Jobs.Ops.{
  Event, enqueues, cancels, takes, finishes, expires, closes, Outcome, next_id, new_record, verdict,
}
use emage_code_cwso.Jobs.Invariant.{IsValid}
use emage_code_cwso.Jobs.Work.{verdict_terminal, finish_record_allowed}
use emage_code_cwso.Jobs.Closing.{lookup-done_ctx}

-- The job is as it was, or has taken one edge of the life cycle.
abbrev pub Follows : Record → Option Record → Type 0
Follows r none = ⊥
Follows r (some r') = (r'.job ≡ r.job) ⊎ (can_transition r.job.state r'.job.state ≡ true)

module _ (m : Manager) (j : Text) (r : Record) (known : lookup j m.jobs ≡ some r) where
  enqueue-Follows :
      (req : Request) (now : ℕ)
      → m.id_seq + 1 < 2 ^ 64
      → IsValid m
      → Follows r (lookup j (Ops.enqueue m req now).0.jobs)
  unfolding Ops.enqueue Ops.admit Ops.next_id
  enqueue-Follows req now small v = ground (
    arith,
    lookup-insert (job_id now (u64 (m.id_seq + 1))) j (new_record m req now) m.jobs,
    lookup-remove (job_id now (u64 (m.id_seq + 1))) j
        (insert (job_id now (u64 (m.id_seq + 1))) (new_record m req now) m.jobs),
    v.fresh now (u64 (m.id_seq + 1)) (omega arith),
    eq_iff (job_id now (u64 (m.id_seq + 1))) j,
  )

  -- A record stored under another id, or under this one with its job kept or moved along an edge.
  store-Follows :
      (id : Text) (r' : Record)
      → (id ≡ j → (r'.job ≡ r.job) ⊎ (can_transition r.job.state r'.job.state ≡ true))
      → Follows r (lookup j (insert id r' m.jobs))
  store-Follows id r' h = ground (arith, lookup-insert id j r' m.jobs, eq_iff id j)

  same_record : (id : Text) (r' : Record) → lookup id m.jobs ≡ some r' → id ≡ j → r' ≡ r
  same_record id r' found e = cc (ap (λ k. lookup k m.jobs) e)

  stay : Follows r (lookup j m.jobs)
  stay = rw known (inl refl)

  cancel_found-Follows :
      (id : Text) (r' : Record) (now : ℕ)
      → lookup id m.jobs ≡ some r'
      → Follows r (lookup j (Ops.cancel_found m id r' now).jobs)
  unfolding Ops.cancel_found can_transition
  cancel_found-Follows id r' now found = elim (Bool-cases (is_terminal r'.job.state)) [
    | inl over ↦ rw over stay
    | inr live ↦ rw live (elim (Bool-cases (is_queued r'.job.state)) [
      | inl waits ↦
          rw waits (store-Follows id _ (λ e. inr (ground (arith, same_record id r' found e))))
      | inr runs ↦
          rw runs (store-Follows id _ (λ e. inl (ground (arith, same_record id r' found e))))
    ])
  ]

  cancel-Follows : (id : Text) (now : ℕ) → Follows r (lookup j (Ops.cancel m id now).0.jobs)
  unfolding Ops.cancel
  cancel-Follows id now = elim (Bool-cases (id == [])) [
    | inl blank ↦ rw blank stay
    | inr named ↦ rw named (elim (Option-cases (lookup id m.jobs)) [
      | inl gone ↦ rw gone stay
      | inr (r', found) ↦ rw found (cancel_found-Follows id r' now found)
    ])
  ]

  start_record-Follows :
      (ids : List Text) (now : ℕ) → Follows r (lookup j (Ops.start_record m ids now).jobs)
  unfolding Ops.start_record
  start_record-Follows [] now = stay
  start_record-Follows (id ∷ ids) now = elim (Option-cases (lookup id m.jobs)) [
    | inl gone ↦ rw gone stay
    | inr (r', found) ↦ rw found (elim (Bool-cases (can_transition r'.job.state running)) [
      | inl may ↦ rw may (store-Follows id _ (λ e. inr (ground (arith, same_record id r' found e))))
      | inr never ↦ rw never stay
    ])
  ]

  take_job-Follows : (now : ℕ) → Follows r (lookup j (Ops.take_job m now).jobs)
  unfolding Ops.take_job
  take_job-Follows now = elim (Bool-cases (ltb (length m.busy) m.workers)) [
    | inl room ↦ rw room (start_record-Follows m.queue now)
    | inr full ↦ rw full stay
  ]

  finish_record-Follows :
      (id : Text) (r' : Record) (o : Outcome) (now : ℕ)
      → lookup id m.jobs ≡ some r'
      → r'.job.state ≡ running
      → Follows r (lookup j (Ops.finish_record m id r' o now).jobs)
  unfolding publish_transition count_total store_record moved
  finish_record-Follows id r' o now found runs =
      let (ends, may) = verdict_terminal r' o runs in
      let r₁ = record r' { ctx = cancel_ctx r'.ctx } in
      let (next, msg, result) = verdict r' o in
      let r₂ = record r₁ { job = moved r'.job next msg result now } in
      rw (finish_record_allowed m id r' o now may) (
        ground (
          arith,
          lookup-insert id j r₂ (insert id r₁ m.jobs),
          lookup-insert id j r₁ m.jobs,
          same_record id r' found,
          eq_iff id j,
        ))

  finish-Follows :
      (id : Text) (o : Outcome) (now : ℕ)
      → IsValid m
      → Follows r (lookup j (Ops.finish m id o now).jobs)
  unfolding Ops.finish
  finish-Follows id o now v = elim (Bool-cases (mem id m.busy)) [
    | inr idle ↦ rw idle stay
    | inl busy ↦ rw busy (elim (Option-cases (lookup id m.jobs)) [
      | inl gone ↦ rw gone stay
      | inr (r', found) ↦
          rw found (finish_record-Follows id r' o now found (ground (arith, v.busy_runs id busy)))
    ])
  ]

  expire-Follows : (id : Text) → Follows r (lookup j (Ops.expire m id).jobs)
  unfolding Ops.expire
  expire-Follows id = elim (Option-cases (lookup id m.jobs)) [
    | inl gone ↦ rw (gone, Ops.expire) stay
    | inr (r', found) ↦
        rw (found, Ops.expire)
          (elim (Bool-cases (ltb 0 r'.job.timeout)) [
            | inl timed ↦
                rw timed (store-Follows id _ (λ e. inl (ground (arith, same_record id r' found e))))
            | inr free ↦ rw free stay
          ])
  ]

-- Draining: a job is as it was, or was queued and is cancelled.
abbrev Drained : Record → Option Record → Type 0
Drained r none = ⊥
Drained r (some r') = (r'.job ≡ r.job) ⊎ ((r.job.state ≡ queued) × (r'.job.state ≡ cancelled))

cancel_queued-Drained :
    (m : Manager) (id j : Text) (now : ℕ) (r : Record)
    → lookup j m.jobs ≡ some r
    → Drained r (lookup j (Ops.cancel_queued m id now).jobs)
unfolding Ops.cancel_queued
cancel_queued-Drained m id j now r known = elim (Option-cases (lookup id m.jobs)) [
  | inl gone ↦ rw (gone, Ops.cancel_queued) (rw known (inl refl))
  | inr (r', found) ↦
      rw (found, Ops.cancel_queued)
        (ground (
          arith,
          lookup-insert id j (cancelled_record r' now) m.jobs,
          lookup-insert id j (record r' { ctx = cancel_ctx r'.ctx }) m.jobs,
          same_record m j r known id r' found,
          eq_iff id j,
        ))
]

Drained-trans :
    (r : Record) (o : Option Record) (p : Option Record)
    → Drained r o
    → ((r' : Record) → o ≡ some r' → Drained r' p)
    → Drained r p
Drained-trans r none p h k = absurd h
Drained-trans r (some r') p h k = ground (arith, k r' refl)

cancel_all_queued-Drained :
    (m : Manager) (ids : List Text) (j : Text) (now : ℕ) (r : Record)
    → lookup j m.jobs ≡ some r
    → Drained r (lookup j (Ops.cancel_all_queued m ids now).jobs)
unfolding Ops.cancel_all_queued
cancel_all_queued-Drained m [] j now r known = rw known (inl refl)
cancel_all_queued-Drained m (id ∷ ids) j now r known =
    let m' = Ops.cancel_queued m id now in
    Drained-trans r (lookup j m'.jobs) (lookup j (Ops.cancel_all_queued m' ids now).jobs)
      (cancel_queued-Drained m id j now r known) (cancel_all_queued-Drained m' ids j now)

close-Follows :
    (m : Manager) (j : Text) (now : ℕ) (r : Record)
    → lookup j m.jobs ≡ some r
    → Follows r (lookup j (Ops.close m now).jobs)
unfolding Ops.close Ops.cancel_root can_transition
close-Follows m j now r known =
    let start = record m { closed = true; queue = [] } in
    ground (
      arith,
      cancel_all_queued-Drained start m.queue j now r known,
      lookup-done_ctx j (Ops.cancel_all_queued start m.queue now).jobs,
    )

-- One step leaves the snapshot of a known job as it was, or moves its state along an edge.
pub step-Follows :
    (m : Manager) (e : Event) (j : Text) (r : Record)
    → m.id_seq + 1 < 2 ^ 64
    → IsValid m
    → lookup j m.jobs ≡ some r
    → Follows r (lookup j (Ops.step m e).jobs)
unfolding Ops.step
step-Follows m (enqueues req now) j r small v known = enqueue-Follows m j r known req now small v
step-Follows m (cancels id now) j r small v known = cancel-Follows m j r known id now
step-Follows m (takes now) j r small v known = take_job-Follows m j r known now
step-Follows m (finishes id o now) j r small v known = finish-Follows m j r known id o now v
step-Follows m (expires id) j r small v known = expire-Follows m j r known id
step-Follows m (closes now) j r small v known = close-Follows m j now r known
