-- ===== src/Tasks/Ends.antt =====
-- When a task of several sessions ends, `CompleteSession` of
-- orchestrator/internal/rollout/service.go and `ApplySessionOutcome` of gateway_session.go.
use emage_code_cwso.Prelude.{
  ℕ, ◌<◌, ◌≡◌, refl, sym, ap, ◌∙◌, true, false, Option, none, some, [], length, All, Text,
  if◌then◌else◌, leb, ◌==◌, nat_eq, text_eq, arith,
}
use emage_code_cwso.Prelude.Cover.{covers, length-covers}
use emage_code_cwso.Prelude.Keys.{
  Distinct-add_key, All-add_key, keys, length-keys, keys-insert, add_key,
}
use emage_code_cwso.Prelude.Map.{lookup, insert}
use emage_code_cwso.Prelude.Members.{mem, Distinct}
use emage_code_cwso.Trajectory.{TrajectoryGroup}
use emage_code_cwso.Tasks.{completed, Task, Service, Codec}
use emage_code_cwso.Tasks.Outcome.{
  partial_result_from_group, status_after, put_group, finish_session, evaluated, complete_task,
  complete_session,
}
use emage_code_cwso.Tasks.Ops.Builds.{with_partial-eq}

-- A task of several sessions whose groups are those of its own sessions.
pub record IsTracked (t : Task) : Type 0 where
  pub several : 1 < t.num_samples
  pub enough : length t.session_ids ≡ t.num_samples
  pub distinct : Distinct t.session_ids
  pub once : Distinct (keys t.session_groups)
  pub own : All (λ sid. mem sid t.session_ids ≡ true) (keys t.session_groups)

-- What an accepted end of a session makes of such a task.
pub record IsEnded (t : Task) (sid : Text) (t' : Task) : Type 0 where
  pub tracked : IsTracked t'
  pub groups : keys t'.session_groups ≡ add_key sid (keys t.session_groups)
  pub status :
      t'.status ≡ (if covers (keys t'.session_groups) t.session_ids then completed else t.status)

put_group-IsTracked :
    (t : Task) (sid : Text) (group : Option TrajectoryGroup)
    → IsTracked t
    → mem sid t.session_ids ≡ true
    → IsTracked (put_group t sid group)
unfolding put_group
put_group-IsTracked t sid group v known =
    let e = keys-insert sid group t.session_groups in
    record {
      several = v.several;
      enough = v.enough;
      distinct = v.distinct;
      once = rw e (Distinct-add_key sid (keys t.session_groups) v.once);
      own =
          rw e
            (All-add_key (λ x. mem x t.session_ids ≡ true) sid (keys t.session_groups) known v.own);
    }

status_after-covers :
    (t : Task)
    → IsTracked t
    → status_after t
      ≡ (if covers (keys t.session_groups) t.session_ids then completed else t.status)
status_after-covers t v =
    let full = length-covers (keys t.session_groups) t.session_ids v.once v.distinct v.own in
    ap (λ b. if b then completed else t.status)
      (ap (λ n. leb n (length t.session_groups)) (sym v.enough)
        ∙ ap (λ n. leb (length t.session_ids) n) (sym (length-keys t.session_groups))
        ∙ full)

not_single : (n : ℕ) → 1 < n → leb n 1 ≡ false
not_single n h = ground arith

finish_session-IsEnded :
    (t : Task) (sid : Text) (group : Option TrajectoryGroup) (now : ℕ)
    → IsTracked t
    → (sid == []) ≡ false
    → mem sid t.session_ids ≡ true
    → ((finish_session t sid group now).1 ≡ none) × IsEnded t sid (finish_session t sid group now).0
unfolding finish_session put_group
finish_session-IsEnded t sid group now v named known =
    let many : leb t.num_samples 1 ≡ false = not_single t.num_samples v.several in
    let stored = put_group-IsTracked t sid group v known in
    simp (finish_session, many, named, known)
      (
        refl,
        record {
          tracked = record {
            several = stored.several;
            enough = stored.enough;
            distinct = stored.distinct;
            once = stored.once;
            own = stored.own;
          };
          groups = keys-insert sid group t.session_groups;
          status = status_after-covers (put_group t sid group) stored;
        },
      )

-- Of a task of several sessions whose session ids are as many as its samples and all different, and
-- whose groups are those of its own sessions, each once: a callback for one of its sessions, named by
-- its id, is accepted and keeps all this; the task is completed exactly when with it every session of the task has ended, and else keeps its status.
pub complete_session_lem :
    (c : Codec) (s : Service) (id sid : Text) (group : Option TrajectoryGroup) (now : ℕ) (t : Task)
    → lookup id s.tasks ≡ some t
    → IsTracked t
    → (sid == []) ≡ false
    → mem sid t.session_ids ≡ true
    → (t' : Task) × (complete_session c s id sid group now
        ≡ (record s { tasks = insert id t' s.tasks }, none))
      × IsEnded t sid t'
unfolding complete_session complete_task
complete_session_lem c s id sid group now t found v named known =
    let scored = evaluated c s.evaluators t sid group in
    let (ps, e) = with_partial-eq t (partial_result_from_group c scored) in
    let noted : Task = record t { partial_results = ps } in
    let (fine, ended) =
      finish_session-IsEnded noted sid scored now
        (record {
          several = v.several;
          enough = v.enough;
          distinct = v.distinct;
          once = v.once;
          own = v.own;
        })
        named known in
    (
      (finish_session noted sid scored now).0,
      simp (complete_session, found, complete_task, e, fine) refl,
      record { tracked = ended.tracked; groups = ended.groups; status = ended.status },
    )
