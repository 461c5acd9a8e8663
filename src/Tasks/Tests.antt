-- ===== src/Tasks/Tests.antt =====
-- Small runs of the rollout service (orchestrator/internal/rollout/service.go).
use emage_code_cwso.Prelude.{
  ℕ, ◌+◌, ◌≡◌, ◌≢◌, ◌⊎◌, refl, true, false, Option, none, some, List, [], ◌∷◌, All, replicate, Text,
  text, if◌then◌else◌, text_eq, arith,
}
use emage_code_cwso.Prelude.Int.{pos}
use emage_code_cwso.Prelude.Keys.{all_new}
use emage_code_cwso.Prelude.Map.{lookup, insert}
use emage_code_cwso.Prelude.Members.{mem}
use emage_code_cwso.Evaluators.{TaskSpec}
use emage_code_cwso.Nodes.{
  new_node_registry, active, node_not_found, register_node, deregister_stale_nodes, stale_ids,
}
use emage_code_cwso.Trajectory.{TrajectoryGroup}
use emage_code_cwso.Tasks.{
  running, completed, failed, Task, Service, Codec, SubmitRequest, OfflineGenerateRequest,
  SessionOutcome, not_found, unknown_session, built, new_service, normalize_builder_strategy,
}
use emage_code_cwso.Tasks.Ids.{uuid_of, new_uuid, hex}
use emage_code_cwso.Tasks.Outcome.{
  complete_session, apply_session_outcome, with_partial, partial_result_from_group, complete_task,
  finish_session, evaluated,
}
use emage_code_cwso.Tasks.Views.{TaskStatusResponse}
use emage_code_cwso.Tasks.Ops.{submitted_task, generate_offline_task, offline_error, ok}
use emage_code_cwso.Tasks.Ops.Offline.{generate_offline_task_lem}
use emage_code_cwso.Tasks.Fleet.{register, heartbeat, reap, forget, note_node, enter_node}
use emage_code_cwso.Tasks.Fleet.Races.{register_between_halves}
use emage_code_cwso.Tasks.Steps.{submits, completes, run, IsTask}
use emage_code_cwso.Tasks.Invariant.{run-IsTask}
use emage_code_cwso.Tasks.Ends.{IsTracked, IsEnded, complete_session_lem}
use emage_code_cwso.Tasks.Refusals.{
  IsRefused, complete_session-IsRefused, timeout_error, timeout_hidden,
}

abbrev codec : Codec
codec = record {
  format_g = λ n. [];
  partial_of = λ raw. some (record { step = pos 2; reward = 1; merge_outcome = text "success" });
  reward_of = λ payload. none;
  add = λ a b. a + b;
}

abbrev drawn : ℕ → Option (List ℕ)
drawn n = some (replicate 16 n)

abbrev spec : TaskSpec
spec = record { description = text "d"; workspace_id = text "w"; max_steps = pos 9 }

abbrev group : TrajectoryGroup
group = record {
  session_id = text "a";
  chains = [];
  rewards = [];
  metadata = (text "partial_result", text "p") ∷ [];
}

abbrev no_router : Text → Option Text
no_router workspace = some []

abbrev empty : Service
empty = new_service new_node_registry

uuid_test : uuid_of (replicate 16 0xab) ≡ text "abababab-abab-4bab-abab-abababababab"
unfolding uuid_of hex
uuid_test = refl

abbrev request : SubmitRequest
request = record {
  task_spec = spec;
  trainer_callback_url = [];
  prewarm_kv_prefix = none;
  num_samples = pos 2;
  trajectory_builder_strategy = [];
}

abbrev accepted : Task
accepted =
    submitted_task request (uuid_of (replicate 16 0)) [] []
      (uuid_of (replicate 16 1) ∷ uuid_of (replicate 16 2) ∷ []) 5

abbrev repeated : OfflineGenerateRequest
repeated = record {
  task_spec = spec;
  source_session_ids = text "a" ∷ text "a" ∷ [];
  drain_limit = 0;
  trajectory_builder_strategy = [];
}

repeated_fine : offline_error repeated ≡ none
unfolding offline_error
repeated_fine = refl

plain_strategy : normalize_builder_strategy [] ≡ some []
unfolding normalize_builder_strategy
plain_strategy = refl

id_drawn : new_uuid drawn 0 ≡ some (uuid_of (replicate 16 0))
unfolding new_uuid
id_drawn = refl

generate_offline_task_lem_example :
    (resp : TaskStatusResponse) × ((generate_offline_task codec empty repeated drawn
        (some (λ limit sid. built group))
        none
        5).1
      ≡ ok (some resp))
    × (resp.status ≡ (if all_new [] repeated.source_session_ids then completed else running))
    × (resp.error ≡ [])
generate_offline_task_lem_example =
    generate_offline_task_lem codec empty repeated drawn (λ limit sid. built group) (λ sid. group)
      none 5 (uuid_of (replicate 16 0)) [] repeated_fine (omega arith) plain_strategy id_drawn
      (λ sid. refl)

run-IsTask_example :
    All IsTask
      (run empty
        (submits request drawn no_router 5 ∷ completes codec (text "x") [] none 6 ∷ [])).tasks
unfolding new_service
run-IsTask_example =
    run-IsTask empty (submits request drawn no_router 5 ∷ completes codec (text "x") [] none 6 ∷ [])
      tt

-- A task of two sessions, the first of which has ended.
abbrev half_done : Task
half_done = record {
  id = text "t";
  status = failed;
  spec = spec;
  num_samples = 2;
  session_id = [];
  session_ids = text "a" ∷ text "b" ∷ [];
  session_groups = (text "a", some group) ∷ [];
  callback_url = [];
  prefix_key = [];
  trajectory_builder_strategy = [];
  created_at = 1;
  updated_at = 1;
  last_error = text "session timeout";
  partial_results = [];
  trajectory_group = none;
}

abbrev one_task : Service
one_task = record empty { tasks = (text "t", half_done) ∷ [] }

stored : lookup (text "t") one_task.tasks ≡ some half_done
unfolding lookup
stored = refl

known : mem (text "b") half_done.session_ids ≡ true
unfolding mem
known = refl

half_done-IsTracked : IsTracked half_done
unfolding mem
half_done-IsTracked = record {
  several = omega arith;
  enough = refl;
  distinct = (refl, (refl, tt));
  once = (refl, tt);
  own = (refl, tt);
}

complete_session_lem_example :
    (t' : Task) × (complete_session codec one_task (text "t") (text "b") (some group) 7
      ≡ (record one_task { tasks = insert (text "t") t' one_task.tasks }, none))
    × IsEnded half_done (text "b") t'
complete_session_lem_example =
    complete_session_lem codec one_task (text "t") (text "b") (some group) 7 half_done stored
      half_done-IsTracked refl known

refused : (complete_session codec one_task (text "t") (text "c") none 7).1 ≡ some unknown_session
unfolding complete_session complete_task finish_session evaluated lookup mem with_partial
    partial_result_from_group new_service
refused = refl

complete_session-IsRefused_example :
    ((unknown_session ≡ not_found)
      × ((complete_session codec one_task (text "t") (text "c") none 7).0 ≡ one_task))
    ⊎ ((unknown_session ≢ not_found)
        × IsRefused one_task
            (text "t")
            (complete_session codec one_task (text "t") (text "c") none 7).0)
complete_session-IsRefused_example =
    complete_session-IsRefused codec one_task (text "t") (text "c") none 7 unknown_session refused

abbrev in_time : SessionOutcome
in_time = record { status = completed; error = []; group = some group; timed_out = false }

abbrev too_late : SessionOutcome
too_late = record {
  status = failed;
  error = text "session timeout";
  group = some group;
  timed_out = true;
}

abbrev unreported : Task
unreported = record half_done { session_groups = []; last_error = [] }

abbrev two_open : Service
two_open = record empty { tasks = (text "t", unreported) ∷ [] }

unreported_stored : lookup (text "t") two_open.tasks ≡ some unreported
unfolding lookup
unreported_stored = refl

none_open : (sid : Text) → lookup sid unreported.session_groups ≡ none
unfolding lookup
none_open sid = refl

timeout_hidden_example :
    let s1 = (apply_session_outcome two_open (text "t") (text "a") too_late 7).0 in
    let s2 = (apply_session_outcome s1 (text "t") (text "b") in_time 8).0 in
    (t1 t2 : Task) × (lookup (text "t") s1.tasks ≡ some t1)
    × (t1.status ≡ failed)
    × (t1.last_error ≡ timeout_error unreported (text "a") too_late)
    × (lookup (text "t") s2.tasks ≡ some t2)
    × (t2.status ≡ completed)
    × (t2.last_error ≡ timeout_error unreported (text "a") too_late)
timeout_hidden_example =
    timeout_hidden two_open (text "t") (text "a") (text "b") too_late in_time group group 7 8
      unreported unreported_stored (omega arith) (none_open (text "a")) (none_open (text "b")) refl
      (refl, refl) (refl, refl) refl

abbrev one_node : Service
one_node = (register empty (text "n") 1).0

swept : mem (text "n") (reap one_node (pos 90) 200).1 ≡ true
unfolding new_service new_node_registry register note_node enter_node register_node insert reap
    deregister_stale_nodes stale_ids mem
swept = refl

n_named : text "n" ≢ []
n_named e = cc e

register_between_halves_example :
    let (reaped, ids) = reap one_node (pos 90) 200 in
    let s' = forget (register reaped (text "n") 201).0 ids in
    ((register reaped (text "n") 201).1 ≡ none)
    × (lookup (text "n") s'.node_registry.nodes
        ≡ some (record {
          node_id = text "n";
          registered_at = 201;
          last_heartbeat = 201;
          status = active;
        }))
    × (heartbeat s' (text "n") 230 ≡ (s', some (node_not_found (text "n"))))
register_between_halves_example =
    register_between_halves one_node (text "n") (pos 90) 200 201 230 n_named swept
