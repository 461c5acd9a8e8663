-- ===== src/Tasks/Ops.antt =====
-- How tasks begin: `SubmitTask` and `GenerateOfflineTask` of orchestrator/internal/rollout/service.go.
-- What `rand.Read`, the prefix router and the trajectory client answer are arguments.
pub mod Offline
pub mod Builds
pub mod Submit
pub mod Submitted
use emage_code_cwso.Prelude.{
  ℕ, suc, ◌+◌, Bool, true, false, not, ◌&&◌, ◌||◌, Option, none, some, List, [], ◌∷◌, ◌++◌, map,
  any, length, Text, text, if◌then◌else◌, ltb, leb, ◌==◌, nat_eq, text_eq,
}
use emage_code_cwso.Prelude.Map.{insert}
use emage_code_cwso.Evaluators.{TaskSpec}
use emage_code_cwso.Trajectory.{TrajectoryGroup}
use emage_code_cwso.Tasks.{
  running, default_drain_limit, max_num_samples, SubmitRequest, SubmitResponse,
  OfflineGenerateRequest, Task, Service, Codec, SessionStart, SubmitError, client_unavailable,
  spec_required, sessions_required, too_many_samples, empty_session, no_entropy, prefix_failed,
  bad_strategy, SessionError, error_text, Built, built, build_failed, normalize_builder_strategy,
  sample_count,
}
use emage_code_cwso.Tasks.Ids.{new_uuid, new_uuids}
use emage_code_cwso.Tasks.Outcome.{complete_session, mark_task_failed}
use emage_code_cwso.Tasks.Views.{TaskStatusResponse, get_task}

abbrev pub is_blank_spec : TaskSpec → Bool
is_blank_spec spec = spec.description == [] || spec.workspace_id == []

-- What a call answers.
pub data Reply {ℓ} (A : Type ℓ) : Type ℓ where
  ok : A → Reply A
  err : SubmitError → Reply A

-- The key of the prefix, asked for unless the request says not to.
unfoldable pub prefix_key_of : SubmitRequest → (Text → Option Text) → Option Text
prefix_key_of req resolve =
    let asked = resolve req.task_spec.workspace_id in
    elim req.prewarm_kv_prefix [ none ↦ asked | some true ↦ asked | some false ↦ some [] ]

-- The task of a request that is accepted, under its id and those of its sessions.
unfoldable pub submitted_task : SubmitRequest → Text → Text → Text → List Text → ℕ → Task
submitted_task req id key strategy sids now =
    let num = sample_count req.num_samples in
    record {
      id = id;
      status = running;
      spec = req.task_spec;
      num_samples = num;
      session_id = if num == 1 then id else [];
      session_ids = if num == 1 then [] else sids;
      session_groups = [];
      callback_url = req.trainer_callback_url;
      prefix_key = key;
      trajectory_builder_strategy = strategy;
      created_at = now;
      updated_at = now;
      last_error = [];
      partial_results = [];
      trajectory_group = none;
    }

-- `startGatewaySessions`
unfoldable pub start_gateway_sessions : Task → List SessionStart
start_gateway_sessions t = elim t.session_ids [
  | [] ↦ record { task_id = t.id; session_id = t.session_id; spec = t.spec } ∷ []
  | s ∷ ss ↦
      map (λ (sid : Text). record { task_id = t.id; session_id = sid; spec = t.spec }) (s ∷ ss)
]

unfoldable pub submit_response : Task → SubmitResponse
submit_response t = record {
  task_id = t.id;
  prefix_key = t.prefix_key;
  num_samples = if ltb 1 t.num_samples then t.num_samples else 0;
  session_ids = if ltb 1 t.num_samples then t.session_ids else [];
}

-- The task that `SubmitTask` makes, or its error.
unfoldable pub new_task :
    SubmitRequest → (ℕ → Option (List ℕ)) → (Text → Option Text) → ℕ → Reply Task
new_task req draw resolve now =
    let num = sample_count req.num_samples in
    let sessions = if num == 1 then some [] else new_uuids draw 1 num in
    if is_blank_spec req.task_spec
    then err spec_required
    else if ltb max_num_samples num
    then err too_many_samples
    else elim (new_uuid draw 0) [
      | none ↦ err no_entropy
      | some id ↦ elim (prefix_key_of req resolve) [
        | none ↦ err prefix_failed
        | some key ↦ elim (normalize_builder_strategy req.trajectory_builder_strategy) [
          | none ↦ err bad_strategy
          | some strategy ↦ elim sessions [
            | none ↦ err no_entropy
            | some sids ↦ ok (submitted_task req id key strategy sids now)
          ]
        ]
      ]
    ]

-- `SubmitTask`: the new service, the answer, and the sessions that the gateway is to start.
unfoldable pub submit_task :
    Service
    → SubmitRequest
    → (ℕ → Option (List ℕ))
    → (Text → Option Text)
    → ℕ
    → Service × Reply SubmitResponse × List SessionStart
submit_task s req draw resolve now = elim (new_task req draw resolve now) [
  | err e ↦ (s, err e, [])
  | ok t ↦ (
    record s { tasks = insert t.id t s.tasks },
    ok (submit_response t),
    if s.gateway then start_gateway_sessions t else [],
  )
]

-- The first complaint of `GenerateOfflineTask`, of a service with a client.
unfoldable pub offline_error : OfflineGenerateRequest → Option SubmitError
offline_error req =
    if is_blank_spec req.task_spec
    then some spec_required
    else if length req.source_session_ids == 0
    then some sessions_required
    else if ltb max_num_samples (length req.source_session_ids)
    then some too_many_samples
    else if any (λ sid. sid == []) req.source_session_ids
    then some empty_session
    else none

-- The session of a task of one session.
unfoldable pub only_session : List Text → Text
only_session [] = []
only_session (sid ∷ []) = sid
only_session (sid ∷ next ∷ sids) = []

unfoldable pub offline_task : OfflineGenerateRequest → Text → Text → ℕ → Task
offline_task req id strategy now = record {
  id = id;
  status = running;
  spec = req.task_spec;
  num_samples = length req.source_session_ids;
  session_id = only_session req.source_session_ids;
  session_ids = req.source_session_ids;
  session_groups = [];
  callback_url = [];
  prefix_key = [];
  trajectory_builder_strategy = strategy;
  created_at = now;
  updated_at = now;
  last_error = [];
  partial_results = [];
  trajectory_group = none;
}

-- The drain limit that the client is asked with.
unfoldable pub drain_limit_of : OfflineGenerateRequest → ℕ
drain_limit_of req = if req.drain_limit == 0 then default_drain_limit else req.drain_limit

-- The loop of `GenerateOfflineTask` over the sessions; it ends at the first failure.
unfoldable pub build_sessions : Codec → Service → Text → (Text → Built) → List Text → ℕ → Service
build_sessions c s id build [] now = s
build_sessions c s id build (sid ∷ sids) now = elim (build sid) [
  | build_failed e ↦
      mark_task_failed s id (text "offline build failed for session " ++ (sid ++ (text ": " ++ e)))
        now
  | built group ↦
      let (s', e) = complete_session c s id sid (some group) now in
      elim e [
        | none ↦ build_sessions c s' id build sids now
        | some why ↦
            mark_task_failed s' id
              (text "offline complete failed for session "
                ++ (sid ++ (text ": " ++ error_text why)))
              now
      ]
]

-- `GenerateOfflineTask`. The client is asked by a drain limit for the group of a session, and may be
-- asked again when the answer is made up, at the limit of `GetTask`.
unfoldable pub generate_offline_task :
    Codec
    → Service
    → OfflineGenerateRequest
    → (ℕ → Option (List ℕ))
    → Option (ℕ → Text → Built)
    → Option (List Text)
    → ℕ
    → Service × Reply (Option TaskStatusResponse)
generate_offline_task c s req draw none payloads now = (s, err client_unavailable)
generate_offline_task c s req draw (some client) payloads now = elim (offline_error req) [
  | some e ↦ (s, err e)
  | none ↦ elim (normalize_builder_strategy req.trajectory_builder_strategy) [
    | none ↦ (s, err bad_strategy)
    | some strategy ↦ elim (new_uuid draw 0) [
      | none ↦ (s, err no_entropy)
      | some id ↦
          let stored : Service = record s {
            tasks = insert id (offline_task req id strategy now) s.tasks;
          } in
          let done =
            build_sessions c stored id (client (drain_limit_of req)) req.source_session_ids now in
          let (after, resp) = get_task c done payloads (some (client default_drain_limit)) id in
          (after, ok resp)
    ]
  ]
]
