-- ===== src/Tasks/Ops/Offline.antt =====
-- When a task over existing sessions ends, `GenerateOfflineTask` of
-- orchestrator/internal/rollout/service.go.
use emage_code_cwso.Prelude.{
  ℕ, ◌<◌, ◌≡◌, refl, sym, ap, ◌∙◌, ◌⊎◌, inl, inr, Bool, true, false, ◌&&◌, Option, none, some, List,
  [], ◌∷◌, any, length, All, All-map, Text, if◌then◌else◌, leb, ◌==◌, eq_refl, nat_eq, text_eq,
  arith,
}
use emage_code_cwso.Prelude.Keys.{keys, length-keys, add_keys, all_new, length-add_keys}
use emage_code_cwso.Prelude.Map.{Map, lookup, insert, lookup-insert}
use emage_code_cwso.Prelude.Members.{mem}
use emage_code_cwso.Trajectory.{TrajectoryGroup}
use emage_code_cwso.Tasks.{
  running, completed, Task, Service, Codec, Built, built, build_failed, OfflineGenerateRequest,
  default_drain_limit, normalize_builder_strategy,
}
use emage_code_cwso.Tasks.Ids.{new_uuid}
use emage_code_cwso.Tasks.Views.{TaskStatusResponse, show_task, wants_group, get_task}
use emage_code_cwso.Tasks.Ops.{
  offline_error, offline_task, only_session, drain_limit_of, build_sessions, generate_offline_task,
  ok,
}
use emage_code_cwso.Tasks.Ops.Builds.{IsOpen, IsBuilt, build_sessions-EndsBuilt}

Built-cases :
    (b : Built) → ((g : TrajectoryGroup) × (b ≡ built g)) ⊎ ((why : Text) × (b ≡ build_failed why))
Built-cases (built g) = inl (g, refl)
Built-cases (build_failed why) = inr (why, refl)

mem-All : (ids : List Text) → All (λ sid. mem sid ids ≡ true) ids
unfolding mem
mem-All [] = tt
mem-All (id ∷ ids) = (
  ground (arith, eq_refl id),
  All-map {P = λ sid. mem sid ids ≡ true} {Q = λ sid. mem sid (id ∷ ids) ≡ true} ids
      (λ sid h. ground (arith, h)) (mem-All ids),
)

TaskStatus_none_yet : (n : ℕ) → 1 < n → leb n 0 ≡ true → ⊥
TaskStatus_none_yet n h full = ground arith

and_false : (b : Bool) → (b && false) ≡ false
and_false true = refl
and_false false = refl

only_session-several : (ids : List Text) → 1 < length ids → only_session ids ≡ []
unfolding only_session
only_session-several [] h = refl
only_session-several (sid ∷ []) h = absurd (omega arith)
only_session-several (sid ∷ next ∷ ids) h = refl

offline_task-IsOpen :
    (req : OfflineGenerateRequest) (id strategy : Text) (now : ℕ)
    → 1 < length req.source_session_ids
    → IsOpen req.source_session_ids (offline_task req id strategy now)
unfolding offline_task
offline_task-IsOpen req id strategy now several = record {
  several = several;
  ids = refl;
  no_id = only_session-several req.source_session_ids several;
  no_group = refl;
  no_error = refl;
  settled = λ full. absurd (TaskStatus_none_yet (length req.source_session_ids) several full);
}

offline_error-named :
    (req : OfflineGenerateRequest)
    → offline_error req ≡ none
    → any (λ sid. sid == []) req.source_session_ids ≡ false
unfolding offline_error
offline_error-named req fine = ground arith

wants_group-IsOpen :
    (c : Codec) (all : List Text) (t : Task) → IsOpen all t → wants_group c t ≡ false
unfolding wants_group
wants_group-IsOpen c all t o = simp (wants_group, o.no_id, o.no_group, and_false) refl

-- How a task of new sessions ends, by its groups.
offline_status :
    (sids : List Text) (groups : Map Text (Option TrajectoryGroup))
    → keys groups ≡ add_keys [] sids
    → leb (length sids) (length groups) ≡ all_new [] sids
offline_status sids groups e =
    let size : length groups ≡ length (add_keys [] sids) = sym (length-keys groups) ∙ ap length e in
    ap (λ n. leb (length sids) n) size
    ∙ ap (λ n. leb n (length (add_keys [] sids))) (omega arith)
    ∙ length-add_keys [] sids

IsBuilt-shown :
    (c : Codec) (payloads : Option (List Text)) (req : OfflineGenerateRequest) (id strategy : Text)
    (now : ℕ) (t : Task)
    → IsBuilt req.source_session_ids req.source_session_ids (offline_task req id strategy now) t
    → ((show_task c payloads id t).status
        ≡ (if all_new [] req.source_session_ids then completed else running))
      × ((show_task c payloads id t).error ≡ [])
unfolding show_task offline_task
IsBuilt-shown c payloads req id strategy now t b = (
  b.status
      ∙ ap (λ full. if full then completed else running)
          (offline_status req.source_session_ids t.session_groups b.groups),
  b.still.no_error,
)

-- A task with nothing to ask the client for is shown as it stands.
get_task-shown :
    (c : Codec) (s : Service) (payloads : Option (List Text)) (build : Text → Built) (id : Text)
    (t : Task)
    → lookup id s.tasks ≡ some t
    → wants_group c t ≡ false
    → get_task c s payloads (some build) id ≡ (s, some (show_task c payloads id t))
unfolding get_task
get_task-shown c s payloads build id t found quiet = elim (Built-cases (build t.session_id)) [
  | inl (g, e) ↦ simp (get_task, found, e) (rw quiet refl)
  | inr (why, e) ↦ simp (get_task, found, e) refl
]

-- Where the client builds the group of each of several sessions, the answer of
-- `GenerateOfflineTask` shows the task without an error, completed where no session is named twice,
-- and else running still.
pub generate_offline_task_lem :
    (c : Codec) (s : Service) (req : OfflineGenerateRequest) (draw : ℕ → Option (List ℕ))
    (client : ℕ → Text → Built) (group_of : Text → TrajectoryGroup) (payloads : Option (List Text))
    (now : ℕ) (id strategy : Text)
    → offline_error req ≡ none
    → 1 < length req.source_session_ids
    → normalize_builder_strategy req.trajectory_builder_strategy ≡ some strategy
    → new_uuid draw 0 ≡ some id
    → ((sid : Text) → client (drain_limit_of req) sid ≡ built (group_of sid))
    → (resp : TaskStatusResponse) × ((generate_offline_task c s req draw
          (some client)
          payloads
          now).1
        ≡ ok (some resp))
      × (resp.status ≡ (if all_new [] req.source_session_ids then completed else running))
      × (resp.error ≡ [])
unfolding generate_offline_task
generate_offline_task_lem c s req draw client group_of payloads now id strategy fine several known
      drawn builds =
    let sids = req.source_session_ids in
    let start = offline_task req id strategy now in
    let stored : Service = record s { tasks = insert id start s.tasks } in
    let there : lookup id stored.tasks ≡ some start =
      ground (arith, lookup-insert id id start s.tasks, eq_refl id) in
    let ends =
      build_sessions-EndsBuilt c sids id (client (drain_limit_of req)) group_of now builds sids
        stored start there (offline_task-IsOpen req id strategy now several)
        (offline_error-named req fine) (mem-All sids) in
    let last = ends.built_all in
    let shown =
      get_task-shown c (build_sessions c stored id (client (drain_limit_of req)) sids now) payloads
        (client default_drain_limit) id ends.last ends.found
        (wants_group-IsOpen c sids ends.last last.still) in
    let (status, no_error) = IsBuilt-shown c payloads req id strategy now ends.last last in
    (
      show_task c payloads id ends.last,
      simp (generate_offline_task, fine, known, drawn, shown) refl,
      status,
      no_error,
    )
