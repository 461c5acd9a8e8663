-- ===== src/Tasks/Ops/Builds.antt =====
-- What the loop of `GenerateOfflineTask` makes of a task, session by session,
-- orchestrator/internal/rollout/service.go.
use emage_code_cwso.Prelude.{
  ℕ, ◌≤◌, ◌<◌, ◌≡◌, refl, ap, ◌∙◌, Bool, true, false, Option, none, some, List, [], ◌∷◌, any,
  length, All, Text, if◌then◌else◌, leb, ◌==◌, eq_refl, nat_eq, text_eq, arith,
}
use emage_code_cwso.Prelude.Keys.{keys, length-keys, keys-insert, add_key, add_keys, length-seen-le}
use emage_code_cwso.Prelude.Map.{lookup, insert, lookup-insert}
use emage_code_cwso.Prelude.Members.{mem}
use emage_code_cwso.Evaluators.{Registry}
use emage_code_cwso.Trajectory.{TrajectoryGroup}
use emage_code_cwso.Tasks.{
  TaskStatus, completed, PartialResult, Task, Service, Codec, Built, built, SessionError,
}
use emage_code_cwso.Tasks.Outcome.{
  partial_result_from_group, with_partial, put_group, finish_session, evaluated, complete_task,
  complete_session,
}
use emage_code_cwso.Tasks.Ops.{build_sessions}

pub with_partial-eq :
    (t : Task) (p : Option PartialResult)
    → (ps : List PartialResult) × (with_partial t p ≡ record t { partial_results = ps })
unfolding with_partial
with_partial-eq t none = (t.partial_results, refl)
with_partial-eq t (some p) = ((with_partial t (some p)).partial_results, refl)

-- A task of several sessions, and where it stands.
pub record IsOpen (all : List Text) (t : Task) : Type 0 where
  pub several : 1 < t.num_samples
  pub ids : t.session_ids ≡ all
  pub no_id : t.session_id ≡ []
  pub no_group : t.trajectory_group ≡ none
  pub no_error : t.last_error ≡ []
  pub settled : leb t.num_samples (length t.session_groups) ≡ true → t.status ≡ completed

-- What the end of one more session makes of such a task.
record Advances (all : List Text) (sid : Text) (t : Task) (r : Task × Option SessionError)
    : Type 0 where
  accepted : r.1 ≡ none
  still : IsOpen all r.0
  samples : r.0.num_samples ≡ t.num_samples
  groups : keys r.0.session_groups ≡ add_key sid (keys t.session_groups)
  status :
      r.0.status ≡ (if leb t.num_samples (length r.0.session_groups) then completed else t.status)

finish_session-Advances :
    (all : List Text) (sid : Text) (t : Task) (group : Option TrajectoryGroup) (now : ℕ)
    → IsOpen all t
    → (sid == []) ≡ false
    → mem sid all ≡ true
    → Advances all sid t (finish_session t sid group now)
unfolding finish_session put_group
finish_session-Advances all sid t group now o named known =
    let many : leb t.num_samples 1 ≡ false = ground arith in
    let inside : mem sid t.session_ids ≡ true = ap (λ l. mem sid l) o.ids ∙ known in
    simp (finish_session, many, named, inside)
      (record {
        accepted = refl;
        still = record {
          several = o.several;
          ids = o.ids;
          no_id = o.no_id;
          no_group = o.no_group;
          no_error = o.no_error;
          settled = λ full. rw full refl;
        };
        samples = refl;
        groups = keys-insert sid group t.session_groups;
        status = refl;
      })

complete_task-Advances :
    (c : Codec) (registry : Option Registry) (all : List Text) (sid : Text) (t : Task)
    (group : Option TrajectoryGroup) (now : ℕ)
    → IsOpen all t
    → (sid == []) ≡ false
    → mem sid all ≡ true
    → Advances all sid t (complete_task c registry t sid group now)
unfolding complete_task
complete_task-Advances c registry all sid t group now o named known =
    let scored = evaluated c registry t sid group in
    let (ps, e) = with_partial-eq t (partial_result_from_group c scored) in
    let noted : Task = record t { partial_results = ps } in
    let a =
      finish_session-Advances all sid noted scored now
        (record {
          several = o.several;
          ids = o.ids;
          no_id = o.no_id;
          no_group = o.no_group;
          no_error = o.no_error;
          settled = o.settled;
        })
        named known in
    rw (complete_task, e)
      (record {
        accepted = a.accepted;
        still = a.still;
        samples = a.samples;
        groups = a.groups;
        status = a.status;
      })

-- Where such a task stands once all of a list of sessions have ended.
pub record IsBuilt (all sids : List Text) (t t' : Task) : Type 0 where
  pub still : IsOpen all t'
  pub samples : t'.num_samples ≡ t.num_samples
  pub groups : keys t'.session_groups ≡ add_keys (keys t.session_groups) sids
  pub status :
      t'.status ≡ (if leb t.num_samples (length t'.session_groups) then completed else t.status)

TaskStatus_grows :
    (n small large : ℕ) (first mid last : TaskStatus)
    → small ≤ large
    → mid ≡ (if leb n small then completed else first)
    → last ≡ (if leb n large then completed else mid)
    → last ≡ (if leb n large then completed else first)
TaskStatus_grows n small large first mid last le h k = ground arith

-- The steps of one session and of the others make those of all.
IsBuilt-cons :
    (all : List Text) (sid : Text) (sids : List Text) (t : Task) (r : Task × Option SessionError)
    (t' : Task)
    → Advances all sid t r
    → IsBuilt all sids r.0 t'
    → IsBuilt all (sid ∷ sids) t t'
unfolding add_keys
IsBuilt-cons all sid sids t r t' a b =
    let grows : length r.0.session_groups ≤ length t'.session_groups = omega (
      arith,
      length-keys r.0.session_groups,
      length-keys t'.session_groups,
      ap length b.groups,
      length-seen-le (keys r.0.session_groups) sids,
    ) in
    record {
      still = b.still;
      samples = b.samples ∙ a.samples;
      groups = b.groups ∙ ap (λ l. add_keys l sids) a.groups;
      status =
          TaskStatus_grows t.num_samples (length r.0.session_groups) (length t'.session_groups)
            t.status r.0.status t'.status grows a.status (rw (← a.samples) b.status);
    }

-- The entry of a task that ends in such a way.
pub record EndsBuilt (all sids : List Text) (id : Text) (t : Task) (s : Service) : Type 0 where
  pub last : Task
  pub found : lookup id s.tasks ≡ some last
  pub built_all : IsBuilt all sids t last

TaskStatus_settled :
    (full : Bool) (status : TaskStatus)
    → (full ≡ true → status ≡ completed)
    → status ≡ (if full then completed else status)
TaskStatus_settled true status h = h refl
TaskStatus_settled false status h = refl

pub build_sessions-EndsBuilt :
    (c : Codec) (all : List Text) (id : Text) (build : Text → Built)
    (group_of : Text → TrajectoryGroup) (now : ℕ)
    → ((sid : Text) → build sid ≡ built (group_of sid))
    → (sids : List Text) (s : Service) (t : Task) → lookup id s.tasks ≡ some t
    → IsOpen all t
    → any (λ sid. sid == []) sids ≡ false
    → All (λ sid. mem sid all ≡ true) sids
    → EndsBuilt all sids id t (build_sessions c s id build sids now)
unfolding build_sessions complete_session add_keys
build_sessions-EndsBuilt c all id build group_of now builds [] s t found o named known = record {
  last = t;
  found = found;
  built_all = record {
    still = o;
    samples = refl;
    groups = refl;
    status = TaskStatus_settled (leb t.num_samples (length t.session_groups)) t.status o.settled;
  };
}
build_sessions-EndsBuilt c all id build group_of now builds (sid ∷ sids) s t found o named known =
    let r = complete_task c s.evaluators t sid (some (group_of sid)) now in
    let a =
      complete_task-Advances c s.evaluators all sid t (some (group_of sid)) now o (ground arith)
        known.0 in
    let s' : Service = record s { tasks = insert id r.0 s.tasks } in
    let there : lookup id s'.tasks ≡ some r.0 =
      ground (arith, lookup-insert id id r.0 s.tasks, eq_refl id) in
    let rest =
      build_sessions-EndsBuilt c all id build group_of now builds sids s' r.0 there a.still
        (ground arith) known.1 in
    simp (build_sessions, builds sid, complete_session, found, a.accepted)
      (record {
        last = rest.last;
        found = rest.found;
        built_all = IsBuilt-cons all sid sids t r rest.last a rest.built_all;
      })
