-- ===== src/Nodes.antt =====
-- The registry of executor nodes, orchestrator/internal/rollout/node_registry.go: liveness by
-- heartbeats and the round robin of tasks over the active nodes. Times are nanoseconds since the
-- year 1; a difference of two times is taken to fit a `time.Duration`. What `GetActiveNodes` and
-- `GetAssignedTasks` list is in an order that Go leaves open. The proofs are in the modules below.
pub mod Active
pub mod Assign
pub mod Liveness
mod Tests
use emage_code_cwso.Prelude.{
  ℕ, zero, suc, ◌+◌, ◌-◌, ◌%◌, ◌^◌, Bool, true, false, not, ◌&&◌, Option, none, some, List, [], ◌∷◌,
  map, select, length, get_elem?, Text, if◌then◌else◌, ltb, ◌==◌, nat_eq, text_eq,
}
use emage_code_cwso.Prelude.Int.{ℤ, pos, negsuc}
use emage_code_cwso.Prelude.Map.{Map, lookup, insert, remove}
use emage_code_cwso.Prelude.Sort.{sort_by}

pub data NodeStatus : Type 0 where
  active inactive deregistering : NodeStatus

pub data TaskStatus : Type 0 where
  pending acknowledged completed : TaskStatus

-- `RegistryNode`
pub record RegistryNode : Type 0 where
  pub node_id : Text
  pub registered_at : ℕ
  pub last_heartbeat : ℕ
  pub status : NodeStatus

-- `TaskAssignment`
pub record TaskAssignment : Type 0 where
  pub task_id : Text
  pub session_id : Text
  pub node_id : Text
  pub assigned_at : ℕ
  pub status : TaskStatus

-- `NodeRegistry`; the index is kept as the 64 bits of an int.
pub record NodeRegistry : Type 0 where
  pub nodes : Map Text RegistryNode
  pub assignments : Map Text TaskAssignment
  pub last_assigned_idx : ℕ

pub data NodeError : Type 0 where
  node_id_required task_id_required session_id_required : NodeError
  node_not_found task_not_assigned : Text → NodeError
  no_available_nodes : NodeError
  -- an index out of range
  panics : NodeError

-- `NewNodeRegistry`
unfoldable pub new_node_registry : NodeRegistry
new_node_registry = record { nodes = []; assignments = []; last_assigned_idx = 0 }

-- `RegisterNode`
unfoldable pub register_node : NodeRegistry → Text → ℕ → NodeRegistry × Option NodeError
register_node nr node_id now =
    let node : RegistryNode = record {
      node_id = node_id;
      registered_at = now;
      last_heartbeat = now;
      status = active;
    } in
    if node_id == []
    then (nr, some node_id_required)
    else (record nr { nodes = insert node_id node nr.nodes }, none)

-- `DeregisterNode`
unfoldable pub deregister_node : NodeRegistry → Text → NodeRegistry × Option NodeError
deregister_node nr node_id =
    if node_id == [] then (nr, some node_id_required) else elim (lookup node_id nr.nodes) [
      | none ↦ (nr, some (node_not_found node_id))
      | some node ↦ (record nr { nodes = remove node_id nr.nodes }, none)
    ]

-- `HeartbeatNode`
unfoldable pub heartbeat_node : NodeRegistry → Text → ℕ → NodeRegistry × Option NodeError
heartbeat_node nr node_id now = elim (lookup node_id nr.nodes) [
  | none ↦ (nr, some (node_not_found node_id))
  | some node ↦ (
    record nr {
      nodes = insert node_id (record node { last_heartbeat = now; status = active }) nr.nodes;
    },
    none,
  )
]

abbrev pub is_active : RegistryNode → Bool
is_active node = elim node.status [ active ↦ true | _ ↦ false ]

abbrev pub is_pending : TaskAssignment → Bool
is_pending a = elim a.status [ pending ↦ true | _ ↦ false ]

abbrev pub values {ℓ} : {V : Type ℓ} → Map Text V → List V
values [] = []
values ((k, v) ∷ m) = v ∷ values m

-- `GetActiveNodes`
unfoldable pub get_active_nodes : NodeRegistry → List RegistryNode
get_active_nodes nr = select is_active (values nr.nodes)

-- `getActiveNodesLocked`
unfoldable pub get_active_nodes_locked : NodeRegistry → List RegistryNode
get_active_nodes_locked nr =
    sort_by (λ (n : RegistryNode). n.node_id) (select is_active (values nr.nodes))

-- `idx % n` on a signed index: the remainder of a negative one is not positive, so that it is an
-- index only where it is 0.
unfoldable pub round_robin : ℕ → ℕ → Option ℕ
round_robin idx n =
    if ltb idx (2 ^ 63) then some (idx % n) else if (2 ^ 64 - idx) % n == 0 then some 0 else none

-- The node that is selected of those that are active.
unfoldable pub selected_node : ℕ → List RegistryNode → Option RegistryNode
selected_node idx nodes = elim (round_robin idx (length nodes)) [
  | none ↦ none
  | some i ↦ get_elem? nodes i
]

-- `AssignTask`, once a node is selected.
unfoldable pub assign_to : NodeRegistry → Text → Text → RegistryNode → ℕ → NodeRegistry
assign_to nr task_id session_id node now = record nr {
  last_assigned_idx = (nr.last_assigned_idx + 1) % 2 ^ 64;
  assignments =
      insert task_id
        (record {
          task_id = task_id;
          session_id = session_id;
          node_id = node.node_id;
          assigned_at = now;
          status = pending;
        })
        nr.assignments;
}

pub data AssignResult : Type 0 where
  assigned : Text → AssignResult
  refused : NodeError → AssignResult

-- `AssignTask`
unfoldable pub assign_task : NodeRegistry → Text → Text → ℕ → NodeRegistry × AssignResult
assign_task nr task_id session_id now =
    if task_id == []
    then (nr, refused task_id_required)
    else if session_id == []
    then (nr, refused session_id_required)
    else if length (get_active_nodes_locked nr) == 0
    then (nr, refused no_available_nodes)
    else elim (selected_node nr.last_assigned_idx (get_active_nodes_locked nr)) [
      | none ↦ (nr, refused panics)
      | some node ↦ (assign_to nr task_id session_id node now, assigned node.node_id)
    ]

-- `GetAssignedTasks`
unfoldable pub get_assigned_tasks : NodeRegistry → Text → List TaskAssignment
get_assigned_tasks nr node_id =
    select (λ (a : TaskAssignment). a.node_id == node_id && is_pending a) (values nr.assignments)

unfoldable pub mark_task : NodeRegistry → Text → TaskStatus → NodeRegistry × Option NodeError
mark_task nr task_id status = elim (lookup task_id nr.assignments) [
  | none ↦ (nr, some (task_not_assigned task_id))
  | some a ↦ (
    record nr { assignments = insert task_id (record a { status = status }) nr.assignments },
    none,
  )
]

-- `MarkTaskAcknowledged`
unfoldable pub mark_task_acknowledged : NodeRegistry → Text → NodeRegistry × Option NodeError
mark_task_acknowledged nr task_id = mark_task nr task_id acknowledged

-- `MarkTaskCompleted`
unfoldable pub mark_task_completed : NodeRegistry → Text → NodeRegistry × Option NodeError
mark_task_completed nr task_id = mark_task nr task_id completed

-- `NodeCount`
unfoldable pub node_count : NodeRegistry → ℕ
node_count nr = length nr.nodes

-- `now.Sub(heartbeat) > maxAge`
abbrev pub is_stale : ℕ → ℤ → RegistryNode → Bool
is_stale now max_age node = elim max_age [
  | pos a ↦ ltb (node.last_heartbeat + a) now
  | negsuc a ↦ ltb node.last_heartbeat (now + a + 1)
]

unfoldable pub without_stale : ℕ → ℤ → Map Text RegistryNode → Map Text RegistryNode
without_stale now max_age [] = []
without_stale now max_age ((id, node) ∷ m) =
    let rest = without_stale now max_age m in
    if is_stale now max_age node then rest else (id, node) ∷ rest

unfoldable pub stale_ids : ℕ → ℤ → Map Text RegistryNode → List Text
stale_ids now max_age [] = []
stale_ids now max_age ((id, node) ∷ m) =
    let rest = stale_ids now max_age m in if is_stale now max_age node then id ∷ rest else rest

-- `DeregisterStaleNodes`
unfoldable pub deregister_stale_nodes : NodeRegistry → ℤ → ℕ → NodeRegistry × List Text
deregister_stale_nodes nr max_age now =
    (record nr { nodes = without_stale now max_age nr.nodes }, stale_ids now max_age nr.nodes)

-- The calls that change the registry.
pub data Event : Type 0 where
  registers deregisters : Text → ℕ → Event
  heartbeats : Text → ℕ → Event
  assigns : Text → Text → ℕ → Event
  acknowledges completes : Text → Event
  sweeps : ℤ → ℕ → Event

unfoldable pub step : NodeRegistry → Event → NodeRegistry
step nr (registers id now) = (register_node nr id now).0
step nr (deregisters id now) = (deregister_node nr id).0
step nr (heartbeats id now) = (heartbeat_node nr id now).0
step nr (assigns task session now) = (assign_task nr task session now).0
step nr (acknowledges task) = (mark_task_acknowledged nr task).0
step nr (completes task) = (mark_task_completed nr task).0
step nr (sweeps max_age now) = (deregister_stale_nodes nr max_age now).0

unfoldable pub run : NodeRegistry → List Event → NodeRegistry
run nr [] = nr
run nr (e ∷ es) = run (step nr e) es
