-- ===== src/Tasks/Fleet.antt =====
-- The nodes of the rollout service, orchestrator/internal/rollout/service.go. The service keeps them
-- twice, in its own map and in the node registry, under a lock each: a call that takes both locks
-- one after the other is two steps.
pub mod Races
use emage_code_cwso.Prelude.{
  ℕ, ◌≡◌, Bool, true, false, Option, none, some, List, [], ◌∷◌, length, Text, if◌then◌else◌, ◌==◌,
  nat_eq, text_eq,
}
use emage_code_cwso.Prelude.Int.{ℤ}
use emage_code_cwso.Prelude.Map.{Map, lookup, insert, remove}
use emage_code_cwso.Nodes.{
  NodeRegistry, NodeError, node_id_required, node_not_found, register_node, heartbeat_node,
  deregister_stale_nodes,
}
use emage_code_cwso.Tasks.{Node, Service}

-- The first half of `RegisterNode`, for an id that is not empty.
unfoldable pub note_node : Service → Text → ℕ → Service
note_node s id now = record s {
  nodes = insert id (record { id = id; last_heartbeat = now }) s.nodes;
}

-- Its second half.
unfoldable pub enter_node : Service → Text → ℕ → Service
enter_node s id now = record s { node_registry = (register_node s.node_registry id now).0 }

-- `RegisterNode`
unfoldable pub register : Service → Text → ℕ → Service × Option NodeError
register s id now = if id == [] then (s, some node_id_required) else (
  enter_node (note_node s id now) id now,
  (register_node (note_node s id now).node_registry id now).1,
)

-- `HeartbeatNode`, under the lock of the service.
unfoldable pub heartbeat : Service → Text → ℕ → Service × Option NodeError
heartbeat s id now = elim (lookup id s.nodes) [
  | none ↦ (s, some (node_not_found id))
  | some n ↦
      let (registry, e) = heartbeat_node s.node_registry id now in
      (
        record s {
          nodes = insert id (record n { last_heartbeat = now }) s.nodes;
          node_registry = registry;
        },
        e,
      )
]

-- The first half of a tick of `StartStaleNodeReaper`, with the ids that it hands on.
unfoldable pub reap : Service → ℤ → ℕ → Service × List Text
reap s max_age now =
    let (registry, removed) = deregister_stale_nodes s.node_registry max_age now in
    (record s { node_registry = registry }, removed)

unfoldable pub remove_all : List Text → Map Text Node → Map Text Node
remove_all [] m = m
remove_all (id ∷ ids) m = remove_all ids (remove id m)

-- Its second half.
unfoldable pub forget : Service → List Text → Service
forget s ids = record s { nodes = remove_all ids s.nodes }
