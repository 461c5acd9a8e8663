-- ===== src/Tasks/Fleet/Races.antt =====
-- A tick of the reaper with a registration between its halves, `StartStaleNodeReaper` and
-- `RegisterNode` of orchestrator/internal/rollout/service.go.
use emage_code_cwso.Prelude.{
  ℕ, ◌≡◌, ◌≢◌, refl, true, false, none, some, List, [], ◌∷◌, Text, if◌then◌else◌, ◌==◌, eq_iff,
  eq_refl, nat_eq, text_eq, arith,
}
use emage_code_cwso.Prelude.Int.{ℤ}
use emage_code_cwso.Prelude.Map.{Map, lookup, insert, remove, lookup-insert, lookup-remove}
use emage_code_cwso.Prelude.Members.{mem}
use emage_code_cwso.Nodes.{RegistryNode, active, node_not_found, register_node}
use emage_code_cwso.Tasks.{Node, Service}
use emage_code_cwso.Tasks.Fleet.{
  note_node, enter_node, register, heartbeat, reap, remove_all, forget,
}

lookup-remove_all :
    (id : Text) (ids : List Text) (m : Map Text Node)
    → lookup id (remove_all ids m) ≡ (if mem id ids then none else lookup id m)
unfolding remove_all mem
lookup-remove_all id [] m = refl
lookup-remove_all id (k ∷ ids) m =
    ground (arith, lookup-remove_all id ids (remove k m), lookup-remove k id m)

register_named :
    (s : Service) (id : Text) (now : ℕ)
    → (id == []) ≡ false
    → ((register s id now).1 ≡ none)
      × (lookup id (register s id now).0.node_registry.nodes
          ≡ some
              (record { node_id = id; registered_at = now; last_heartbeat = now; status = active }))
unfolding register note_node enter_node register_node
register_named s id now named =
    let node : RegistryNode = record {
      node_id = id;
      registered_at = now;
      last_heartbeat = now;
      status = active;
    } in
    let e : register s id now ≡ (
      record s {
        nodes = insert id (record { id = id; last_heartbeat = now }) s.nodes;
        node_registry = record s.node_registry { nodes = insert id node s.node_registry.nodes };
      },
      none,
    ) =
      simp (register, named, enter_node, register_node) refl in
    rw e (refl, ground (arith, lookup-insert id id node s.node_registry.nodes, eq_refl id))

heartbeat_unknown :
    (s : Service) (id : Text) (now : ℕ)
    → lookup id s.nodes ≡ none
    → heartbeat s id now ≡ (s, some (node_not_found id))
unfolding heartbeat
heartbeat_unknown s id now unknown = simp (heartbeat, unknown) refl

forgotten :
    (s : Service) (ids : List Text) (id : Text)
    → mem id ids ≡ true
    → lookup id (forget s ids).nodes ≡ none
unfolding forget
forgotten s ids id there = ground (arith, lookup-remove_all id ids s.nodes)

-- A node that the reaper takes out, and that registers again before the reaper has taken it out of
-- the map of the service too, stays active in the node registry, while the service does not know it: its heartbeats are refused and change nothing.
pub register_between_halves :
    (s : Service) (id : Text) (max_age : ℤ) (now later again : ℕ)
    → id ≢ []
    → mem id (reap s max_age now).1 ≡ true
    → let (reaped, ids) = reap s max_age now in
      let s' = forget (register reaped id later).0 ids in
      ((register reaped id later).1 ≡ none)
      × (lookup id s'.node_registry.nodes
          ≡ some (record {
            node_id = id;
            registered_at = later;
            last_heartbeat = later;
            status = active;
          }))
      × (heartbeat s' id again ≡ (s', some (node_not_found id)))
unfolding forget
register_between_halves s id max_age now later again named stale =
    let (reaped, ids) = reap s max_age now in
    let some_id : (id == []) ≡ false = ground (arith, eq_iff id []) in
    let (noted, found) = register_named reaped id later some_id in
    (
      noted,
      found,
      heartbeat_unknown (forget (register reaped id later).0 ids) id again
          (forgotten (register reaped id later).0 ids id stale),
    )
