-- ===== src/Nodes/Liveness.antt =====
-- Which nodes and tasks the registry keeps, orchestrator/internal/rollout/node_registry.go.
use emage_code_cwso.Prelude.{
  ℕ, ◌+◌, ◌≡◌, ◌≢◌, refl, inl, inr, Bool, false, not, Bool-cases, Option-cases, List, [], ◌∷◌,
  length, All, leb, select, map, ap₂, sym, ◌==◌, nat_eq, Text, eq_iff, text_eq, arith,
}
use emage_code_cwso.Prelude.Int.{ℤ, pos, negsuc}
use emage_code_cwso.Prelude.Map.{Map, lookup}
use emage_code_cwso.Prelude.Entries.{insert-All, remove-All, lookup-All}
use emage_code_cwso.Nodes.{
  RegistryNode, active, acknowledged, completed, TaskStatus, TaskAssignment, NodeRegistry, is_stale,
  without_stale, stale_ids, deregister_stale_nodes, new_node_registry, Event, registers,
  deregisters, heartbeats, assigns, acknowledges, completes, sweeps, step, run, register_node,
  deregister_node, heartbeat_node, assign_task, assign_to, selected_node, get_active_nodes_locked,
  mark_task, mark_task_acknowledged, mark_task_completed,
}

abbrev pub IsNodeEntry : Text × RegistryNode → Type 0
IsNodeEntry e = (e.1.node_id ≡ e.0) × (e.0 ≢ [])

abbrev pub IsTaskEntry : Text × TaskAssignment → Type 0
IsTaskEntry e = (e.1.task_id ≡ e.0) × (e.0 ≢ []) × (e.1.session_id ≢ [])

-- Nodes and assignments stand under their own ids, none of which is empty.
pub record IsKeyed (nr : NodeRegistry) : Type 0 where
  pub node_keys : All IsNodeEntry nr.nodes
  pub task_keys : All IsTaskEntry nr.assignments

without_stale-All :
    (P : Text × RegistryNode → Type 0) (now : ℕ) (max_age : ℤ) (m : Map Text RegistryNode)
    → All P m
    → All P (without_stale now max_age m)
unfolding without_stale
without_stale-All P now max_age [] h = tt
without_stale-All P now max_age ((id, n) ∷ m) h = elim (Bool-cases (is_stale now max_age n)) [
  | inl k ↦ rw (without_stale, k) (without_stale-All P now max_age m h.1)
  | inr k ↦ rw (without_stale, k) (h.0, without_stale-All P now max_age m h.1)
]

-- Whether the last heartbeat of a node lies no further back than `max_age`, which is negative where
-- only a later heartbeat counts.
abbrev pub is_recent : ℕ → ℤ → RegistryNode → Bool
is_recent now (pos a) node = leb now (node.last_heartbeat + a)
is_recent now (negsuc a) node = leb (now + (a + 1)) node.last_heartbeat

is_stale-is_recent :
    (now : ℕ) (max_age : ℤ) (n : RegistryNode)
    → is_stale now max_age n ≡ not (is_recent now max_age n)
is_stale-is_recent now (pos a) n = ground arith
is_stale-is_recent now (negsuc a) n = ground arith

without_stale-recent :
    (now : ℕ) (max_age : ℤ) (m : Map Text RegistryNode)
    → without_stale now max_age m
      ≡ select (λ (e : Text × RegistryNode). is_recent now max_age e.1) m
unfolding without_stale
without_stale-recent now max_age [] = refl
without_stale-recent now max_age ((id, n) ∷ m) =
    rw (is_stale-is_recent now max_age n) (ground (arith, without_stale-recent now max_age m))

-- The ids of the nodes whose last heartbeat lies further back.
abbrev pub silent_nodes : ℕ → ℤ → Map Text RegistryNode → List Text
silent_nodes now max_age m =
    map (λ (e : Text × RegistryNode). e.1.node_id)
      (select (λ (e : Text × RegistryNode). not (is_recent now max_age e.1)) m)

stale_ids-silent :
    (now : ℕ) (max_age : ℤ) (m : Map Text RegistryNode)
    → All IsNodeEntry m
    → stale_ids now max_age m ≡ silent_nodes now max_age m
unfolding stale_ids
stale_ids-silent now max_age [] h = refl
stale_ids-silent now max_age ((id, n) ∷ m) h =
    let rest = stale_ids-silent now max_age m h.1 in
    rw (is_stale-is_recent now max_age n) (elim (Bool-cases (is_recent now max_age n)) [
      | inl k ↦ rw k rest
      | inr k ↦ rw k (ap₂ ◌∷◌ (sym h.0.0) rest)
    ])

not_empty : (t : Text) → (t == []) ≡ false → t ≢ []
not_empty t h e = ground (arith, eq_iff t [])

assign_task-IsKeyed :
    (nr : NodeRegistry) (task session : Text) (now : ℕ)
    → IsKeyed nr
    → IsKeyed (assign_task nr task session now).0
unfolding assign_task assign_to
assign_task-IsKeyed nr task session now h = elim (Bool-cases (task == [])) [
  | inl a ↦ rw (assign_task, a) h
  | inr t ↦ elim (Bool-cases (session == [])) [
    | inl a ↦ rw (assign_task, t, a) h
    | inr s ↦ elim (Bool-cases (length (get_active_nodes_locked nr) == 0)) [
      | inl a ↦ rw (assign_task, t, s, a) h
      | inr n ↦
          elim (Option-cases (selected_node nr.last_assigned_idx (get_active_nodes_locked nr))) [
            | inl a ↦ rw (assign_task, t, s, n, a) h
            | inr (node, found) ↦
                rw (assign_task, t, s, n, found)
                  (record {
                    node_keys = h.node_keys;
                    task_keys =
                        insert-All IsTaskEntry task _ nr.assignments
                          (refl, not_empty task t, not_empty session s) h.task_keys;
                  })
          ]
    ]
  ]
]

mark_task-IsKeyed :
    (nr : NodeRegistry) (task : Text) (status : TaskStatus)
    → IsKeyed nr
    → IsKeyed (mark_task nr task status).0
unfolding mark_task
mark_task-IsKeyed nr task status h = elim (Option-cases (lookup task nr.assignments)) [
  | inl missing ↦ rw (mark_task, missing) h
  | inr (a, found) ↦
      rw (mark_task, found)
        (record {
          node_keys = h.node_keys;
          task_keys =
              insert-All IsTaskEntry task (record a { status = status }) nr.assignments
                (lookup-All IsTaskEntry task a nr.assignments found h.task_keys) h.task_keys;
        })
]

node_step-IsKeyed : (nr : NodeRegistry) (e : Event) → IsKeyed nr → IsKeyed (step nr e)
unfolding step register_node deregister_node heartbeat_node deregister_stale_nodes
    mark_task_acknowledged mark_task_completed
node_step-IsKeyed nr (registers id now) h = elim (Bool-cases (id == [])) [
  | inl a ↦ rw (step, register_node, a) h
  | inr t ↦
      rw (step, register_node, t)
        (record {
          node_keys = insert-All IsNodeEntry id _ nr.nodes (refl, not_empty id t) h.node_keys;
          task_keys = h.task_keys;
        })
]
node_step-IsKeyed nr (deregisters id now) h = elim (Bool-cases (id == [])) [
  | inl a ↦ rw (step, deregister_node, a) h
  | inr t ↦ elim (Option-cases (lookup id nr.nodes)) [
    | inl missing ↦ rw (step, deregister_node, t, missing) h
    | inr (n, found) ↦
        rw (step, deregister_node, t, found)
          (record {
            node_keys = remove-All IsNodeEntry id nr.nodes h.node_keys;
            task_keys = h.task_keys;
          })
  ]
]
node_step-IsKeyed nr (heartbeats id now) h = elim (Option-cases (lookup id nr.nodes)) [
  | inl missing ↦ rw (step, heartbeat_node, missing) h
  | inr (n, found) ↦
      rw (step, heartbeat_node, found)
        (record {
          node_keys =
              insert-All IsNodeEntry id (record n { last_heartbeat = now; status = active })
                nr.nodes (lookup-All IsNodeEntry id n nr.nodes found h.node_keys) h.node_keys;
          task_keys = h.task_keys;
        })
]
node_step-IsKeyed nr (assigns task session now) h = assign_task-IsKeyed nr task session now h
node_step-IsKeyed nr (acknowledges task) h = mark_task-IsKeyed nr task acknowledged h
node_step-IsKeyed nr (completes task) h = mark_task-IsKeyed nr task completed h
node_step-IsKeyed nr (sweeps max_age now) h = record {
  node_keys = without_stale-All IsNodeEntry now max_age nr.nodes h.node_keys;
  task_keys = h.task_keys;
}

IsKeyed-run : (nr : NodeRegistry) (es : List Event) → IsKeyed nr → IsKeyed (run nr es)
unfolding run
IsKeyed-run nr [] h = h
IsKeyed-run nr (e ∷ es) h = IsKeyed-run (step nr e) es (node_step-IsKeyed nr e h)

-- Whatever calls are made of a new registry in whatever order, each node and each assignment stands
-- under its own id, and no node id, task id or session id is empty.
pub run-IsKeyed : (es : List Event) → IsKeyed (run new_node_registry es)
unfolding new_node_registry
run-IsKeyed es = IsKeyed-run new_node_registry es (record { node_keys = tt; task_keys = tt })

-- After any calls of a new registry, a sweep keeps exactly the nodes whose last heartbeat lies no
-- further back than the age it is given, names the others by their node ids, and leaves all
-- assignments as they were, those of the nodes that are gone among them.
pub deregister_stale_nodes_lem :
    (es : List Event) (max_age : ℤ) (now : ℕ)
    → let nr = run new_node_registry es in
      let (nr', ids) = deregister_stale_nodes nr max_age now in
      (nr'.nodes ≡ select (λ (e : Text × RegistryNode). is_recent now max_age e.1) nr.nodes)
      × (ids ≡ silent_nodes now max_age nr.nodes)
      × (nr'.assignments ≡ nr.assignments)
unfolding deregister_stale_nodes
deregister_stale_nodes_lem es max_age now =
    let nr = run new_node_registry es in
    (
      without_stale-recent now max_age nr.nodes,
      stale_ids-silent now max_age nr.nodes (run-IsKeyed es).node_keys,
      refl,
    )
