-- ===== src/Nodes/Tests.antt =====
-- Small runs of the node registry (orchestrator/internal/rollout/node_registry.go).
use emage_code_cwso.Prelude.{
  ℕ, ◌%◌, ◌≡◌, ◌≢◌, refl, [], ◌∷◌, ◌++◌, map, drop, take, length, select, List, Text, text, text_eq,
  arith,
}
use emage_code_cwso.Prelude.Int.{pos}
use emage_code_cwso.Prelude.Map.{insert}
use emage_code_cwso.Prelude.Sort.{sort_by, insert_by}
use emage_code_cwso.Prelude.Strings.{text_ltb}
use emage_code_cwso.Nodes.{
  Event, NodeRegistry, RegistryNode, assigned, new_node_registry, register_node, registers, assigns,
  stale_ids, sweeps, run, step, get_active_nodes_locked, deregister_stale_nodes,
}
use emage_code_cwso.Nodes.Active.{AreActive}
use emage_code_cwso.Nodes.Assign.{assign_all, assign_all_fair}
use emage_code_cwso.Nodes.Liveness.{
  IsKeyed, is_recent, silent_nodes, run-IsKeyed, deregister_stale_nodes_lem,
}

abbrev two_nodes : NodeRegistry
two_nodes = run new_node_registry (registers (text "b") 1 ∷ registers (text "a") 5 ∷ [])

non_empty : (c : ℕ) (t : Text) → c ∷ t ≢ []
non_empty c t e = cc e

two_active : 2 ≡ length (get_active_nodes_locked two_nodes)
unfolding run step register_node new_node_registry insert get_active_nodes_locked sort_by insert_by
    text_ltb
two_active = refl

first_turn : two_nodes.last_assigned_idx ≡ 0
unfolding run step register_node new_node_registry
first_turn = refl

assign_all_fair_example :
    AreActive two_nodes (get_active_nodes_locked two_nodes)
    × (assign_all two_nodes (text "t" ∷ text "u" ∷ []) (text "s") 6
        ≡ map
            (λ (n : RegistryNode). assigned n.node_id)
            (drop
                (two_nodes.last_assigned_idx % length (get_active_nodes_locked two_nodes))
                (get_active_nodes_locked two_nodes)
              ++ take
                  (two_nodes.last_assigned_idx % length (get_active_nodes_locked two_nodes))
                  (get_active_nodes_locked two_nodes)))
assign_all_fair_example =
    assign_all_fair two_nodes (text "t" ∷ text "u" ∷ []) (text "s") 6
      (non_empty 116 [], (non_empty 117 [], tt)) (non_empty 115 []) (omega arith) two_active
      (omega (arith, first_turn))

run-IsKeyed_example : IsKeyed (
    run new_node_registry
      (registers (text "b") 1 ∷ assigns (text "t") (text "s") 2 ∷ sweeps (pos 3) 9 ∷ []))
run-IsKeyed_example =
    run-IsKeyed (registers (text "b") 1 ∷ assigns (text "t") (text "s") 2 ∷ sweeps (pos 3) 9 ∷ [])

abbrev two_registered : List Event
two_registered = registers (text "b") 1 ∷ registers (text "a") 5 ∷ []

deregister_stale_nodes_lem_example :
    let (nr, ids) = deregister_stale_nodes (run new_node_registry two_registered) (pos 3) 6 in
    (nr.nodes
      ≡ select
          (λ (e : Text × RegistryNode). is_recent 6 (pos 3) e.1)
          (run new_node_registry two_registered).nodes)
    × (ids ≡ silent_nodes 6 (pos 3) (run new_node_registry two_registered).nodes)
    × (nr.assignments ≡ (run new_node_registry two_registered).assignments)
deregister_stale_nodes_lem_example = deregister_stale_nodes_lem two_registered (pos 3) 6

swept_test :
    (deregister_stale_nodes (run new_node_registry two_registered) (pos 3) 6).1 ≡ text "b" ∷ []
unfolding run step register_node new_node_registry insert deregister_stale_nodes stale_ids
swept_test = refl
