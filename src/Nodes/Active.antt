-- ===== src/Nodes/Active.antt =====
-- The nodes among which tasks are assigned, `getActiveNodesLocked` of
-- orchestrator/internal/rollout/node_registry.go.
use emage_code_cwso.Prelude.{
  ◌≡◌, refl, sym, ◌∙◌, inl, inr, Bool, true, false, Bool-cases, ◌&&◌, List, [], ◌∷◌, select, Text,
  count_if, All, arith,
}
use emage_code_cwso.Prelude.Sort.{
  IsSorted, sort_by-IsSorted, sort_by-count, select-count, All-sort_by,
}
use emage_code_cwso.Nodes.{
  NodeStatus, active, inactive, deregistering, RegistryNode, NodeRegistry, get_active_nodes_locked,
  values, is_active,
}

abbrev pub shows_active : NodeStatus → Bool
shows_active active = true
shows_active inactive = false
shows_active deregistering = false

-- The nodes of a registry whose status is active, each as often as it is stored, in the order of
-- their ids.
pub record AreActive (nr : NodeRegistry) (nodes : List RegistryNode) : Type 0 where
  pub sorted : IsSorted (λ (n : RegistryNode). n.node_id) nodes
  pub all_active : All (λ (n : RegistryNode). n.status ≡ active) nodes
  pub complete :
      (p : RegistryNode → Bool)
      → count_if p nodes ≡ count_if (λ n. shows_active n.status && p n) (values nr.nodes)

shows_active-is_active : (n : RegistryNode) → is_active n ≡ shows_active n.status
shows_active-is_active n = same n.status
  where
    same :
        (s : NodeStatus)
        → elim s [ active ↦ true | inactive ↦ false | deregistering ↦ false ] ≡ shows_active s
    same active = refl
    same inactive = refl
    same deregistering = refl

shows_active-true : (s : NodeStatus) → shows_active s ≡ true → s ≡ active
shows_active-true active h = refl
shows_active-true inactive h = cc
shows_active-true deregistering h = cc

select_active-All :
    (nodes : List RegistryNode)
    → All (λ (n : RegistryNode). n.status ≡ active) (select is_active nodes)
select_active-All [] = tt
select_active-All (n ∷ nodes) = elim (Bool-cases (is_active n)) [
  | inl on ↦
      rw on
        (shows_active-true n.status (sym (shows_active-is_active n) ∙ on), select_active-All nodes)
  | inr off ↦ rw off (select_active-All nodes)
]

active_count :
    (p : RegistryNode → Bool) (nodes : List RegistryNode)
    → count_if (λ n. is_active n && p n) nodes ≡ count_if (λ n. shows_active n.status && p n) nodes
active_count p [] = refl
active_count p (n ∷ nodes) = rw (shows_active-is_active n) (ground (arith, active_count p nodes))

pub get_active_nodes_locked-AreActive :
    (nr : NodeRegistry) → AreActive nr (get_active_nodes_locked nr)
unfolding get_active_nodes_locked
get_active_nodes_locked-AreActive nr =
    let key : RegistryNode → Text = λ n. n.node_id in
    let found = select is_active (values nr.nodes) in
    record {
      sorted = sort_by-IsSorted key found;
      all_active =
          All-sort_by (λ n. n.status ≡ active) key found (select_active-All (values nr.nodes));
      complete = λ p.
          sort_by-count key p found
          ∙ select-count p is_active (values nr.nodes)
          ∙ active_count p (values nr.nodes);
    }
