-- ===== src/Nodes/Assign.antt =====
-- What the node registry promises of assignment and liveness,
-- orchestrator/internal/rollout/node_registry.go.
use native.Mathlib.Nat.{mod-lt, mod-eq_of_lt, mod-add-mod, mod-eq-sub-mod}
use emage_code_cwso.Prelude.{
  ℕ, zero, suc, ◌+◌, ◌-◌, ◌%◌, ◌^◌, ◌<◌, ◌≤◌, ◌≡◌, ◌≢◌, refl, sym, ap, ◌∙◌, false, Option, none,
  some, List, [], ◌∷◌, map, length, length-drop, false, drop, take, ap₂, ◌++◌, get_elem?, All, Text,
  lt→ltb, ◌==◌, eq_iff, nat_eq, text_eq, arith,
}
use emage_code_cwso.Nodes.Active.{AreActive, get_active_nodes_locked-AreActive}
use emage_code_cwso.Nodes.{
  RegistryNode, NodeRegistry, AssignResult, assigned, refused, assign_task, assign_to,
  selected_node, round_robin, get_active_nodes_locked, panics,
}

-- The nodes that one turn after the other selects, from an index on.
abbrev pub turns : ℕ → ℕ → List RegistryNode → List (Option RegistryNode)
turns idx zero nodes = []
turns idx (suc k) nodes = get_elem? nodes (idx % length nodes) ∷ turns (idx + 1) k nodes

turns-add :
    (idx a b : ℕ) (nodes : List RegistryNode)
    → turns idx (a + b) nodes ≡ turns idx a nodes ++ turns (idx + a) b nodes
turns-add idx zero b nodes = ap₂ (λ i k. turns i k nodes) (omega arith) (omega arith)
turns-add idx (suc a) b nodes =
    ap (λ k. turns idx k nodes) (suc_plus a b)
    ∙ ap (λ l. get_elem? nodes (idx % length nodes) ∷ l)
        (turns-add (idx + 1) a b nodes
          ∙ ap (λ i. turns (idx + 1) a nodes ++ turns i b nodes) (omega arith))
  where
    suc_plus : (a b : ℕ) → suc a + b ≡ suc (a + b)
    suc_plus a b = omega arith

get_elem?-drop :
    (xs : List RegistryNode) (r : ℕ)
    → r < length xs
    → (x : RegistryNode) × (get_elem? xs r ≡ some x) × (drop r xs ≡ x ∷ drop (suc r) xs)
get_elem?-drop [] r h = absurd (omega arith)
get_elem?-drop (x ∷ xs) zero h = (x, refl, refl)
get_elem?-drop (x ∷ xs) (suc r) h = let (y, e, f) = get_elem?-drop xs r (omega arith) in (y, e, f)

plus_one : (r : ℕ) → r + 1 ≡ suc r
plus_one r = omega arith

-- As long as the turns do not pass the end, they go along the list.
turns_along :
    (idx k r : ℕ) (nodes : List RegistryNode)
    → (k ≢ 0 → idx % length nodes ≡ r)
    → r + k ≤ length nodes
    → turns idx k nodes ≡ map some (take k (drop r nodes))
turns_along idx zero r nodes e h = refl
turns_along idx (suc k) r nodes e h =
    let (x, f, g) = get_elem?-drop nodes r (omega arith) in
    let here : idx % length nodes ≡ r = e (λ z. omega (arith, z)) in
    rw (here, f, g)
      (ap (λ l. some x ∷ l)
        (turns_along (idx + 1) k (suc r) nodes
          (λ more.
            sym (mod-add-mod idx (length nodes) 1)
            ∙ ap (λ i. (i + 1) % length nodes) here
            ∙ mod-eq_of_lt {n = r + 1} {m = length nodes} (omega arith)
            ∙ plus_one r)
          (omega arith)))

take_all : (n : ℕ) (xs : List RegistryNode) → length xs ≤ n → take n xs ≡ xs
take_all zero [] h = refl
take_all (suc n) [] h = refl
take_all zero (x ∷ xs) h = absurd (omega arith)
take_all (suc n) (x ∷ xs) h = ap (λ l. x ∷ l) (take_all n xs (omega arith))

map_append : (xs ys : List RegistryNode) → map some xs ++ map some ys ≡ map some (xs ++ ys)
map_append [] ys = refl
map_append (x ∷ xs) ys = ap (λ l. some x ∷ l) (map_append xs ys)

mod_self : (n : ℕ) → 0 < n → n % n ≡ 0
mod_self n h =
    mod-eq-sub-mod {n = n} {m = n} (omega arith)
    ∙ ap (λ k. k % n) (omega arith)
    ∙ mod-eq_of_lt {n = 0} {m = n} h

-- As many turns as there are nodes give every node one, in order from the node whose turn it is.
turns_fair :
    (idx : ℕ) (nodes : List RegistryNode)
    → 0 < length nodes
    → let r = idx % length nodes in
      turns idx (length nodes) nodes ≡ map some (drop r nodes ++ take r nodes)
turns_fair idx nodes h =
    let n = length nodes in
    let r = idx % n in
    let small : r < n = mod-lt idx {m = n} h in
    let wrapped : (idx + (n - r)) % n ≡ 0 =
      sym (mod-add-mod idx n (n - r)) ∙ ap (λ k. k % n) (up_to r n (omega arith)) ∙ mod_self n h in
    ap (λ k. turns idx k nodes) (sym (down_from r n (omega arith)))
    ∙ turns-add idx (n - r) r nodes
    ∙ ap₂ ◌++◌
        (turns_along idx (n - r) r nodes (λ more. refl) (omega arith)
          ∙ ap (map some) (take_all (n - r) (drop r nodes) (omega (arith, length-drop r nodes))))
        (turns_along (idx + (n - r)) r 0 nodes (λ more. wrapped) (omega arith))
    ∙ map_append (drop r nodes) (take r nodes)
  where
    up_to : (r n : ℕ) → r ≤ n → r + (n - r) ≡ n
    up_to r n h = omega arith

    down_from : (r n : ℕ) → r ≤ n → (n - r) + r ≡ n
    down_from r n h = omega arith

round_robin_lem : (idx n : ℕ) → idx < 2 ^ 63 → round_robin idx n ≡ some (idx % n)
unfolding round_robin
round_robin_lem idx n h = rw (round_robin, lt→ltb idx (2 ^ 63) h) refl

-- A task that can be assigned goes to the node whose turn it is; the registry of nodes stays.
assign_task_turn :
    (nr : NodeRegistry) (task session : Text) (now : ℕ) (node : RegistryNode)
    → task ≢ []
    → session ≢ []
    → nr.last_assigned_idx < 2 ^ 63
    → let active = get_active_nodes_locked nr in
      get_elem? active (nr.last_assigned_idx % length active) ≡ some node
      → 0 < length active
      → assign_task nr task session now
        ≡ (assign_to nr task session node now, assigned node.node_id)
unfolding assign_task selected_node
assign_task_turn nr task session now node t s small turn some_active =
    let active = get_active_nodes_locked nr in
    let t0 : (task == []) ≡ false = ground (arith, eq_iff task []) in
    let s0 : (session == []) ≡ false = ground (arith, eq_iff session []) in
    let n0 : (length active == 0) ≡ false = ground (arith, eq_iff (length active) 0) in
    rw
      (
        assign_task,
        t0,
        s0,
        n0,
        selected_node,
        round_robin_lem nr.last_assigned_idx (length active) small,
        turn,
      )
      refl

-- Tasks that are assigned one after the other, with nothing between.
abbrev pub assign_all : NodeRegistry → List Text → Text → ℕ → List AssignResult
assign_all nr [] session now = []
assign_all nr (task ∷ tasks) session now =
    let (nr', result) = assign_task nr task session now in result ∷ assign_all nr' tasks session now

abbrev pub answer : Option RegistryNode → AssignResult
answer none = refused panics
answer (some node) = assigned node.node_id

assign_all-turns :
    (tasks : List Text) (nr : NodeRegistry) (session : Text) (now : ℕ)
    → All (λ task. task ≢ []) tasks
    → session ≢ []
    → 0 < length (get_active_nodes_locked nr)
    → nr.last_assigned_idx + length tasks ≤ 2 ^ 63
    → assign_all nr tasks session now
      ≡ map answer (turns nr.last_assigned_idx (length tasks) (get_active_nodes_locked nr))
unfolding assign_to get_active_nodes_locked
assign_all-turns [] nr session now t s a h = refl
assign_all-turns (task ∷ tasks) nr session now t s a h =
    let active = get_active_nodes_locked nr in
    let i = nr.last_assigned_idx in
    let (node, turn, rest) =
      get_elem?-drop active (i % length active) (mod-lt i {m = length active} a) in
    let next : (i + 1) % 2 ^ 64 ≡ i + 1 = mod-eq_of_lt {n = i + 1} {m = 2 ^ 64} (omega arith) in
    rw (assign_task_turn nr task session now node t.0 s (omega arith) turn a, turn)
      (ap (λ l. assigned node.node_id ∷ l)
        (assign_all-turns tasks (assign_to nr task session node now) session now t.1 s a
            (omega (arith, next))
          ∙ ap (λ j. map answer (turns j (length tasks) active)) next))

answer-some :
    (ns : List RegistryNode)
    → map answer (map some ns) ≡ map (λ (n : RegistryNode). assigned n.node_id) ns
answer-some [] = refl
answer-some (n ∷ ns) = ap (λ l. assigned n.node_id ∷ l) (answer-some ns)

-- As many tasks as there are active nodes, assigned one after the other, go to each node whose
-- status is active once: in the order of the node ids from the node whose turn it is, and round
-- again. No id is empty, there is a node, and the index of the round robin stays below 2^63.
pub assign_all_fair :
    (nr : NodeRegistry) (tasks : List Text) (session : Text) (now : ℕ)
    → All (λ task. task ≢ []) tasks
    → session ≢ []
    → 0 < length tasks
    → length tasks ≡ length (get_active_nodes_locked nr)
    → nr.last_assigned_idx + length tasks ≤ 2 ^ 63
    → let active = get_active_nodes_locked nr in
      let r = nr.last_assigned_idx % length active in
      AreActive nr active
      × (assign_all nr tasks session now
          ≡ map (λ (n : RegistryNode). assigned n.node_id) (drop r active ++ take r active))
assign_all_fair nr tasks session now t s some_tasks same h =
    let active = get_active_nodes_locked nr in
    let i = nr.last_assigned_idx in
    (
      get_active_nodes_locked-AreActive nr,
      assign_all-turns tasks nr session now t s (omega (arith, same)) h
          ∙ ap (λ k. map answer (turns i k active)) same
          ∙ ap (map answer) (turns_fair i active (omega (arith, same)))
          ∙ answer-some (drop (i % length active) active ++ take (i % length active) active),
    )
