-- ===== src/Agents/Registry.antt =====
-- What the registry of sparse agents answers, `Register`, `Get` and `List` of
-- orchestrator/internal/dispatch/sparse_agents.go.
use emage_code_cwso.Prelude.{
  ℕ, ◌≡◌, ◌≢◌, refl, inl, inr, Bool, true, false, Bool-cases, some, List, [], ◌∷◌, All, count_if,
  Text, eq_iff, eq_refl, nat_eq, text_eq, arith,
}
use emage_code_cwso.Prelude.Map.{Map, lookup-insert, count_values}
use emage_code_cwso.Prelude.Sort.{text_ltb_asym, text_ltb_negtrans}
use emage_code_cwso.Agents.{
  SparseAgentRecord, register, get, listed_before, insert_listed, list_agents, contains_any,
  parse_agent_telemetry_resource_id,
}
use emage_code_cwso.Agents.Uri.{parse_uri}

-- No agent is listed before one that comes earlier.
abbrev pub IsListed : List SparseAgentRecord → Type 0
IsListed [] = Unit
IsListed (x ∷ xs) = All (λ y. listed_before y x ≡ false) xs × IsListed xs

listed_before_asym :
    (a b : SparseAgentRecord) → listed_before a b ≡ true → listed_before b a ≡ false
unfolding listed_before
listed_before_asym a b h = ground (
  arith,
  eq_iff (a.created_at) (b.created_at),
  eq_iff (b.created_at) (a.created_at),
  text_ltb_asym (a.id) (b.id),
)

listed_before_negtrans :
    (a b c : SparseAgentRecord)
    → listed_before a b ≡ false
    → listed_before b c ≡ false
    → listed_before a c ≡ false
unfolding listed_before
listed_before_negtrans a b c h k = ground (
  arith,
  eq_iff (a.created_at) (b.created_at),
  eq_iff (b.created_at) (c.created_at),
  eq_iff (a.created_at) (c.created_at),
  text_ltb_negtrans (a.id) (b.id) (c.id),
)

All-insert_listed {κ} :
    (P : SparseAgentRecord → Type κ) (r : SparseAgentRecord) (xs : List SparseAgentRecord)
    → P r
    → All P xs
    → All P (insert_listed r xs)
unfolding insert_listed
All-insert_listed P r [] p h = (p, tt)
All-insert_listed P r (x ∷ xs) p h = elim (Bool-cases (listed_before x r)) [
  | inl k ↦ rw (insert_listed, k) (h.0, All-insert_listed P r xs p h.1)
  | inr k ↦ rw (insert_listed, k) (p, h)
]

All-listed_before :
    (r x : SparseAgentRecord) (xs : List SparseAgentRecord)
    → listed_before x r ≡ false
    → All (λ y. listed_before y x ≡ false) xs
    → All (λ y. listed_before y r ≡ false) xs
All-listed_before r x [] k h = tt
All-listed_before r x (y ∷ ys) k h =
    (listed_before_negtrans y x r h.0 k, All-listed_before r x ys k h.1)

insert_listed-IsListed :
    (r : SparseAgentRecord) (xs : List SparseAgentRecord)
    → IsListed xs
    → IsListed (insert_listed r xs)
unfolding insert_listed
insert_listed-IsListed r [] h = (tt, tt)
insert_listed-IsListed r (x ∷ xs) h = elim (Bool-cases (listed_before x r)) [
  | inl k ↦
      rw (insert_listed, k)
        (
          All-insert_listed (λ y. listed_before y x ≡ false) r xs (listed_before_asym x r k) h.0,
          insert_listed-IsListed r xs h.1,
        )
  | inr k ↦ rw (insert_listed, k) ((k, All-listed_before r x xs k h.0), h)
]

list_agents-IsListed : (agents : Map Text SparseAgentRecord) → IsListed (list_agents agents)
unfolding list_agents
list_agents-IsListed [] = tt
list_agents-IsListed ((k, r) ∷ agents) =
    insert_listed-IsListed r (list_agents agents) (list_agents-IsListed agents)

insert_listed-count :
    (p : SparseAgentRecord → Bool) (r : SparseAgentRecord) (xs : List SparseAgentRecord)
    → count_if p (insert_listed r xs) ≡ count_if p (r ∷ xs)
unfolding insert_listed
insert_listed-count p r [] = refl
insert_listed-count p r (x ∷ xs) = elim (Bool-cases (listed_before x r)) [
  | inl k ↦ rw (insert_listed, k) (ground (arith, insert_listed-count p r xs))
  | inr k ↦ rw (insert_listed, k) refl
]

list_agents-count :
    (p : SparseAgentRecord → Bool) (agents : Map Text SparseAgentRecord)
    → count_if p (list_agents agents) ≡ count_values p agents
unfolding list_agents
list_agents-count p [] = refl
list_agents-count p ((k, r) ∷ agents) =
    ground (arith, insert_listed-count p r (list_agents agents), list_agents-count p agents)

-- The list of the agents is in the order of the times of their registration and then of their ids,
-- and shows of the stored records that pass a test as many as there are.
pub list_agents_lem :
    (agents : Map Text SparseAgentRecord)
    → IsListed (list_agents agents)
      × ((p : SparseAgentRecord → Bool) → count_if p (list_agents agents) ≡ count_values p agents)
list_agents_lem agents = (list_agents-IsListed agents, λ p. list_agents-count p agents)

-- Registering an agent makes `Get` find the record that was returned under its id and changes no
-- other answer; the address of its stream parses back to the id, where the id is not empty and holds
-- no separator of an address.
pub register_lem :
    (agents : Map Text SparseAgentRecord)
    → (id skill_domain target_ast_node : Text) → (now : ℕ) → id ≢ []
    → contains_any id ≡ false
    → (get (register agents id skill_domain target_ast_node now).0 id
        ≡ some (register agents id skill_domain target_ast_node now).1)
      × ((other : Text)
          → other ≢ id
          → get (register agents id skill_domain target_ast_node now).0 other ≡ get agents other)
      × (parse_agent_telemetry_resource_id
            ((register agents id skill_domain target_ast_node now).1.stream_uri)
          ≡ some id)
unfolding register get
register_lem agents id skill_domain target_ast_node now named clean =
    let rec = (register agents id skill_domain target_ast_node now).1 in
    (
      ground (arith, lookup-insert id id rec agents, eq_refl id),
      λ other different. ground (arith, lookup-insert id other rec agents, eq_iff id other),
      parse_uri id named clean,
    )
