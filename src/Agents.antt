-- ===== src/Agents.antt =====
-- The sparse agents that the orchestrator shows, orchestrator/internal/dispatch/sparse_agents.go: the
-- addresses of their telemetry and their registry. The proofs are in the modules below.
pub mod Uri
pub mod Registry
mod Tests
use emage_code_cwso.Prelude.{
  ℕ, ◌+◌, ◌-◌, Bool, true, false, not, ◌&&◌, ◌||◌, Option, none, some, List, [], ◌∷◌, ◌++◌, any,
  drop, take, length, Text, text, if◌then◌else◌, ltb, leb, ◌==◌, nat_eq, text_eq,
}
use emage_code_cwso.Prelude.Map.{Map, lookup, insert}
use emage_code_cwso.Prelude.Strings.{has_prefix, trim_space, text_ltb}

abbrev pub agent_resource_prefix : Text
agent_resource_prefix = text "cwso://agents/"

abbrev pub agent_telemetry_suffix : Text
agent_telemetry_suffix = text "/telemetry"

-- `strings.HasSuffix`
unfoldable pub has_suffix : Text → Text → Bool
has_suffix s p = leb (length p) (length s) && drop (length s - length p) s == p

-- `strings.TrimPrefix`
unfoldable pub trim_prefix : Text → Text → Text
trim_prefix s p = if has_prefix s p then drop (length p) s else s

-- `strings.TrimSuffix`
unfoldable pub trim_suffix : Text → Text → Text
trim_suffix s p = if has_suffix s p then take (length s - length p) s else s

-- `AgentTelemetryURI`
unfoldable pub agent_telemetry_uri : Text → Text
agent_telemetry_uri agent_id = agent_resource_prefix ++ (agent_id ++ agent_telemetry_suffix)

-- `strings.ContainsAny(s, "/?#")`
unfoldable pub contains_any : Text → Bool
contains_any s = any (λ c. c == b'/' || c == b'?' || c == b'#') s

-- What stands between a prefix and a suffix, as `ParseAgentTelemetryResourceID` cuts it out.
unfoldable pub parse_between : Text → Text → Text → Option Text
parse_between start end uri =
    let inner = trim_suffix (trim_prefix uri start) end in
    if not (has_prefix uri start) || not (has_suffix uri end)
    then none
    else if inner == [] || contains_any inner
    then none
    else some inner

-- `ParseAgentTelemetryResourceID`
unfoldable pub parse_agent_telemetry_resource_id : Text → Option Text
parse_agent_telemetry_resource_id uri =
    parse_between agent_resource_prefix agent_telemetry_suffix uri

-- `SparseAgentRecord`
pub record SparseAgentRecord : Type 0 where
  pub id : Text
  pub skill_domain : Text
  pub stream_uri : Text
  pub created_at : ℕ
  pub target_ast_node : Text

-- `Register` of `SparseAgentRegistry`, a map
unfoldable pub register :
    Map Text SparseAgentRecord
    → Text
    → Text
    → Text
    → ℕ
    → Map Text SparseAgentRecord × SparseAgentRecord
register agents id skill_domain target_ast_node now =
    let rec : SparseAgentRecord = record {
      id = id;
      skill_domain = skill_domain;
      stream_uri = agent_telemetry_uri id;
      created_at = now;
      target_ast_node = target_ast_node;
    } in
    (insert id rec agents, rec)

-- `Get`
unfoldable pub get : Map Text SparseAgentRecord → Text → Option SparseAgentRecord
get agents id = lookup id agents

-- The comparison of `List`.
unfoldable pub listed_before : SparseAgentRecord → SparseAgentRecord → Bool
listed_before a b =
    if not (a.created_at == b.created_at) then ltb a.created_at b.created_at else text_ltb a.id b.id

unfoldable pub insert_listed : SparseAgentRecord → List SparseAgentRecord → List SparseAgentRecord
insert_listed r [] = r ∷ []
insert_listed r (x ∷ xs) =
    let later = insert_listed r xs in if listed_before x r then x ∷ later else r ∷ x ∷ xs

-- `List`
unfoldable pub list_agents : Map Text SparseAgentRecord → List SparseAgentRecord
list_agents [] = []
list_agents ((k, r) ∷ agents) = insert_listed r (list_agents agents)

-- `NormalizeQuantization`; none is an error.
unfoldable pub normalize_quantization : Text → Option Text
normalize_quantization q =
    if trim_space q == []
    then some (text "1.58-bit")
    else if trim_space q == text "1.58-bit"
    then some (text "1.58-bit")
    else none

abbrev pub topic_agent_telemetry : Text
topic_agent_telemetry = text "agents/telemetry"

-- `Allow` of `AgentTelemetryFilter`; the agent that `json.Unmarshal` reads of a payload is an
-- argument.
unfoldable pub allow_telemetry : (Text → Text) → Text → Text → Text → Bool
allow_telemetry agent_of agent_id topic payload =
    let named = if ltb 0 (length payload) then agent_of payload else [] in
    if not (topic == topic_agent_telemetry) then false else named == agent_id
