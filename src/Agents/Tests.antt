-- ===== src/Agents/Tests.antt =====
-- Small runs of the registry of sparse agents (orchestrator/internal/dispatch/sparse_agents.go).
use emage_code_cwso.Prelude.{◌≡◌, ◌≢◌, refl, false, some, [], Text, text, ◌==◌, text_eq, nat_eq}
use emage_code_cwso.Prelude.Map.{Map}
use emage_code_cwso.Prelude.Strings.{has_prefix}
use emage_code_cwso.Agents.{
  SparseAgentRecord, register, contains_any, agent_telemetry_uri, parse_agent_telemetry_resource_id,
  parse_between, trim_prefix, trim_suffix, has_suffix,
}

abbrev two_agents : Map Text SparseAgentRecord
two_agents = (register (register [] (text "b") (text "go") [] 7).0 (text "a") (text "sql") [] 7).0

abbrev overlapping : Text
overlapping = text "cwso://agents/telemetry"

named : text "b" ≢ []
named e = cc e

clean : contains_any (text "b") ≡ false
unfolding contains_any
clean = refl

overlapping_parses : parse_agent_telemetry_resource_id overlapping ≡ some (text "telemetry")
unfolding parse_agent_telemetry_resource_id parse_between trim_prefix trim_suffix has_suffix
    has_prefix contains_any
overlapping_parses = refl

overlapping_other : (overlapping == agent_telemetry_uri (text "telemetry")) ≡ false
unfolding agent_telemetry_uri
overlapping_other = refl
