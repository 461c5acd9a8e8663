-- ===== src/Mcp/Resources.antt =====
-- The resources that the server offers, orchestrator/internal/server/server.go: spike streams and the
-- telemetry of sparse agents, with snapshots of the event log.
use emage_code_cwso.Prelude.{
  ℕ, Bool, true, false, not, Option, none, some, List, [], ◌∷◌, ◌++◌, map, select, Text, text,
  if◌then◌else◌, text_eq,
}
use emage_code_cwso.Prelude.Int.{pos}
use emage_code_cwso.Prelude.Map.{Map}
use emage_code_cwso.Broker.{Broker, Record}
use emage_code_cwso.Broker.Ingress.{query}
use emage_code_cwso.Agents.{
  get as get_agent, SparseAgentRecord, agent_resource_prefix, parse_agent_telemetry_resource_id,
  list_agents, allow_telemetry, topic_agent_telemetry,
}
use emage_code_cwso.Spikes.Subscriptions.{
  get as get_subscription, Subscription, Registry, ast_spike_topics, spike_resource_prefix, uri,
  allow, remove_subscription, list_subscriptions, parse_spike_resource_id,
}
use emage_code_cwso.Mcp.{
  Request, Resource, resources_listed, templates_listed, resource_read, done, Response,
  error_response, ok_response, err_method_not_found, err_invalid_params, err_internal,
  err_resource_not_found, Decoded, decoded, malformed, SnapshotItem, Codec,
}

-- What the server and its tools work on; none is a part that is switched off.
pub record State : Type 0 where
  pub spike_subs : Option Registry
  pub sparse_agents : Option (Map Text SparseAgentRecord)
  pub memory : Option Broker

-- Whether there are resources at all, as `resourcesEnabled` asks.
unfoldable pub resources_enabled : State → Bool
resources_enabled s = elim s.spike_subs [
  | some subs ↦ true
  | none ↦ elim s.sparse_agents [ some agents ↦ true | none ↦ false ]
]

abbrev pub not_enabled : Request → Response
not_enabled req =
    error_response req.id err_method_not_found (text "method not found: " ++ req.method)

abbrev pub unknown_uri : Request → Text → Response
unknown_uri req uri =
    error_response req.id err_resource_not_found (text "unknown resource uri: " ++ uri)

abbrev pub unknown_agent : Request → Text → Response
unknown_agent req id = error_response req.id err_resource_not_found (text "unknown agent: " ++ id)

abbrev pub unknown_subscription : Request → Text → Response
unknown_subscription req id =
    error_response req.id err_resource_not_found (text "unknown subscription: " ++ id)

abbrev json_type : Text
json_type = text "application/json"

module _ (c : Codec) where
  unfoldable pub spike_resource : Subscription → Resource
  spike_resource sub = record {
    uri = uri sub;
    name = text "AST spike stream " ++ sub.id;
    description =
        text "Semantic AST spike events (threshold="
        ++ (sub.semantic_threshold ++ (text ") for path=" ++ c.quote sub.path));
    mime_type = json_type;
  }

  unfoldable pub agent_resource : SparseAgentRecord → Resource
  agent_resource agent = record {
    uri = agent.stream_uri;
    name = text "Sparse agent telemetry " ++ agent.id;
    description =
        text "Telemetry stream for sparse agent "
        ++ (agent.id ++ (text " (skill_domain=" ++ (c.quote agent.skill_domain ++ text ")")));
    mime_type = json_type;
  }

  -- `handleResourcesList`
  unfoldable pub handle_resources_list : State → Request → Response
  handle_resources_list s req =
      let spikes : List Resource = elim s.spike_subs [
        | none ↦ []
        | some subs ↦ map spike_resource (list_subscriptions subs)
      ] in
      let agents : List Resource = elim s.sparse_agents [
        | none ↦ []
        | some known ↦ map agent_resource (list_agents known)
      ] in
      if not (resources_enabled s)
      then not_enabled req
      else ok_response req.id (resources_listed (spikes ++ agents))

  -- The items of a snapshot: the newest hundred records of some topics that a filter lets through.
  unfoldable pub snapshot_items : State → List Text → (Text → Text → Bool) → ℕ → List SnapshotItem
  snapshot_items s topics filter now = elim s.memory [
    | none ↦ []
    | some b ↦
        map
          (λ (r : Record). record {
            topic = r.topic;
            sequence = r.sequence;
            at = c.format_time r.at;
            event = r.payload;
          })
          (select (λ (r : Record). filter r.topic r.payload)
            (query b
              (record { topics = topics; job_id = []; since = 0; window = pos 0; limit = pos 100 })
              now))
  ]

  unfoldable pub read_answer : Request → Text → Decoded Text → Response
  read_answer req uri (malformed e) = error_response req.id err_internal e
  read_answer req uri (decoded body) =
      ok_response req.id (resource_read (record { uri = uri; mime_type = json_type; text = body }))

  -- `readSpikeResource`
  unfoldable pub read_spike_resource : State → Request → Text → ℕ → Response
  read_spike_resource s req asked now = elim s.spike_subs [
    | none ↦ unknown_uri req asked
    | some subs ↦ elim (parse_spike_resource_id asked) [
      | none ↦ unknown_uri req asked
      | some id ↦ elim (get_subscription subs id) [
        | none ↦ unknown_subscription req id
        | some sub ↦ read_answer req (uri sub) (
            c.spike_body sub
              (snapshot_items s ast_spike_topics (allow c.path_match c.envelope_of sub) now))
      ]
    ]
  ]

  -- `readAgentTelemetryResource`
  unfoldable pub read_agent_telemetry_resource : State → Request → Text → Text → ℕ → Response
  read_agent_telemetry_resource s req agent_id asked now = elim s.sparse_agents [
    | none ↦ unknown_uri req asked
    | some agents ↦ elim (get_agent agents agent_id) [
      | none ↦ unknown_agent req agent_id
      | some agent ↦ read_answer req asked (
          c.agent_body agent_id (
            snapshot_items s (topic_agent_telemetry ∷ []) (allow_telemetry c.agent_of agent_id)
              now))
    ]
  ]

  -- `handleResourcesRead`
  unfoldable pub handle_resources_read : State → Request → ℕ → Response
  handle_resources_read s req now =
      if not (resources_enabled s) then not_enabled req else elim (c.uri_of req.params) [
        | malformed e ↦ error_response req.id err_invalid_params e
        | decoded asked ↦ elim (parse_agent_telemetry_resource_id asked) [
          | some agent_id ↦ read_agent_telemetry_resource s req agent_id asked now
          | none ↦ read_spike_resource s req asked now
        ]
      ]

  -- The answer of `handleResourcesSubscribe` and `handleResourcesUnsubscribe` for an agent.
  unfoldable pub agent_answer : State → Request → Text → Text → Response
  agent_answer s req asked agent_id = elim s.sparse_agents [
    | none ↦ unknown_uri req asked
    | some agents ↦ elim (get_agent agents agent_id) [
      | none ↦ unknown_agent req agent_id
      | some agent ↦ ok_response req.id done
    ]
  ]

  unfoldable pub spike_answer : State → Request → Text → Response
  spike_answer s req asked = elim (parse_spike_resource_id asked) [
    | none ↦ unknown_uri req asked
    | some id ↦ elim s.spike_subs [
      | none ↦ unknown_uri req asked
      | some subs ↦ elim (get_subscription subs id) [
        | none ↦ unknown_subscription req id
        | some sub ↦ ok_response req.id done
      ]
    ]
  ]

  -- `handleResourcesSubscribe`
  unfoldable pub handle_resources_subscribe : State → Request → Response
  handle_resources_subscribe s req =
      if not (resources_enabled s) then not_enabled req else elim (c.uri_of req.params) [
        | malformed e ↦ error_response req.id err_invalid_params e
        | decoded asked ↦ elim (parse_agent_telemetry_resource_id asked) [
          | some agent_id ↦ agent_answer s req asked agent_id
          | none ↦ spike_answer s req asked
        ]
      ]

  -- The end of a subscription, for `handleResourcesUnsubscribe`.
  unfoldable pub drop_subscription : State → Request → Text → State × Response
  drop_subscription s req asked = elim (parse_spike_resource_id asked) [
    | none ↦ (s, unknown_uri req asked)
    | some id ↦ elim s.spike_subs [
      | none ↦ (s, unknown_uri req asked)
      | some subs ↦
          let (kept, was_there) = remove_subscription subs id in
          (
            record s { spike_subs = some kept },
            if was_there then ok_response req.id done else unknown_subscription req id,
          )
    ]
  ]

  -- `handleResourcesUnsubscribe`
  unfoldable pub handle_resources_unsubscribe : State → Request → State × Response
  handle_resources_unsubscribe s req =
      if not (resources_enabled s) then (s, not_enabled req) else elim (c.uri_of req.params) [
        | malformed e ↦ (s, error_response req.id err_invalid_params e)
        | decoded asked ↦ elim (parse_agent_telemetry_resource_id asked) [
          | some agent_id ↦ (s, agent_answer s req asked agent_id)
          | none ↦ drop_subscription s req asked
        ]
      ]

-- `handleResourceTemplatesList`
unfoldable pub handle_resource_templates_list : State → Request → Response
handle_resource_templates_list s req =
    let spikes : List Resource = elim s.spike_subs [
      | none ↦ []
      | some subs ↦
          record {
            uri = spike_resource_prefix ++ text "{subscription_id}";
            name = text "ast_spike_stream";
            description =
                text
                  "Semantic AST write-spike stream created via subscribe_ast_spikes. Read for a recent snapshot or open over SSE (GET /mcp?subscription=<id>) for the live stream.";
            mime_type = json_type;
          }
          ∷ []
    ] in
    let agents : List Resource = elim s.sparse_agents [
      | none ↦ []
      | some known ↦
          record {
            uri = agent_resource_prefix ++ text "{wasm_agent_id}/telemetry";
            name = text "sparse_agent_telemetry";
            description =
                text
                  "Sparse Wasm micro-agent telemetry created via create_ephemeral_sparse_agent. Read for a snapshot or open over SSE (GET /mcp?subscription=<wasm_agent_id>).";
            mime_type = json_type;
          }
          ∷ []
    ] in
    if not (resources_enabled s)
    then not_enabled req
    else ok_response req.id (templates_listed (spikes ++ agents))
