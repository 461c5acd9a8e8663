-- ===== src/Mcp/Replies.antt =====
-- Which messages the server answers, orchestrator/internal/server/server.go.
use mathlib.Core.Path.{subst}
use emage_code_cwso.Prelude.{
  if◌then◌else◌, ℕ, ◌≡◌, refl, sym, ap, ◌∙◌, inl, inr, ◌⊎◌, Bool, true, false, not, ◌&&◌, ◌||◌,
  Bool-cases, Option-cases, Option, none, some, List, [], ◌∷◌, ◌++◌, any, Text, text, ◌==◌, eq_iff,
  text_eq, arith,
}
use emage_code_cwso.Prelude.Map.{Map}
use emage_code_cwso.Agents.{parse_agent_telemetry_resource_id}
use emage_code_cwso.Tools.{list_tools, Tool}
use emage_code_cwso.Mcp.{
  Request, Response, is_notification, ToolCallParams, decoded, error_response, ok_response,
  tools_listed, pong, Codec, parse_request,
}
use emage_code_cwso.Mcp.Resources.{
  State, resources_enabled, handle_resources_list, handle_resource_templates_list,
  handle_resources_read, handle_resources_subscribe, handle_resources_unsubscribe, agent_answer,
  spike_answer, drop_subscription, read_answer, read_spike_resource, read_agent_telemetry_resource,
}
use emage_code_cwso.Mcp.Server.{
  unknown_method, dispatch_other, executed_response, handle_initialize, call_tool,
  handle_tools_call, dispatch, handle,
}
use emage_code_cwso.Mcp.Parsing.{
  IsProtocol, IsRefused, parse_request-rejected, parse_request-parsed,
}
use emage_code_cwso.Mcp.Gate.{Decoded-cases, Parsed-cases}

-- The methods that the server answers, whether or not they come with an id.
abbrev pub methods : List Text
methods =
    text "initialize"
    ∷ text "tools/list"
    ∷ text "tools/call"
    ∷ text "resources/list"
    ∷ text "resources/templates/list"
    ∷ text "resources/read"
    ∷ text "resources/subscribe"
    ∷ text "resources/unsubscribe"
    ∷ text "ping"
    ∷ []

-- Whether a method is one of them.
abbrev pub is_known : Text → Bool
is_known method = any (λ m. method == m) methods

-- Whether a request is not answered.
abbrev pub is_silent : Request → Bool
is_silent req =
    not (is_known req.method)
    && (req.method == text "notifications/initialized" || is_notification req)

module _ (c : Codec) where
  read_spike_resource-id :
      (s : State) (req : Request) (asked : Text) (now : ℕ)
      → (read_spike_resource c s req asked now).id ≡ req.id
  unfolding read_spike_resource read_answer
  read_spike_resource-id s req asked now = ground arith

  read_agent-id :
      (s : State) (req : Request) (agent asked : Text) (now : ℕ)
      → (read_agent_telemetry_resource c s req agent asked now).id ≡ req.id
  unfolding read_agent_telemetry_resource read_answer
  read_agent-id s req agent asked now = ground arith

  read-id : (s : State) (req : Request) (now : ℕ) → (handle_resources_read c s req now).id ≡ req.id
  unfolding handle_resources_read
  read-id s req now = elim (Bool-cases (resources_enabled s)) [
    | inr off ↦ simp (handle_resources_read, off) refl
    | inl on ↦ elim (Decoded-cases (c.uri_of req.params)) [
      | inr (e, bad) ↦ simp (handle_resources_read, on, bad) refl
      | inl (asked, good) ↦ elim (Option-cases (parse_agent_telemetry_resource_id asked)) [
        | inr (agent, named) ↦
            simp (handle_resources_read, on, good, named) (read_agent-id s req agent asked now)
        | inl other ↦
            simp (handle_resources_read, on, good, other) (read_spike_resource-id s req asked now)
      ]
    ]
  ]

  list-id : (s : State) (req : Request) → (handle_resources_list c s req).id ≡ req.id
  unfolding handle_resources_list
  list-id s req = ground arith

  subscribe-id : (s : State) (req : Request) → (handle_resources_subscribe c s req).id ≡ req.id
  unfolding handle_resources_subscribe agent_answer spike_answer
  subscribe-id s req = ground arith

  unsubscribe-id :
      (s : State) (req : Request) → (handle_resources_unsubscribe c s req).1.id ≡ req.id
  unfolding handle_resources_unsubscribe agent_answer drop_subscription
  unsubscribe-id s req = ground arith

  templates-id : (s : State) (req : Request) → (handle_resource_templates_list s req).id ≡ req.id
  unfolding handle_resource_templates_list
  templates-id s req = ground arith

  module _ (tools : Map Text (Tool State)) where
    initialize-id : (s : State) (req : Request) → (handle_initialize c tools s req).id ≡ req.id
    unfolding handle_initialize
    initialize-id s req = ground arith

    call_tool-id :
        (s : State) (session : Option Text) (req : Request) (p : ToolCallParams)
        → (call_tool c tools s session req p).1.id ≡ req.id
    unfolding call_tool executed_response
    call_tool-id s session req p = ground arith

    call-id :
        (s : State) (session : Option Text) (req : Request)
        → (handle_tools_call c tools s session req).1.id ≡ req.id
    unfolding handle_tools_call
    call-id s session req = elim (Decoded-cases (c.call_params_of req.params)) [
      | inr (e, bad) ↦ simp (handle_tools_call, bad) refl
      | inl (p, good) ↦ simp (handle_tools_call, good) (call_tool-id s session req p)
    ]

    -- No answer, or one under the id of the request.
    abbrev pub Answers : Request → Option Response → Type 0
    Answers req answer =
        ((is_silent req ≡ true) × (answer ≡ none))
        ⊎ ((is_silent req ≡ false) × (r : Response) × (answer ≡ some r) × (r.id ≡ req.id))

    -- One test of the switch.
    if-Answers :
        (req : Request) (m : Text) (here others : State × Option Response) (r : Response)
        → is_known m ≡ true
        → here.1 ≡ some r
        → r.id ≡ req.id
        → ((req.method == m) ≡ false → Answers req others.1)
        → Answers req (if req.method == m then here else others).1
    if-Answers req m here others r known e id rest = elim (Bool-cases (req.method == m)) [
      | inl same ↦
          let named : is_known req.method ≡ true =
            ap is_known ((eq_iff req.method m).0 same) ∙ known in
          rw same (inr (ground (arith, named), r, e, id))
      | inr other ↦ rw other (rest other)
    ]

    -- The end of the switch, for a method that is not known.
    unknown-Answers :
        (s : State) (req : Request)
        → is_known req.method ≡ false
        → Answers req (dispatch_other s req).1
    unfolding dispatch_other
    unknown-Answers s req other =
        elim (Bool-cases (req.method == text "notifications/initialized")) [
          | inl note ↦ rw (dispatch_other, note) (inl (ground (arith, other, note), refl))
          | inr n_note ↦ elim (Bool-cases (is_notification req)) [
            | inl note ↦ rw (dispatch_other, n_note, note) (inl (ground (arith, other, note), refl))
            | inr asks ↦
                rw (dispatch_other, n_note, asks)
                  (inr (ground (arith, other, n_note, asks), unknown_method req, refl, refl))
          ]
        ]

    dispatch-Answers :
        (s : State) (session : Option Text) (req : Request) (now : ℕ)
        → Answers req (dispatch c tools s session req now).1
    unfolding dispatch
    dispatch-Answers s session req now =
        if-Answers req (text "initialize") _ _ (handle_initialize c tools s req) refl refl
          (initialize-id s req)
          (λ n1.
            if-Answers req (text "tools/list") _ _
              (ok_response req.id (tools_listed (list_tools tools))) refl refl refl
              (λ n2.
                if-Answers req (text "tools/call") _ _ (handle_tools_call c tools s session req).1
                  refl refl (call-id s session req)
                  (λ n3.
                    if-Answers req (text "resources/list") _ _ (handle_resources_list c s req) refl
                      refl (list-id s req)
                      (λ n4.
                        if-Answers req (text "resources/templates/list") _ _
                          (handle_resource_templates_list s req) refl refl (templates-id s req)
                          (λ n5.
                            if-Answers req (text "resources/read") _ _
                              (handle_resources_read c s req now) refl refl (read-id s req now)
                              (λ n6.
                                if-Answers req (text "resources/subscribe") _ _
                                  (handle_resources_subscribe c s req) refl refl
                                  (subscribe-id s req)
                                  (λ n7.
                                    if-Answers req (text "resources/unsubscribe") _ _
                                      (handle_resources_unsubscribe c s req).1 refl refl
                                      (unsubscribe-id s req)
                                      (λ n8.
                                        if-Answers req (text "ping") _ _ (ok_response req.id pong)
                                          refl refl refl
                                          (λ n9. unknown-Answers s req (
                                            simp (n1, n2, n3, n4, n5, n6, n7, n8, n9) refl))))))))))

    -- What the server answers to a message.
    abbrev pub Replied : Text → Option Response → Type 0
    Replied raw answer =
        ((req : Request) × (c.request_of raw ≡ decoded req) × IsProtocol req × Answers req answer)
        ⊎ ((code : ℕ) × (e : Text) × IsRefused c raw code e
            × (answer ≡ some (error_response [] code (text "parse error: " ++ e))))

    -- A message that the decoder reads as a request, of version 2.0 and with a method, is answered under its id, but for `notifications/initialized` and for notifications of unknown methods. Any other is answered without an id: by the code for a parse error where the decoder refuses it, and by that for an invalid request where the version or the method is wanting.
    pub handle-Replied :
        (raw : Text) (s : State) (session : Option Text) (now : ℕ)
        → Replied raw (handle c tools s session raw now).1
    unfolding handle
    handle-Replied raw s session now = elim (Parsed-cases (parse_request c raw)) [
      | inl (req, good) ↦
          let same : (handle c tools s session raw now).1 ≡ (dispatch c tools s session req now).1 =
            simp (handle, good) refl in
          let (read, protocol) = parse_request-parsed c raw req good in
          inl (
            req,
            read,
            protocol,
            subst (Answers req) (sym same) (dispatch-Answers s session req now),
          )
      | inr (code, e, bad) ↦
          inr (code, e, parse_request-rejected c raw e code bad, simp (handle, bad) refl)
    ]
