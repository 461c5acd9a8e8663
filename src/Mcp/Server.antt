-- ===== src/Mcp/Server.antt =====
-- The dispatch of requests, `Handle` of orchestrator/internal/server/server.go.
use emage_code_cwso.Prelude.{
  ℕ, not, Option, none, some, [], ◌++◌, length, Text, text, if◌then◌else◌, ltb, ◌==◌, text_eq,
}
use emage_code_cwso.Prelude.Map.{Map}
use emage_code_cwso.Tools.{
  Tool, Executed, executed, no_result, execution_failed, role_orchestrator, list_tools, authorized,
}
use emage_code_cwso.Mcp.{
  Request, is_notification, initialized, tools_listed, tool_called, pong, Response, error_response,
  ok_response, err_method_not_found, err_invalid_params, err_internal, err_permission_denied,
  err_tool_not_found, err_tool_execution, ToolCallParams, decoded, malformed, Codec, parsed,
  rejected, parse_request,
}
use emage_code_cwso.Mcp.Resources.{
  State, resources_enabled, handle_resources_list, handle_resource_templates_list,
  handle_resources_read, handle_resources_subscribe, handle_resources_unsubscribe,
}

-- The role that a call is made in: that of the session, else the orchestrator's.
unfoldable pub role_of : Option Text → Text
role_of none = role_orchestrator
role_of (some role) = if role == [] then role_orchestrator else role

-- The response to what a tool answers.
unfoldable pub executed_response : Text → Executed → Response
executed_response id (executed result) = ok_response id (tool_called result)
executed_response id no_result = error_response id err_internal (text "tool returned nil")
executed_response id (execution_failed e) = error_response id err_tool_execution e

abbrev denied : (Text → Text) → Text → Text → Text
denied quote role name =
    text "role " ++ (quote role ++ (text " may not invoke tool " ++ quote name))

-- The response to a request for another method.
abbrev pub unknown_method : Request → Response
unknown_method req =
    error_response req.id err_method_not_found (text "method not found: " ++ req.method)

-- The end of the switch of `Handle`: notifications, and methods that are not known.
unfoldable pub dispatch_other : State → Request → State × Option Response
dispatch_other s req =
    if req.method == text "notifications/initialized"
    then (s, none)
    else if is_notification req
    then (s, none)
    else (s, some (unknown_method req))

module _ (c : Codec) (tools : Map Text (Tool State)) where
  -- `handleInitialize`
  unfoldable pub handle_initialize : State → Request → Response
  handle_initialize s req =
      let ready = ok_response req.id (initialized (resources_enabled s)) in
      if ltb 0 (length req.params)
      then elim (c.initialize_error req.params) [
        | some e ↦ error_response req.id err_invalid_params e
        | none ↦ ready
      ]
      else ready

  -- `handleToolsCall`, once its parameters are decoded.
  unfoldable pub call_tool : State → Option Text → Request → ToolCallParams → State × Response
  call_tool s session req p =
      let role = role_of session in
      let (tool, allowed) = authorized tools p.name role in
      if p.name == []
      then (s, error_response req.id err_invalid_params (text "tool name is required"))
      else elim tool [
        | none ↦ (s, error_response req.id err_tool_not_found (text "tool not found: " ++ p.name))
        | some t ↦
            let (s', answer) = t.execute p.arguments s in
            if not allowed
            then (s, error_response req.id err_permission_denied (denied c.quote role p.name))
            else (s', executed_response req.id answer)
      ]

  -- `handleToolsCall`
  unfoldable pub handle_tools_call : State → Option Text → Request → State × Response
  handle_tools_call s session req = elim (c.call_params_of req.params) [
    | malformed e ↦ (s, error_response req.id err_invalid_params e)
    | decoded p ↦ call_tool s session req p
  ]

  -- The switch of `Handle` over the methods; none is no response.
  unfoldable pub dispatch : State → Option Text → Request → ℕ → State × Option Response
  dispatch s session req now =
      let called = handle_tools_call s session req in
      let dropped = handle_resources_unsubscribe c s req in
      if req.method == text "initialize"
      then (s, some (handle_initialize s req))
      else if req.method == text "tools/list"
      then (s, some (ok_response req.id (tools_listed (list_tools tools))))
      else if req.method == text "tools/call"
      then (called.0, some called.1)
      else if req.method == text "resources/list"
      then (s, some (handle_resources_list c s req))
      else if req.method == text "resources/templates/list"
      then (s, some (handle_resource_templates_list s req))
      else if req.method == text "resources/read"
      then (s, some (handle_resources_read c s req now))
      else if req.method == text "resources/subscribe"
      then (s, some (handle_resources_subscribe c s req))
      else if req.method == text "resources/unsubscribe"
      then (dropped.0, some dropped.1)
      else if req.method == text "ping"
      then (s, some (ok_response req.id pong))
      else dispatch_other s req

  -- `Handle`; the answer is the response that is marshalled.
  unfoldable pub handle : State → Option Text → Text → ℕ → State × Option Response
  handle s session raw now = elim (parse_request c raw) [
    | rejected code e ↦ (s, some (error_response [] code (text "parse error: " ++ e)))
    | parsed req ↦ dispatch s session req now
  ]
