-- ===== src/Mcp/Tests.antt =====
-- Messages to try the server on, orchestrator/internal/server/server.go.
use emage_code_cwso.Prelude.{
  ◌≡◌, refl, ◌||◌, none, some, [], ◌∷◌, Text, text, if◌then◌else◌, ◌==◌, text_eq,
}
use emage_code_cwso.Prelude.Map.{Map, lookup, insert}
use emage_code_cwso.Prelude.Members.{mem}
use emage_code_cwso.Tools.{
  Tool, executed, text_result, role_worker, register_tool, authorized, get_tool,
}
use emage_code_cwso.Mcp.{
  Request, decoded, malformed, Codec, parse_request, error_response, ok_response,
  err_permission_denied, pong, tool_called,
}
use emage_code_cwso.Mcp.Resources.{State}
use emage_code_cwso.Mcp.Server.{
  role_of, executed_response, call_tool, handle_tools_call, dispatch, handle,
}
use emage_code_cwso.Mcp.Gate.{IsGated, handle-IsGated}
use emage_code_cwso.Mcp.Replies.{Replied, handle-Replied}

-- Of each message of the tests, what it decodes to: a ping, a call, or nothing.
abbrev request_named : Text → Request
request_named method = record { jsonrpc = text "2.0"; id = text "1"; method = method; params = [] }

abbrev codec : Codec
codec = record {
  request_of = λ raw.
      if raw == text "ping" || raw == text "tools/call"
      then decoded (request_named raw)
      else malformed (text "no JSON");
  initialize_error = λ params. none;
  call_params_of =
      λ params. decoded (record { name = text "write_file_sync"; arguments = text "{}" });
  uri_of = λ params. malformed (text "no uri");
  envelope_of = λ payload. record {
    workspace = [];
    path = [];
    spike_kind = [];
    hot_paths = [];
    workspaces = [];
  };
  agent_of = λ payload. [];
  spike_body = λ sub items. decoded (text "{}");
  agent_body = λ agent items. decoded (text "{}");
  quote = λ t. t;
  format_time = λ n. [];
  path_match = λ pattern path. some (pattern == path);
}

-- A tool that switches the event log off, for workers only.
abbrev write_tool : Tool State
write_tool = record {
  name = text "write_file_sync";
  description = text "Write a file";
  input_schema = [];
  allowed_roles = role_worker ∷ [];
  execute = λ args s. (record s { memory = none }, executed (text_result (text "done")));
}

abbrev tools : Map Text (Tool State)
tools = (text "write_file_sync", write_tool) ∷ []

abbrev start : State
start = record { spike_subs = some []; sparse_agents = none; memory = none }

registered_test : (register_tool (register_tool [] write_tool).0 write_tool).0 ≡ tools
unfolding register_tool lookup insert
registered_test = refl

ping_test : (handle codec tools start none (text "ping") 0).1 ≡ some (ok_response (text "1") pong)
unfolding handle parse_request dispatch
ping_test = refl

worker_test :
    (handle codec tools start (some role_worker) (text "tools/call") 0).1
    ≡ some (ok_response (text "1") (tool_called (text_result (text "done"))))
unfolding handle parse_request dispatch handle_tools_call call_tool authorized get_tool lookup mem
    role_of executed_response
worker_test = refl

denied_test :
    (handle codec tools start none (text "tools/call") 0).1
    ≡ some (
        error_response
          (text "1")
          err_permission_denied
          (text "role orchestrator may not invoke tool write_file_sync"))
unfolding handle parse_request dispatch handle_tools_call call_tool authorized get_tool lookup mem
    role_of
denied_test = refl

handle-IsGated_example :
    IsGated codec tools
      (text "tools/call")
      start
      (some role_worker)
      (handle codec tools start (some role_worker) (text "tools/call") 0).0
handle-IsGated_example = handle-IsGated codec tools (text "tools/call") start (some role_worker) 0

handle-Replied_example :
    Replied codec tools (text "ping") (handle codec tools start none (text "ping") 0).1
handle-Replied_example = handle-Replied codec tools (text "ping") start none 0
