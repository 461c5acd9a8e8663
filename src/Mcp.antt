-- ===== src/Mcp.antt =====
-- The protocol of the server, orchestrator/internal/mcp/protocol.go. Its dispatch, of
-- orchestrator/internal/server/server.go, is in Mcp/Server, with the resources in Mcp/Resources.
-- What `encoding/json` decodes and encodes is the parameter `Codec`.
pub mod Resources
pub mod Server
pub mod Parsing
pub mod Replies
pub mod Gate
mod Tests
use emage_code_cwso.Prelude.{
  ℕ, ◌+◌, Bool, true, false, not, ◌||◌, Option, none, some, List, [], ◌∷◌, length, Text, text,
  if◌then◌else◌, ◌==◌, nat_eq, text_eq,
}
use emage_code_cwso.Spikes.Subscriptions.{Subscription, Envelope}
use emage_code_cwso.Tools.{ToolCallResult, ToolInfo}

-- The error codes, without their sign.
abbrev pub err_parse : ℕ
err_parse = 32700

abbrev pub err_invalid_request : ℕ
err_invalid_request = 32600

abbrev pub err_method_not_found : ℕ
err_method_not_found = 32601

abbrev pub err_invalid_params : ℕ
err_invalid_params = 32602

abbrev pub err_internal : ℕ
err_internal = 32603

abbrev pub err_permission_denied : ℕ
err_permission_denied = 32002

abbrev pub err_tool_not_found : ℕ
err_tool_not_found = 32010

abbrev pub err_tool_execution : ℕ
err_tool_execution = 32011

abbrev pub err_resource_not_found : ℕ
err_resource_not_found = 32020

-- `Request`; an absent id or absent parameters are empty.
pub record Request : Type 0 where
  pub jsonrpc : Text
  pub id : Text
  pub method : Text
  pub params : Text

-- `IsNotification`
unfoldable pub is_notification : Request → Bool
is_notification r = length r.id == 0 || r.id == text "null"

-- `Resource` and `ResourceTemplate`, with the URI or its template
pub record Resource : Type 0 where
  pub uri : Text
  pub name : Text
  pub description : Text
  pub mime_type : Text

-- `ResourceContents`
pub record ResourceContents : Type 0 where
  pub uri : Text
  pub mime_type : Text
  pub text : Text

-- What a response carries as its result.
pub data Result : Type 0 where
  initialized : Bool → Result
  tools_listed : List ToolInfo → Result
  tool_called : ToolCallResult → Result
  resources_listed : List Resource → Result
  templates_listed : List Resource → Result
  resource_read : ResourceContents → Result
  done : Result
  pong : Result

-- A response has a result or an error, with its code and message.
pub data Outcome : Type 0 where
  succeeded : Result → Outcome
  failed : ℕ → Text → Outcome

-- `Response`
pub record Response : Type 0 where
  pub id : Text
  pub outcome : Outcome

-- `ErrorResponse` of `NewError`
abbrev pub error_response : Text → ℕ → Text → Response
error_response id code message = record { id = id; outcome = failed code message }

-- `OK`
abbrev pub ok_response : Text → Result → Response
ok_response id result = record { id = id; outcome = succeeded result }

-- `ToolCallParams`
pub record ToolCallParams : Type 0 where
  pub name : Text
  pub arguments : Text

-- What decoding gives: a value, or the text of an error.
pub data Decoded {ℓ} (A : Type ℓ) : Type ℓ where
  decoded : A → Decoded A
  malformed : Text → Decoded A

-- An event of a resource's snapshot.
pub record SnapshotItem : Type 0 where
  pub topic : Text
  pub sequence : ℕ
  pub at : Text
  pub event : Text

-- What is used of `encoding/json`, `fmt` (`%q`), `time` and `path`.
pub record Codec : Type 0 where
  pub request_of : Text → Decoded Request
  pub initialize_error : Text → Option Text
  pub call_params_of : Text → Decoded ToolCallParams
  pub uri_of : Text → Decoded Text
  pub envelope_of : Text → Envelope
  pub agent_of : Text → Text
  pub spike_body : Subscription → List SnapshotItem → Decoded Text
  pub agent_body : Text → List SnapshotItem → Decoded Text
  pub quote : Text → Text
  pub format_time : ℕ → Text
  pub path_match : Text → Text → Option Bool

-- A parsed request, or the code and the text of a `RequestError`.
pub data Parsed : Type 0 where
  parsed : Request → Parsed
  rejected : ℕ → Text → Parsed

-- `ParseRequest`
unfoldable pub parse_request : Codec → Text → Parsed
parse_request c raw = elim (c.request_of raw) [
  | malformed e ↦ rejected err_parse e
  | decoded req ↦
      if not (req.jsonrpc == text "2.0")
      then rejected err_invalid_request (text "invalid jsonrpc version")
      else if req.method == []
      then rejected err_invalid_request (text "missing method")
      else parsed req
]
