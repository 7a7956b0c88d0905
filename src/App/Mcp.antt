-- ===== src/App/Mcp.antt =====
-- escalation-proxy/app/main.py: `mcp_handler`, `_mcp_result` and `_mcp_error`.
use sre_agent_team.Base.{Bool, false, String, Option, none, some, ◌==◌, if◌then◌else◌}
use sre_agent_team.Base.Fallible.{Result, ok, err}
use sre_agent_team.Base.Int.{ℤ, negsuc}
use sre_agent_team.Base.Text.{append}
use sre_agent_team.Policy.Json.{Json, text, object, Fields, end, get_field, truth}
use sre_agent_team.Service.Interfaces.{CreateRequest, GetRequest, Caller}

-- `McpRequest`, after Pydantic.
pub record McpRequest : Type 0 where
  pub jsonrpc : String
  pub id : Json
  pub method : String
  pub params : Fields

-- The results: that of `initialize`, the empty one, the list of tools, and the text of a tool's answer.
pub data McpResult : Type 0 where
  server_info no_result tools_list : McpResult
  content : String → McpResult

pub data McpResponse : Type 0 where
  mcp_result : Json → McpResult → McpResponse
  mcp_error : Json → ℤ → String → McpResponse

-- What a call raises: an `HTTPException` with its detail, or another exception.
pub data Raised : Type 0 where
  http_error : String → Raised
  other : Raised

-- What the handler calls: the authentication, the three endpoints, the requests that Pydantic makes of a
-- tool's arguments (none where it raises), `json.dumps`, and `str` of a value. `W` is what the calls
-- change.
pub record Calls (W : Type 0) : Type 0 where
  pub authenticate : Option String → W → Result Raised Caller × W
  pub create_request : Json → Option CreateRequest
  pub get_request : Json → Option GetRequest
  pub create_investigation : CreateRequest → Caller → W → Result Raised Json × W
  pub get_status : GetRequest → Caller → W → Result Raised Json × W
  pub get_summary : GetRequest → Caller → W → Result Raised Json × W
  pub dumps : Json → String
  pub str : Json → String

-- `(body.params or {}).get("name", "")`
abbrev pub tool_name : Fields → Json
tool_name params = elim (get_field "name" params) [ none ↦ text "" | some v ↦ v ]

-- `(body.params or {}).get("arguments") or {}`
abbrev pub tool_arguments : Fields → Json
tool_arguments params = elim (get_field "arguments" params) [
  | none ↦ object end
  | some v ↦ if truth v then v else object end
]

abbrev pub is_text : String → Json → Bool
is_text s (text t) = t == s
is_text s _ = false

module _ {W : Type 0} (calls : Calls W) where
  -- The response to what a request raises.
  abbrev pub raised_response : Json → Raised → McpResponse
  raised_response id (http_error detail) = mcp_error id (negsuc 32000) detail
  raised_response id other = mcp_error id (negsuc 31999) "Internal server error"

  -- The response to the answer of a tool.
  abbrev pub tool_response : Json → Result Raised Json × W → McpResponse × W
  tool_response id (ok v, w) = (mcp_result id (content (calls.dumps v)), w)
  tool_response id (err e, w) = (raised_response id e, w)

  -- A tool on its arguments, where Pydantic makes a request of them.
  abbrev pub on_request :
      {R : Type 0} → Json → Option R → (R → W → Result Raised Json × W) → W → McpResponse × W
  on_request id none tool w = (raised_response id other, w)
  on_request id (some r) tool w = tool_response id (tool r w)

  -- The branch of `tools/call`, for an authenticated caller.
  unfoldable pub call_tool : Json → Fields → Caller → W → McpResponse × W
  unfolding get_field truth
  call_tool id params caller w =
      let name = tool_name params in
      let arguments = tool_arguments params in
      if is_text "create_platform_investigation" name
      then on_request id (calls.create_request arguments) (λ r. calls.create_investigation r caller)
          w
      else if is_text "get_investigation_status" name
      then on_request id (calls.get_request arguments) (λ r. calls.get_status r caller) w
      else if is_text "get_investigation_summary" name
      then on_request id (calls.get_request arguments) (λ r. calls.get_summary r caller) w
      else (mcp_error id (negsuc 32600) (append "Unknown tool: " (calls.str name)), w)

  -- The methods that need no caller.
  unfoldable pub answer_method : Json → String → McpResponse
  answer_method id method =
      if method == "initialize"
      then mcp_result id server_info
      else if method == "notifications/initialized"
      then mcp_result id no_result
      else if method == "ping"
      then mcp_result id no_result
      else if method == "tools/list"
      then mcp_result id tools_list
      else mcp_error id (negsuc 32600) (append "Method not found: " method)

  unfoldable pub mcp_handler : McpRequest → Option String → W → McpResponse × W
  mcp_handler body authorization w =
      if body.method == "tools/call"
      then (let (authenticated, w') = calls.authenticate authorization w in
          elim authenticated [
            | err e ↦ (raised_response body.id e, w')
            | ok caller ↦ call_tool body.id body.params caller w'
          ])
      else (answer_method body.id body.method, w)
