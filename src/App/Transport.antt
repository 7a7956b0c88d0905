-- ===== src/App/Transport.antt =====
-- escalation-proxy/app/mcp_transport.py. FastMCP, which chooses the tool of a request and checks the types of its
-- arguments, is what `call_next` stands for.
use sre_agent_team.Base.{not, ◌&&◌, ◌||◌, String, Option, none, some, ◌==◌, if◌then◌else◌}
use sre_agent_team.Base.Fallible.{Result, ok, err}
use sre_agent_team.Base.Int.{ℤ}
use sre_agent_team.Http.{HttpException, http}
use sre_agent_team.Policy.Json.{Json}
use sre_agent_team.Service.Interfaces.{CreateRequest, GetRequest, Caller}

-- What a tool raises.
pub data ToolError : Type 0 where
  labels_differ label_required : ToolError
  http_error : HttpException → ToolError

-- What the tools call; `W` is what the calls change.
pub record Impls (W : Type 0) : Type 0 where
  pub create_investigation : CreateRequest → Caller → String → W → Result HttpException Json × W
  pub get_status : GetRequest → Caller → W → Result HttpException Json × W
  pub get_summary : GetRequest → Caller → W → Result HttpException Json × W

-- The parameters of `create_platform_investigation`.
pub record CreateArguments : Type 0 where
  pub description : String
  pub idempotency_key : String
  pub resource_group_id : String
  pub caller_label : String
  pub severity : String
  pub context : String
  pub workload_name : String

-- `caller_label or workload_name`, after the two tests.
unfoldable pub resolve_label : String → String → Result ToolError String
resolve_label caller_label workload_name =
    if not (caller_label == "") && not (workload_name == "") && not (caller_label == workload_name)
    then err labels_differ
    else if not (caller_label == "")
    then ok caller_label
    else if workload_name == ""
    then err label_required
    else ok workload_name

-- The value of the context variable `_caller`, and the rest.
abbrev pub Context : Type 0 → Type 0
Context W = Option Caller × W

-- `_require_caller`
abbrev pub require_caller : Option Caller → Result ToolError Caller
require_caller none = err (http_error (http 401))
require_caller (some caller) = ok caller

abbrev pub Tool : Type 0 → Type 0
Tool W = Context W → Result ToolError Json × Context W

-- The answers of the transport: that of the probe, the refusal of the authentication, and what the
-- request's tool gives.
pub data Response : Type 0 where
  probe : Response
  refused : HttpException → Response
  tool_answer : Result ToolError Json → Response

module _ {W : Type 0} where
  -- An endpoint, for the caller of the context.
  unfoldable pub as_caller : (Caller → W → Result HttpException Json × W) → Tool W
  as_caller endpoint (context, w) = elim (require_caller context) [
    | err e ↦ (err e, (context, w))
    | ok caller ↦
        let (answered, w') = endpoint caller w in
        elim answered [ ok v ↦ (ok v, (context, w')) | err e ↦ (err (http_error e), (context, w')) ]
  ]

  unfoldable pub create_platform_investigation : Impls W → CreateArguments → Tool W
  create_platform_investigation impls a state =
      elim (resolve_label a.caller_label a.workload_name) [
        | err e ↦ (err e, state)
        | ok label ↦
            as_caller
              (λ caller.
                impls.create_investigation
                  (record {
                    description = a.description;
                    workload_name = label;
                    resource_group_id = a.resource_group_id;
                    severity = a.severity;
                    context = a.context;
                  })
                  caller a.idempotency_key)
              state
      ]

  unfoldable pub get_investigation_status : Impls W → String → ℤ → Tool W
  get_investigation_status impls investigation_id wait_seconds = as_caller (
      impls.get_status
        (record { investigation_id = investigation_id; wait_seconds = wait_seconds }))

  unfoldable pub get_investigation_summary : Impls W → String → Tool W
  get_investigation_summary impls investigation_id =
      as_caller
        (impls.get_summary (record { investigation_id = investigation_id; wait_seconds = ℤ.pos 0 }))

  -- `call_next`
  abbrev pub answer_of : Result ToolError Json × Context W → Response × Context W
  answer_of (r, state) = (tool_answer r, state)

  -- `CallerAuthMiddleware.dispatch`
  unfoldable pub dispatch :
      (Option String → W → Result HttpException Caller × W)
      → Tool W
      → String
      → Option String
      → Context W
      → Response × Context W
  dispatch authenticate call_next method authorization (context, w) =
      let (authenticated, w') = authenticate authorization w in
      if method == "POST" || method == "GET"
      then elim authenticated [
        | err e ↦ (refused e, (context, w'))
        | ok caller ↦
            let (r, (_, w'')) = call_next (some caller, w') in (tool_answer r, (context, w''))
      ]
      else answer_of (call_next (context, w))

  -- `McpProbeAndTransport.__call__`, with the middleware of `create_mcp_app` behind it.
  unfoldable pub mcp_app :
      (Option String → W → Result HttpException Caller × W)
      → Tool W
      → String
      → String
      → Option String
      → Context W
      → Response × Context W
  mcp_app authenticate call_next kind method authorization state =
      if kind == "http" && method == "GET"
      then (probe, state)
      else if kind == "http"
      then dispatch authenticate call_next method authorization state
      else answer_of (call_next state)
