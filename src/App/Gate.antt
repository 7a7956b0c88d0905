-- ===== src/App/Gate.antt =====
-- escalation-proxy/app/main.py: who reaches the service through `mcp_handler`.
use sre_agent_team.Base.{
  ◌≡◌, refl, true, String, Option, none, some, ◌==◌, ◌⊎◌, inl, inr, Bool-cases,
}
use sre_agent_team.Base.Fallible.{Result, ok, err, Result-cases}
use sre_agent_team.Service.Interfaces.{CreateRequest, GetRequest, Caller}
use sre_agent_team.Policy.Json.{Json, Fields}
use sre_agent_team.App.Mcp.{
  McpRequest, Raised, Calls, tool_response, on_request, call_tool, mcp_handler, tool_name,
  tool_arguments, is_text,
}

module _ {W : Type 0} (calls : Calls W) where
  -- What one call of an endpoint by the caller leaves, or no call.
  abbrev pub CalledBy : Caller → W → W → Type 0
  CalledBy caller w w' =
      (w' ≡ w)
      ⊎ ((r : CreateRequest) × (w' ≡ (calls.create_investigation r caller w).1))
      ⊎ ((r : GetRequest) × (w' ≡ (calls.get_status r caller w).1))
      ⊎ ((r : GetRequest) × (w' ≡ (calls.get_summary r caller w).1))

  tool_response_world :
      (id : Json) (x : Result Raised Json × W) → (tool_response calls id x).1 ≡ x.1
  tool_response_world id (ok v, w) = refl
  tool_response_world id (err e, w) = refl

  on_request_world :
      {R : Type 0} (id : Json) (o : Option R) (tool : R → W → Result Raised Json × W) (w : W)
      → ((on_request calls id o tool w).1 ≡ w)
        ⊎ ((r : R) × ((on_request calls id o tool w).1 ≡ (tool r w).1))
  on_request_world id none tool w = inl refl
  on_request_world id (some r) tool w = inr (r, tool_response_world id (tool r w))

  call_tool-CalledBy :
      (id : Json) (params : Fields) (caller : Caller) (w : W)
      → CalledBy caller w (call_tool calls id params caller w).1
  unfolding call_tool
  call_tool-CalledBy id params caller w =
      let arguments = tool_arguments params in
      elim (Bool-cases (is_text "create_platform_investigation" (tool_name params))) [
        | inl c ↦
            rw c
              (elim (on_request_world id (calls.create_request arguments)
                (λ r. calls.create_investigation r caller) w) [
                  | inl same ↦ inl same
                  | inr called ↦ inr (inl called)
                ])
        | inr c ↦ elim (Bool-cases (is_text "get_investigation_status" (tool_name params))) [
          | inl s ↦
              rw (c, s)
                (elim (on_request_world id (calls.get_request arguments)
                  (λ r. calls.get_status r caller) w) [
                    | inl same ↦ inl same
                    | inr called ↦ inr (inr (inl called))
                  ])
          | inr s ↦ elim (Bool-cases (is_text "get_investigation_summary" (tool_name params))) [
            | inl m ↦
                rw (c, s, m)
                  (elim (on_request_world id (calls.get_request arguments)
                    (λ r. calls.get_summary r caller) w) [
                      | inl same ↦ inl same
                      | inr called ↦ inr (inr (inr called))
                    ])
            | inr m ↦ rw (c, s, m) (inl refl)
          ]
        ]
      ]

-- An MCP request reaches the service only as `tools/call`, after its authorization was accepted, and then with one call
-- of one endpoint for the caller that was authenticated; any other request changes nothing, or only what
-- the authentication changes.
pub service_reached_by-CalledBy :
    {W : Type 0} (calls : Calls W) (body : McpRequest) (authorization : Option String) (w : W)
    → let w' = (mcp_handler calls body authorization w).1 in
      let (authenticated, w1) = calls.authenticate authorization w in
      (w' ≡ w)
      ⊎ (w' ≡ w1)
      ⊎ ((caller : Caller) × (authenticated ≡ ok caller)
          × ((body.method == "tools/call") ≡ true)
          × CalledBy calls caller w1 w')
unfolding mcp_handler
service_reached_by-CalledBy calls body authorization w =
    elim (Bool-cases (body.method == "tools/call")) [
      | inr not_call ↦ rw not_call (inl refl)
      | inl call ↦ elim (Result-cases (calls.authenticate authorization w).0) [
        | inr (e, h) ↦ rw (call, h) (inr (inl refl))
        | inl (caller, h) ↦
            rw (call, h)
              (inr (
                inr (
                  caller,
                  refl,
                  refl,
                  call_tool-CalledBy calls body.id body.params caller
                      (calls.authenticate authorization w).1,
                )))
      ]
    ]
