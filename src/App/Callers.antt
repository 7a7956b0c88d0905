-- ===== src/App/Callers.antt =====
-- escalation-proxy/app/mcp_transport.py: for whom a tool of the MCP transport runs.
use sre_agent_team.Base.{
  ◌≡◌, ◌↔◌, refl, ◌||◌, String, Option, none, some, ◌==◌, arith, ◌⊎◌, inl, inr, Bool-cases, ◌≢◌,
}
use sre_agent_team.Base.Fallible.{Result, ok, Result-cases}
use sre_agent_team.Http.{HttpException}
use sre_agent_team.Policy.Json.{Json}
use sre_agent_team.Service.Interfaces.{Caller}
use sre_agent_team.App.Transport.{
  resolve_label, Context, as_caller, Response, tool_answer, dispatch, mcp_app,
}

-- A label is accepted exactly when it is not empty and is the only one given, or both.
pub resolve_label-ok_iff :
    (caller_label workload_name label : String)
    → (resolve_label caller_label workload_name ≡ ok label) ↔ (
        (((caller_label ≡ label) × ((workload_name ≡ label) ⊎ (workload_name ≡ "")))
          ⊎ ((caller_label ≡ "") × (workload_name ≡ label)))
        × (label ≢ ""))
unfolding resolve_label
resolve_label-ok_iff caller_label workload_name label = (λ e. ground arith, λ h. ground arith)

module _ {W : Type 0} (authenticate : Option String → W → Result HttpException Caller × W)
    (endpoint : Caller → W → Result HttpException Json × W) where
  -- The endpoint ran for the caller on `w`, and this is its answer and what it left.
  abbrev pub RanFor : Caller → W → Response → W → Type 0
  RanFor caller w response w' =
      (w' ≡ (endpoint caller w).1)
      × (response ≡ tool_answer ((as_caller endpoint) (some caller, w)).0)

  as_caller_world :
      (caller : Caller) (w : W) → (as_caller endpoint (some caller, w)).1.1 ≡ (endpoint caller w).1
  unfolding as_caller
  as_caller_world caller w = elim (Result-cases (endpoint caller w).0) [
    | inl (v, h) ↦ ground arith
    | inr (e, h) ↦ ground arith
  ]

  no_caller : (w : W) → (as_caller endpoint (none, w)).1 ≡ (none, w)
  unfolding as_caller
  no_caller w = refl

  abbrev Settles : Option String → W → Response × Context W → Type 0
  Settles authorization w x =
      (x.1.0 ≡ none)
      × ((x.1.1 ≡ w)
          ⊎ (x.1.1 ≡ (authenticate authorization w).1)
          ⊎ ((caller : Caller) × ((authenticate authorization w).0 ≡ ok caller)
              × RanFor caller (authenticate authorization w).1 x.0 x.1.1))

  dispatch-Settles :
      (method : String) (authorization : Option String) (w : W)
      → Settles authorization w
          (dispatch authenticate (as_caller endpoint) method authorization (none, w))
  unfolding dispatch
  dispatch-Settles method authorization w =
      elim (Bool-cases (method == "POST" || method == "GET")) [
        | inr off ↦ rw (off, no_caller w) (refl, inl refl)
        | inl on ↦ elim (Result-cases (authenticate authorization w).0) [
          | inr (e, h) ↦ rw (on, h) (refl, inr (inl refl))
          | inl (caller, h) ↦
              rw (on, h)
                (
                  refl,
                  inr (
                      inr (
                        caller,
                        refl,
                        (as_caller_world caller (authenticate authorization w).1, refl),
                      )),
                )
        ]
      ]

-- A request to the MCP transport, outside of any other, with a tool that calls an endpoint for the caller of its context:
-- it leaves no caller in the context, and either it leaves all else as it was, or only authenticates, or
-- the authentication of its own header gave the caller for whom the endpoint ran once.
pub tool_runs-RanFor :
    {W : Type 0} (authenticate : Option String → W → Result HttpException Caller × W)
    (endpoint : Caller → W → Result HttpException Json × W) (kind method : String)
    (authorization : Option String) (w : W)
    → let (response, (context, w')) =
        mcp_app authenticate (as_caller endpoint) kind method authorization (none, w) in
      let (authenticated, w1) = authenticate authorization w in
      (context ≡ none)
      × ((w' ≡ w)
          ⊎ (w' ≡ w1)
          ⊎ ((caller : Caller) × (authenticated ≡ ok caller)
              × RanFor authenticate endpoint caller w1 response w'))
unfolding mcp_app
tool_runs-RanFor authenticate endpoint kind method authorization w =
    elim (Bool-cases (kind == "http")) [
      | inr other ↦ rw (other, no_caller authenticate endpoint w) (refl, inl refl)
      | inl web ↦ elim (Bool-cases (method == "GET")) [
        | inl read ↦ rw (web, read) (refl, inl refl)
        | inr write ↦
            rw (web, write) (dispatch-Settles authenticate endpoint method authorization w)
      ]
    ]
