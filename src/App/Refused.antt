-- ===== src/App/Refused.antt =====
-- escalation-proxy/app/main.py: the endpoints for a request that is not authenticated.
use sre_agent_team.Base.{◌≡◌, String, Option, arith}
use sre_agent_team.Base.Fallible.{err}
use sre_agent_team.Base.Int.{ℤ}
use sre_agent_team.Http.{HttpException}
use sre_agent_team.Service.Interfaces.{CreateRequest, GetRequest}
use sre_agent_team.App.Endpoints.{
  Service, CreateV1Request, create_endpoint, create_v1_endpoint, status_endpoint,
  status_v1_endpoint, findings_v1_endpoint, summary_endpoint,
}

-- Each of the six endpoints answers a request whose authorization is refused with the error of that refusal, whatever the
-- request asks for, and calls nothing more.
pub unauthenticated_refused :
    {W : Type 0} (s : Service W) (create : CreateRequest) (create_v1 : CreateV1Request)
    (get : GetRequest) (id key : String) (wait : ℤ) (authorization : Option String) (w : W)
    (e : HttpException)
    → (s.authenticate authorization w).0 ≡ err e
    → let w1 = (s.authenticate authorization w).1 in
      (create_endpoint s create authorization w ≡ (err e, w1))
      × (create_v1_endpoint s create_v1 authorization key w ≡ (err e, w1))
      × (status_endpoint s get authorization w ≡ (err e, w1))
      × (status_v1_endpoint s id wait authorization w ≡ (err e, w1))
      × (findings_v1_endpoint s id authorization w ≡ (err e, w1))
      × (summary_endpoint s get authorization w ≡ (err e, w1))
unfolding create_endpoint create_v1_endpoint status_endpoint status_v1_endpoint findings_v1_endpoint
    summary_endpoint
unauthenticated_refused s create create_v1 get id key wait authorization w e refused =
    (ground arith, ground arith, ground arith, ground arith, ground arith, ground arith)
