-- ===== src/Service/Once.antt =====
-- escalation-proxy/app/investigation_service.py: `create_investigation` twice under one key, on the in-memory
-- registry.
use sre_agent_team.Base.{
  ℕ, ◌+◌, ◌≤◌, ◌≡◌, ◌≢◌, false, String, [], arith, ◌==◌, Option-cases, inl, inr,
}
use sre_agent_team.Authorization.Claims.{SeveritySettings}
use sre_agent_team.Policy.Store.{CallerPolicy}
use sre_agent_team.Registry.Record.{Registry, Settings}
use sre_agent_team.Registry.Admission.{Readings}
use sre_agent_team.Registry.Reads.{answers_key, find_key, find_by_idempotency_key}
use sre_agent_team.Service.Admission.{replay-posts}
use sre_agent_team.Service.Interfaces.{PolicyOps, Config, CreateRequest, Caller}
use sre_agent_team.Service.Request.{Outside, request_fingerprint}
use sre_agent_team.Service.Create.{reserve_and_send, create_admitted}
use sre_agent_team.Service.Memory.{memory_registry}
use sre_agent_team.Service.Held.{found_answers, reserve_and_send-Held}

module _ (policies : PolicyOps Registry) (settings : Settings) (readings : Readings) (now : ℕ)
    (c : Config) (severities : SeveritySettings) (o : Outside) where
  -- Once a call has sent its message to the platform, whatever became of that, a further call of the
  -- same caller with the same key, before the record expires, sends nothing, where no other task runs.
  pub key_sends_once :
      (req req' : CreateRequest) (caller : Caller) (policy policy' : CallerPolicy)
      (severity severity' key fingerprint : String) (o' : Outside) (readings' : Readings) (now' : ℕ)
      (s : Registry)
      → key == "" ≡ false
      → readings'.search_clock readings.investigation_uuid
        ≤ readings.now + settings.active_metadata_retention_seconds
      → let first =
          reserve_and_send policies
            (memory_registry settings readings now)
            (λ _ w. w)
            c
            severities
            o
            req
            caller
            policy
            severity
            key
            fingerprint
            s in
        first.posts ≢ []
        → (create_admitted policies
            (memory_registry settings readings' now')
            (λ _ w. w)
            c
            severities
            o'
            req'
            caller
            policy'
            severity'
            key
            first.world).posts
          ≡ []
  unfolding create_admitted find_by_idempotency_key answers_key
  key_sends_once req req' caller policy policy' severity severity' key fingerprint o' readings' now'
        s keyed live sent =
      let first =
        reserve_and_send policies (memory_registry settings readings now) (λ _ w. w) c severities o
          req caller policy severity key fingerprint s in
      let held =
        reserve_and_send-Held policies settings readings now c severities o req caller policy
          severity key fingerprint s sent in
      let known =
        found_answers readings.investigation_uuid caller.appid key readings'.search_clock
          first.world.records held.0 held.1 (ground arith) in
      elim (Option-cases (find_key caller.appid key readings'.search_clock first.world.records)) [
        | inl e ↦ absurd (known e)
        | inr r ↦
            ground (arith, replay-posts r.0 (request_fingerprint o' req' severity') first.world)
      ]
