-- ===== src/Registry/Ownership.antt =====
-- escalation-proxy/app/investigation_registry.py: who may read a record.
use sre_agent_team.Base.{ℕ, ◌≤◌, ◌≡◌, ◌↔◌, String, some, arith}
use sre_agent_team.Base.Fallible.{ok}
use sre_agent_team.Base.Dict.{lookup}
use sre_agent_team.Registry.Record.{InvestigationRecord, Registry}
use sre_agent_team.Registry.Reads.{get_investigation}

-- `get_investigation` returns a record exactly when it is stored under the id, belongs to the
-- caller and has not expired; the registry is then left as it was.
pub get_investigation-ok_iff :
    (id oid app : String) (now : ℕ) (s s' : Registry) (r : InvestigationRecord)
    → (get_investigation id oid app now s ≡ (ok r, s')) ↔ (
        (lookup id s.records ≡ some r)
        × (r.workload_identity_appid ≡ app)
        × (now ≤ r.expires_at)
        × (s' ≡ s))
unfolding get_investigation
get_investigation-ok_iff id oid app now s s' r = (λ e. ground arith, λ h. ground arith)
