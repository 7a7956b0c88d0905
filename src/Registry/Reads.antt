-- ===== src/Registry/Reads.antt =====
-- escalation-proxy/app/investigation_registry.py: the methods of the in-memory registry that look
-- records up, and those that drop expired ones. A call's clock readings are its arguments.
use sre_agent_team.Base.{
  ℕ, ◌+◌, Bool, true, false, not, ◌&&◌, String, Option, none, some, List, [], ◌∷◌, ltb, leb, ◌==◌,
  if◌then◌else◌, length, take,
}
use sre_agent_team.Base.Fallible.{Result, ok, err}
use sre_agent_team.Base.Dict.{Dict, lookup, erase}
use sre_agent_team.Registry.Record.{
  InvestigationRecord, Registry, RegistryError, Settings, holds_quota, investigation_not_found,
  unauthorized, expired, quota_reached,
}

-- `get_investigation`; `caller_oid` is not read.
unfoldable pub get_investigation :
    String → String → String → ℕ → Registry → Result RegistryError InvestigationRecord × Registry
get_investigation investigation_id caller_oid workload_identity_appid now s =
    elim (lookup investigation_id s.records) [
      | none ↦ (err investigation_not_found, s)
      | some r ↦
          if not (r.workload_identity_appid == workload_identity_appid)
          then (err unauthorized, s)
          else if ltb r.expires_at now
          then (err expired, record s { records = erase investigation_id s.records })
          else (ok r, s)
    ]

-- The test of `find_by_idempotency_key`, at the clock reading taken for the record.
unfoldable pub answers_key : String → String → ℕ → InvestigationRecord → Bool
answers_key caller_appid idempotency_key now r =
    r.caller_appid == caller_appid && r.idempotency_key == idempotency_key && leb now r.expires_at

-- The loop of `find_by_idempotency_key`; `clock k` is the reading when the record under `k` is
-- tested.
unfoldable pub find_key :
    String → String → (String → ℕ) → Dict InvestigationRecord → Option InvestigationRecord
find_key caller_appid idempotency_key clock [] = none
find_key caller_appid idempotency_key clock ((k, r) ∷ d) =
    if answers_key caller_appid idempotency_key (clock k) r
    then some r
    else find_key caller_appid idempotency_key clock d

unfoldable pub find_by_idempotency_key :
    String → String → (String → ℕ) → Registry → Option InvestigationRecord
find_by_idempotency_key caller_appid idempotency_key clock s =
    find_key caller_appid idempotency_key clock s.records

-- The test that `reserve_investigation` and `check_workload_quota` count by.
unfoldable pub counts_against : String → ℕ → InvestigationRecord → Bool
counts_against workload_identity_appid now r =
    r.workload_identity_appid == workload_identity_appid
    && leb now r.expires_at
    && holds_quota r.reservation_state

abbrev pub as_count : Bool → ℕ
as_count true = 1
as_count false = 0

-- The caller's records that hold a quota slot.
unfoldable pub active_count : String → (String → ℕ) → Dict InvestigationRecord → ℕ
active_count workload_identity_appid clock [] = 0
active_count workload_identity_appid clock ((k, r) ∷ d) =
    as_count (counts_against workload_identity_appid (clock k) r)
    + active_count workload_identity_appid clock d

-- `maximum_investigations or MAX_INVESTIGATIONS_PER_WORKLOAD`
abbrev pub quota_or_default : Option ℕ → ℕ → ℕ
quota_or_default none fallback = fallback
quota_or_default (some n) fallback = if leb n 0 then fallback else n

unfoldable pub check_workload_quota :
    Settings → String → Option ℕ → (String → ℕ) → Registry → Result RegistryError (Unit {0})
check_workload_quota settings workload_identity_appid maximum_investigations clock s =
    let quota = quota_or_default maximum_investigations settings.max_investigations_per_workload in
    if leb quota (active_count workload_identity_appid clock s.records)
    then err (quota_reached quota)
    else ok tt

-- The keys of the records whose expiry has passed.
unfoldable pub expired_ids : ℕ → Dict InvestigationRecord → List String
expired_ids now [] = []
expired_ids now ((k, r) ∷ d) =
    if ltb r.expires_at now then k ∷ expired_ids now d else expired_ids now d

-- `for id in expired: del self._registry[id]`
unfoldable pub erase_all : List String → Dict InvestigationRecord → Dict InvestigationRecord
erase_all [] d = d
erase_all (k ∷ ks) d = erase_all ks (erase k d)

-- The count of the records removed, and the registry.
unfoldable pub cleanup_expired : ℕ → ℕ → Registry → ℕ × Registry
cleanup_expired limit now s =
    let ids = take limit (expired_ids now s.records) in
    (length ids, record s { records = erase_all ids s.records })
