-- ===== src/Table/Agreement.antt =====
-- escalation-proxy/app/investigation_registry.py: when a method of `TableStorageInvestigationRegistry` answers as that
-- of `InvestigationRegistry` does.
use sre_agent_team.Base.{◌≡◌, String, Option, none, some, arith, Option-cases, inl, inr, ◌⊎◌}
use sre_agent_team.Base.Fallible.{Result, ok, err}
use sre_agent_team.Base.Dict.{lookup}
use sre_agent_team.Registry.Record.{
  InvestigationRecord, Registry, RegistryError, unauthorized, investigation_not_found,
  reservation_not_found, idempotency_conflict, quota_reached, expired, status_rate_limit,
  maximum_status_polls, summary_rate_limit, maximum_summary_polls,
}
use sre_agent_team.Table.Entity.{Entity, TableError, not_found, raises}
use sre_agent_team.Table.RoundTrip.{stored}
use sre_agent_team.Table.Represents.{IsId, owned, Represents, found_row, missing_row}

-- What the methods that change a record raise on the table where the in-memory ones raise an error: the
-- `ResourceNotFoundError` of the read, where these refuse an id under which the caller has no record.
abbrev pub refusal : RegistryError → TableError
refusal unauthorized = not_found
refusal investigation_not_found = not_found
refusal reservation_not_found = not_found
refusal idempotency_conflict = raises idempotency_conflict
refusal (quota_reached n) = raises (quota_reached n)
refusal expired = raises expired
refusal status_rate_limit = raises status_rate_limit
refusal maximum_status_polls = raises maximum_status_polls
refusal summary_rate_limit = raises summary_rate_limit
refusal maximum_summary_polls = raises maximum_summary_polls

-- The same for `get_investigation`, which raises that there is none, whosever record it is in memory.
abbrev pub read_refusal : RegistryError → TableError
read_refusal unauthorized = raises investigation_not_found
read_refusal e = raises e

-- An answer in memory as the table gives it.
abbrev pub answer :
    {A : Type 0} → (RegistryError → TableError) → Result RegistryError A → Result TableError A
answer translate (ok a) = ok a
answer translate (err e) = err (translate e)

owned_lem :
    (pk : String) (r : InvestigationRecord) (o : Option InvestigationRecord)
    → owned pk o ≡ some r
    → (o ≡ some r) × (r.workload_identity_appid ≡ pk)
owned_lem pk r none h = cc
owned_lem pk r (some x) h = (ground arith, ground arith)

module _ {T : Type 0} (rows : T → String → String → Option Entity) where
  -- The two registries after a call, and what it answered in each.
  abbrev pub AgreeBy :
      {A : Type 0}
      → (RegistryError → TableError)
      → Result TableError A × T
      → Result RegistryError A × Registry
      → Type 0
  AgreeBy translate x y = (x.0 ≡ answer translate y.0) × Represents rows x.1 y.1

  abbrev pub Agree :
      {A : Type 0} → Result TableError A × T → Result RegistryError A × Registry → Type 0
  Agree = AgreeBy refusal

  -- The caller has a record under the id, which both hold.
  abbrev pub Here : T → Registry → String → String → InvestigationRecord → Type 0
  Here t s id pk r =
      (lookup id s.records ≡ some r)
      × (r.workload_identity_appid ≡ pk)
      × ((tag : Option String) × (rows t pk id ≡ some (stored tag r)))

  -- The caller has none: the table has no row, and the registry none or another's.
  abbrev pub Elsewhere : T → Registry → String → String → Type 0
  Elsewhere t s id pk = (owned pk (lookup id s.records) ≡ none) × (rows t pk id ≡ none)

  -- Two calls that do the same.
  pub AgreeBy-from :
      {A : Type 0} (translate : RegistryError → TableError) (x x' : Result TableError A × T)
      (y y' : Result RegistryError A × Registry)
      → x ≡ x'
      → y ≡ y'
      → AgreeBy translate x' y'
      → AgreeBy translate x y
  AgreeBy-from translate x x' y y' p q h = rw (p, q) h

  pub Agree-from :
      {A : Type 0} (x x' : Result TableError A × T) (y y' : Result RegistryError A × Registry)
      → x ≡ x'
      → y ≡ y'
      → Agree x' y'
      → Agree x y
  Agree-from = AgreeBy-from refusal

  pub Here-cases :
      (t : T) (s : Registry) (id pk : String)
      → Represents rows t s
      → IsId id
      → ((r : InvestigationRecord) × Here t s id pk r) ⊎ Elsewhere t s id pk
  Here-cases t s id pk rep is_id = elim (Option-cases (owned pk (lookup id s.records))) [
    | inl gone ↦ inr (gone, missing_row rows t s id pk rep is_id gone)
    | inr (r, mine) ↦
        let (found, is_mine) = owned_lem pk r (lookup id s.records) mine in
        inl (r, (found, is_mine, found_row rows t s id pk r rep is_id found is_mine))
  ]
