-- ===== src/Table/Polling.antt =====
-- escalation-proxy/app/investigation_registry.py: a poll of the two registries, whatever it counts.
use sre_agent_team.Base.{
  ℕ, ◌≡◌, refl, true, false, String, Option, none, some, ltb, arith, Bool-cases, Option-cases, inl,
  inr, ==_refl,
}
use sre_agent_team.Base.Fallible.{Result, ok, err}
use sre_agent_team.Base.Dict.{lookup, erase}
use sre_agent_team.Registry.Record.{
  InvestigationRecord, Registry, RegistryError, Settings, expired, unauthorized,
  investigation_not_found,
}
use sre_agent_team.Registry.Reads
use sre_agent_team.Table.Entity.{Entity, not_found, raises}
use sre_agent_team.Table.Client.{Action, ◌>>=◌, TableClient, delete_entity_if_unchanged}
use sre_agent_team.Table.Lifecycle.{pollable}
use sre_agent_team.Table.Laws.{IsAlone}
use sre_agent_team.Table.RoundTrip.{stored, from_entity-stored}
use sre_agent_team.Table.Represents.{IsId, Represents, Represents-erase}
use sre_agent_team.Table.Effects.{delete_lem}
use sre_agent_team.Table.Agreement.{Agree, Agree-from, Here, Elsewhere, Here-cases}

-- A poll of the in-memory registry, whatever it counts.
abbrev pub poll :
    (InvestigationRecord → Registry → Result RegistryError (Unit {0}) × Registry)
    → String
    → String
    → String
    → ℕ
    → Registry
    → Result RegistryError (Unit {0}) × Registry
poll admit id oid pk now s =
    let (found, s') = Reads.get_investigation id oid pk now s in
    elim found [ err e ↦ (err e, s') | ok r ↦ admit r s' ]

module _ {T : Type 0} (client : TableClient T) (rows : T → String → String → Option Entity)
    (alone : IsAlone client rows) (fresh : String) (settings : Settings) (id oid pk : String)
    (now : ℕ) (t : T) (s : Registry) (count : InvestigationRecord → Entity → Action T (Unit {0}))
    (admit : InvestigationRecord → Registry → Result RegistryError (Unit {0}) × Registry) where
  -- A poll of the table, whatever it counts.
  abbrev pub table_poll : Action T (Unit {0})
  table_poll = do
    entity ← client.get_entity pk id
    r ← pollable client fresh settings pk now entity
    count r entity

  poll_missing : rows t pk id ≡ none → table_poll t ≡ (err not_found, t)
  poll_missing gone = ground (arith, alone.reads pk id t)

  poll_expired :
      (tag : Option String) (r : InvestigationRecord)
      → rows t pk id ≡ some (stored tag r)
      → r.workload_identity_appid ≡ pk
      → ltb r.expires_at now ≡ true
      → (delete_entity_if_unchanged client (stored tag r) t).0 ≡ ok tt
      → table_poll t
        ≡ (err (raises expired), (delete_entity_if_unchanged client (stored tag r) t).1)
  unfolding pollable
  poll_expired tag r here mine late deleted =
      ground (arith, alone.reads pk id t, from_entity-stored fresh tag r, ==_refl pk)

  poll_live :
      (tag : Option String) (r : InvestigationRecord)
      → rows t pk id ≡ some (stored tag r)
      → r.workload_identity_appid ≡ pk
      → ltb r.expires_at now ≡ false
      → table_poll t ≡ count r (stored tag r) t
  unfolding pollable
  poll_live tag r here mine live =
      ground (arith, alone.reads pk id t, from_entity-stored fresh tag r, ==_refl pk)

  poll-Here :
      (r : InvestigationRecord)
      → Represents rows t s
      → IsId id
      → Here rows t s id pk r
      → ((tag : Option String)
          → rows t pk id ≡ some (stored tag r)
          → Agree rows (count r (stored tag r) t) (admit r s))
      → Agree rows (table_poll t) (poll admit id oid pk now s)
  unfolding Reads.get_investigation
  poll-Here r rep is_id (found, mine, (tag, here)) counted =
      elim (Bool-cases (ltb r.expires_at now)) [
        | inl late ↦
            let (deleted, ch) = delete_lem client rows alone pk id (stored tag r) t is_id here in
            let t' = (delete_entity_if_unchanged client (stored tag r) t).1 in
            Agree-from rows _ _ _ (err expired, record s { records = erase id s.records })
              (poll_expired tag r here mine late deleted) (ground (arith, ==_refl pk))
              (refl, Represents-erase rows t t' s id pk r rep is_id found mine ch)
        | inr live ↦
            Agree-from rows _ _ _ (admit r s) (poll_live tag r here mine live)
              (ground (arith, ==_refl pk)) (counted tag here)
      ]

  poll-Elsewhere :
      Represents rows t s
      → Elsewhere rows t s id pk
      → Agree rows (table_poll t) (poll admit id oid pk now s)
  unfolding Reads.get_investigation
  poll-Elsewhere rep (gone, none_here) = elim (Option-cases (lookup id s.records)) [
    | inl h ↦
        Agree-from rows _ _ _ (err investigation_not_found, s) (poll_missing none_here)
          (ground arith) (refl, rep)
    | inr (r, h) ↦
        Agree-from rows _ _ _ (err unauthorized, s) (poll_missing none_here) (ground arith)
          (refl, rep)
  ]

  pub poll-Agree :
      Represents rows t s
      → IsId id
      → ((r : InvestigationRecord) (tag : Option String)
          → lookup id s.records ≡ some r
          → r.workload_identity_appid ≡ pk
          → rows t pk id ≡ some (stored tag r)
          → Agree rows (count r (stored tag r) t) (admit r s))
      → Agree rows (table_poll t) (poll admit id oid pk now s)
  poll-Agree rep is_id counted = elim (Here-cases rows t s id pk rep is_id) [
    | inl (r, (found, mine, at)) ↦
        poll-Here r rep is_id (found, mine, at) (λ tag here. counted r tag found mine here)
    | inr h ↦ poll-Elsewhere rep h
  ]
