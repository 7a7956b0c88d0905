-- ===== src/Table/Finding.antt =====
-- escalation-proxy/app/investigation_registry.py: `get_investigation` of the two registries.
use sre_agent_team.Base.{
  ℕ, ◌≡◌, refl, true, false, String, Option, none, some, ltb, arith, Bool-cases, Option-cases, inl,
  inr, ==_refl,
}
use sre_agent_team.Base.Fallible.{ok, err}
use sre_agent_team.Base.Dict.{lookup, erase}
use sre_agent_team.Registry.Record.{
  InvestigationRecord, Registry, expired, unauthorized, investigation_not_found,
}
use sre_agent_team.Registry.Reads
use sre_agent_team.Table.Entity.{Entity, raises}
use sre_agent_team.Table.Client.{TableClient, delete_entity_if_unchanged}
use sre_agent_team.Table.Reads.{get_investigation, read_entity, drop_expired}
use sre_agent_team.Table.Laws.{IsAlone}
use sre_agent_team.Table.RoundTrip.{stored, from_entity-stored}
use sre_agent_team.Table.Represents.{IsId, Represents, Represents-erase}
use sre_agent_team.Table.Effects.{delete_lem}
use sre_agent_team.Table.Agreement.{
  read_refusal, AgreeBy, AgreeBy-from, Here, Elsewhere, Here-cases,
}

module _ {T : Type 0} (client : TableClient T) (rows : T → String → String → Option Entity)
    (alone : IsAlone client rows) (fresh id oid pk : String) (now : ℕ) (t : T) where
  get_expired :
      (tag : Option String) (r : InvestigationRecord)
      → rows t pk id ≡ some (stored tag r)
      → r.workload_identity_appid ≡ pk
      → ltb r.expires_at now ≡ true
      → (delete_entity_if_unchanged client (stored tag r) t).0 ≡ ok tt
      → get_investigation client fresh id oid pk now t
        ≡ (err (raises expired), (delete_entity_if_unchanged client (stored tag r) t).1)
  unfolding get_investigation read_entity drop_expired
  get_expired tag r here mine late deleted =
      ground (arith, alone.reads pk id t, from_entity-stored fresh tag r, ==_refl pk)

  pub get_live :
      (tag : Option String) (r : InvestigationRecord)
      → rows t pk id ≡ some (stored tag r)
      → r.workload_identity_appid ≡ pk
      → ltb r.expires_at now ≡ false
      → get_investigation client fresh id oid pk now t ≡ (ok r, t)
  unfolding get_investigation read_entity
  get_live tag r here mine live =
      ground (arith, alone.reads pk id t, from_entity-stored fresh tag r, ==_refl pk)

  get_missing :
      rows t pk id ≡ none
      → get_investigation client fresh id oid pk now t ≡ (err (raises investigation_not_found), t)
  unfolding get_investigation
  get_missing gone = ground (arith, alone.reads pk id t)

module _ {T : Type 0} (client : TableClient T) (rows : T → String → String → Option Entity)
    (alone : IsAlone client rows) (fresh id oid pk : String) (now : ℕ) (t : T) (s : Registry) where
  get-Here :
      (r : InvestigationRecord)
      → Represents rows t s
      → IsId id
      → Here rows t s id pk r
      → AgreeBy rows read_refusal
          (get_investigation client fresh id oid pk now t)
          (Reads.get_investigation id oid pk now s)
  unfolding Reads.get_investigation
  get-Here r rep is_id (found, mine, (tag, here)) = elim (Bool-cases (ltb r.expires_at now)) [
    | inl late ↦
        let (deleted, ch) = delete_lem client rows alone pk id (stored tag r) t is_id here in
        AgreeBy-from rows read_refusal _ _ _
          (err expired, record s { records = erase id s.records })
          (get_expired client rows alone fresh id oid pk now t tag r here mine late deleted)
          (ground (arith, ==_refl pk))
          (
            refl,
            Represents-erase rows t (delete_entity_if_unchanged client (stored tag r) t).1 s id pk r
                rep is_id found mine ch,
          )
    | inr live ↦
        AgreeBy-from rows read_refusal _ _ _ (ok r, s)
          (get_live client rows alone fresh id oid pk now t tag r here mine live)
          (ground (arith, ==_refl pk)) (refl, rep)
  ]

  get-Elsewhere :
      Represents rows t s
      → Elsewhere rows t s id pk
      → AgreeBy rows read_refusal
          (get_investigation client fresh id oid pk now t)
          (Reads.get_investigation id oid pk now s)
  unfolding Reads.get_investigation
  get-Elsewhere rep (gone, none_here) =
      let p = get_missing client rows alone fresh id oid pk now t none_here in
      elim (Option-cases (lookup id s.records)) [
        | inl h ↦
            AgreeBy-from rows read_refusal _ _ _ (err investigation_not_found, s) p (ground arith)
              (refl, rep)
        | inr (r, h) ↦
            AgreeBy-from rows read_refusal _ _ _ (err unauthorized, s) p (ground arith) (refl, rep)
      ]

  pub get_Agree :
      Represents rows t s
      → IsId id
      → AgreeBy rows read_refusal
          (get_investigation client fresh id oid pk now t)
          (Reads.get_investigation id oid pk now s)
  get_Agree rep is_id = elim (Here-cases rows t s id pk rep is_id) [
    | inl (r, h) ↦ get-Here r rep is_id h
    | inr h ↦ get-Elsewhere rep h
  ]
