-- ===== src/Table/Updating.antt =====
-- escalation-proxy/app/investigation_registry.py: the changes of one record that both registries make.
use sre_agent_team.Base.{
  false, none, ◌==◌, Option-cases, inl, inr, ℕ, suc, refl, ◌≡◌, ◌∙◌, String, Option, some, arith,
}
use sre_agent_team.Base.Fallible.{Result, ok, err}
use sre_agent_team.Base.Dict.{lookup, update}
use sre_agent_team.Registry.Record.{InvestigationRecord, Registry, RegistryError}
use sre_agent_team.Table.Entity.{Entity, not_found, to_entity}
use sre_agent_team.Table.Client.{Action, again_on_conflict, tries, TableClient, update_read}
use sre_agent_team.Table.Laws.{IsAlone}
use sre_agent_team.Table.RoundTrip.{stored}
use sre_agent_team.Table.Represents.{IsId, Represents, Represents-update}
use sre_agent_team.Table.Effects.{update_read_lem}
use sre_agent_team.Table.Agreement.{Agree, refusal, Elsewhere}
use sre_agent_team.Table.Rounds.{tries-ok, tries-err, again-ok}

module _ {T : Type 0} (client : TableClient T) (rows : T → String → String → Option Entity)
    (alone : IsAlone client rows) (id pk : String) (t : T) (s : Registry)
    (rep : Represents rows t s) (is_id : IsId id) where
  -- The record under the id is changed in both registries.
  pub update-Agree :
      (f : InvestigationRecord → InvestigationRecord) (r : InvestigationRecord)
      (w tag : Option String)
      → lookup id s.records ≡ some r
      → r.workload_identity_appid ≡ pk
      → rows t pk id ≡ some (stored tag r)
      → (f r).investigation_id ≡ r.investigation_id
      → (f r).caller_appid ≡ r.caller_appid
      → (f r).workload_identity_appid ≡ r.workload_identity_appid
      → Agree rows
          (update_read client (stored w (f r)) (stored tag r) t)
          (ok tt, record s { records = update id f s.records })
  unfolding to_entity
  update-Agree f r w tag found mine here same_id same_caller same_owner =
      let (owner_id, _) = rep.owners id r found in
      let (updated, ch) =
        update_read_lem client rows alone pk id (stored w (f r)) (stored tag r) t is_id here
          (same_owner ∙ mine) (same_id ∙ owner_id) in
      let t' = (update_read client (stored w (f r)) (stored tag r) t).1 in
      (
        ground arith,
        Represents-update rows t t' s id pk r f rep is_id found same_id same_caller same_owner mine
            ch,
      )

  -- A loop whose round makes that change is done with it.
  pub rounds_Agree :
      (k : ℕ) (attempt : ℕ → Action T (Option (Unit {0})))
      (f : InvestigationRecord → InvestigationRecord) (r : InvestigationRecord)
      (w tag : Option String)
      → attempt 0 t ≡ again_on_conflict (update_read client (stored w (f r)) (stored tag r)) t
      → lookup id s.records ≡ some r
      → r.workload_identity_appid ≡ pk
      → rows t pk id ≡ some (stored tag r)
      → (f r).investigation_id ≡ r.investigation_id
      → (f r).caller_appid ≡ r.caller_appid
      → (f r).workload_identity_appid ≡ r.workload_identity_appid
      → Agree rows (tries (suc k) 0 attempt t) (ok tt, record s { records = update id f s.records })
  rounds_Agree k attempt f r w tag round found mine here same_id same_caller same_owner =
      let m = update_read client (stored w (f r)) (stored tag r) in
      let agreed = update-Agree f r w tag found mine here same_id same_caller same_owner in
      rw (tries-ok attempt k 0 t (m t).1 tt (round ∙ again-ok m t tt (ground (arith, agreed.0))))
        (refl, agreed.1)

  -- A loop whose round finds no record under the id refuses, as the in-memory registry does.
  pub missing_Agree :
      (k : ℕ) (attempt : ℕ → Action T (Option (Unit {0}))) (e : RegistryError)
      → refusal e ≡ not_found
      → attempt 0 t ≡ (err not_found, t)
      → Agree rows (tries (suc k) 0 attempt t) (err e, s)
  missing_Agree k attempt e refused round =
      rw (tries-err attempt k 0 t t not_found round) (ground arith, rep)

module _ {T : Type 0} (rows : T → String → String → Option Entity) (id pk : String) (t : T)
    (s : Registry) (rep : Represents rows t s) where
  -- The in-memory registry's answer to a caller that has no record under the id.
  pub Elsewhere-refused :
      (e : RegistryError) (y : Result RegistryError (Unit {0}) × Registry)
      → Elsewhere rows t s id pk
      → ((r : InvestigationRecord)
          → lookup id s.records ≡ some r
          → (r.caller_appid == pk) ≡ false
          → y ≡ (err e, s))
      → (lookup id s.records ≡ none → y ≡ (err e, s))
      → y ≡ (err e, s)
  Elsewhere-refused e y (gone, _) other missing = elim (Option-cases (lookup id s.records)) [
    | inl h ↦ missing h
    | inr (r, h) ↦ other r h (ground (arith, rep.owners id r h))
  ]
