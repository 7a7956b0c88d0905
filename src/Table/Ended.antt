-- ===== src/Table/Ended.antt =====
-- escalation-proxy/app/investigation_registry.py: `release_reservation` of the two registries.
use sre_agent_team.Base.{
  ℕ, ◌≡◌, refl, ◌∙◌, true, String, Option, none, some, if◌then◌else◌, arith, Bool-cases,
  Option-cases, inl, inr, ==_refl, subst,
}
use sre_agent_team.Base.Fallible.{ok}
use sre_agent_team.Base.Dict.{lookup, erase}
use sre_agent_team.Registry.Record.{InvestigationRecord, Registry, Settings, is_reserved}
use sre_agent_team.Registry.Admission
use sre_agent_team.Table.Entity.{Entity}
use sre_agent_team.Table.Client.{◌>>◌, TableClient, delete_entity_if_unchanged}
use sre_agent_team.Table.Counter.{decrement_quota_counter}
use sre_agent_team.Table.Admission.{release_entity, release_attempt, release_reservation}
use sre_agent_team.Table.Laws.{IsAlone}
use sre_agent_team.Table.RoundTrip.{stored}
use sre_agent_team.Table.Stored.{caller-stored, reserved-stored}
use sre_agent_team.Table.Represents.{IsId, Counted, owned, Represents, Represents-erase}
use sre_agent_team.Table.Decrement.{release_lem}
use sre_agent_team.Table.Agreement.{Agree, Here, Here-cases}
use sre_agent_team.Table.Rounds.{tries-ok, again-ok}

module _ {T : Type 0} (client : TableClient T) (rows : T → String → String → Option Entity)
    (alone : IsAlone client rows) (settings : Settings) (id pk : String) (t : T) (s : Registry)
    (rep : Represents rows t s) (is_id : IsId id) where
  counter_here :
      (r : InvestigationRecord)
      → lookup id s.records ≡ some r
      → r.workload_identity_appid ≡ pk
      → Counted rows t pk
  counter_here r found mine = subst (λ a. Counted rows t a) mine (rep.counters id r found)

  release_round :
      (r : InvestigationRecord) (tag : Option String)
      → Here rows t s id pk r
      → rows t pk id ≡ some (stored tag r)
      → release_attempt client id pk t ≡ (
          if is_reserved r.reservation_state
          then release_entity client pk (stored tag r) t
          else (ok (some tt), t))
  unfolding release_attempt
  release_round r tag (found, mine, _) here = ground (
    arith,
    alone.reads pk id t,
    caller-stored tag r pk,
    reserved-stored tag r r.reservation_state refl,
    ==_refl pk,
    rep.owners id r found,
  )

  release_missing : rows t pk id ≡ none → release_attempt client id pk t ≡ (ok (some tt), t)
  unfolding release_attempt
  release_missing gone = ground (arith, alone.reads pk id t)

  release-Here :
      (r : InvestigationRecord) (tag : Option String)
      → Here rows t s id pk r
      → rows t pk id ≡ some (stored tag r)
      → is_reserved r.reservation_state ≡ true
      → Agree rows
          (release_reservation client id pk t)
          (ok tt, record s { records = erase id s.records })
  unfolding release_reservation release_entity
  release-Here r tag (found, mine, at) here unfinished =
      let m =
        delete_entity_if_unchanged client (stored tag r) >> decrement_quota_counter client pk in
      let (answered, ch) =
        release_lem client rows alone pk id (stored tag r) t is_id here
          (counter_here r found mine) in
      let round = release_round r tag (found, mine, at) here in
      rw
        (tries-ok (λ (n : ℕ). release_attempt client id pk) 2 0 t (m t).1 tt
          (round ∙ ground arith ∙ again-ok m t tt answered))
        (refl, Represents-erase rows t (m t).1 s id pk r rep is_id found mine ch)

  release_kept :
      release_attempt client id pk t ≡ (ok (some tt), t)
      → Agree rows (release_reservation client id pk t) (ok tt, s)
  unfolding release_reservation
  release_kept round =
      rw (tries-ok (λ (n : ℕ). release_attempt client id pk) 2 0 t t tt round) (refl, rep)

  elsewhere_kept : owned pk (lookup id s.records) ≡ none → Admission.release_reservation id pk s ≡ s
  unfolding Admission.release_reservation
  elsewhere_kept gone = elim (Option-cases (lookup id s.records)) [
    | inl h ↦ ground arith
    | inr (r, h) ↦ ground (arith, rep.owners id r h)
  ]

  memory_release :
      (r : InvestigationRecord)
      → lookup id s.records ≡ some r
      → r.workload_identity_appid ≡ pk
      → Admission.release_reservation id pk s
        ≡ (if is_reserved r.reservation_state then record s { records = erase id s.records } else s)
  unfolding Admission.release_reservation
  memory_release r found mine = ground (arith, rep.owners id r found, ==_refl pk)

  pub release_Agree :
      Agree rows (release_reservation client id pk t) (ok tt, Admission.release_reservation id pk s)
  release_Agree = elim (Here-cases rows t s id pk rep is_id) [
    | inl (r, (found, mine, (tag, here))) ↦
        let at : Here rows t s id pk r = (found, mine, (tag, here)) in
        elim (Bool-cases (is_reserved r.reservation_state)) [
          | inl y ↦ rw (memory_release r found mine, y) (release-Here r tag at here y)
          | inr n ↦
              rw (memory_release r found mine, n)
                (release_kept (release_round r tag at here ∙ ground arith))
        ]
    | inr (gone, none_here) ↦ rw (elsewhere_kept gone) (release_kept (release_missing none_here))
  ]
