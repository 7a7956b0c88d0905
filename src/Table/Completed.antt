-- ===== src/Table/Completed.antt =====
-- escalation-proxy/app/investigation_registry.py: `complete_investigation` of the two registries.
use sre_agent_team.Base.{
  ℕ, ◌≡◌, refl, sym, ◌∙◌, true, false, String, Option, some, arith, Bool-cases, inl, inr, ==_refl,
  subst,
}
use sre_agent_team.Base.Fallible.{ok, err}
use sre_agent_team.Base.Dict.{lookup, update}
use sre_agent_team.Registry.Record.{
  InvestigationRecord, Registry, Settings, ReservationState, investigation_not_found, holds_quota,
}
use sre_agent_team.Registry.Lifecycle
use sre_agent_team.Registry.Lifecycle.{set_terminal}
use sre_agent_team.Table.Entity.{Entity, to_entity}
use sre_agent_team.Table.Client.{TableClient}
use sre_agent_team.Table.Lifecycle.{complete_attempt, complete_investigation}
use sre_agent_team.Table.Laws.{IsAlone}
use sre_agent_team.Table.RoundTrip.{stored}
use sre_agent_team.Table.Stored.{ended}
use sre_agent_team.Table.Represents.{IsId, Counted, Changes, Represents, Represents-update}
use sre_agent_team.Table.Completion.{completion_ends, completion_leaves, complete_missing}
use sre_agent_team.Table.Agreement.{Agree, Agree-from, Here-cases}
use sre_agent_team.Table.Updating.{missing_Agree, Elsewhere-refused}

module _ {T : Type 0} (client : TableClient T) (rows : T → String → String → Option Entity)
    (alone : IsAlone client rows) (settings : Settings) (id pk : String) (t : T) (s : Registry)
    (rep : Represents rows t s) (is_id : IsId id) where
  counter_here :
      (r : InvestigationRecord)
      → lookup id s.records ≡ some r
      → r.workload_identity_appid ≡ pk
      → Counted rows t pk
  counter_here r found mine = subst (λ a. Counted rows t a) mine (rep.counters id r found)

  ends_it :
      (terminal_state : ReservationState) (now : ℕ) (r : InvestigationRecord)
      → holds_quota r.reservation_state ≡ true
      → set_terminal settings terminal_state now r ≡ ended settings terminal_state now r
  unfolding set_terminal
  ends_it terminal_state now r holds = rw holds refl

  keeps_it :
      (terminal_state : ReservationState) (now : ℕ) (r : InvestigationRecord)
      → holds_quota r.reservation_state ≡ false
      → set_terminal settings terminal_state now r ≡ r
  unfolding set_terminal
  keeps_it terminal_state now r ended_before = rw ended_before refl

  set_terminal_keys :
      (terminal_state : ReservationState) (now : ℕ) (r : InvestigationRecord)
      → let x = set_terminal settings terminal_state now r in
        (x.investigation_id ≡ r.investigation_id)
        × (x.caller_appid ≡ r.caller_appid)
        × (x.workload_identity_appid ≡ r.workload_identity_appid)
  unfolding set_terminal
  set_terminal_keys terminal_state now r = ground arith

  complete_here :
      (terminal_state : ReservationState) (clock : ℕ → ℕ) (r : InvestigationRecord)
      (tag : Option String)
      → lookup id s.records ≡ some r
      → r.workload_identity_appid ≡ pk
      → rows t pk id ≡ some (stored tag r)
      → holds_quota r.reservation_state ≡ true
      → Agree rows (complete_investigation client settings id pk terminal_state clock t) (
        ok tt,
        record s { records = update id (set_terminal settings terminal_state (clock 0)) s.records },
      )
  complete_here terminal_state clock r tag found mine here holds =
      let (c, n, counter, counts) = counter_here r found mine in
      let (same_id, same_caller, same_owner) = set_terminal_keys terminal_state (clock 0) r in
      let (owner_id, caller) = rep.owners id r found in
      let (answered, ch, freed) =
        completion_ends client rows alone settings id pk t terminal_state clock n c r tag is_id
          owner_id (caller ∙ mine) mine here holds counter counts in
      let t' = (complete_investigation client settings id pk terminal_state clock t).1 in
      let f = set_terminal settings terminal_state (clock 0) in
      (
        ground arith,
        Represents-update rows t t' s id pk r f rep is_id found same_id same_caller same_owner mine
            (subst (λ y. Changes rows t t' pk id (some (to_entity y)))
              (sym (ends_it terminal_state (clock 0) r holds)) ch),
      )

  complete_kept :
      (terminal_state : ReservationState) (clock : ℕ → ℕ) (r : InvestigationRecord)
      (tag : Option String)
      → lookup id s.records ≡ some r
      → r.workload_identity_appid ≡ pk
      → rows t pk id ≡ some (stored tag r)
      → holds_quota r.reservation_state ≡ false
      → Agree rows (complete_investigation client settings id pk terminal_state clock t) (
        ok tt,
        record s { records = update id (set_terminal settings terminal_state (clock 0)) s.records },
      )
  complete_kept terminal_state clock r tag found mine here ended_before =
      let (same_id, same_caller, same_owner) = set_terminal_keys terminal_state (clock 0) r in
      let (_, caller) = rep.owners id r found in
      let f = set_terminal settings terminal_state (clock 0) in
      let unchanged : Changes rows t t pk id (some (to_entity (f r))) = record {
        at =
            rep.same pk id is_id ∙ ground (arith, keeps_it terminal_state (clock 0) r ended_before);
        off = λ pk' id' is_id' off. refl;
        counted = λ pk' c. c;
      } in
      rw
        (completion_leaves client rows alone settings id pk t terminal_state clock r tag
          (caller ∙ mine) here ended_before)
        (
          refl,
          Represents-update rows t t s id pk r f rep is_id found same_id same_caller same_owner mine
              unchanged,
        )

  pub complete_Agree :
      (terminal_state : ReservationState) (clock : ℕ → ℕ)
      → Agree rows
          (complete_investigation client settings id pk terminal_state clock t)
          (Lifecycle.complete_investigation settings id pk terminal_state (clock 0) s)
  unfolding complete_investigation Lifecycle.complete_investigation
  complete_Agree terminal_state clock = elim (Here-cases rows t s id pk rep is_id) [
    | inl (r, (found, mine, (tag, here))) ↦
        Agree-from rows _ _ _
          (
            ok tt,
            record s {
              records = update id (set_terminal settings terminal_state (clock 0)) s.records;
            },
          )
          refl (ground (arith, rep.owners id r found, ==_refl pk))
          (elim (Bool-cases (holds_quota r.reservation_state)) [
            | inl y ↦ complete_here terminal_state clock r tag found mine here y
            | inr n ↦ complete_kept terminal_state clock r tag found mine here n
          ])
    | inr h ↦
        Agree-from rows _ _ _ (err investigation_not_found, s) refl
          (Elsewhere-refused rows id pk t s rep investigation_not_found _ h
            (λ r found other. ground arith) (λ found. ground arith))
          (missing_Agree client rows alone id pk t s rep is_id 2
            (λ (k : ℕ). complete_attempt client settings id pk terminal_state (clock k))
            investigation_not_found refl
            (complete_missing client rows alone settings id pk t terminal_state (clock 0) h.1))
  ]
