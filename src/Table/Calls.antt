-- ===== src/Table/Calls.antt =====
-- escalation-proxy/app/investigation_registry.py: the calls by which the service uses a registry on a record that was
-- reserved, on each of the two registries that `build_investigation_registry` chooses from.
use sre_agent_team.Base.{ℕ, Bool, String, Option, none, some, List, [], ◌∷◌, All}
use sre_agent_team.Base.Fallible.{Result, ok, err}
use sre_agent_team.Registry.Record.{
  InvestigationRecord, Registry, RegistryError, Settings, ReservationState,
}
use sre_agent_team.Registry.Reads
use sre_agent_team.Registry.Admission
use sre_agent_team.Registry.Lifecycle
use sre_agent_team.Table.Entity.{TableError}
use sre_agent_team.Table.Client.{TableClient}
use sre_agent_team.Table.Reads.{get_investigation}
use sre_agent_team.Table.Admission.{finalize_reservation, release_reservation}
use sre_agent_team.Table.Lifecycle.{
  complete_investigation, record_findings_metadata, record_status_poll, record_summary_poll,
}
use sre_agent_team.Table.Represents.{IsId}

-- A call's id and caller, its other arguments, and the clock, by the round in which it is read.
pub data Call : Type 0 where
  get : String → String → String → ℕ → Call
  status_poll : String → String → String → (ℕ → ℕ) → (ℕ → ℕ) → Call
  summary_poll : String → String → String → (ℕ → ℕ) → (ℕ → ℕ) → Call
  finalize : String → String → String → (ℕ → ℕ) → Call
  findings : String → String → Bool → String → Bool → (ℕ → ℕ) → Call
  complete : String → String → ReservationState → (ℕ → ℕ) → Call
  release : String → String → Call

abbrev pub id_of : Call → String
id_of (get id oid pk now) = id
id_of (status_poll id oid pk check_clock clock) = id
id_of (summary_poll id oid pk check_clock clock) = id
id_of (finalize id pk thread clock) = id
id_of (findings id pk valid strategy redacted clock) = id
id_of (complete id pk terminal_state clock) = id
id_of (release id pk) = id

-- What a call answers: its error, or the record that it returns, if it returns one.
abbrev pub returned : {E A S : Type 0} → Result E A × S → Result E (Option A) × S
returned (ok a, s) = (ok (some a), s)
returned (err e, s) = (err e, s)

abbrev pub done : {E A S : Type 0} → Result E (Unit {0}) × S → Result E (Option A) × S
done (ok _, s) = (ok none, s)
done (err e, s) = (err e, s)

abbrev pub Step : Type 0 → Type 0 → Type 0
Step E S = S → Result E (Option InvestigationRecord) × S

unfoldable pub in_memory : Settings → Call → Step RegistryError Registry
in_memory settings (get id oid pk now) s = returned (Reads.get_investigation id oid pk now s)
in_memory settings (status_poll id oid pk check_clock clock) s =
    done (Lifecycle.record_status_poll settings id oid pk (check_clock 0) (clock 0) s)
in_memory settings (summary_poll id oid pk check_clock clock) s =
    done (Lifecycle.record_summary_poll settings id oid pk (check_clock 0) (clock 0) s)
in_memory settings (finalize id pk thread clock) s =
    done (Admission.finalize_reservation id pk thread (clock 0) s)
in_memory settings (findings id pk valid strategy redacted clock) s =
    done (Lifecycle.record_findings_metadata settings id pk valid strategy redacted (clock 0) s)
in_memory settings (complete id pk terminal_state clock) s =
    done (Lifecycle.complete_investigation settings id pk terminal_state (clock 0) s)
in_memory settings (release id pk) s = (ok none, Admission.release_reservation id pk s)

unfoldable pub on_table :
    {T : Type 0} → TableClient T → String → Settings → Call → Step TableError T
on_table client fresh settings (get id oid pk now) t =
    returned (get_investigation client fresh id oid pk now t)
on_table client fresh settings (status_poll id oid pk check_clock clock) t =
    done (record_status_poll client fresh settings id oid pk check_clock clock t)
on_table client fresh settings (summary_poll id oid pk check_clock clock) t =
    done (record_summary_poll client fresh settings id oid pk check_clock clock t)
on_table client fresh settings (finalize id pk thread clock) t =
    done (finalize_reservation client fresh id pk thread clock t)
on_table client fresh settings (findings id pk valid strategy redacted clock) t =
    done (record_findings_metadata client settings id pk valid strategy redacted clock t)
on_table client fresh settings (complete id pk terminal_state clock) t =
    done (complete_investigation client settings id pk terminal_state clock t)
on_table client fresh settings (release id pk) t = done (release_reservation client id pk t)

-- The answers of calls made one after the other, and the registry after them.
unfoldable pub run :
    {E S : Type 0}
    → (Call → Step E S)
    → List Call
    → S
    → List (Result E (Option InvestigationRecord)) × S
run step [] s = ([], s)
run step (c ∷ cs) s = let (r, s') = step c s in let (rs, s'') = run step cs s' in (r ∷ rs, s'')

-- No call is on a key that the code keeps for itself.
abbrev pub OnIds : List Call → Type 0
OnIds cs = All (λ (c : Call). IsId (id_of c)) cs
