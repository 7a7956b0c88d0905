-- ===== src/Table/Refinement.antt =====
-- escalation-proxy/app/investigation_registry.py: the registry on table storage does what the in-memory registry does.
use sre_agent_team.Base.{◌≡◌, refl, String, Option, List, [], ◌∷◌, arith}
use sre_agent_team.Base.Fallible.{Result, ok, err}
use sre_agent_team.Registry.Record.{Registry, RegistryError, Settings}
use sre_agent_team.Table.Entity.{Entity, TableError}
use sre_agent_team.Table.Client.{TableClient}
use sre_agent_team.Table.Laws.{IsAlone}
use sre_agent_team.Table.Represents.{IsId, Represents}
use sre_agent_team.Table.Agreement.{AgreeBy, answer, refusal, read_refusal}
use sre_agent_team.Table.Calls.{
  Call, get, status_poll, summary_poll, finalize, findings, complete, release, id_of, returned,
  done, in_memory, on_table, run, OnIds,
}
use sre_agent_team.Table.Finding.{get_Agree}
use sre_agent_team.Table.Polled.{status_poll_Agree, summary_poll_Agree}
use sre_agent_team.Table.Recorded.{finalize_Agree, findings_Agree}
use sre_agent_team.Table.Completed.{complete_Agree}
use sre_agent_team.Table.Ended.{release_Agree}

-- What a call raises on the table where it raises an error in memory.
abbrev pub refusal_of : Call → RegistryError → TableError
refusal_of (get id oid pk now) = read_refusal
refusal_of _ = refusal

-- The answers of calls in memory, as the table gives them.
unfoldable pub translated :
    {A : Type 0} → List Call → List (Result RegistryError A) → List (Result TableError A)
translated (c ∷ cs) (r ∷ rs) = answer (refusal_of c) r ∷ translated cs rs
translated _ _ = []

module _ {T : Type 0} (rows : T → String → String → Option Entity) where
  returned-Agree :
      {A : Type 0} (translate : RegistryError → TableError) (x : Result TableError A × T)
      (y : Result RegistryError A × Registry)
      → AgreeBy rows translate x y
      → AgreeBy rows translate (returned x) (returned y)
  returned-Agree translate (ok a, t) (ok b, s) (same, rep) = (ground arith, rep)
  returned-Agree translate (ok a, t) (err e, s) (same, rep) = absurd (ground arith)
  returned-Agree translate (err e, t) (ok b, s) (same, rep) = absurd (ground arith)
  returned-Agree translate (err e, t) (err e', s) (same, rep) = (ground arith, rep)

  done-Agree :
      {A : Type 0} (translate : RegistryError → TableError) (x : Result TableError (Unit {0}) × T)
      (y : Result RegistryError (Unit {0}) × Registry)
      → AgreeBy rows translate x y
      → AgreeBy rows translate (done {A = A} x) (done y)
  done-Agree translate (ok a, t) (ok b, s) (same, rep) = (refl, rep)
  done-Agree translate (ok a, t) (err e, s) (same, rep) = absurd (ground arith)
  done-Agree translate (err e, t) (ok b, s) (same, rep) = absurd (ground arith)
  done-Agree translate (err e, t) (err e', s) (same, rep) = (ground arith, rep)

module _ {T : Type 0} (client : TableClient T) (rows : T → String → String → Option Entity)
    (alone : IsAlone client rows) (fresh : String) (settings : Settings) where
  call_Agree :
      (c : Call) (t : T) (s : Registry)
      → Represents rows t s
      → IsId (id_of c)
      → AgreeBy rows (refusal_of c) (on_table client fresh settings c t) (in_memory settings c s)
  unfolding on_table in_memory
  call_Agree (get id oid pk now) t s rep is_id =
      returned-Agree rows read_refusal _ _
        (get_Agree client rows alone fresh id oid pk now t s rep is_id)
  call_Agree (status_poll id oid pk check_clock clock) t s rep is_id =
      done-Agree rows refusal _ _ (
        status_poll_Agree client rows alone fresh settings id oid pk t s rep is_id check_clock
          clock)
  call_Agree (summary_poll id oid pk check_clock clock) t s rep is_id =
      done-Agree rows refusal _ _ (
        summary_poll_Agree client rows alone fresh settings id oid pk t s rep is_id check_clock
          clock)
  call_Agree (finalize id pk thread clock) t s rep is_id =
      done-Agree rows refusal _ _
        (finalize_Agree client rows alone fresh settings id pk t s rep is_id thread clock)
  call_Agree (findings id pk valid strategy redacted clock) t s rep is_id =
      done-Agree rows refusal _ _ (
        findings_Agree client rows alone fresh settings id pk t s rep is_id valid strategy redacted
          clock)
  call_Agree (complete id pk terminal_state clock) t s rep is_id =
      done-Agree rows refusal _ _
        (complete_Agree client rows alone settings id pk t s rep is_id terminal_state clock)
  call_Agree (release id pk) t s rep is_id =
      done-Agree rows refusal _ (ok tt, _)
        (release_Agree client rows alone settings id pk t s rep is_id)

-- Whatever lookups by id, polls, finalizations, records of findings, completions and releases are made one after the
-- other on records that both registries hold, each answers on the table as in memory, at the time that
-- its first round reads, and after them the table still holds the records of the in-memory registry,
-- each as the entity that `_to_entity` makes of it under its caller's partition. Values and errors are
-- the same but for an id under which the caller has no record: there `get_investigation` raises on the
-- table that there is none also where the record is another's, and every other method but a release
-- raises `ResourceNotFoundError`, where in memory they raise a `ValueError`. The table's client is the only
-- one and is answered, and no call is on a key that begins with two underscores.
pub calls_refine :
    {T : Type 0} (client : TableClient T) (rows : T → String → String → Option Entity)
    (fresh : String) (settings : Settings) (cs : List Call) (t : T) (s : Registry)
    → IsAlone client rows
    → Represents rows t s
    → OnIds cs
    → let (table_answers, t') = run (on_table client fresh settings) cs t in
      let (answers, s') = run (in_memory settings) cs s in
      (table_answers ≡ translated cs answers) × Represents rows t' s'
unfolding run translated
calls_refine client rows fresh settings [] t s alone rep ids = (refl, rep)
calls_refine client rows fresh settings (c ∷ cs) t s alone rep (is_id, ids) =
    let (same, after) = call_Agree client rows alone fresh settings c t s rep is_id in
    let (rest, end) =
      calls_refine client rows fresh settings cs (on_table client fresh settings c t).1
        (in_memory settings c s).1 alone after ids in
    (ground arith, end)
