-- ===== src/Table/Slots.antt =====
-- escalation-proxy/app/investigation_registry.py: the slots that the table's quota counters count.
use sre_agent_team.Base.{ℕ, ◌-◌, ◌≡◌, sym, ap, ◌∙◌, true, false, String, Option, some}
use sre_agent_team.Base.Fallible.{ok}
use sre_agent_team.Registry.Record.{InvestigationRecord, Settings, ReservationState, holds_quota}
use sre_agent_team.Table.Entity.{Entity, to_entity}
use sre_agent_team.Table.Client.{TableClient}
use sre_agent_team.Table.Counter.{quota_counter_key, count_in, with_count}
use sre_agent_team.Table.Lifecycle.{complete_investigation}
use sre_agent_team.Table.Laws.{body, bodies, IsAlone}
use sre_agent_team.Table.RoundTrip.{stored}
use sre_agent_team.Table.Stored.{ended, body-stored}
use sre_agent_team.Table.Represents.{IsId}
use sre_agent_team.Table.Effects.{row_of_body, count_in-body, count_in-with_count}
use sre_agent_team.Table.Completion.{completion_ends, completion_leaves}

-- Ending an investigation that holds a slot, in a terminal state, stores the record in that state with its retention
-- extended, and takes one from its caller's counter (which stops at 0); ending it again, whatever
-- the state and the time, is answered alike and leaves the table as it is, so that no slot is given
-- back twice. The table's client is the only one and is answered.
pub complete_frees_slot_once :
    {T : Type 0} (client : TableClient T) (rows : T → String → String → Option Entity)
    (settings : Settings) (id pk : String) (terminal_state again : ReservationState)
    (clock later : ℕ → ℕ) (t : T) (r : InvestigationRecord) (tag : Option String) (c : Entity)
    (n : ℕ)
    → IsAlone client rows
    → IsId id
    → r.investigation_id ≡ id
    → r.caller_appid ≡ pk
    → r.workload_identity_appid ≡ pk
    → rows t pk id ≡ some (stored tag r)
    → holds_quota r.reservation_state ≡ true
    → holds_quota terminal_state ≡ false
    → rows t pk quota_counter_key ≡ some c
    → count_in c ≡ ok n
    → let (x, t') = complete_investigation client settings id pk terminal_state clock t in
      (x ≡ ok tt)
      × (bodies rows t' pk id ≡ some (to_entity (ended settings terminal_state (clock 0) r)))
      × ((c' : Entity) × (rows t' pk quota_counter_key ≡ some c') × (count_in c' ≡ ok (n - 1)))
      × (complete_investigation client settings id pk again later t' ≡ (ok tt, t'))
complete_frees_slot_once client rows settings id pk terminal_state again clock later t r tag c n
      alone is_id same_id caller mine here holds terminal counter counts =
    let (answered, ch, freed) =
      completion_ends client rows alone settings id pk t terminal_state clock n c r tag is_id
        same_id caller mine here holds counter counts in
    let t' = (complete_investigation client settings id pk terminal_state clock t).1 in
    let x = ended settings terminal_state (clock 0) r in
    let (e, at, b) = row_of_body (rows t' pk id) (to_entity x) ch.at in
    let (c', counter', b') =
      row_of_body (rows t' pk quota_counter_key) (body (with_count (n - 1) c)) freed in
    (
      answered,
      ch.at,
      (
        c',
        counter',
        sym (count_in-body c')
            ∙ ap count_in b'
            ∙ count_in-body (with_count (n - 1) c)
            ∙ count_in-with_count (n - 1) c,
      ),
      completion_leaves client rows alone settings id pk t' again later x e.etag caller
          (at ∙ ap (λ (y : Entity). some y) (body-stored e x b)) terminal,
    )
