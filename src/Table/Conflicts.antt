-- ===== src/Table/Conflicts.antt =====
-- escalation-proxy/app/investigation_registry.py: another writer is always first.
use sre_agent_team.Base.{
  ℕ, ◌+◌, ◌≡◌, refl, Bool, true, false, String, some, none, List, arith, ◌==◌, ==_refl,
}
use sre_agent_team.Base.Fallible.{ok, err}
use sre_agent_team.Registry.Record.{InvestigationRecord, Settings, ReservationState, holds_quota}
use sre_agent_team.Registry.Admission.{attach_thread}
use sre_agent_team.Table.Entity.{
  Entity, modified, transaction, please_retry, entity_etag, to_entity, is_concurrency_conflict,
}
use sre_agent_team.Table.Client.{Operation, TableClient, update_read, again_on_conflict}
use sre_agent_team.Table.Counter.{quota_counter_key, count_in, get_or_create_quota_counter}
use sre_agent_team.Table.Admission.{finalize_attempt, finalize_reservation}
use sre_agent_team.Table.Lifecycle.{
  complete_attempt, complete_entity, complete_investigation, submit_completion, findings_attempt,
  findings_entity, stamp_entity, terminal_entity, complete_operations, record_findings_metadata,
}
use sre_agent_team.Table.RoundTrip.{stored, from_entity-stored}
use sre_agent_team.Table.Stored.{caller-stored, expires-stored, finalized-stored, in_use-stored}
use sre_agent_team.Table.Rounds.{conflicts_exhaust, again-conflict}

module _ {T : Type 0} (client : TableClient T) (fresh : String) (settings : Settings)
    (id pk : String) (held : ℕ → T) (tag : ℕ → String) (r : InvestigationRecord)
    (caller : r.caller_appid ≡ pk)
    (here : (k : ℕ) → client.get_entity pk id (held k) ≡ (ok (stored (some (tag k)) r), held k))
    (c : Entity) (n : ℕ) (v : String)
    (counter : (k : ℕ) → client.get_entity pk quota_counter_key (held k) ≡ (ok c, held k))
    (counts : count_in c ≡ ok n) (counter_tagged : entity_etag c ≡ ok v)
    (tagged : (k : ℕ) → (tag k == "") ≡ false)
    (updates : (k : ℕ) (e : Entity) (etag : String)
      → client.update_entity e etag (held k) ≡ (err modified, held (k + 1)))
    (submits : (k : ℕ) (ops : List Operation)
      → client.submit_transaction ops (held k) ≡ (err (transaction 412), held (k + 1))) where
  update_conflict :
      (k : ℕ) (e : Entity)
      → again_on_conflict (update_read client e (stored (some (tag k)) r)) (held k)
        ≡ (ok none, held (k + 1))
  unfolding update_read entity_etag is_concurrency_conflict
  update_conflict k e =
      again-conflict (update_read client e (stored (some (tag k)) r)) (held k) modified
        (held (k + 1)) (ground (arith, tagged k, updates k e (tag k))) refl

  finalize_conflicts :
      (thread : String) (clock : ℕ → ℕ)
      → finalize_reservation client fresh id pk thread clock (held 0) ≡ (err please_retry, held 3)
  unfolding finalize_reservation finalize_attempt
  finalize_conflicts thread clock =
      conflicts_exhaust 3 0 (λ n. finalize_attempt client fresh id pk thread (clock n)) held
        (λ m. ground (
          arith,
          here m,
          from_entity-stored fresh (some (tag m)) r,
          ==_refl pk,
          update_conflict m (to_entity (attach_thread thread (clock m) r)),
        ))

  findings_conflicts :
      (valid : Bool) (strategy : String) (redacted : Bool) (clock : ℕ → ℕ)
      → record_findings_metadata client settings id pk valid strategy redacted clock (held 0)
        ≡ (err please_retry, held 3)
  unfolding record_findings_metadata findings_attempt
  findings_conflicts valid strategy redacted clock =
      conflicts_exhaust 3 0
        (λ k. findings_attempt client settings id pk valid strategy redacted (clock k)) held
        (λ k. ground (
          arith,
          here k,
          caller-stored (some (tag k)) r pk,
          finalized-stored (some (tag k)) r,
          expires-stored (some (tag k)) r,
          ==_refl pk,
          update_conflict k (
              findings_entity valid strategy redacted (
                stamp_entity settings (clock k) r.findings_finalized_at r.expires_at
                  (stored (some (tag k)) r))),
        ))

  submit_conflict :
      (k : ℕ) (e : Entity)
      → again_on_conflict (submit_completion client n c e (stored (some (tag k)) r)) (held k)
        ≡ (ok none, held (k + 1))
  unfolding submit_completion entity_etag is_concurrency_conflict
  submit_conflict k e =
      again-conflict (submit_completion client n c e (stored (some (tag k)) r)) (held k)
        (transaction 412) (held (k + 1))
        (ground (arith, tagged k, submits k (complete_operations n c v e (tag k)))) refl

  completion_conflicts :
      (terminal_state : ReservationState) (clock : ℕ → ℕ)
      → holds_quota r.reservation_state ≡ true
      → complete_investigation client settings id pk terminal_state clock (held 0)
        ≡ (err please_retry, held 3)
  unfolding complete_investigation complete_attempt complete_entity get_or_create_quota_counter
  completion_conflicts terminal_state clock holds =
      conflicts_exhaust 3 0 (λ k. complete_attempt client settings id pk terminal_state (clock k))
        held
        (λ k. ground (
          arith,
          here k,
          counter k,
          caller-stored (some (tag k)) r pk,
          in_use-stored false (some (tag k)) r r.reservation_state refl,
          expires-stored (some (tag k)) r,
          ==_refl pk,
          submit_conflict k (
              terminal_entity settings terminal_state (clock k) r.expires_at
                (stored (some (tag k)) r)),
        ))

  -- Where each conditional write meets another writer (`ResourceModifiedError`, or a transaction refused
  -- with status 412) and takes the table from one of the states `held` to the next, in each of which the
  -- caller's record is read, under an etag of that state, and the caller's counter, finalizing the
  -- record, recording its findings and, where it holds a slot, completing it, each make three
  -- such writes, no more and no fewer, and end with the error that asks for a retry.
  pub contended_writes_give_up :
      (thread : String) (valid : Bool) (strategy : String) (redacted : Bool)
      (terminal_state : ReservationState) (clock : ℕ → ℕ)
      → holds_quota r.reservation_state ≡ true
      → (finalize_reservation client fresh id pk thread clock (held 0) ≡ (err please_retry, held 3))
        × (record_findings_metadata client settings id pk valid strategy redacted clock (held 0)
            ≡ (err please_retry, held 3))
        × (complete_investigation client settings id pk terminal_state clock (held 0)
            ≡ (err please_retry, held 3))
  contended_writes_give_up thread valid strategy redacted terminal_state clock holds = (
    finalize_conflicts thread clock,
    findings_conflicts valid strategy redacted clock,
    completion_conflicts terminal_state clock holds,
  )
