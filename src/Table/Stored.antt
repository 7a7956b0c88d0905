-- ===== src/Table/Stored.antt =====
-- escalation-proxy/app/investigation_registry.py, `TableStorageInvestigationRegistry`: what the code reads from and
-- writes to the entity of a record.
use sre_agent_team.Base.{
  ℕ, ◌+◌, max, eqb, Bool, String, Option, ◌≡◌, refl, ap, ◌==◌, string_discrete, Bool-cases, inl,
  inr,
}
use sre_agent_team.Base.Fallible.{ok}
use sre_agent_team.Base.Dict.{lookup, insert}
use sre_agent_team.Registry.Record.{
  InvestigationRecord, Settings, ReservationState, reserved, active, completed, failed, holds_quota,
  is_reserved,
}
use sre_agent_team.Registry.Lifecycle.{set_findings, stamp_findings}
use sre_agent_team.Table.Entity.{Entity, Value, number_or, set_property, to_entity}
use sre_agent_team.Table.Counter.{in_use}
use sre_agent_team.Table.Admission.{has_text}
use sre_agent_team.Table.Lifecycle.{terminal_entity, stamp_entity, findings_entity}
use sre_agent_team.Table.Laws.{body}
use sre_agent_team.Table.RoundTrip.{stored}

pub body-stored :
    (e : Entity) (r : InvestigationRecord) → body e ≡ to_entity r → e ≡ stored e.etag r
body-stored e r h = ap (λ (b : Entity). record b { etag = e.etag }) h

module _ (tag : Option String) (r : InvestigationRecord) where
  pub caller-stored :
      (s : String) → has_text "caller_appid" s (stored tag r) ≡ (r.caller_appid == s)
  unfolding has_text to_entity lookup string_discrete
  caller-stored s = refl

  pub expires-stored : number_or "expires_at" 0 (stored tag r) ≡ ok r.expires_at
  unfolding number_or to_entity lookup string_discrete
  expires-stored = refl

  pub finalized-stored :
      number_or "findings_finalized_at" 0 (stored tag r) ≡ ok r.findings_finalized_at
  unfolding number_or to_entity lookup string_discrete
  finalized-stored = refl

pub in_use-stored :
    (default : Bool) (tag : Option String) (r : InvestigationRecord) (s : ReservationState)
    → r.reservation_state ≡ s
    → in_use default (stored tag r) ≡ holds_quota s
unfolding to_entity lookup string_discrete
in_use-stored default tag r reserved e = rw e refl
in_use-stored default tag r active e = rw e refl
in_use-stored default tag r completed e = rw e refl
in_use-stored default tag r failed e = rw e refl

pub reserved-stored :
    (tag : Option String) (r : InvestigationRecord) (s : ReservationState)
    → r.reservation_state ≡ s
    → has_text "reservation_state" "reserved" (stored tag r) ≡ is_reserved s
unfolding has_text to_entity lookup string_discrete
reserved-stored tag r reserved e = rw e refl
reserved-stored tag r active e = rw e refl
reserved-stored tag r completed e = rw e refl
reserved-stored tag r failed e = rw e refl

-- The record that `complete_investigation` leaves, where it ends one.
abbrev pub ended : Settings → ReservationState → ℕ → InvestigationRecord → InvestigationRecord
ended settings terminal_state now r = record r {
  reservation_state = terminal_state;
  completed_at = now;
  expires_at = max r.expires_at (now + settings.final_findings_metadata_retention_seconds);
}

pub terminal_entity-stored :
    (settings : Settings) (s : ReservationState) (now : ℕ) (tag : Option String)
    (r : InvestigationRecord)
    → terminal_entity settings s now r.expires_at (stored tag r)
      ≡ stored tag (ended settings s now r)
unfolding terminal_entity set_property to_entity insert string_discrete
terminal_entity-stored settings s now tag r = refl

abbrev stamped : Settings → ℕ → InvestigationRecord → InvestigationRecord
stamped settings now r = record r {
  findings_finalized_at = now;
  expires_at = max r.expires_at (now + settings.final_findings_metadata_retention_seconds);
}

stamp-stored :
    (settings : Settings) (now : ℕ) (tag : Option String) (r : InvestigationRecord)
    → set_property "expires_at"
        (Value.number (max r.expires_at (now + settings.final_findings_metadata_retention_seconds)))
        (set_property "findings_finalized_at" (Value.number now) (stored tag r))
      ≡ stored tag (stamped settings now r)
unfolding set_property to_entity insert string_discrete
stamp-stored settings now tag r = refl

pub stamp_entity-stored :
    (settings : Settings) (now : ℕ) (tag : Option String) (r : InvestigationRecord)
    → stamp_entity settings now r.findings_finalized_at r.expires_at (stored tag r)
      ≡ stored tag (stamp_findings settings now r)
unfolding stamp_entity stamp_findings
stamp_entity-stored settings now tag r = elim (Bool-cases (eqb r.findings_finalized_at 0)) [
  | inl t ↦ rw t (stamp-stored settings now tag r)
  | inr f ↦ rw f refl
]

pub findings_entity-stored :
    (settings : Settings) (valid : Bool) (strategy : String) (redacted : Bool) (now : ℕ)
    (tag : Option String) (r : InvestigationRecord)
    → findings_entity valid strategy redacted
        (stamp_entity settings now r.findings_finalized_at r.expires_at (stored tag r))
      ≡ stored tag (set_findings settings valid strategy redacted now r)
unfolding findings_entity set_property to_entity insert string_discrete set_findings
findings_entity-stored settings valid strategy redacted now tag r =
    rw (stamp_entity-stored settings now tag r) refl
