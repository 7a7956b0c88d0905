-- ===== src/Registry/Sweeps.antt =====
-- escalation-proxy/app/investigation_registry.py: the two methods that background sweeps call.
use sre_agent_team.Base.{
  ℕ, zero, suc, ◌+◌, max, Bool, true, false, not, ◌||◌, String, List, [], ◌∷◌, ltb, ◌==◌,
}
use sre_agent_team.Base.Dict.{Dict}
use sre_agent_team.Registry.Record.{
  InvestigationRecord, Registry, Settings, failed, is_active, is_reserved,
}

-- The condition under which `claim_reconcilable_investigations` passes a record over.
unfoldable pub skips_claim : ℕ → InvestigationRecord → Bool
skips_claim now r =
    not (is_active r.reservation_state)
    || r.platform_thread_id == ""
    || ltb r.expires_at now
    || ltb now r.reconciliation_lease_expires_at

abbrev pub lease : String → ℕ → InvestigationRecord → InvestigationRecord
lease lease_owner lease_expires_at r = record r {
  reconciliation_lease_owner = lease_owner;
  reconciliation_lease_expires_at = lease_expires_at;
}

-- The loop of a sweep: the records that `skips` does not pass over are changed by `change` and
-- collected, until `room` of them are.
unfoldable pub sweep :
    (InvestigationRecord → Bool)
    → (InvestigationRecord → InvestigationRecord)
    → ℕ
    → Dict InvestigationRecord
    → List InvestigationRecord × Dict InvestigationRecord
sweep skips change zero d = ([], d)
sweep skips change (suc room) [] = ([], [])
sweep skips change (suc room) ((k, r) ∷ d) = elim (skips r) [
  | true ↦ let (taken, d') = sweep skips change (suc room) d in (taken, (k, r) ∷ d')
  | false ↦ let (taken, d') = sweep skips change room d in (change r ∷ taken, (k, change r) ∷ d')
]

unfoldable pub claim_reconcilable_investigations :
    ℕ → String → ℕ → ℕ → Registry → List InvestigationRecord × Registry
claim_reconcilable_investigations limit lease_owner lease_seconds now s =
    let (claimed, d) =
      sweep (skips_claim now) (lease lease_owner (now + lease_seconds)) limit s.records in
    (claimed, record s { records = d })

-- The condition under which `release_stale_uncertain_reservations` passes a record over.
unfoldable pub skips_release : ℕ → ℕ → InvestigationRecord → Bool
skips_release now grace_seconds r =
    not (is_reserved r.reservation_state)
    || not (r.platform_thread_id == "")
    || ltb now (r.created_at + grace_seconds)

abbrev pub fail_uncertain : Settings → ℕ → InvestigationRecord → InvestigationRecord
fail_uncertain settings now r = record r {
  reservation_state = failed;
  completed_at = now;
  expires_at = max r.expires_at (now + settings.final_findings_metadata_retention_seconds);
}

unfoldable pub release_stale_uncertain_reservations :
    Settings → ℕ → ℕ → ℕ → Registry → List InvestigationRecord × Registry
release_stale_uncertain_reservations settings limit grace_seconds now s =
    let (released, d) =
      sweep (skips_release now grace_seconds) (fail_uncertain settings now) limit s.records in
    (released, record s { records = d })
