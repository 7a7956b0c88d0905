-- ===== src/Registry/Leases.antt =====
-- escalation-proxy/app/investigation_registry.py: what a sweep takes, and that a lease keeps other
-- sweeps away.
use sre_agent_team.Base.{
  ℕ, ◌+◌, ◌≤◌, ◌<◌, ◌≡◌, refl, ◌≢◌, String, some, arith, length, All, All-map,
}
use sre_agent_team.Base.Dict.{Dict, Distinct, lookup}
use sre_agent_team.Registry.Record.{
  InvestigationRecord, Registry, Settings, active, reserved, failed,
}
use sre_agent_team.Registry.Sweeps.{
  sweep, skips_claim, lease, claim_reconcilable_investigations, skips_release, fail_uncertain,
  release_stale_uncertain_reservations,
}
use sre_agent_team.Registry.Sweeping.{
  Keyed, Taken, sweep-length-le, sweep-Distinct, sweep-Keyed, sweep-Taken,
}

-- Each record that a claim returns stood in the registry before it under its id, active, with a platform
-- thread, not expired and with no lease that still ran, and stands there after it as it was but under
-- the claimant's lease; a claim returns at most `limit` of them. The registry's ids are distinct, and
-- each record is under its own.
pub claim_due :
    (limit : ℕ) (owner : String) (lease_seconds now : ℕ) (s : Registry)
    → Distinct s.records
    → Keyed s.records
    → let (claimed, s') = claim_reconcilable_investigations limit owner lease_seconds now s in
      (length claimed ≤ limit)
      × All
          (λ t.
            (r : InvestigationRecord) × (lookup t.investigation_id s.records ≡ some r)
            × (r.reservation_state ≡ active)
            × (r.platform_thread_id ≢ "")
            × (now ≤ r.expires_at)
            × (r.reconciliation_lease_expires_at ≤ now)
            × (t ≡ record r {
              reconciliation_lease_owner = owner;
              reconciliation_lease_expires_at = now + lease_seconds;
            })
            × (lookup t.investigation_id s'.records ≡ some t))
          claimed
unfolding claim_reconcilable_investigations skips_claim
claim_due limit owner lease_seconds now s u keyed = (
  sweep-length-le (skips_claim now) (lease owner (now + lease_seconds)) limit s.records,
  All-map _
      (λ t (r, found, due, e, there). (
        r,
        rw e (ground arith),
        ground arith,
        ground arith,
        ground arith,
        ground arith,
        e,
        rw e (ground arith),
      ))
      (sweep-Taken (skips_claim now) (lease owner (now + lease_seconds)) limit s.records u keyed),
)

distinct_claims :
    (owner owner' : String) (until until' now now' : ℕ) (d d' d'' : Dict InvestigationRecord)
    (a b : InvestigationRecord)
    → now' < until
    → Taken (skips_claim now) (lease owner until) d d' a
    → Taken (skips_claim now') (lease owner' until') d' d'' b
    → a.investigation_id ≢ b.investigation_id
unfolding skips_claim
distinct_claims owner owner' until until' now now' d d' d'' a b running (r, _, _, e, there)
      (r', found, due, e', _) =
    λ same. ground arith

-- While the leases of a claim run, another claim returns none of its records.
pub claims_exclude :
    (limit limit' : ℕ) (owner owner' : String) (lease_seconds lease_seconds' now now' : ℕ)
    (s : Registry)
    → Distinct s.records
    → Keyed s.records
    → now' < now + lease_seconds
    → let (first, s') = claim_reconcilable_investigations limit owner lease_seconds now s in
      let (second, _) = claim_reconcilable_investigations limit' owner' lease_seconds' now' s' in
      All (λ a. All (λ b. a.investigation_id ≢ b.investigation_id) second) first
unfolding claim_reconcilable_investigations
claims_exclude limit limit' owner owner' lease_seconds lease_seconds' now now' s u keyed running =
    let d' = (sweep (skips_claim now) (lease owner (now + lease_seconds)) limit s.records).1 in
    All-map _
      (λ a taken.
        All-map _
          (λ b taken'.
            distinct_claims owner owner' (now + lease_seconds) (now' + lease_seconds') now now'
              s.records d' _ a b running taken taken')
          (sweep-Taken (skips_claim now') (lease owner' (now' + lease_seconds')) limit' d'
            (sweep-Distinct _ _ limit s.records u)
            (sweep-Keyed _ _ limit s.records (λ _. refl) keyed)))
      (sweep-Taken (skips_claim now) (lease owner (now + lease_seconds)) limit s.records u keyed)

-- Each reservation that the uncertainty sweep returns was reserved without a platform thread for the
-- grace period at least; it now stands in the registry as failed, with its idempotency key and
-- fingerprint, and is retained as long as findings are.
pub release_keeps_key :
    (settings : Settings) (limit grace_seconds now : ℕ) (s : Registry)
    → Distinct s.records
    → Keyed s.records
    → let (released, s') =
        release_stale_uncertain_reservations settings limit grace_seconds now s in
      (length released ≤ limit)
      × All
          (λ t.
            (r : InvestigationRecord) × (lookup t.investigation_id s.records ≡ some r)
            × (r.reservation_state ≡ reserved)
            × (r.platform_thread_id ≡ "")
            × (r.created_at + grace_seconds ≤ now)
            × (t.idempotency_key ≡ r.idempotency_key)
            × (t.request_fingerprint ≡ r.request_fingerprint)
            × (t.reservation_state ≡ failed)
            × (now + settings.final_findings_metadata_retention_seconds ≤ t.expires_at)
            × (lookup t.investigation_id s'.records ≡ some t))
          released
unfolding release_stale_uncertain_reservations skips_release
release_keeps_key settings limit grace_seconds now s u keyed = (
  sweep-length-le (skips_release now grace_seconds) (fail_uncertain settings now) limit s.records,
  All-map _
      (λ t (r, found, due, e, there). (
        r,
        ground arith,
        ground arith,
        ground arith,
        ground arith,
        ground arith,
        ground arith,
        ground arith,
        ground arith,
        ground arith,
      ))
      (sweep-Taken (skips_release now grace_seconds) (fail_uncertain settings now) limit s.records u
        keyed),
)
