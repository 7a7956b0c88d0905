-- ===== src/App/Rounds.antt =====
-- escalation-proxy/app/main.py: the calls of a round of `_run_terminal_reconciliation`, on the in-memory registry.
use sre_agent_team.Base.{ℕ, String, Option, none, some}
use sre_agent_team.Base.Fallible.{Result, ok, err}
use sre_agent_team.Registry.Record.{InvestigationRecord, Registry, RegistryError, Settings}
use sre_agent_team.Registry.Lifecycle.{complete_investigation}
use sre_agent_team.Registry.Reads.{cleanup_expired}
use sre_agent_team.Registry.Sweeps.{
  release_stale_uncertain_reservations, claim_reconcilable_investigations,
}
use sre_agent_team.App.Reconciliation.{SweepOps}

-- What the platform's answer for a record, if there is one, and a reading of the registry's clock are; and the
-- arguments of the round.
pub record Round : Type 0 where
  pub settings : Settings
  pub platform : InvestigationRecord → Option String
  pub complete_time : ℕ
  pub limit : ℕ
  pub grace_seconds : ℕ
  pub release_time : ℕ
  pub owner : String
  pub lease_seconds : ℕ
  pub claim_time : ℕ
  pub cleanup_limit : ℕ

abbrev fetched : Option String → Result (Option RegistryError) String
fetched none = err none
fetched (some status) = ok status

abbrev pub raised :
    {A : Type 0} → Result RegistryError A × Registry → Result (Option RegistryError) A × Registry
raised (ok a, s) = (ok a, s)
raised (err e, s) = (err (some e), s)

-- The in-memory registry behind the round.
abbrev pub memory_ops : Round → SweepOps (Option RegistryError) Registry
memory_ops c = record {
  release_stale_uncertain_reservations = λ s.
      let (records, s') =
        release_stale_uncertain_reservations c.settings c.limit c.grace_seconds c.release_time s in
      (ok records, s');
  claim_reconcilable_investigations = λ s.
      let (records, s') =
        claim_reconcilable_investigations c.limit c.owner c.lease_seconds c.claim_time s in
      (ok records, s');
  fetch_status = λ r s. (fetched (c.platform r), s);
  complete_investigation =
      λ id app state s. raised (complete_investigation c.settings id app state c.complete_time s);
  cleanup_expired = λ s. let (n, s') = cleanup_expired c.cleanup_limit c.claim_time s in (ok n, s');
}
