-- ===== src/App/Finished.antt =====
-- escalation-proxy/app/main.py: what the rounds of `_run_terminal_reconciliation` do to the in-memory registry.
use sre_agent_team.Base.{
  ◌≡◌, refl, sym, ◌⊎◌, subst, All, All-map, false, String, some, List, [], ◌∷◌, ◌++◌, arith,
  Option-cases, inl, inr,
}
use sre_agent_team.Base.Fallible.{Result, ok, err}
use sre_agent_team.Base.Dict.{Distinct, lookup}
use sre_agent_team.Registry.Record.{
  InvestigationRecord, Registry, RegistryError, ReservationState, holds_quota,
}
use sre_agent_team.Registry.Lifecycle.{complete_investigation}
use sre_agent_team.Registry.Sweeps.{
  release_stale_uncertain_reservations, claim_reconcilable_investigations, skips_release,
  fail_uncertain,
}
use sre_agent_team.Registry.Sweeping.{Keyed, sweep-Distinct, sweep-Keyed}
use sre_agent_team.Registry.Leases.{claim_due}
use sre_agent_team.App.Reconciliation.{terminal_of, reconcile_record, reconcile_each, reconcile}
use sre_agent_team.App.Completing.{
  Present, Freed, complete-Present, complete-Freed, complete_frees, terminal_of-ends,
}
use sre_agent_team.App.Rounds.{Round, memory_ops, raised}

raised_state : {A : Type 0} (x : Result RegistryError A × Registry) → (raised x).1 ≡ x.1
raised_state (ok a, s) = refl
raised_state (err e, s) = refl

module _ (c : Round) where
  turn_ends :
      (r : InvestigationRecord) (s : Registry) (status : String) (state : ReservationState)
      → c.platform r ≡ some status
      → terminal_of status ≡ some state
      → reconcile_record (memory_ops c) r s
        ≡ (complete_investigation c.settings r.investigation_id r.caller_appid state c.complete_time
            s).1
  unfolding reconcile_record
  turn_ends r s status state answered ends = ground (
    arith,
    raised_state (
        complete_investigation c.settings r.investigation_id r.caller_appid state c.complete_time
          s),
  )

  -- A turn that ends a record, or leaves the registry.
  turn-cases :
      (r : InvestigationRecord) (s : Registry)
      → (reconcile_record (memory_ops c) r s ≡ s)
        ⊎ ((state : ReservationState) × (holds_quota state ≡ false)
            × (reconcile_record (memory_ops c) r s
                ≡ (complete_investigation c.settings r.investigation_id r.caller_appid state
                    c.complete_time s).1))
  unfolding reconcile_record
  turn-cases r s = elim (Option-cases (c.platform r)) [
    | inl silent ↦ inl (ground arith)
    | inr (status, answered) ↦ elim (Option-cases (terminal_of status)) [
      | inl runs ↦ inl (ground arith)
      | inr (state, ends) ↦
          inr (state, terminal_of-ends status state ends, turn_ends r s status state answered ends)
    ]
  ]

  each-Present :
      (id app : String) (rs : List InvestigationRecord) (s : Registry)
      → Present id app s
      → Present id app (reconcile_each (memory_ops c) rs s)
  unfolding reconcile_each
  each-Present id app [] s h = h
  each-Present id app (r ∷ rs) s h =
      each-Present id app rs (reconcile_record (memory_ops c) r s) (elim (turn-cases r s) [
        | inl same ↦ subst (λ t. Present id app t) (sym same) h
        | inr (state, terminal, same) ↦
            subst (λ t. Present id app t) (sym same)
              (complete-Present c.settings state c.complete_time s terminal id app
                r.investigation_id r.caller_appid h)
      ])

  each-Freed :
      (id : String) (rs : List InvestigationRecord) (s : Registry)
      → Freed id s
      → Freed id (reconcile_each (memory_ops c) rs s)
  unfolding reconcile_each
  each-Freed id [] s h = h
  each-Freed id (r ∷ rs) s h =
      each-Freed id rs (reconcile_record (memory_ops c) r s) (elim (turn-cases r s) [
        | inl same ↦ subst (λ t. Freed id t) (sym same) h
        | inr (state, terminal, same) ↦
            subst (λ t. Freed id t) (sym same)
              (complete-Freed c.settings state c.complete_time s terminal id r.investigation_id
                r.caller_appid h)
      ])

  each_frees :
      (before after : List InvestigationRecord) (r : InvestigationRecord) (status : String)
      (state : ReservationState) (s : Registry)
      → c.platform r ≡ some status
      → terminal_of status ≡ some state
      → Present r.investigation_id r.caller_appid s
      → Freed r.investigation_id (reconcile_each (memory_ops c) (before ++ r ∷ after) s)
  unfolding reconcile_each
  each_frees [] after r status state s answered ends h =
      each-Freed r.investigation_id after (reconcile_record (memory_ops c) r s) (
        subst (λ t. Freed r.investigation_id t) (sym (turn_ends r s status state answered ends))
          (complete_frees c.settings state c.complete_time s (terminal_of-ends status state ends)
            r.investigation_id r.caller_appid h))
  each_frees (b ∷ before) after r status state s answered ends h =
      each_frees before after r status state (reconcile_record (memory_ops c) b s) answered ends
        (each-Present r.investigation_id r.caller_appid (b ∷ []) s h)

middle :
    {A : Type 0} (P : A → Type 0) (before after : List A) (a : A)
    → All P (before ++ a ∷ after)
    → P a
middle P [] after a (p, ps) = p
middle P (b ∷ before) after a (p, ps) = middle P before after a ps

-- After a round of the reconciliation on a registry of distinct ids with each record under its own, an investigation
-- that the round claimed and that the platform says has completed or failed holds no quota slot, whatever
-- the platform answers, or fails to answer, for the other records that were claimed.
pub finished_investigation-Freed :
    (c : Round) (s : Registry) (before after : List InvestigationRecord) (r : InvestigationRecord)
    (status : String) (state : ReservationState)
    → Distinct s.records
    → Keyed s.records
    → let s1 =
        (release_stale_uncertain_reservations c.settings c.limit c.grace_seconds c.release_time
          s).1 in
      (claim_reconcilable_investigations c.limit c.owner c.lease_seconds c.claim_time s1).0
        ≡ before ++ r ∷ after
      → c.platform r ≡ some status
      → terminal_of status ≡ some state
      → Freed r.investigation_id (reconcile (memory_ops c) s)
unfolding reconcile release_stale_uncertain_reservations
finished_investigation-Freed c s before after r status state distinct keyed claimed answered ends =
    let s1 =
      (release_stale_uncertain_reservations c.settings c.limit c.grace_seconds c.release_time
        s).1 in
    let (short, due) =
      claim_due c.limit c.owner c.lease_seconds c.claim_time s1
        (sweep-Distinct (skips_release c.release_time c.grace_seconds)
          (fail_uncertain c.settings c.release_time) c.limit s.records distinct)
        (sweep-Keyed (skips_release c.release_time c.grace_seconds)
          (fail_uncertain c.settings c.release_time) c.limit s.records (λ x. refl) keyed) in
    let (records, s2) =
      claim_reconcilable_investigations c.limit c.owner c.lease_seconds c.claim_time s1 in
    let stands : All (λ t. lookup t.investigation_id s2.records ≡ some t) records =
      All-map _ (λ t (_, _, _, _, _, _, _, there). there) due in
    let there =
      middle (λ t. lookup t.investigation_id s2.records ≡ some t) before after r
        (subst (λ rs. All (λ t. lookup t.investigation_id s2.records ≡ some t) rs) claimed
          stands) in
    rw claimed (each_frees c before after r status state s2 answered ends (r, there, refl))
