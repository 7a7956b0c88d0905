-- ===== src/Registry/Tests.antt =====
-- escalation-proxy/app/investigation_registry.py: concrete registries and calls.
use sre_agent_team.Base.{
  string_discrete, differ, ◌↔◌, suc, ◌+◌, ◌≤◌, ◌≡◌, refl, ◌≢◌, ◌⊎◌, true, false, none, some, [],
  ◌∷◌, arith, length, All,
}
use sre_agent_team.Base.Fallible.{ok}
use sre_agent_team.Base.Dict.{lookup}
use sre_agent_team.Registry.Record.{InvestigationRecord, defaults, empty, active, completed}
use sre_agent_team.Registry.Reads.{
  active_count, counts_against, cleanup_expired, get_investigation, expired_ids,
  find_by_idempotency_key, find_key, erase_all,
}
use sre_agent_team.Registry.Admission.{
  reserve_investigation, reserve_clean, admit, existing_reservation, finalize_reservation,
}
use sre_agent_team.Registry.Lifecycle.{complete_investigation, set_terminal}
use sre_agent_team.Registry.Sweeps.{claim_reconcilable_investigations}
use sre_agent_team.Registry.Quota.{
  cleaned, reserve_within_quota, complete_frees_slot, finalize_takes_slot,
}
use sre_agent_team.Registry.Replay.{reserve_replay}
use sre_agent_team.Registry.Ownership.{get_investigation-ok_iff}
use sre_agent_team.Registry.Polls.{poll_repeatedly, status_polls_bounded}
use sre_agent_team.Registry.Retention.{completed_is_readable}
use sre_agent_team.Registry.Leases.{claim_due, claims_exclude}
use sre_agent_team.Registry.Invariant.{
  reserves, polls_status, cleans, perform, perform_all, IsValid,
}
use sre_agent_team.Registry.Traces.{every_history_IsValid}
use sre_agent_team.Registry.Terminal.{terminal_is_final, state_of}
use sre_agent_team.Registry.Samples.{request, reading, running, ended, holding, both_sound, again}

reserve_within_quota_example :
    let count = active_count "app" (λ _. 100) in
    let s' = (reserve_investigation defaults request (reading 100 "i-9") empty).1 in
    (count s'.records ≡ suc (count (cleaned defaults (reading 100 "i-9") empty).records))
    × (count s'.records ≤ 2)
unfolding reserve_investigation reserve_clean admit existing_reservation find_by_idempotency_key
    find_key cleanup_expired active_count expired_ids erase_all lookup string_discrete
reserve_within_quota_example =
    reserve_within_quota defaults request (reading 100 "i-9") empty
      (reserve_investigation defaults request (reading 100 "i-9") empty).1
      (record { investigation_id = "i-9"; created = true }) refl refl refl

reserve_replay_example :
    let s' = (reserve_investigation defaults request (reading 100 "i-9") empty).1 in
    reserve_investigation defaults request (reading 200 "i-10") s' ≡ (
      ok (record { investigation_id = "i-9"; created = false }),
      cleaned defaults (reading 200 "i-10") s',
    )
unfolding reserve_investigation reserve_clean admit existing_reservation find_by_idempotency_key
    find_key cleanup_expired active_count expired_ids erase_all lookup string_discrete
reserve_replay_example =
    reserve_replay defaults request request (reading 100 "i-9") (reading 200 "i-10") empty
      (reserve_investigation defaults request (reading 100 "i-9") empty).1
      (record { investigation_id = "i-9"; created = true }) tt refl refl refl
      (differ "retry-1" "" refl) refl refl (λ _. omega arith) (omega arith) (omega arith)

complete_frees_slot_example :
    let count = active_count "app" (λ _. 300) in
    let (result, s') = complete_investigation defaults "i-1" "app" completed 300 both_sound in
    (result ≡ ok tt) × (count both_sound.records ≡ suc (count s'.records))
unfolding lookup string_discrete counts_against
complete_frees_slot_example =
    complete_frees_slot defaults "i-1" "app" completed 300 (λ _. 300) both_sound running refl refl
      refl refl

finalize_takes_slot_example :
    let count = active_count "app" (λ _. 400) in
    let (result, s') = finalize_reservation "i-1" "app" "t-9" 400 (holding ended) in
    (result ≡ ok tt) × (count s'.records ≡ suc (count (holding ended).records))
unfolding lookup string_discrete
finalize_takes_slot_example =
    finalize_takes_slot "i-1" "app" "t-9" 400 (λ _. 400) (holding ended) ended refl refl refl
      (omega arith)

get_investigation-ok_iff_example :
    (get_investigation "i-1" "owner" "app" 300 both_sound ≡ (ok running, both_sound)) ↔ (
      (lookup "i-1" both_sound.records ≡ some running)
      × (running.workload_identity_appid ≡ "app")
      × (300 ≤ running.expires_at)
      × (both_sound ≡ both_sound))
get_investigation-ok_iff_example =
    get_investigation-ok_iff "i-1" "owner" "app" 300 both_sound both_sound running

status_polls_bounded_example :
    (poll_repeatedly defaults "i-1" "owner" "app" ((300, 300) ∷ (302, 302) ∷ []) both_sound).0 + 1
    ≤ 288
unfolding lookup string_discrete
status_polls_bounded_example =
    status_polls_bounded defaults "i-1" "owner" "app" ((300, 300) ∷ (302, 302) ∷ []) both_sound
      running (refl, (refl, tt)) refl (omega arith)

completed_is_readable_example :
    let s' = (complete_investigation defaults "i-1" "app" completed 300 both_sound).1 in
    let s'' = (cleanup_expired 100 400 s').1 in
    get_investigation "i-1" "owner" "app" 500 s''
    ≡ (ok (set_terminal defaults completed 300 running), s'')
unfolding lookup string_discrete
completed_is_readable_example =
    completed_is_readable defaults "i-1" "owner" "app" completed 300 100 400 500 both_sound running
      (refl, (refl, tt)) refl refl refl refl (omega arith) (omega arith)

claim_due_example :
    let (claimed, s') = claim_reconcilable_investigations 10 "sweeper" 60 300 both_sound in
    (length claimed ≤ 10)
    × All
        (λ t.
          (r : InvestigationRecord) × (lookup t.investigation_id both_sound.records ≡ some r)
          × (r.reservation_state ≡ active)
          × (r.platform_thread_id ≢ "")
          × (300 ≤ r.expires_at)
          × (r.reconciliation_lease_expires_at ≤ 300)
          × (t ≡ record r {
            reconciliation_lease_owner = "sweeper";
            reconciliation_lease_expires_at = 360;
          })
          × (lookup t.investigation_id s'.records ≡ some t))
        claimed
unfolding lookup string_discrete
claim_due_example = claim_due 10 "sweeper" 60 300 both_sound (refl, (refl, tt)) (refl, (refl, tt))

claims_exclude_example :
    let (first, s') = claim_reconcilable_investigations 10 "sweeper" 60 300 both_sound in
    let (second, _) = claim_reconcilable_investigations 10 "rival" 60 350 s' in
    All (λ a. All (λ b. a.investigation_id ≢ b.investigation_id) second) first
unfolding lookup string_discrete
claims_exclude_example =
    claims_exclude 10 10 "sweeper" "rival" 60 60 300 350 both_sound (refl, (refl, tt))
      (refl, (refl, tt)) (omega arith)

every_history_IsValid_example : IsValid defaults (
    perform_all defaults
      (reserves request (reading 100 "i-9")
        ∷ polls_status "i-9" "owner" "app" 200 200
        ∷ cleans 100 300
        ∷ [])
      empty)
every_history_IsValid_example = every_history_IsValid defaults (
    reserves request (reading 100 "i-9")
    ∷ polls_status "i-9" "owner" "app" 200 200
    ∷ cleans 100 300
    ∷ [])

terminal_is_final_example :
    let s' = perform defaults again (holding ended) in
    (state_of "i-1" s' ≡ some completed) ⊎ (state_of "i-1" s' ≡ none)
unfolding lookup string_discrete
terminal_is_final_example =
    terminal_is_final defaults "i-1" ended again (holding ended)
      (record {
        distinct = (refl, (refl, tt));
        sound = (
          (refl, omega arith, omega arith, omega arith),
          ((refl, omega arith, omega arith, omega arith), tt),
        );
      })
      refl refl (differ "i-0" "i-1" refl)
