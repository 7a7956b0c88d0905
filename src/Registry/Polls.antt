-- ===== src/Registry/Polls.antt =====
-- escalation-proxy/app/investigation_registry.py: the rate limits of status and summary polls.
use sre_agent_team.Base.{
  ℕ, ◌+◌, ◌*◌, ◌≤◌, ◌<◌, ◌≡◌, refl, ◌⊎◌, inl, inr, Bool, true, false, String, none, some, List, [],
  ◌∷◌, arith,
}
use sre_agent_team.Base.Fallible.{ok, is_ok}
use sre_agent_team.Base.Dict.{
  Distinct, lookup, update, lookup-update, update-Distinct, lookup-erase, erase-Distinct,
}
use sre_agent_team.Registry.Record.{InvestigationRecord, Registry, Settings}
use sre_agent_team.Registry.Reads.{get_investigation, as_count}
use sre_agent_team.Registry.Lifecycle.{
  record_status_poll, admit_status_poll, polled_too_soon, count_status_poll,
}

-- What a status poll that is accepted has found and done.
pub status_poll-ok :
    (settings : Settings) (id oid app : String) (t now : ℕ) (s s' : Registry)
    (r : InvestigationRecord)
    → lookup id s.records ≡ some r
    → record_status_poll settings id oid app t now s ≡ (ok tt, s')
    → (r.workload_identity_appid ≡ app)
      × (t ≤ r.expires_at)
      × (r.status_poll_count < settings.max_status_polls_per_investigation)
      × ((r.last_status_poll ≡ 0)
          ⊎ (r.last_status_poll + settings.min_status_poll_interval_seconds ≤ now))
      × (s'.records ≡ update id (count_status_poll now) s.records)
unfolding record_status_poll get_investigation admit_status_poll polled_too_soon
status_poll-ok settings id oid app t now s s' r found e = ground arith

-- A sequence of status polls of one investigation, each with its two clock readings: how many are
-- accepted, and the registry after the last.
unfoldable pub poll_repeatedly :
    Settings → String → String → String → List (ℕ × ℕ) → Registry → ℕ × Registry
poll_repeatedly settings id oid app [] s = (0, s)
poll_repeatedly settings id oid app ((t, now) ∷ ts) s =
    let (result, s') = record_status_poll settings id oid app t now s in
    let (n, s'') = poll_repeatedly settings id oid app ts s' in (as_count (is_ok result) + n, s'')

-- One poll is accepted and counted, or refused with the record as it was, or has dropped it.
abbrev pub Polled : Settings → String → ℕ → InvestigationRecord → Bool → Registry → Type 0
Polled settings id now r accepted s' =
    ((accepted ≡ true)
      × (r.status_poll_count < settings.max_status_polls_per_investigation)
      × ((r.last_status_poll ≡ 0)
          ⊎ (r.last_status_poll + settings.min_status_poll_interval_seconds ≤ now))
      × (lookup id s'.records ≡ some (count_status_poll now r)))
    ⊎ ((accepted ≡ false) × (lookup id s'.records ≡ some r))
    ⊎ ((accepted ≡ false) × (lookup id s'.records ≡ none))

status_poll-Polled :
    (settings : Settings) (id oid app : String) (t now : ℕ) (s : Registry) (r : InvestigationRecord)
    → Distinct s.records
    → lookup id s.records ≡ some r
    → let (result, s') = record_status_poll settings id oid app t now s in
      Polled settings id now r (is_ok result) s' × Distinct s'.records
unfolding record_status_poll get_investigation admit_status_poll polled_too_soon
status_poll-Polled settings id oid app t now s r u found = ground (
  arith,
  lookup-update id id (count_status_poll now) s.records,
  update-Distinct id (count_status_poll now) s.records u,
  lookup-erase id id s.records u,
  erase-Distinct id s.records u,
)

status_poll_absent :
    (settings : Settings) (id oid app : String) (t now : ℕ) (s : Registry)
    → lookup id s.records ≡ none
    → let (result, s') = record_status_poll settings id oid app t now s in
      (is_ok result ≡ false) × (s' ≡ s)
unfolding record_status_poll get_investigation
status_poll_absent settings id oid app t now s gone = ground arith

poll_absent :
    (settings : Settings) (id oid app : String) (ts : List (ℕ × ℕ)) (s : Registry)
    → lookup id s.records ≡ none
    → poll_repeatedly settings id oid app ts s ≡ (0, s)
unfolding poll_repeatedly
poll_absent settings id oid app [] s gone = refl
poll_absent settings id oid app ((t, now) ∷ ts) s gone = ground (
  arith,
  status_poll_absent settings id oid app t now s gone,
  poll_absent settings id oid app ts s gone,
)

-- Over any sequence of status polls of a record whose count is within the maximum, the accepted ones
-- and those before them stay within the maximum.
pub status_polls_bounded :
    (settings : Settings) (id oid app : String) (ts : List (ℕ × ℕ)) (s : Registry)
    (r : InvestigationRecord)
    → Distinct s.records
    → lookup id s.records ≡ some r
    → r.status_poll_count ≤ settings.max_status_polls_per_investigation
    → (poll_repeatedly settings id oid app ts s).0 + r.status_poll_count
      ≤ settings.max_status_polls_per_investigation
unfolding poll_repeatedly
status_polls_bounded settings id oid app [] s r u found within = omega arith
status_polls_bounded settings id oid app ((t, now) ∷ ts) s r u found within =
    let s' = (record_status_poll settings id oid app t now s).1 in
    let step = status_poll-Polled settings id oid app t now s r u found in
    let again = λ (x : InvestigationRecord). status_polls_bounded settings id oid app ts s' x in
    elim (step.0) [
      | inl (accepted, room, _, kept) ↦
          rw accepted (omega (arith, again (count_status_poll now r) (step.1) kept (omega arith)))
      | inr (inl (refused, kept)) ↦ rw refused (omega (arith, again r (step.1) kept within))
      | inr (inr (refused, gone)) ↦
          rw (refused, poll_absent settings id oid app ts s' gone) (omega arith)
    ]

-- Once a record has been polled, every accepted status poll of a sequence adds one to its count and
-- moves its last poll on by the minimum interval at least, as long as the record is kept.
pub status_polls_spaced :
    (settings : Settings) (id oid app : String) (ts : List (ℕ × ℕ)) (s : Registry)
    (r r' : InvestigationRecord)
    → Distinct s.records
    → lookup id s.records ≡ some r
    → 0 < r.last_status_poll
    → lookup id (poll_repeatedly settings id oid app ts s).1.records ≡ some r'
    → let n = (poll_repeatedly settings id oid app ts s).0 in
      (r'.status_poll_count ≡ r.status_poll_count + n)
      × (r.last_status_poll + n * settings.min_status_poll_interval_seconds ≤ r'.last_status_poll)
unfolding poll_repeatedly
status_polls_spaced settings id oid app [] s r r' u found polled last = ground arith
status_polls_spaced settings id oid app ((t, now) ∷ ts) s r r' u found polled last =
    let s' = (record_status_poll settings id oid app t now s).1 in
    let step = status_poll-Polled settings id oid app t now s r u found in
    let again = λ (x : InvestigationRecord). status_polls_spaced settings id oid app ts s' x r' in
    elim (step.0) [
      | inl (accepted, room, spaced, kept) ↦
          let now_pos : 0 < now = omega arith in
          let spaced_by : r.last_status_poll + settings.min_status_poll_interval_seconds ≤ now =
            omega arith in
          let rest = again (count_status_poll now r) (step.1) kept now_pos last in
          rw accepted (omega (arith, rest))
      | inr (inl (refused, kept)) ↦ rw refused (omega (arith, again r (step.1) kept polled last))
      | inr (inr (refused, gone)) ↦
          absurd (ground (arith, poll_absent settings id oid app ts s' gone))
    ]
