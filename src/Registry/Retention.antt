-- ===== src/Registry/Retention.antt =====
-- escalation-proxy/app/investigation_registry.py: what `cleanup_expired` removes, and how long a
-- completed investigation stays readable.
use sre_agent_team.Base.{
  ℕ, suc, zero, ◌+◌, ◌≤◌, ◌<◌, min, ◌≡◌, refl, ◌≢◌, true, String, none, some, List, [], ◌∷◌, arith,
  ◌∙◌, length, take, length-take, take_all,
}
use sre_agent_team.Base.Fallible.{ok}
use sre_agent_team.Base.Dict.{
  Dict, Distinct, lookup, erase, lookup-erase, lookup-update, erase-Distinct, update-Distinct,
  lookup-erase_ne, lookup-erase-none,
}
use sre_agent_team.Registry.Record.{
  ReservationState, InvestigationRecord, Registry, Settings, holds_quota,
}
use sre_agent_team.Registry.Reads.{get_investigation, expired_ids, erase_all, cleanup_expired}
use sre_agent_team.Registry.Ownership.{get_investigation-ok_iff}
use sre_agent_team.Registry.Lifecycle.{complete_investigation, set_terminal}
use sre_agent_team.Registry.Replay.{Avoids, take-Avoids, expired_ids-Avoids, lookup-erase_all}

-- A cleanup leaves every record that has not expired, whatever its batch size.
pub cleanup_keeps_live :
    (limit now : ℕ) (s : Registry) (k : String) (r : InvestigationRecord)
    → Distinct s.records
    → lookup k s.records ≡ some r
    → now ≤ r.expires_at
    → lookup k (cleanup_expired limit now s).1.records ≡ some r
unfolding cleanup_expired
cleanup_keeps_live limit now s k r u found live =
    lookup-erase_all k _ s.records
      (take-Avoids k limit _ (expired_ids-Avoids k now r s.records u found live))
    ∙ found

-- The keys of a list are all in use, and none stands twice.
abbrev InUse : List String → Dict InvestigationRecord → Type 0
InUse [] d = Unit
InUse (k ∷ ks) d = (lookup k d ≢ none) × Avoids k ks × InUse ks d

InUse-cons :
    (ks : List String) (i : String) (x : InvestigationRecord) (d : Dict InvestigationRecord)
    → lookup i d ≡ none
    → InUse ks d
    → InUse ks ((i, x) ∷ d) × Avoids i ks
unfolding lookup
InUse-cons [] i x d fresh h = (tt, tt)
InUse-cons (k ∷ ks) i x d fresh h = ground (arith, InUse-cons ks i x d fresh h.2)

expired_ids-InUse :
    (now : ℕ) (d : Dict InvestigationRecord) → Distinct d → InUse (expired_ids now d) d
unfolding expired_ids lookup
expired_ids-InUse now [] u = tt
expired_ids-InUse now ((i, x) ∷ d) u =
    ground (arith, expired_ids-InUse now d u.1, InUse-cons (expired_ids now d) i x d u.0)

take-InUse :
    (n : ℕ) (ks : List String) (d : Dict InvestigationRecord) → InUse ks d → InUse (take n ks) d
take-InUse zero ks d h = tt
take-InUse (suc n) [] d h = tt
take-InUse (suc n) (k ∷ ks) d h = (h.0, take-Avoids k n ks h.1, take-InUse n ks d h.2)

erase-InUse :
    (k : String) (ks : List String) (d : Dict InvestigationRecord)
    → Avoids k ks
    → InUse ks d
    → InUse ks (erase k d)
erase-InUse k [] d a h = tt
erase-InUse k (j ∷ js) d a h = ground (arith, lookup-erase_ne k j d, erase-InUse k js d a.1 h.2)

length-erase :
    (k : String) (d : Dict InvestigationRecord)
    → lookup k d ≢ none
    → suc (length (erase k d)) ≡ length d
unfolding lookup erase
length-erase k [] h = absurd (h refl)
length-erase k ((i, x) ∷ d) h = ground (arith, length-erase k d)

length-erase_all :
    (ks : List String) (d : Dict InvestigationRecord)
    → InUse ks d
    → length (erase_all ks d) + length ks ≡ length d
unfolding erase_all
length-erase_all [] d h = omega arith
length-erase_all (k ∷ ks) d h =
    omega
      (arith, length-erase_all ks (erase k d) (erase-InUse k ks d h.1 h.2), length-erase k d h.0)

-- A cleanup returns the number of records that it has removed: all that have expired, or as many as
-- its batch holds.
pub cleanup_count :
    (limit now : ℕ) (s : Registry)
    → Distinct s.records
    → let (n, s') = cleanup_expired limit now s in
      (n ≡ min limit (length (expired_ids now s.records)))
      × (length s'.records + n ≡ length s.records)
unfolding cleanup_expired
cleanup_count limit now s u = (
  length-take limit _,
  length-erase_all _ s.records (take-InUse limit _ s.records (expired_ids-InUse now s.records u)),
)

lookup-erase_all-none :
    (k : String) (ks : List String) (d : Dict InvestigationRecord)
    → lookup k d ≡ none
    → lookup k (erase_all ks d) ≡ none
unfolding erase_all
lookup-erase_all-none k [] d h = h
lookup-erase_all-none k (j ∷ js) d h =
    lookup-erase_all-none k js (erase j d) (lookup-erase-none j k d h)

lookup-erase_all-some :
    (k : String) (ks : List String) (r : InvestigationRecord) (d : Dict InvestigationRecord)
    → Distinct d
    → lookup k (erase_all ks d) ≡ some r
    → lookup k d ≡ some r
unfolding erase_all
lookup-erase_all-some k [] r d u h = h
lookup-erase_all-some k (j ∷ js) r d u h =
    ground (
      arith,
      lookup-erase_all-some k js r (erase j d) (erase-Distinct j d u) h,
      lookup-erase j k d u,
    )

erase_all-expired :
    (k : String) (now : ℕ) (r : InvestigationRecord) (d e : Dict InvestigationRecord)
    → Distinct e
    → lookup k d ≡ some r
    → r.expires_at < now
    → lookup k (erase_all (expired_ids now d) e) ≡ none
unfolding expired_ids lookup erase_all
erase_all-expired k now r [] e u found past = cc
erase_all-expired k now r ((i, x) ∷ d) e u found past = ground (
  arith,
  erase_all-expired k now r d (erase i e) (erase-Distinct i e u),
  erase_all-expired k now r d e u,
  lookup-erase_all-none k (expired_ids now d) (erase i e),
  lookup-erase i k e u,
)

-- A cleanup whose batch has room for every expired record leaves only records that it found and
-- that have not expired.
pub cleanup_complete :
    (limit now : ℕ) (s : Registry) (k : String) (r : InvestigationRecord)
    → Distinct s.records
    → length (expired_ids now s.records) ≤ limit
    → lookup k (cleanup_expired limit now s).1.records ≡ some r
    → (lookup k s.records ≡ some r) × (now ≤ r.expires_at)
unfolding cleanup_expired
cleanup_complete limit now s k r u room left =
    let left' : lookup k (erase_all (expired_ids now s.records) s.records) ≡ some r =
      rw (take_all limit (expired_ids now s.records) room) at left in
    let found = lookup-erase_all-some k _ r s.records u left' in
    (found, ground (arith, erase_all-expired k now r s.records s.records u found))

-- When an investigation that held a slot is completed by its caller at `t`, its owner can read it at
-- any time up to the findings' retention after `t`, a cleanup in between included.
pub completed_is_readable :
    (settings : Settings) (id oid app : String) (terminal : ReservationState)
    (t limit sweep now : ℕ) (s : Registry) (r : InvestigationRecord)
    → Distinct s.records
    → lookup id s.records ≡ some r
    → r.caller_appid ≡ app
    → r.workload_identity_appid ≡ app
    → holds_quota r.reservation_state ≡ true
    → sweep ≤ t + settings.final_findings_metadata_retention_seconds
    → now ≤ t + settings.final_findings_metadata_retention_seconds
    → let s' = (complete_investigation settings id app terminal t s).1 in
      let s'' = (cleanup_expired limit sweep s').1 in
      get_investigation id oid app now s'' ≡ (ok (set_terminal settings terminal t r), s'')
unfolding complete_investigation set_terminal
completed_is_readable settings id oid app terminal t limit sweep now s r u found owner identity held
      before live =
    let s' = (complete_investigation settings id app terminal t s).1 in
    let s'' = (cleanup_expired limit sweep s').1 in
    let done = set_terminal settings terminal t r in
    let there : lookup id s'.records ≡ some done =
      ground (arith, lookup-update id id (set_terminal settings terminal t) s.records) in
    let u' : Distinct s'.records =
      ground (arith, update-Distinct id (set_terminal settings terminal t) s.records u) in
    (get_investigation-ok_iff id oid app now s'' s'' done).1 (
      cleanup_keeps_live limit sweep s' id done u' there (ground arith),
      ground arith,
      ground arith,
      refl,
    )
