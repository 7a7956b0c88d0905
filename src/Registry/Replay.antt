-- ===== src/Registry/Replay.antt =====
-- escalation-proxy/app/investigation_registry.py: `reserve_investigation` called again with the
-- idempotency key of an earlier reservation.
use sre_agent_team.Base.{
  ℕ, ◌+◌, ◌≤◌, ◌≡◌, refl, ◌≢◌, true, false, String, none, some, List, [], ◌∷◌, arith, ◌==◌,
  if◌then◌else◌, take, zero, suc, ◌∙◌, ap,
}
use sre_agent_team.Base.Fallible.{ok, err}
use sre_agent_team.Base.Dict.{
  Dict, Distinct, lookup, insert, erase, lookup-insert, insert-Distinct, erase-Distinct,
  lookup-erase_ne, erase-insert, erase_comm,
}
use sre_agent_team.Registry.Record.{
  InvestigationRecord, Registry, ReservationResult, Settings, idempotency_conflict,
}
use sre_agent_team.Registry.Reads.{
  answers_key, find_key, find_by_idempotency_key, expired_ids, erase_all, cleanup_expired,
}
use sre_agent_team.Registry.Admission.{
  ReservationRequest, Readings, new_record, admit, reserve_clean, reserve_investigation,
  existing_reservation,
}
use sre_agent_team.Registry.Quota.{cleaned}

-- The keys of a list that are not `k`.
abbrev pub Avoids : String → List String → Type 0
Avoids k [] = Unit
Avoids k (j ∷ js) = (j ≢ k) × Avoids k js

pub take-Avoids : (k : String) (n : ℕ) (js : List String) → Avoids k js → Avoids k (take n js)
take-Avoids k zero js h = tt
take-Avoids k (suc n) [] h = tt
take-Avoids k (suc n) (j ∷ js) h = (h.0, take-Avoids k n js h.1)

absent-Avoids :
    (k : String) (t : ℕ) (d : Dict InvestigationRecord)
    → lookup k d ≡ none
    → Avoids k (expired_ids t d)
unfolding lookup expired_ids
absent-Avoids k t [] h = tt
absent-Avoids k t ((i, x) ∷ d) h = ground (arith, absent-Avoids k t d)

-- A record that has not expired is on no cleanup's list.
pub expired_ids-Avoids :
    (k : String) (t : ℕ) (r : InvestigationRecord) (d : Dict InvestigationRecord)
    → Distinct d
    → lookup k d ≡ some r
    → t ≤ r.expires_at
    → Avoids k (expired_ids t d)
unfolding lookup expired_ids
expired_ids-Avoids k t r [] u h le = tt
expired_ids-Avoids k t r ((i, x) ∷ d) u h le =
    ground (arith, expired_ids-Avoids k t r d u.1, absent-Avoids k t d)

pub lookup-erase_all :
    (k : String) (ks : List String) (d : Dict InvestigationRecord)
    → Avoids k ks
    → lookup k (erase_all ks d) ≡ lookup k d
unfolding erase_all
lookup-erase_all k [] d h = refl
lookup-erase_all k (j ∷ js) d h = lookup-erase_all k js (erase j d) h.1 ∙ lookup-erase_ne j k d h.0

erase-erase_all :
    (k : String) (ks : List String) (d : Dict InvestigationRecord)
    → erase k (erase_all ks d) ≡ erase_all ks (erase k d)
unfolding erase_all
erase-erase_all k [] d = refl
erase-erase_all k (j ∷ js) d =
    erase-erase_all k js (erase j d) ∙ ap (erase_all js) (erase_comm k j d)

pub erase_all-Distinct :
    (ks : List String) (d : Dict InvestigationRecord) → Distinct d → Distinct (erase_all ks d)
unfolding erase_all
erase_all-Distinct [] d h = h
erase_all-Distinct (k ∷ ks) d h = erase_all-Distinct ks (erase k d) (erase-Distinct k d h)

module _ (app key : String) where
  find_key-erase :
      (clock : String → ℕ) (k : String) (d : Dict InvestigationRecord)
      → find_key app key clock d ≡ none
      → find_key app key clock (erase k d) ≡ none
  unfolding find_key erase
  find_key-erase clock k [] h = refl
  find_key-erase clock k ((i, x) ∷ d) h = ground (arith, find_key-erase clock k d)

  find_key-erase_all :
      (clock : String → ℕ) (ks : List String) (d : Dict InvestigationRecord)
      → find_key app key clock d ≡ none
      → find_key app key clock (erase_all ks d) ≡ none
  unfolding erase_all
  find_key-erase_all clock [] d h = h
  find_key-erase_all clock (k ∷ ks) d h =
      find_key-erase_all clock ks (erase k d) (find_key-erase clock k d h)

  -- What answers no key at one time answers none later.
  find_key_later :
      (clock later : String → ℕ) (d : Dict InvestigationRecord)
      → ((k : String) → clock k ≤ later k)
      → find_key app key clock d ≡ none
      → find_key app key later d ≡ none
  unfolding find_key answers_key
  find_key_later clock later [] le h = refl
  find_key_later clock later ((i, x) ∷ d) le h =
      ground (arith, find_key_later clock later d le, le i)

  -- The one record that answers is found.
  find_key_only :
      (clock : String → ℕ) (k : String) (r : InvestigationRecord) (d : Dict InvestigationRecord)
      → lookup k d ≡ some r
      → answers_key app key (clock k) r ≡ true
      → find_key app key clock (erase k d) ≡ none
      → find_key app key clock d ≡ some r
  unfolding find_key erase lookup
  find_key_only clock k r [] found answers others = cc
  find_key_only clock k r ((i, x) ∷ d) found answers others =
      ground (arith, find_key_only clock k r d)

-- What is known after a reservation was made.
created_facts :
    (settings : Settings) (q : ReservationRequest) (w : Readings) (s s' : Registry)
    (made : ReservationResult)
    → q.idempotency_key ≢ ""
    → reserve_investigation settings q w s ≡ (ok made, s')
    → made.created ≡ true
    → (made.investigation_id ≡ w.investigation_uuid)
      × (s'.records
          ≡ insert w.investigation_uuid (new_record settings q w) (cleaned settings w s).records)
      × (find_key q.caller_appid q.idempotency_key w.search_clock (cleaned settings w s).records
          ≡ none)
unfolding reserve_investigation reserve_clean admit existing_reservation find_by_idempotency_key
created_facts settings q w s s' made named e c = ground arith

cleaned-Distinct :
    (settings : Settings) (w : Readings) (s : Registry)
    → Distinct s.records
    → Distinct (cleaned settings w s).records
unfolding cleanup_expired
cleaned-Distinct settings w s u = erase_all-Distinct _ s.records u

-- While the one record that answers a key is live, a call with that key makes no reservation.
live_reservation :
    (settings : Settings) (q : ReservationRequest) (w : Readings) (s : Registry) (k : String)
    (r : InvestigationRecord)
    → Distinct s.records
    → lookup k s.records ≡ some r
    → q.idempotency_key ≢ ""
    → answers_key q.caller_appid q.idempotency_key (w.search_clock k) r ≡ true
    → w.cleanup_time ≤ r.expires_at
    → find_key q.caller_appid q.idempotency_key w.search_clock (erase k s.records) ≡ none
    → reserve_investigation settings q w s ≡ (
      if r.request_fingerprint == q.request_fingerprint
          then ok (record { investigation_id = r.investigation_id; created = false })
          else err idempotency_conflict,
      cleaned settings w s,
    )
unfolding reserve_investigation reserve_clean existing_reservation find_by_idempotency_key
    cleanup_expired
live_reservation settings q w s k r u found named answers live others =
    let ids = take settings.max_expiry_cleanup_batch_size (expired_ids w.cleanup_time s.records) in
    let kept =
      take-Avoids k settings.max_expiry_cleanup_batch_size _
        (expired_ids-Avoids k w.cleanup_time r s.records u found live) in
    let hit =
      find_key_only q.caller_appid q.idempotency_key w.search_clock k r (erase_all ids s.records)
        (lookup-erase_all k ids s.records kept ∙ found) answers
        (rw (erase-erase_all k ids s.records)
          (find_key-erase_all q.caller_appid q.idempotency_key w.search_clock ids _ others)) in
    ground (arith, hit)

-- After a call with a key has made a reservation, a second call by the same caller with the same
-- key, while the reservation is live, makes none: it answers with the first reservation if the
-- request is the same, and reports a conflict if it is not; but for its cleanup it changes nothing.
pub reserve_replay :
    (settings : Settings) (q again : ReservationRequest) (w later : Readings) (s s' : Registry)
    (made : ReservationResult)
    → Distinct s.records
    → lookup w.investigation_uuid (cleaned settings w s).records ≡ none
    → reserve_investigation settings q w s ≡ (ok made, s')
    → made.created ≡ true
    → q.idempotency_key ≢ ""
    → again.idempotency_key ≡ q.idempotency_key
    → again.caller_appid ≡ q.caller_appid
    → ((k : String) → w.search_clock k ≤ later.search_clock k)
    → later.cleanup_time ≤ w.now + settings.active_metadata_retention_seconds
    → later.search_clock w.investigation_uuid ≤ w.now + settings.active_metadata_retention_seconds
    → reserve_investigation settings again later s' ≡ (
      if q.request_fingerprint == again.request_fingerprint
          then ok (record { investigation_id = made.investigation_id; created = false })
          else err idempotency_conflict,
      cleaned settings later s',
    )
unfolding new_record answers_key
reserve_replay settings q again w later s s' made u fresh e c named same_key same_app clock live
      live_search =
    let r = new_record settings q w in
    let k = w.investigation_uuid in
    let d = (cleaned settings w s).records in
    let facts = created_facts settings q w s s' made named e c in
    let others =
      find_key_later q.caller_appid q.idempotency_key w.search_clock later.search_clock d clock
        facts.2 in
    rw (facts.0) (
      live_reservation settings again later s' k r
        (rw (facts.1) (insert-Distinct k r d (cleaned-Distinct settings w s u)))
        (rw (facts.1) (ground (arith, lookup-insert k k r d))) (rw same_key named) (ground arith)
        live (rw (facts.1, same_app, same_key, erase-insert k r d fresh) others))
