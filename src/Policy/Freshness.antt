-- ===== src/Policy/Freshness.antt =====
-- escalation-proxy/app/caller_policy.py: how old a snapshot may be that a decision rests on, and what
-- snapshots there can be.
use sre_agent_team.Base.{
  refl, ℕ, ◌+◌, ◌≤◌, ◌≡◌, ◌⊎◌, inl, inr, Bool, false, String, none, some, List, [], ◌∷◌, arith, leb,
  if◌then◌else◌, Option-cases,
}
use sre_agent_team.Base.Fallible.{Result, ok, err, Result-cases}
use sre_agent_team.Base.Dict.{lookup}
use sre_agent_team.Policy.Store.{CallerPolicyStore, PolicyError, unavailable, not_registered, get}
use sre_agent_team.Policy.Loading.{Builtins}
use sre_agent_team.Policy.Loaded.{AllSound, from_json-AllSound}
use sre_agent_team.Policy.Confirmed.{
  refresh_all, Answers, Answered, Confirms, Backed, Backed-map, refresh-Backed, refresh_all-Backed,
}
use sre_agent_team.Policy.Refresh.{
  Fetched, setting, missing, failure, Intervals, Refreshing, initial, apply_fetched, is_usable,
  refresh, require_usable_snapshot, refreshed,
}

module _ (b : Builtins) (c : Intervals) where
  refresh_reading :
      (force : Bool) (fetched : Fetched) (now t : ℕ) (s s' : Refreshing)
      → refresh b c force fetched now s ≡ (ok t, s')
      → t ≡ now
  unfolding refresh
  refresh_reading force fetched now t s s' e = ground arith

  -- What the service answered in the calls on a new store, and in one after them.
  abbrev pub AnsweredBy : List (Bool × Fetched × ℕ) → Bool → Fetched → ℕ → Fetched → ℕ → Type 0
  AnsweredBy calls force fetched now answer at =
      Answered b c calls initial answer at
      ⊎ Answers b c force fetched now (refresh_all b c calls initial) answer at

  after_calls :
      (calls : List (Bool × Fetched × ℕ)) (force : Bool) (fetched : Fetched) (now : ℕ)
      → Backed b c
          (AnsweredBy calls force fetched now)
          (refresh b c force fetched now (refresh_all b c calls initial)).1
  after_calls calls force fetched now =
      let s = refresh_all b c calls initial in
      let s' = (refresh b c force fetched now s).1 in
      Backed-map b c
        (λ answer at.
          (⊥ ⊎ Answered b c calls initial answer at) ⊎ Answers b c force fetched now s answer at)
        (AnsweredBy calls force fetched now) s' s'
        (λ answer at known. elim known [
          | inl (inl none_yet) ↦ absurd none_yet
          | inl (inr before) ↦ inl before
          | inr this ↦ inr this
        ])
        refl refl refl
        (refresh-Backed b c (λ answer at. ⊥ ⊎ Answered b c calls initial answer at) force fetched
          now s (refresh_all-Backed b c (λ answer at. ⊥) calls initial (λ store held. cc)))

  decides :
      {A : Type 0} (force : Bool) (ask : CallerPolicyStore → Result PolicyError A)
      (fetched : Fetched) (now : ℕ) (s : Refreshing) (a : A)
      → (refreshed b c force ask fetched now s).0 ≡ ok a
      → let s' = (refresh b c force fetched now s).1 in
        (store : CallerPolicyStore) × (s'.store ≡ some store)
        × (now ≤ s'.last_success + c.maximum_staleness_seconds)
        × (ask store ≡ ok a)
  unfolding refreshed require_usable_snapshot
  decides force ask fetched now s a e =
      let (read, after) = refresh b c force fetched now s in
      elim (Result-cases read) [
        | inr (x, failed) ↦ absurd (ground arith)
        | inl (t, done) ↦ elim (Option-cases after.store) [
          | inl none_held ↦ absurd (ground arith)
          | inr (store, held) ↦ (
            store,
            ground arith,
            ground (arith, refresh_reading force fetched now t s after),
            ground arith,
          )
        ]
      ]

  -- Whatever calls a new store has served, a decision rests on a snapshot that was loaded from the text
  -- of an answer of the service, and an answer with that one's tag came no longer ago than the maximum
  -- staleness, both in calls in which the service was asked, of which the deciding one may be the last.
  pub decision_is_fresh :
      {A : Type 0} (calls : List (Bool × Fetched × ℕ)) (force : Bool)
      (ask : CallerPolicyStore → Result PolicyError A) (fetched : Fetched) (now : ℕ) (a : A)
      → (refreshed b c force ask fetched now (refresh_all b c calls initial)).0 ≡ ok a
      → (store : CallerPolicyStore) × (last : ℕ) × (ask store ≡ ok a)
        × (now ≤ last + c.maximum_staleness_seconds)
        × Confirms b c (AnsweredBy calls force fetched now) store last
  decision_is_fresh calls force ask fetched now a e =
      let s = refresh_all b c calls initial in
      let s' = (refresh b c force fetched now s).1 in
      let (store, held, recent, asked) = decides force ask fetched now s a e in
      let (tag, value, value', at, _, loaded, first, last) =
        after_calls calls force fetched now store held in
      (store, s'.last_success, asked, recent, (tag, value, value', at, loaded, first, last))

  apply_fetched_outage :
      (fetched : Fetched) (now : ℕ) (s : Refreshing)
      → (fetched ≡ failure) ⊎ (fetched ≡ missing)
      → apply_fetched b c fetched now s ≡ (err tt, s)
  unfolding apply_fetched
  apply_fetched_outage fetched now s (inl e) = rw e
  apply_fetched_outage fetched now s (inr e) = rw e

  refresh_outage :
      (force : Bool) (fetched : Fetched) (now : ℕ) (s : Refreshing) (store : CallerPolicyStore)
      → s.store ≡ some store
      → (fetched ≡ failure) ⊎ (fetched ≡ missing)
      → let (read, s') = refresh b c force fetched now s in
        (s'.store ≡ some store)
        × (s'.last_success ≡ s.last_success)
        × ((read ≡ ok now)
            ⊎ ((read ≡ err unavailable)
                × (leb now (s.last_success + c.maximum_staleness_seconds) ≡ false)))
  unfolding refresh is_usable
  refresh_outage force fetched now s store held out =
      ground
        (arith, apply_fetched_outage fetched now (record s { last_refresh_attempt = some now }) out)

  -- While the configuration service answers with an error or without a setting, a held snapshot
  -- decides up to the maximum staleness after it was last confirmed, and every decision after that
  -- is refused; the snapshot and the time of its confirmation stay as they are.
  pub decisions_in_outage {ℓ} :
      {A : Type ℓ} (force : Bool) (ask : CallerPolicyStore → Result PolicyError A)
      (fetched : Fetched) (now : ℕ) (s : Refreshing) (store : CallerPolicyStore)
      → s.store ≡ some store
      → (fetched ≡ failure) ⊎ (fetched ≡ missing)
      → let (answer, s') = refreshed b c force ask fetched now s in
        (answer ≡ (
          if leb now (s.last_success + c.maximum_staleness_seconds)
          then ask store
          else err unavailable))
        × (s'.store ≡ some store)
        × (s'.last_success ≡ s.last_success)
  unfolding refreshed require_usable_snapshot
  decisions_in_outage force ask fetched now s store held out =
      let kept = refresh_outage force fetched now s store held out in (ground arith, kept.0, kept.1)

  abbrev HeldSound : Refreshing → Type 0
  HeldSound s =
      (store : CallerPolicyStore)
      → s.store ≡ some store
      → AllSound store.policies × (store.allow_unregistered ≡ false)

  apply_fetched-HeldSound :
      (fetched : Fetched) (now : ℕ) (s : Refreshing)
      → HeldSound s
      → HeldSound (apply_fetched b c fetched now s).1
  unfolding apply_fetched
  apply_fetched-HeldSound failure now s h store held = h store held
  apply_fetched-HeldSound missing now s h store held = h store held
  apply_fetched-HeldSound (setting value tag) now s h store held =
      ground (arith, h store, from_json-AllSound b value c.default_quota false store)

  refresh-HeldSound :
      (force : Bool) (fetched : Fetched) (now : ℕ) (s : Refreshing)
      → HeldSound s
      → HeldSound (refresh b c force fetched now s).1
  unfolding refresh
  refresh-HeldSound force fetched now s h store held = ground (
    arith,
    h store,
    apply_fetched-HeldSound fetched now (record s { last_refresh_attempt = some now }) h store,
  )

  refresh_all-HeldSound :
      (steps : List (Bool × Fetched × ℕ)) (s : Refreshing)
      → HeldSound s
      → HeldSound (refresh_all b c steps s)
  unfolding refresh_all
  refresh_all-HeldSound [] s h = h
  refresh_all-HeldSound ((force, fetched, now) ∷ rest) s h =
      refresh_all-HeldSound rest _ (refresh-HeldSound force fetched now s h)

  -- After any sequence of refreshes, whatever the service answered, the policies of a held snapshot
  -- can all be enforced, and a caller without one of them is refused.
  pub every_snapshot_enforceable :
      (steps : List (Bool × Fetched × ℕ)) (store : CallerPolicyStore) (appid : String)
      → (refresh_all b c steps initial).store ≡ some store
      → AllSound store.policies
        × (lookup appid store.policies ≡ none → get store appid ≡ err not_registered)
  unfolding get
  every_snapshot_enforceable steps store appid held =
      let sound = refresh_all-HeldSound steps initial (λ x e. cc) store held in
      (sound.0, λ absent. ground arith)
