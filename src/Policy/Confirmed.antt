-- ===== src/Policy/Confirmed.antt =====
-- escalation-proxy/app/caller_policy.py: the answers of the configuration service that a held snapshot rests on,
-- over calls of `RefreshingCallerPolicyStore` that follow each other.
use sre_agent_team.Base.{
  ℕ, ◌≡◌, refl, sym, ◌∙◌, ◌⊎◌, inl, inr, Bool, false, not, ◌&&◌, String, some, List, [], ◌∷◌, arith,
  subst, Bool-cases, if◌then◌else◌,
}
use sre_agent_team.Base.Fallible.{ok, Result-cases}
use sre_agent_team.Policy.Store.{CallerPolicyStore}
use sre_agent_team.Policy.Loading.{Builtins, from_json}
use sre_agent_team.Policy.Refresh.{
  Fetched, setting, missing, failure, Intervals, Refreshing, apply_fetched, refresh,
  attempted_recently, needs_loading,
}

module _ (b : Builtins) (c : Intervals) where
  -- A sequence of refreshes.
  unfoldable pub refresh_all : List (Bool × Fetched × ℕ) → Refreshing → Refreshing
  refresh_all [] s = s
  refresh_all ((force, fetched, now) ∷ rest) s =
      refresh_all rest (refresh b c force fetched now s).1

  -- In a call from a state, the service is asked at `at`, and answers with `answer`.
  abbrev pub Answers : Bool → Fetched → ℕ → Refreshing → Fetched → ℕ → Type 0
  Answers force fetched now s answer at =
      ((not force && attempted_recently s.last_refresh_attempt now c.refresh_interval_seconds)
        ≡ false)
      × (fetched ≡ answer)
      × (now ≡ at)

  -- The same in one of the calls that follow each other from a state.
  abbrev pub Answered : List (Bool × Fetched × ℕ) → Refreshing → Fetched → ℕ → Type 0
  Answered [] s answer at = ⊥
  Answered ((force, fetched, now) ∷ rest) s answer at =
      Answers force fetched now s answer at
      ⊎ Answered rest (refresh b c force fetched now s).1 answer at

  -- A store was loaded from the text of an answer, and an answer with that one's tag came at the
  -- time of the last success.
  abbrev pub Confirms : (Fetched → ℕ → Type 0) → CallerPolicyStore → ℕ → Type 0
  Confirms Q store last =
      (tag : String) × (value : String) × (value' : String) × (at : ℕ) × (from_json b value
          c.default_quota false
        ≡ ok store)
      × Q (setting value tag) at
      × Q (setting value' tag) last

  -- The answers bear out the state: its tag is that of the text from which the snapshot was loaded.
  abbrev pub Backed : (Fetched → ℕ → Type 0) → Refreshing → Type 0
  Backed Q s =
      (store : CallerPolicyStore)
      → s.store ≡ some store
      → (tag : String) × (value : String) × (value' : String) × (at : ℕ) × (s.etag ≡ some tag)
        × (from_json b value c.default_quota false ≡ ok store)
        × Q (setting value tag) at
        × Q (setting value' tag) s.last_success

  module _ (Q Q' : Fetched → ℕ → Type 0) where
    pub Backed-map :
        (s s' : Refreshing)
        → ((answer : Fetched) (at : ℕ) → Q answer at → Q' answer at)
        → s'.store ≡ s.store
        → s'.etag ≡ s.etag
        → s'.last_success ≡ s.last_success
        → Backed Q s
        → Backed Q' s'
    Backed-map s s' f same_store same_tag same_time h store held =
        let (tag, value, value', at, tagged, loaded, first, last) = h store (ground arith) in
        (
          tag,
          value,
          value',
          at,
          ground arith,
          loaded,
          f (setting value tag) at first,
          rw same_time (f (setting value' tag) s.last_success last),
        )

    apply_setting-Backed :
        (value tag : String) (now : ℕ) (s : Refreshing)
        → ((answer : Fetched) (at : ℕ) → Q answer at → Q' answer at)
        → Q' (setting value tag) now
        → Backed Q s
        → Backed Q' (apply_fetched b c (setting value tag) now s).1
    unfolding apply_fetched
    apply_setting-Backed value tag now s f new h =
        let read = from_json b value c.default_quota false in
        elim (Bool-cases (needs_loading s.store s.etag tag)) [
          | inl needed ↦ elim (Result-cases read) [
            | inr e ↦ rw (needed, e.1) (Backed-map s s f refl refl refl h)
            | inl loaded ↦
                rw (needed, loaded.1)
                  (λ store held. (tag, value, value, now, refl, ground arith, new, new))
          ]
          | inr known ↦ rw known (λ store held.
              let (tag', value', _, at, tagged, loaded, first, _) = h store held in
              let same : tag ≡ tag' = ground arith in
              (
                tag',
                value',
                value,
                at,
                tagged,
                loaded,
                f (setting value' tag') at first,
                subst (λ x. Q' (setting value x) now) same new,
              ))
        ]

    apply_fetched-Backed :
        (fetched : Fetched) (now : ℕ) (s : Refreshing)
        → ((answer : Fetched) (at : ℕ) → Q answer at → Q' answer at)
        → Q' fetched now
        → Backed Q s
        → Backed Q' (apply_fetched b c fetched now s).1
    unfolding apply_fetched
    apply_fetched-Backed failure now s f new h = Backed-map s s f refl refl refl h
    apply_fetched-Backed missing now s f new h = Backed-map s s f refl refl refl h
    apply_fetched-Backed (setting value tag) now s f new h =
        apply_setting-Backed value tag now s f new h

  refresh_state :
      (force : Bool) (fetched : Fetched) (now : ℕ) (s : Refreshing)
      → (refresh b c force fetched now s).1 ≡ (
          if not force && attempted_recently s.last_refresh_attempt now c.refresh_interval_seconds
          then s
          else (apply_fetched b c fetched now (record s { last_refresh_attempt = some now })).1)
  unfolding refresh
  refresh_state force fetched now s = ground arith

  pub refresh-Backed :
      (Q : Fetched → ℕ → Type 0) (force : Bool) (fetched : Fetched) (now : ℕ) (s : Refreshing)
      → Backed Q s
      → Backed
          (λ answer at. Q answer at ⊎ Answers force fetched now s answer at)
          (refresh b c force fetched now s).1
  refresh-Backed Q force fetched now s h =
      let recent =
        not force && attempted_recently s.last_refresh_attempt now c.refresh_interval_seconds in
      let Q' : Fetched → ℕ → Type 0 =
        λ answer at. Q answer at ⊎ Answers force fetched now s answer at in
      let asking = record s { last_refresh_attempt = some now } in
      let s' = (refresh b c force fetched now s).1 in
      elim (Bool-cases recent) [
        | inl skipped ↦
            let same : s' ≡ s = refresh_state force fetched now s ∙ ground arith in
            subst (λ x. Backed Q' x) (sym same)
              (Backed-map Q Q' s s (λ answer at q. inl q) refl refl refl h)
        | inr asked ↦
            let same : s' ≡ (apply_fetched b c fetched now asking).1 =
              refresh_state force fetched now s ∙ ground arith in
            subst (λ x. Backed Q' x) (sym same)
              (apply_fetched-Backed Q Q' fetched now asking (λ answer at q. inl q)
                (inr (asked, refl, refl)) h)
      ]

  pub refresh_all-Backed :
      (Q : Fetched → ℕ → Type 0) (calls : List (Bool × Fetched × ℕ)) (s : Refreshing)
      → Backed Q s
      → Backed (λ answer at. Q answer at ⊎ Answered calls s answer at) (refresh_all calls s)
  unfolding refresh_all
  refresh_all-Backed Q [] s h =
      Backed-map Q (λ answer at. Q answer at ⊎ ⊥) s s (λ answer at q. inl q) refl refl refl h
  refresh_all-Backed Q ((force, fetched, now) ∷ rest) s h =
      let s' = (refresh b c force fetched now s).1 in
      let Q' : Fetched → ℕ → Type 0 =
        λ answer at. Q answer at ⊎ Answers force fetched now s answer at in
      Backed-map (λ answer at. Q' answer at ⊎ Answered rest s' answer at)
        (λ answer at. Q answer at ⊎ Answered ((force, fetched, now) ∷ rest) s answer at)
        (refresh_all rest s') (refresh_all rest s')
        (λ answer at known. elim known [
          | inl (inl q) ↦ inl q
          | inl (inr this) ↦ inr (inl this)
          | inr later ↦ inr (inr later)
        ])
        refl refl refl (refresh_all-Backed Q' rest s' (refresh-Backed Q force fetched now s h))
