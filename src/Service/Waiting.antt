-- ===== src/Service/Waiting.antt =====
-- escalation-proxy/app/investigation_service.py: the wait of `get_status` ends.
use sre_agent_team.Base.{
  ℕ, zero, suc, ◌+◌, ◌≤◌, ◌≡◌, ◌≢◌, refl, ◌⊎◌, inl, inr, true, not, ◌&&◌, String, Option, none,
  some, ltb, arith, Bool-cases,
}
use sre_agent_team.Base.Fallible.{Result, ok, err, Result-cases}
use sre_agent_team.Http.{HttpException}
use sre_agent_team.Service.Interfaces.{PolicyOps, RegistryOps, Config, GetRequest, Caller}
use sre_agent_team.Service.Fetch.{Status, is_terminal}
use sre_agent_team.Service.Poll.{
  Rounds, sleep_time, wait, wait_budget, finish, get_status, has_no_outcome, readable_record,
}

-- The clock does not run backwards, and a sleep lasts at least as long as it was asked to.
abbrev pub Advances : ℕ → Rounds → ℕ → Type 0
Advances interval w deadline =
    (n : ℕ)
    → (w.tested n ≤ w.asked n)
      × (w.asked n + sleep_time interval deadline (w.asked n) ≤ w.tested (suc n))

wait-returns :
    (interval : ℕ) (w : Rounds) (deadline fuel n : ℕ)
    → 1 ≤ interval
    → Advances interval w deadline
    → deadline ≤ w.tested n + fuel
    → wait w deadline (suc fuel) n ≢ none
unfolding wait sleep_time
wait-returns interval w deadline zero n positive advances enough =
    elim (Result-cases (w.fetched n)) [ inl s ↦ ground arith | inr e ↦ ground arith ]
wait-returns interval w deadline (suc fuel) n positive advances enough =
    elim (Result-cases (w.fetched n)) [
      | inr e ↦ ground arith
      | inl s ↦ elim (Bool-cases (not (is_terminal s.0) && ltb (w.tested n) deadline)) [
        | inr f ↦ ground arith
        | inl t ↦ ground (
          arith,
          advances n,
          wait-returns interval w deadline fuel (suc n) positive advances
              (ground (arith, advances n)),
        )
      ]
    ]

wait-settles :
    (w : Rounds) (deadline fuel n : ℕ) (status : Status)
    → wait w deadline fuel n ≡ some (ok status)
    → (is_terminal status ≡ true) ⊎ ((k : ℕ) × (deadline ≤ w.tested k))
unfolding wait
wait-settles w deadline zero n status h = cc
wait-settles w deadline (suc fuel) n status h = elim (Result-cases (w.fetched n)) [
  | inr e ↦ absurd (ground arith)
  | inl s ↦ elim (Bool-cases (is_terminal status)) [
    | inl t ↦ inl t
    | inr f ↦ elim (Bool-cases (ltb (w.tested n) deadline)) [
      | inr late ↦ inr (n, ground arith)
      | inl early ↦ elim (Bool-cases (is_terminal s.0)) [
        | inl t ↦ absurd (ground arith)
        | inr f' ↦ wait-settles w deadline fuel (suc n) status (ground arith)
      ]
    ]
  ]
]

module _ {W : Type 0} (policies : PolicyOps W) (registry : RegistryOps W) (others : ℕ → W → W)
    (c : Config) where
  finish-returns :
      (id : String) (caller : Caller) (end : Option (Result HttpException Status)) (w : W)
      → end ≢ none
      → (finish policies registry others c id caller end w).0 ≢ none
  unfolding finish
  finish-returns id caller none w h = absurd (h refl)
  finish-returns id caller (some (err e)) w h = ground arith
  finish-returns id caller (some (ok s)) w h = ground arith

  -- Where the clock does not run backwards, a sleep lasts as long as asked and the poll interval is
  -- positive, `get_status` returns: one round more than the units of the wait is enough.
  pub get_status_returns :
      (rounds : Rounds) (req : GetRequest) (caller : Caller) (w : W)
      → 1 ≤ c.status_poll_interval_seconds
      → rounds.start ≤ rounds.tested 0
      → Advances c.status_poll_interval_seconds rounds
          (rounds.start + wait_budget c req.wait_seconds)
      → (get_status policies registry others c
          (suc (wait_budget c req.wait_seconds))
          rounds
          req
          caller
          w).0
        ≢ none
  unfolding get_status
  get_status_returns rounds req caller w positive later advances =
      let budget = wait_budget c req.wait_seconds in
      let found = readable_record policies registry others c req.investigation_id caller w in
      elim (Result-cases found.0) [
        | inr e ↦ ground arith
        | inl r ↦
            let polled =
              registry.record_status_poll req.investigation_id caller.oid caller.appid
                (others 2 found.1) in
            ground (
              arith,
              finish-returns req.investigation_id caller
                  (wait rounds (rounds.start + budget) (suc budget) 0) polled.1
                  (wait-returns c.status_poll_interval_seconds rounds (rounds.start + budget) budget
                    0 positive advances (omega arith)),
            )
      ]

  finish-status :
      (id : String) (caller : Caller) (end : Option (Result HttpException Status)) (status : Status)
      (w : W)
      → (finish policies registry others c id caller end w).0 ≡ some (ok status)
      → end ≡ some (ok status)
  unfolding finish
  finish-status id caller none status w h = cc
  finish-status id caller (some (err e)) status w h = cc
  finish-status id caller (some (ok s)) status w h = ground arith

  -- A status that `get_status` returns says that the investigation has ended, or a round of the wait
  -- found the deadline passed.
  pub get_status_settles :
      (fuel : ℕ) (rounds : Rounds) (req : GetRequest) (caller : Caller) (w : W) (status : Status)
      → (get_status policies registry others c fuel rounds req caller w).0 ≡ some (ok status)
      → (is_terminal status ≡ true)
        ⊎ ((n : ℕ) × (rounds.start + wait_budget c req.wait_seconds ≤ rounds.tested n))
  unfolding get_status
  get_status_settles fuel rounds req caller w status h =
      let deadline = rounds.start + wait_budget c req.wait_seconds in
      let found = readable_record policies registry others c req.investigation_id caller w in
      elim (Result-cases found.0) [
        | inr e ↦ absurd (ground arith)
        | inl r ↦ elim (Bool-cases (has_no_outcome r.0)) [
          | inl t ↦ inl (ground arith)
          | inr f ↦
              let polled =
                registry.record_status_poll req.investigation_id caller.oid caller.appid
                  (others 2 found.1) in
              elim (Result-cases polled.0) [
                | inr e ↦ absurd (ground arith)
                | inl p ↦ wait-settles rounds deadline fuel 0 status (
                    finish-status req.investigation_id caller (wait rounds deadline fuel 0) status
                      polled.1 (ground arith))
              ]
        ]
      ]
