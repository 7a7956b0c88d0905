-- ===== src/Service/Fetch.antt =====
-- escalation-proxy/app/investigation_service.py: `fetch_investigation_status_once`, on what the platform
-- answers.
use sre_agent_team.Base.{
  ℕ, Bool, true, false, ◌||◌, String, Option, none, some, List, [], ◌∷◌, leb, eqb, ◌==◌,
  if◌then◌else◌, length,
}
use sre_agent_team.Base.Fallible.{Result, ok, err}
use sre_agent_team.Base.Text.{strip, is_among}
use sre_agent_team.Base.Int.{ℤ}
use sre_agent_team.Http.{HttpException}
use sre_agent_team.Output.Scoring.{normalize_status_value}
use sre_agent_team.Output.Selection.{Selection}
use sre_agent_team.Service.Interfaces.{Config}

-- A message of a thread: its author's role, and its text, both empty where they are missing.
pub record Message : Type 0 where
  pub role : String
  pub text : String

-- The body of `GET /threads/…`; `has_last_message` says whether `lastMessage` is truthy.
pub record Thread : Type 0 where
  pub status : Option String
  pub agent_status : Option String
  pub run_status : Option String
  pub has_last_message : Bool

-- The statuses that the code gives.
pub data Status : Type 0 where
  pending running is_completed is_failed : Status

-- `status in ("completed", "failed")`
abbrev pub is_terminal : Status → Bool
is_terminal pending = false
is_terminal running = false
is_terminal is_completed = true
is_terminal is_failed = true

-- `messages[-n:]`
unfoldable pub last_messages : ℕ → List Message → List Message
last_messages n [] = []
last_messages n (m ∷ ms) =
    let rest = last_messages n ms in if eqb n 0 || leb (length (m ∷ ms)) n then m ∷ ms else rest

-- The stripped texts of the agent's messages that have one.
unfoldable pub agent_texts : List Message → List String
agent_texts [] = []
agent_texts (m ∷ ms) =
    let rest = agent_texts ms in
    if m.role == "SREAgent"
    then (if strip m.text == "" then rest else strip m.text ∷ rest)
    else rest

unfoldable pub any_among : List String → List String → Bool
any_among [] values = false
any_among (c ∷ cs) values = is_among c values || any_among cs values

unfoldable pub normalized_candidates : Thread → List String
normalized_candidates thread =
    normalize_status_value thread.status
    ∷ normalize_status_value thread.agent_status
    ∷ normalize_status_value thread.run_status
    ∷ []

abbrev pub failed_words : List String
failed_words = "failed" ∷ "error" ∷ "cancelled" ∷ "canceled" ∷ "timeout" ∷ "timedout" ∷ []

abbrev pub completed_words : List String
completed_words = "completed" ∷ "succeeded" ∷ "resolved" ∷ "done" ∷ "finished" ∷ []

abbrev pub running_words : List String
running_words = "running" ∷ "inprogress" ∷ "processing" ∷ "active" ∷ "executing" ∷ []

abbrev pub pending_words : List String
pending_words = "pending" ∷ "queued" ∷ "created" ∷ "notstarted" ∷ "new" ∷ []

abbrev pub has_texts : List String → Bool
has_texts [] = false
has_texts (t ∷ ts) = true

module _ (c : Config) (select : List String → Selection) (is_finalized : ℤ → String → Bool) where
  -- The status of a thread whose messages could be read, where it has not failed or completed.
  unfoldable pub status_from_texts : List String → Thread → List String → Status
  status_from_texts texts thread words =
      if is_finalized (select texts).best_score (select texts).text
      then is_completed
      else if any_among words running_words
      then running
      else if any_among words pending_words
      then pending
      else if has_texts texts || thread.has_last_message
      then running
      else pending

  -- The thread's messages are absent where an exception is raised for them.
  unfoldable pub status_of : Thread → Option (List Message) → Status
  status_of thread messages =
      let words = normalized_candidates thread in
      if any_among words failed_words
      then is_failed
      else if any_among words completed_words
      then is_completed
      else elim messages [
        | none ↦ if thread.has_last_message then running else pending
        | some ms ↦
            status_from_texts (agent_texts (last_messages c.max_agent_messages ms)) thread words
      ]

  unfoldable pub fetch_investigation_status_once :
      Result HttpException Thread → Option (List Message) → Result HttpException Status
  fetch_investigation_status_once (err e) messages = err e
  fetch_investigation_status_once (ok thread) messages = ok (status_of thread messages)
