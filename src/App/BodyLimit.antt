-- ===== src/App/BodyLimit.antt =====
-- escalation-proxy/app/main.py: `RequestBodyLimitMiddleware`.
use sre_agent_team.Base.{
  ℕ, Bool, true, false, not, ◌&&◌, ◌||◌, String, Option, none, some, List, [], ◌∷◌, ◌++◌, length,
  ltb, ◌==◌, if◌then◌else◌,
}
use sre_agent_team.Base.Fallible.{Result, ok, err}
use sre_agent_team.Base.Dict.{Dict, lookup}
use sre_agent_team.Base.Int.{ℤ, pos, ltb_ℤ}

-- Bytes, as numbers.
abbrev pub Bytes : Type 0
Bytes = List ℕ

-- What `receive` gives: a part of the body, with whether more of it follows, or the end of the connection.
pub data Message : Type 0 where
  part : Bytes → Bool → Message
  disconnect : Message

-- The fields of an ASGI scope that are read; names of headers are in lower case.
pub record Scope : Type 0 where
  pub kind : String
  pub method : String
  pub headers : Dict String

-- How a call of the middleware ends: the application is called as the middleware was, or with the body
-- that was read; the answer is a 413; nothing is answered; it waits for a message that does not come; or
-- the length is no integer.
pub data Outcome : Type 0 where
  passed_on : Outcome
  buffered : Bytes → Outcome
  too_large gone waiting bad_length : Outcome

-- The `while` loop, over the messages that come; `body` is what was read before.
unfoldable pub read_body : ℕ → Bytes → List Message → Outcome
read_body maximum_bytes body [] = waiting
read_body maximum_bytes body (disconnect ∷ messages) = gone
read_body maximum_bytes body (part bytes more ∷ messages) =
    let rest = read_body maximum_bytes (body ++ bytes) messages in
    if ltb maximum_bytes (length (body ++ bytes))
    then too_large
    else if more
    then rest
    else buffered (body ++ bytes)

abbrev pub has_body : Scope → Bool
has_body scope =
    scope.kind == "http"
    && (scope.method == "POST" || scope.method == "PUT" || scope.method == "PATCH")

-- The test of the `content-length` header; `int_of` is Python's `int` of a byte string, which raises
-- where it is no integer.
unfoldable pub declared_too_large : (String → Option ℤ) → ℕ → Dict String → Result Outcome Bool
declared_too_large int_of maximum_bytes headers = elim (lookup "content-length" headers) [
  | none ↦ ok false
  | some value ↦ elim (int_of value) [
    | none ↦ err bad_length
    | some n ↦ ok (ltb_ℤ (pos maximum_bytes) n)
  ]
]

unfoldable pub limit_body : (String → Option ℤ) → ℕ → Scope → List Message → Outcome
limit_body int_of maximum_bytes scope messages =
    if not (has_body scope)
    then passed_on
    else (elim (declared_too_large int_of maximum_bytes scope.headers) [
      | err o ↦ o
      | ok true ↦ too_large
      | ok false ↦ read_body maximum_bytes [] messages
    ])

-- `receive_buffered_body`: the message that the application is given, and `body_sent` after it.
unfoldable pub receive_buffered_body : Bytes → Bool → Message × Bool
receive_buffered_body body true = (part [] false, true)
receive_buffered_body body false = (part body false, true)
