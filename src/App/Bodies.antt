-- ===== src/App/Bodies.antt =====
-- escalation-proxy/app/main.py: which bodies `RequestBodyLimitMiddleware` lets through.
use sre_agent_team.Base.{
  ℕ, ◌≤◌, ◌≡◌, refl, ap, true, false, String, Option, List, [], ◌∷◌, ◌++◌, length, length-append,
  ltb, if◌then◌else◌, arith,
}
use sre_agent_team.Base.Fallible.{ok}
use sre_agent_team.Base.Int.{ℤ}
use sre_agent_team.App.BodyLimit.{
  Bytes, Message, part, disconnect, Scope, buffered, too_large, read_body, has_body,
  declared_too_large, limit_body,
}

-- A body that is sent in parts.
abbrev pub sent_as : List Bytes → Bytes → List Message
sent_as [] last = part last false ∷ []
sent_as (b ∷ bs) last = part b true ∷ sent_as bs last

abbrev pub whole : List Bytes → Bytes → Bytes
whole [] last = last
whole (b ∷ bs) last = b ++ whole bs last

append_assoc : (a b c : Bytes) → (a ++ b) ++ c ≡ a ++ (b ++ c)
append_assoc [] b c = refl
append_assoc (x ∷ a) b c = ap (λ (t : Bytes). x ∷ t) (append_assoc a b c)

read_body-sent_as :
    (maximum : ℕ) (before : Bytes) (bs : List Bytes) (last : Bytes)
    → read_body maximum before (sent_as bs last) ≡ (
        if ltb maximum (length (before ++ whole bs last))
        then too_large
        else buffered (before ++ whole bs last))
unfolding read_body
read_body-sent_as maximum before [] last = refl
read_body-sent_as maximum before (b ∷ bs) last = ground (
  arith,
  read_body-sent_as maximum (before ++ b) bs last,
  append_assoc before b (whole bs last),
  length-append (before ++ b) (whole bs last),
)

-- A request that may carry a body, and does not declare too long a one, reaches the application with exactly the bytes
-- that were sent, however they were split, when they are within the limit, and is answered 413 without
-- reaching it when they are more.
pub body_whole_or_refused :
    (int_of : String → Option ℤ) (maximum : ℕ) (scope : Scope) (bs : List Bytes) (last : Bytes)
    → has_body scope ≡ true
    → declared_too_large int_of maximum scope.headers ≡ ok false
    → limit_body int_of maximum scope (sent_as bs last)
      ≡ (if ltb maximum (length (whole bs last)) then too_large else buffered (whole bs last))
unfolding limit_body
body_whole_or_refused int_of maximum scope bs last body declared =
    ground (arith, read_body-sent_as maximum [] bs last)

read_body-within :
    (maximum : ℕ) (before : Bytes) (messages : List Message) (b : Bytes)
    → read_body maximum before messages ≡ buffered b
    → length b ≤ maximum
unfolding read_body
read_body-within maximum before [] b h = absurd (ground arith)
read_body-within maximum before (disconnect ∷ messages) b h = absurd (ground arith)
read_body-within maximum before (part bytes more ∷ messages) b h =
    ground (arith, read_body-within maximum (before ++ bytes) messages b)

-- Whatever the client sends and declares, a body that the application is given is within the limit.
pub limit_body-within :
    (int_of : String → Option ℤ) (maximum : ℕ) (scope : Scope) (messages : List Message) (b : Bytes)
    → limit_body int_of maximum scope messages ≡ buffered b
    → length b ≤ maximum
unfolding limit_body declared_too_large
limit_body-within int_of maximum scope messages b h =
    ground (arith, read_body-within maximum [] messages b)
