-- ===== src/Authorization/Tokens.antt =====
-- escalation-proxy/app/authorization.py: `validate_caller_token` and `extract_and_validate_token`.
use sre_agent_team.Base.{
  Bool, true, false, not, ◌&&◌, ◌||◌, String, Option, none, some, ◌==◌, if◌then◌else◌,
}
use sre_agent_team.Base.Fallible.{Result, ok, err, ◌>>=◌, ◌>>◌, require}
use sre_agent_team.Base.Text.{strip, starts_with, contains, drop_text}
use sre_agent_team.Policy.Json.{
  Json, null, text, array, object, Items, nil, cons, Fields, get_field, truth,
}
use sre_agent_team.Http.{HttpException, http}

-- What the look-up of the signing key and `jwt.decode` raise, where they raise: `ExpiredSignatureError`,
-- another `InvalidTokenError`, or what the code does not catch, as `PyJWKClientError`, where the key
-- cannot be had.
pub data JwtError : Type 0 where
  expired_signature invalid_token key_unavailable : JwtError

-- What `validate_caller_token` raises; `not_iterable` is a `TypeError`, `no_key` what the key's look-up
-- raised, the others a `ValueError`.
pub data TokenError : Type 0 where
  token_expired token_invalid missing_role not_an_application missing_appid missing_oid : TokenError
  not_iterable no_key : TokenError

-- `s in values`, for a list
unfoldable pub is_item : String → Items → Bool
is_item s nil = false
is_item s (cons (text t) vs) = s == t || is_item s vs
is_item s (cons _ vs) = is_item s vs

-- `fs` has a field `key`.
abbrev pub has_field : String → Fields → Bool
has_field key fs = elim (get_field key fs) [ none ↦ false | some _ ↦ true ]

-- `s in v`: an element of a list, a key of a dict, a part of a text.
unfoldable pub is_in : String → Json → Result TokenError Bool
is_in s (array vs) = ok (is_item s vs)
is_in s (object fs) = ok (has_field s fs)
is_in s (text t) = ok (contains t s)
is_in s _ = err not_iterable

-- `d.get(key, [])`
abbrev pub roles_of : Fields → Json
roles_of payload = elim (get_field "roles" payload) [ none ↦ array nil | some v ↦ v ]

-- `idtyp in (None, "app")`
abbrev pub is_app_type : Option Json → Bool
is_app_type none = true
is_app_type (some null) = true
is_app_type (some (text t)) = t == "app"
is_app_type (some _) = false

-- `bool(payload.get(key))`
abbrev pub has_value : String → Fields → Bool
has_value key payload = elim (get_field key payload) [ none ↦ false | some v ↦ truth v ]

-- The checks on a decoded token.
unfoldable pub check_claims : Fields → Result TokenError Fields
check_claims payload = do
  has_role ← is_in "EscalationCaller" (roles_of payload)
  require has_role missing_role
  require (is_app_type (get_field "idtyp" payload) && not (has_field "scp" payload))
      not_an_application
  require (has_value "appid" payload) missing_appid
  require (has_value "oid" payload) missing_oid
  ok payload

abbrev pub token_error : JwtError → TokenError
token_error expired_signature = token_expired
token_error invalid_token = token_invalid
token_error key_unavailable = no_key

module _ (decode : String → Result JwtError Fields) where
  unfoldable pub validate_caller_token : String → Result TokenError Fields
  validate_caller_token bearer_token = elim (decode bearer_token) [
    | err e ↦ err (token_error e)
    | ok payload ↦ check_claims payload
  ]

  -- What an endpoint sees of a failed validation: a 403 for a `ValueError`; another exception passes
  -- through, and the server answers it with a 500.
  abbrev pub as_http : TokenError → HttpException
  as_http not_iterable = http 500
  as_http no_key = http 500
  as_http _ = http 403

  unfoldable pub validate_header : String → Result HttpException (String × Fields)
  validate_header authorization =
      if not (starts_with authorization "Bearer ")
      then err (http 401)
      else let token = strip (drop_text 7 authorization) in
        elim (validate_caller_token token) [
          | err e ↦ err (as_http e)
          | ok payload ↦ ok (token, payload)
        ]

  unfoldable pub extract_and_validate_token : Option String → Result HttpException (String × Fields)
  extract_and_validate_token none = err (http 401)
  extract_and_validate_token (some authorization) =
      if authorization == "" then err (http 401) else validate_header authorization
