-- ===== src/Authorization/Accepted.antt =====
-- escalation-proxy/app/authorization.py: exactly which tokens and severities are accepted.
use sre_agent_team.Base.{
  ◌≡◌, ◌≢◌, inl, inr, ◌↔◌, true, false, String, Option, none, some, arith, Option-cases,
}
use sre_agent_team.Base.Fallible.{Result, ok, Result-cases}
use sre_agent_team.Base.Text.{strip, lower, starts_with, drop_text}
use sre_agent_team.Policy.Json.{Json, null, text, Fields, get_field}
use sre_agent_team.Policy.Severity.{severity_rank}
use sre_agent_team.Policy.Access.{AtMost}
use sre_agent_team.Authorization.Tokens.{
  JwtError, is_in, roles_of, is_app_type, has_field, has_value, check_claims, validate_caller_token,
  validate_header, extract_and_validate_token,
}
use sre_agent_team.Authorization.Claims.{
  SeveritySettings, validate_requested_severity, against_claim, without_claim, check_limit,
}

-- The claims of an application that may escalate.
pub record IsEscalationCaller (payload : Fields) : Type 0 where
  pub has_role : is_in "EscalationCaller" (roles_of payload) ≡ ok true
  pub app_type : is_app_type (get_field "idtyp" payload) ≡ true
  pub no_scope : has_field "scp" payload ≡ false
  pub named : has_value "appid" payload ≡ true
  pub owned : has_value "oid" payload ≡ true

check_claims_sound :
    (payload claims : Fields)
    → check_claims payload ≡ ok claims
    → IsEscalationCaller payload × (claims ≡ payload)
unfolding check_claims
check_claims_sound payload claims e = ground arith

check_claims_complete :
    (payload : Fields) → IsEscalationCaller payload → check_claims payload ≡ ok payload
unfolding check_claims
check_claims_complete payload h = ground arith

module _ (decode : String → Result JwtError Fields) where
  -- A request is let in exactly when its header is "Bearer " and a token that decodes, once it is
  -- stripped, to claims of an application with the role `EscalationCaller`, without a delegated
  -- scope and with an app id and an object id; the caller's identity is made of those claims.
  pub header_accepted_iff :
      (header token : String) (claims : Fields)
      → (extract_and_validate_token decode (some header) ≡ ok (token, claims)) ↔ (
          (header ≢ "")
          × (starts_with header "Bearer " ≡ true)
          × (token ≡ strip (drop_text 7 header))
          × (decode token ≡ ok claims)
          × IsEscalationCaller claims)
  unfolding extract_and_validate_token validate_header validate_caller_token
  header_accepted_iff header token claims =
      let token' = strip (drop_text 7 header) in
      elim (Result-cases (decode token')) [
        | inl (payload, decoded) ↦ (
          λ e. ground (arith, check_claims_sound payload claims),
          λ h. ground (arith, check_claims_complete payload),
        )
        | inr (x, failed) ↦ (λ e. absurd (ground arith), λ h. absurd (ground arith))
      ]

-- What the token's severity claim allows.
abbrev pub ClaimAllows : SeveritySettings → String → Option Json → Type 0
ClaimAllows c level none = c.require_severity_claim ≡ false
ClaimAllows c level (some null) = c.require_severity_claim ≡ false
ClaimAllows c level (some (text claim)) =
    AtMost (severity_rank level) (severity_rank (lower (strip claim)))
ClaimAllows c level (some _) = ⊥

against_claim_iff :
    (c : SeveritySettings) (normalized level : String) (claim : Option Json)
    → severity_rank normalized ≢ none
    → (against_claim c normalized claim ≡ ok level)
      ↔ ((level ≡ normalized) × ClaimAllows c normalized claim)
unfolding against_claim without_claim check_limit
against_claim_iff c normalized level none known = (λ e. ground arith, λ h. ground arith)
against_claim_iff c normalized level (some null) known = (λ e. ground arith, λ h. ground arith)
against_claim_iff c normalized level (some (text claim)) known =
    (λ e. ground arith, λ h. ground arith)
against_claim_iff c normalized level (some _) known = (λ e. cc, λ h. absurd (h.1))

-- A severity is accepted exactly when, stripped and in lower case, it is a level, and the token's
-- claim is absent and not required, or is a text that is a level at least as high; what is returned
-- is the normalized level.
pub severity_accepted_iff :
    (c : SeveritySettings) (severity level : String) (claims : Fields)
    → (validate_requested_severity c severity claims ≡ ok level) ↔ (
        (level ≡ lower (strip severity))
        × (severity_rank level ≢ none)
        × ClaimAllows c level (get_field c.severity_claim claims))
unfolding validate_requested_severity
severity_accepted_iff c severity level claims =
    let n = lower (strip severity) in
    elim (Option-cases (severity_rank n)) [
      | inl unknown ↦ (λ e. absurd (ground arith), λ h. absurd (ground arith))
      | inr (rank, known) ↦
          let both =
            against_claim_iff c n level (get_field c.severity_claim claims) (ground arith) in
          (λ e. ground (arith, both.0), λ h. ground (arith, both.1))
    ]
