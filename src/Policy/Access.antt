-- ===== src/Policy/Access.antt =====
-- escalation-proxy/app/caller_policy.py: exactly when a store authorizes a caller.
use sre_agent_team.Base.{
  string_discrete, refl, ◌∷◌, ◌⊎◌, inl, inr, Option-cases, ℕ, ◌≤◌, ◌≡◌, ◌↔◌, true, false, String,
  Option, some, [], arith,
}
use sre_agent_team.Base.Fallible.{ok, is_ok}
use sre_agent_team.Base.Dict.{Dict, lookup}
use sre_agent_team.Base.Text.{codes, strip, lower, is_among}
use sre_agent_team.Policy.Groups.{is_resource_group_id}
use sre_agent_team.Policy.GroupIds.{
  IsGroupId, is_resource_group_id-IsGroupId, IsGroupId-is_resource_group_id,
}
use sre_agent_team.Policy.Severity.{severity_rank}
use sre_agent_team.Policy.Store.{
  CallerPolicy, CallerPolicyStore, is_empty, get, authorize, authorize_resource_group,
}

-- Both severities are known, and the first is at most the second.
abbrev pub AtMost : Option ℕ → Option ℕ → Type 0
AtMost (some m) (some n) = m ≤ n
AtMost _ _ = ⊥

-- A severity, and its place in the order of severities.
abbrev pub Ranked : String → ℕ → Type 0
Ranked severity n =
    ((severity ≡ "low") × (n ≡ 0))
    ⊎ ((severity ≡ "medium") × (n ≡ 1))
    ⊎ ((severity ≡ "high") × (n ≡ 2))
    ⊎ ((severity ≡ "critical") × (n ≡ 3))

severity_rank-Ranked :
    (severity : String) (n : ℕ) → severity_rank severity ≡ some n → Ranked severity n
unfolding severity_rank
severity_rank-Ranked severity n e = ground arith

Ranked-severity_rank :
    (severity : String) (n : ℕ) → Ranked severity n → severity_rank severity ≡ some n
unfolding severity_rank string_discrete
Ranked-severity_rank severity n (inl (e, e')) = rw (e, e') refl
Ranked-severity_rank severity n (inr (inl (e, e'))) = rw (e, e') refl
Ranked-severity_rank severity n (inr (inr (inl (e, e')))) = rw (e, e') refl
Ranked-severity_rank severity n (inr (inr (inr (e, e')))) = rw (e, e') refl

-- The policy that a store has for a caller: the registered one, or, in a store without any policy that
-- allows it, one that lists no resource group.
abbrev pub PolicyOf : CallerPolicyStore → String → CallerPolicy → Type 0
PolicyOf store appid p =
    (lookup appid store.policies ≡ some p)
    ⊎ ((store.policies ≡ [])
        × (store.allow_unregistered ≡ true)
        × (p ≡ record {
          appid = appid;
          display_name = appid;
          enabled = true;
          maximum_severity = "critical";
          maximum_concurrent_investigations = store.default_quota;
          allowed_resource_groups = [];
        }))

no_policies : (d : Dict CallerPolicy) → is_empty d ≡ true → d ≡ []
no_policies [] e = refl
no_policies (x ∷ d) e = cc

get-PolicyOf :
    (store : CallerPolicyStore) (appid : String) (p : CallerPolicy)
    → get store appid ≡ ok p
    → PolicyOf store appid p
unfolding get
get-PolicyOf store appid p e = ground (arith, no_policies store.policies)

PolicyOf-get :
    (store : CallerPolicyStore) (appid : String) (p : CallerPolicy)
    → PolicyOf store appid p
    → get store appid ≡ ok p
unfolding get lookup
PolicyOf-get store appid p (inl registered) = ground arith
PolicyOf-get store appid p (inr (none_registered, allowed, e)) =
    rw (none_registered, allowed, e) refl

authorize-ok :
    (store : CallerPolicyStore) (appid severity : String) (p : CallerPolicy)
    → authorize store appid severity ≡ ok p
    → (get store appid ≡ ok p)
      × (p.enabled ≡ true)
      × (m : ℕ) × (n : ℕ) × (severity_rank severity ≡ some m)
      × (severity_rank p.maximum_severity ≡ some n)
      × (m ≤ n)
unfolding authorize
authorize-ok store appid severity p e = elim (Option-cases (severity_rank severity)) [
  | inl unknown ↦ absurd (ground arith)
  | inr (m, asked) ↦ elim (Option-cases (severity_rank p.maximum_severity)) [
    | inl unknown ↦ absurd (ground arith)
    | inr (n, most) ↦ (ground arith, ground arith, m, n, ground arith, ground arith, ground arith)
  ]
]

authorize_within :
    (store : CallerPolicyStore) (appid severity : String) (p : CallerPolicy) (m n : ℕ)
    → get store appid ≡ ok p
    → p.enabled ≡ true
    → severity_rank severity ≡ some m
    → severity_rank p.maximum_severity ≡ some n
    → m ≤ n
    → authorize store appid severity ≡ ok p
unfolding authorize
authorize_within store appid severity p m n has enabled asked most within = ground arith

-- `authorize` returns a policy exactly when it is the one registered for the caller, or, in a store
-- without any policy that allows unregistered callers, the default one, it is enabled, and both the
-- requested severity and its maximum are low, medium, high or critical, in this order, the
-- first not above the second.
pub authorize-ok_iff :
    (store : CallerPolicyStore) (appid severity : String) (p : CallerPolicy)
    → (authorize store appid severity ≡ ok p) ↔ (
        PolicyOf store appid p
        × (p.enabled ≡ true)
        × (m : ℕ) × (n : ℕ) × Ranked severity m
        × Ranked p.maximum_severity n
        × (m ≤ n))
authorize-ok_iff store appid severity p = (
  λ e.
      let (has, enabled, m, n, asked, most, within) = authorize-ok store appid severity p e in
      (
        get-PolicyOf store appid p has,
        enabled,
        m,
        n,
        severity_rank-Ranked severity m asked,
        severity_rank-Ranked p.maximum_severity n most,
        within,
      ),
  λ (has, enabled, m, n, asked, most, within).
      authorize_within store appid severity p m n (PolicyOf-get store appid p has) enabled
        (Ranked-severity_rank severity m asked) (Ranked-severity_rank p.maximum_severity n most)
        within,
)

authorize_resource_group-ok :
    (store : CallerPolicyStore) (appid group : String) (p : CallerPolicy)
    → (authorize_resource_group store appid group ≡ ok p) ↔ (
        (lookup appid store.policies ≡ some p)
        × (p.enabled ≡ true)
        × (is_resource_group_id (lower (strip group)) ≡ true)
        × (is_among (lower (strip group)) p.allowed_resource_groups ≡ true))
unfolding authorize_resource_group get
authorize_resource_group-ok store appid group p = (λ e. ground arith, λ h. ground arith)

-- `authorize_resource_group` returns a policy exactly when it is the one registered for the caller, is
-- enabled, and lists the group, stripped and in lower case, which is `/subscriptions/`, 36 hexadecimal
-- digits or dashes, `/resourcegroups/` and a name of 1 to 90 ASCII letters, digits, dots, underscores,
-- parentheses or dashes, as `fold_case` compares letters. The default policy of an unregistered
-- caller never passes.
pub authorize_resource_group-ok_iff :
    (store : CallerPolicyStore) (appid group : String) (p : CallerPolicy)
    → (authorize_resource_group store appid group ≡ ok p) ↔ (
        (lookup appid store.policies ≡ some p)
        × (p.enabled ≡ true)
        × IsGroupId (codes (lower (strip group)))
        × (is_among (lower (strip group)) p.allowed_resource_groups ≡ true))
authorize_resource_group-ok_iff store appid group p =
    let base = authorize_resource_group-ok store appid group p in
    let name = lower (strip group) in
    (
      λ e.
          let (registered, enabled, matched, listed) = base.0 e in
          (registered, enabled, is_resource_group_id-IsGroupId name matched, listed),
      λ (registered, enabled, is_id, listed).
          base.1 (registered, enabled, IsGroupId-is_resource_group_id name is_id, listed),
    )

-- A store with no policies authorizes no caller for any resource group, although it gives every
-- caller a policy where unregistered callers are allowed.
pub empty_store_refuses_groups :
    (store : CallerPolicyStore) (appid group : String)
    → store.policies ≡ []
    → is_ok (authorize_resource_group store appid group) ≡ false
unfolding authorize_resource_group get lookup
empty_store_refuses_groups store appid group none_registered = ground arith
