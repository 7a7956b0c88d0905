-- ===== src/Table/Keys.antt =====
-- escalation-proxy/app/investigation_registry.py: the keys of the rows that are no investigations.
use sre_agent_team.Base.{◌≡◌, refl, true, false, String, ◌==◌, arith, Bool-cases, inl, inr}
use sre_agent_team.Base.Text.{starts_with, append}
use sre_agent_team.Table.Counter.{quota_counter_key, idempotency_index_key}
use sre_agent_team.Table.Represents.{IsId}

counter_key_q : starts_with quota_counter_key "__q" ≡ true
unfolding starts_with
counter_key_q = refl

module _ (digest : String → String) (key : String) where
  index_key_own : starts_with (idempotency_index_key digest key) "__" ≡ true
  unfolding starts_with append idempotency_index_key
  index_key_own = refl

  index_key_i : starts_with (idempotency_index_key digest key) "__q" ≡ false
  unfolding starts_with append idempotency_index_key
  index_key_i = refl

  -- The key of an index entry is no id.
  pub not_index : (id : String) → IsId id → (idempotency_index_key digest key == id) ≡ false
  not_index id is_id = elim (Bool-cases (idempotency_index_key digest key == id)) [
    | inl same ↦ absurd (ground (arith, index_key_own))
    | inr off ↦ off
  ]

  -- The key of an index entry is not that of the counter.
  pub index-not_counter : (idempotency_index_key digest key == quota_counter_key) ≡ false
  index-not_counter = elim (Bool-cases (idempotency_index_key digest key == quota_counter_key)) [
    | inl same ↦ absurd (ground (arith, index_key_i, counter_key_q))
    | inr off ↦ off
  ]
