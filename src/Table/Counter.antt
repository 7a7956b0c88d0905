-- ===== src/Table/Counter.antt =====
-- escalation-proxy/app/investigation_registry.py, `TableStorageInvestigationRegistry`: the keys of the
-- two rows that are no investigations, and the quota counter.
use sre_agent_team.Base.{
  ℕ, ◌+◌, ◌-◌, Bool, true, false, ◌&&◌, ◌||◌, String, Option, none, some, List, [], ◌∷◌, eqb, leb,
  ◌==◌, if◌then◌else◌,
}
use sre_agent_team.Base.Fallible.{Result, ok, err}
use sre_agent_team.Base.Text.{append}
use sre_agent_team.Base.Dict.{lookup}
use sre_agent_team.Table.Entity.{
  Entity, Value, text, number, flag, TableError, not_found, exists, number_or, set_property,
}
use sre_agent_team.Table.Client.{
  Action, ◌>>=◌, ◌>>◌, lift, give, in_partition, TableClient, again_on_conflict, tries, update_read,
}

-- `_quota_counter_key`
abbrev pub quota_counter_key : String
quota_counter_key = "__quota_counter__"

-- `_idempotency_index_key`; `digest` is the SHA-256 digest of a text in hexadecimal.
unfoldable pub idempotency_index_key : (String → String) → String → String
idempotency_index_key digest idempotency_key = append "__idempotency__" (digest idempotency_key)

-- The counter of a caller that has none yet.
abbrev pub new_counter : String → Entity
new_counter caller_appid = record {
  partition_key = caller_appid;
  row_key = quota_counter_key;
  properties = ("active_count", number 0) ∷ [];
  etag = none;
}

-- `int(counter.get("active_count", 0))`
abbrev pub count_in : Entity → Result TableError ℕ
count_in counter = number_or "active_count" 0 counter

abbrev pub with_count : ℕ → Entity → Entity
with_count n counter = set_property "active_count" (number n) counter

-- `v in {"reserved", "active"}`, where `default` is the answer for a property that is not there.
abbrev pub holds_slot : Bool → Option Value → Bool
holds_slot default none = default
holds_slot default (some (text s)) = s == "reserved" || s == "active"
holds_slot default (some (number n)) = false
holds_slot default (some (flag b)) = false

abbrev pub in_use : Bool → Entity → Bool
in_use default e = holds_slot default (lookup "reservation_state" e.properties)

-- The test by which `_reconcile_quota_counter` and `check_workload_quota` count.
unfoldable pub counts_entity : ℕ → Entity → Result TableError Bool
counts_entity now e =
    if e.row_key == quota_counter_key then ok false else (elim (number_or "expires_at" 0 e) [
      | err x ↦ err x
      | ok expires_at ↦ ok (leb now expires_at && in_use true e)
    ])

abbrev pub add_if : Bool → ℕ → ℕ
add_if true n = 1 + n
add_if false n = n

-- `sum(1 for entity in entities if …)`
unfoldable pub sum_active : ℕ → List Entity → Result TableError ℕ
sum_active now [] = ok 0
sum_active now (e ∷ es) =
    let rest = sum_active now es in
    elim (counts_entity now e) [
      | err x ↦ err x
      | ok b ↦ elim rest [ err x ↦ err x | ok n ↦ ok (add_if b n) ]
    ]

module _ {T : Type 0} (client : TableClient T) where
  -- The creation of the counter, another creation at the same time let pass, and the read after it.
  unfoldable pub create_quota_counter : String → Action T Entity
  create_quota_counter caller_appid t =
      let (made, t') = client.create_entity (new_counter caller_appid) t in
      elim made [
        | ok _ ↦ client.get_entity caller_appid quota_counter_key t'
        | err exists ↦ client.get_entity caller_appid quota_counter_key t'
        | err e ↦ (err e, t')
      ]

  unfoldable pub get_or_create_quota_counter : String → Action T Entity
  get_or_create_quota_counter caller_appid t =
      let (found, t') = client.get_entity caller_appid quota_counter_key t in
      elim found [
        | ok counter ↦ (ok counter, t')
        | err not_found ↦ create_quota_counter caller_appid t'
        | err e ↦ (err e, t')
      ]

  unfoldable pub decrement_attempt : String → Action T (Option (Unit {0}))
  decrement_attempt caller_appid = do
    counter ← get_or_create_quota_counter caller_appid
    count ← lift (count_in counter)
    again_on_conflict (update_read client (with_count (count - 1) counter) counter)

  unfoldable pub decrement_quota_counter : String → Action T (Unit {0})
  decrement_quota_counter caller_appid = tries 3 0 (λ _. decrement_attempt caller_appid)

  unfoldable pub replace_count : ℕ → ℕ → Entity → Action T Bool
  replace_count active_count count counter =
      if eqb active_count count
      then give false
      else (update_read client (with_count active_count counter) counter >> give true)

  -- Whether the counter was not right, and is replaced.
  unfoldable pub reconcile_quota_counter : String → ℕ → Entity → Action T Bool
  reconcile_quota_counter caller_appid now counter = do
    entities ← client.query_entities (in_partition caller_appid)
    active_count ← lift (sum_active now entities)
    count ← lift (count_in counter)
    replace_count active_count count counter
