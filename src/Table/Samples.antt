-- ===== src/Table/Samples.antt =====
-- A table for the tests: one row under each pair of keys, every row under the same ETag. What is tested on it makes no
-- query.
use mathlib.Core.Option
use sre_agent_team.Base.{
  ℕ, ◌≡◌, refl, ◌≢◌, subst, Bool, true, false, ◌&&◌, String, Option, none, some, List, [], ◌∷◌,
  ◌==◌, if◌then◌else◌, arith, All, Option-cases, inl, inr, ==_refl, string_discrete,
}
use sre_agent_team.Base.Fallible.{ok, err}
use sre_agent_team.Base.Dict.{lookup, Distinct}
use sre_agent_team.Registry.Record.{InvestigationRecord, Registry}
use sre_agent_team.Table.Entity.{
  Entity, number, not_found, exists, modified, transaction, entity_etag, to_entity, number_or,
}
use sre_agent_team.Table.Client.{Operation, replace, create, TableClient}
use sre_agent_team.Table.Counter.{quota_counter_key, count_in, new_counter}
use sre_agent_team.Table.Laws.{of_row, written_entity, is_at, bodies, Holds, Wrote, IsAlone}
use sre_agent_team.Table.Effects.{not_counter}
use sre_agent_team.Table.Represents.{IsId, owned, Represents}

abbrev pub Rows : Type 0
Rows = String → String → Option Entity

-- The entity as the service gives it back.
abbrev pub kept : String → String → Entity → Entity
kept pk rk e = record e { partition_key = pk; row_key = rk; etag = some "v" }

abbrev pub row : Rows → String → String → Option Entity
row t pk rk = Option.map (kept pk rk) (t pk rk)

abbrev pub put : List Operation → Rows → Rows
put [] t pk rk = t pk rk
put (op ∷ ops) t pk rk =
    if is_at pk rk (written_entity op) then some (written_entity op) else put ops t pk rk

abbrev pub remove : String → String → Rows → Rows
remove pk rk t pk' rk' = if pk == pk' && rk == rk' then none else t pk' rk'

abbrev pub permitted : Rows → Operation → Bool
permitted t (replace e tag) = elim (t e.partition_key e.row_key) [
  | none ↦ false
  | some _ ↦ tag == "v"
]
permitted t (create e) = elim (t e.partition_key e.row_key) [ none ↦ true | some _ ↦ false ]

abbrev pub all_permitted : Rows → List Operation → Bool
all_permitted t [] = true
all_permitted t (op ∷ ops) = permitted t op && all_permitted t ops

abbrev pub small_client : TableClient Rows
small_client = record {
  get_entity = λ pk rk t. (of_row (row t pk rk), t);
  create_entity =
      λ e t. if permitted t (create e) then (ok tt, put (create e ∷ []) t) else (err exists, t);
  update_entity = λ e tag t.
      if permitted t (replace e tag)
      then (ok tt, put (replace e tag ∷ []) t)
      else (err modified, t);
  delete_unchanged = λ pk rk tag t. elim (t pk rk) [
    | none ↦ (err not_found, t)
    | some _ ↦ if tag == "v" then (ok tt, remove pk rk t) else (err modified, t)
  ];
  delete_entity =
      λ pk rk t. elim (t pk rk) [ none ↦ (err not_found, t) | some _ ↦ (ok tt, remove pk rk t) ];
  submit_transaction =
      λ ops t. if all_permitted t ops then (ok tt, put ops t) else (err (transaction 412), t);
  query_entities = λ q t. (ok [], t);
  list_entities = λ t. (ok [], t);
}

Holds-permitted : (t : Rows) (op : Operation) → Holds row t op → permitted t op ≡ true
unfolding entity_etag
Holds-permitted t (replace e tag) (old, at, tagged) = ground arith
Holds-permitted t (create e) gone = ground arith

All-permitted :
    (t : Rows) (ops : List Operation) → All (Holds row t) ops → all_permitted t ops ≡ true
All-permitted t [] h = refl
All-permitted t (op ∷ ops) (h, hs) = ground (arith, Holds-permitted t op h, All-permitted t ops hs)

put-Wrote : (ops : List Operation) (t : Rows) → Wrote row ops t (put ops t)
put-Wrote [] t pk rk = refl
put-Wrote (op ∷ ops) t pk rk = ground (arith, put-Wrote ops t pk rk)

kept_tag :
    (pk rk : String) (o : Option Entity) (e : Entity)
    → Option.map (kept pk rk) o ≡ some e
    → entity_etag e ≡ ok "v"
unfolding entity_etag string_discrete
kept_tag pk rk none e h = absurd (ground arith)
kept_tag pk rk (some x) e h =
    let same : kept pk rk x ≡ e = cc in subst (λ y. entity_etag y ≡ ok "v") same refl

remove_lem :
    (e : Entity) (tag : String) (t : Rows)
    → Holds row t (replace e tag)
    → (t e.partition_key e.row_key ≢ none) × (tag ≡ "v")
remove_lem e tag t (old, at, tagged) =
    let v = kept_tag e.partition_key e.row_key (t e.partition_key e.row_key) old at in
    ((λ gone. ground arith), ground arith)

remove_wrote :
    (e : Entity) (tag : String) (t : Rows)
    → (t e.partition_key e.row_key ≢ none) × (tag ≡ "v")
    → let (r, t') = small_client.delete_unchanged e.partition_key e.row_key tag t in
      (r ≡ ok tt)
      × ((pk rk : String)
          → bodies row t' pk rk ≡ (if is_at pk rk e then none else bodies row t pk rk))
unfolding string_discrete
remove_wrote e tag t (stands, v) = elim (Option-cases (t e.partition_key e.row_key)) [
  | inl gone ↦ absurd (stands gone)
  | inr (x, here) ↦ rw (here, v) (refl, (λ pk rk. ground arith))
]

pub small_client-IsAlone : IsAlone small_client row
unfolding entity_etag
small_client-IsAlone = record {
  reads = λ pk rk t. refl;
  keyed = λ pk rk t e h. ground arith;
  tagged = λ pk rk t e h. ("v", kept_tag pk rk (t pk rk) e h);
  updates = λ e tag t h.
      rw (Holds-permitted t (replace e tag) h) (refl, put-Wrote (replace e tag ∷ []) t);
  submits = λ ops t batch h. rw (All-permitted t ops h) (refl, put-Wrote ops t);
  deletes = λ e tag t h. remove_wrote e tag t (remove_lem e tag t h);
}

-- The rows of the registry's records, and a counter for every caller.
abbrev pub counter_row : ℕ → String → Entity
counter_row n pk = record (new_counter pk) { properties = ("active_count", number n) ∷ [] }

abbrev pub rows_of : ℕ → Registry → Rows
rows_of n s pk rk =
    if quota_counter_key == rk
    then some (counter_row n pk)
    else Option.map to_entity (owned pk (lookup rk s.records))

count_row : (n : ℕ) (pk : String) → count_in (kept pk quota_counter_key (counter_row n pk)) ≡ ok n
unfolding number_or lookup string_discrete
count_row n pk = refl

owned_keys :
    (pk id : String) (s : Registry)
    → ((k : String) (r : InvestigationRecord)
        → lookup k s.records ≡ some r
        → (r.investigation_id ≡ k) × (r.caller_appid ≡ r.workload_identity_appid))
    → (r : InvestigationRecord) → owned pk (lookup id s.records) ≡ some r
    → (r.investigation_id ≡ id) × (r.workload_identity_appid ≡ pk)
owned_keys pk id s owners r mine = elim (Option-cases (lookup id s.records)) [
  | inl h ↦ absurd (ground arith)
  | inr (x, h) ↦ ground (arith, owners id x h)
]

kept_body :
    (n : ℕ) (s : Registry) (pk id : String)
    → IsId id
    → (o : Option InvestigationRecord) → owned pk (lookup id s.records) ≡ o
    → ((r : InvestigationRecord)
        → o ≡ some r
        → (r.investigation_id ≡ id) × (r.workload_identity_appid ≡ pk))
    → bodies row (rows_of n s) pk id ≡ Option.map to_entity o
unfolding to_entity
kept_body n s pk id is_id none h keys = ground (arith, not_counter id is_id)
kept_body n s pk id is_id (some r) h keys = ground (arith, not_counter id is_id, keys r refl)

pub rows_of-Represents :
    (n : ℕ) (s : Registry)
    → Distinct s.records
    → ((id : String) (r : InvestigationRecord)
        → lookup id s.records ≡ some r
        → (r.investigation_id ≡ id) × (r.caller_appid ≡ r.workload_identity_appid))
    → Represents row (rows_of n s) s
rows_of-Represents n s distinct owners = record {
  distinct = distinct;
  same = λ pk id is_id.
      kept_body n s pk id is_id (owned pk (lookup id s.records)) refl (owned_keys pk id s owners);
  owners = owners;
  counters = λ id r h. (
    kept r.workload_identity_appid quota_counter_key (counter_row n r.workload_identity_appid),
    n,
    ground (arith, ==_refl quota_counter_key),
    count_row n r.workload_identity_appid,
  );
}
