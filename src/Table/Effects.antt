-- ===== src/Table/Effects.antt =====
-- escalation-proxy/app/investigation_registry.py, `TableStorageInvestigationRegistry`: what the conditional writes
-- do to the table, for a client that is the only one.
use mathlib.Core.Option
use sre_agent_team.Base.{
  ℕ, ◌-◌, ◌≡◌, refl, sym, ap, ◌∙◌, true, false, String, Option, none, some, ◌==◌, if◌then◌else◌,
  arith, Bool-cases, inl, inr, ==_refl,
}
use sre_agent_team.Base.Fallible.{ok}
use sre_agent_team.Base.Dict.{lookup-insert}
use sre_agent_team.Base.Text.{starts_with}
use sre_agent_team.Table.Entity.{Entity, Value, number_or, set_property}
use sre_agent_team.Table.Client.{TableClient, update_read, delete_entity_if_unchanged}
use sre_agent_team.Table.Counter.{
  quota_counter_key, count_in, with_count, get_or_create_quota_counter,
}
use sre_agent_team.Table.Lifecycle.{complete_operations, submit_completion}
use sre_agent_team.Table.Laws.{body, bodies, IsAlone}
use sre_agent_team.Table.Represents.{IsId, Counted, Changes}

counter_key_own : starts_with quota_counter_key "__" ≡ true
unfolding starts_with
counter_key_own = refl

pub not_counter : (id : String) → IsId id → (quota_counter_key == id) ≡ false
not_counter id is_id = elim (Bool-cases (quota_counter_key == id)) [
  | inl same ↦ absurd (ground (arith, counter_key_own))
  | inr off ↦ off
]

pub count_in-with_count : (n : ℕ) (c : Entity) → count_in (with_count n c) ≡ ok n
unfolding number_or set_property
count_in-with_count n c = ground (
  arith,
  lookup-insert "active_count" "active_count" (Value.number n) c.properties,
  ==_refl "active_count",
)

pub count_in-body : (c : Entity) → count_in (body c) ≡ count_in c
unfolding number_or
count_in-body c = refl

pub row_of_body :
    (o : Option Entity) (b : Entity)
    → Option.map body o ≡ some b
    → (e : Entity) × (o ≡ some e) × (body e ≡ b)
row_of_body none b h = cc
row_of_body (some e) b h = (e, refl, cc)

module _ {T : Type 0} (client : TableClient T) (rows : T → String → String → Option Entity)
    (alone : IsAlone client rows) where
  -- A counter that stands in the table without its ETag is one that can be read.
  pub Counted-body :
      (t : T) (pk : String) (c : Entity) (n : ℕ)
      → bodies rows t pk quota_counter_key ≡ some (body c)
      → count_in c ≡ ok n
      → Counted rows t pk
  Counted-body t pk c n here counts =
      let (e, at, b) = row_of_body (rows t pk quota_counter_key) (body c) here in
      (e, n, at, sym (count_in-body e) ∙ ap count_in b ∙ count_in-body c ∙ counts)

  Counted-same :
      (t t' : T) (pk : String)
      → bodies rows t' pk quota_counter_key ≡ bodies rows t pk quota_counter_key
      → Counted rows t pk
      → Counted rows t' pk
  Counted-same t t' pk same (c, n, at, counts) = Counted-body t' pk c n (ground arith) counts

  pub update_read_lem :
      (pk id : String) (u e : Entity) (t : T)
      → IsId id
      → rows t pk id ≡ some e
      → u.partition_key ≡ pk
      → u.row_key ≡ id
      → let (r, t') = update_read client u e t in
        (r ≡ ok tt) × Changes rows t t' pk id (some (body u))
  unfolding update_read
  update_read_lem pk id u e t is_id here same_pk same_id =
      let (tag, tagged) = alone.tagged pk id t e here in
      let (answered, wrote) = alone.updates u tag t (e, ground arith, tagged) in
      let t' = (client.update_entity u tag t).1 in
      rw (tagged, update_read)
        (
          answered,
          record {
            at = ground (arith, wrote pk id, ==_refl pk, ==_refl id);
            off = λ pk' id' is_id' off. ground (arith, wrote pk' id');
            counted = λ pk' c.
                Counted-same t t' pk'
                  (ground (arith, wrote pk' quota_counter_key, not_counter id is_id)) c;
          },
        )

  pub delete_lem :
      (pk id : String) (e : Entity) (t : T)
      → IsId id
      → rows t pk id ≡ some e
      → let (r, t') = delete_entity_if_unchanged client e t in
        (r ≡ ok tt) × Changes rows t t' pk id none
  unfolding delete_entity_if_unchanged
  delete_lem pk id e t is_id here =
      let (tag, tagged) = alone.tagged pk id t e here in
      let (same_pk, same_id) = alone.keyed pk id t e here in
      let (answered, gone) = alone.deletes e tag t (e, ground arith, tagged) in
      let t' = (client.delete_unchanged e.partition_key e.row_key tag t).1 in
      rw (tagged, delete_entity_if_unchanged)
        (
          answered,
          record {
            at = ground (arith, gone pk id, ==_refl pk, ==_refl id);
            off = λ pk' id' is_id' off. ground (arith, gone pk' id');
            counted = λ pk' c.
                Counted-same t t' pk'
                  (ground (arith, gone pk' quota_counter_key, not_counter id is_id)) c;
          },
        )

  pub counter_lem :
      (pk : String) (t : T) (c : Entity)
      → rows t pk quota_counter_key ≡ some c
      → get_or_create_quota_counter client pk t ≡ (ok c, t)
  unfolding get_or_create_quota_counter
  counter_lem pk t c here = ground (arith, alone.reads pk quota_counter_key t)

  -- The counter of a partition is replaced by one that can be read.
  pub Counted-after :
      (t t' : T) (pk pk' : String) (c : Entity) (n : ℕ)
      → c.partition_key ≡ pk
      → c.row_key ≡ quota_counter_key
      → bodies rows t' pk' quota_counter_key
        ≡ (if pk == pk' then some (body (with_count n c)) else bodies rows t pk' quota_counter_key)
      → Counted rows t pk'
      → Counted rows t' pk'
  Counted-after t t' pk pk' c n at_pk at_key here old = elim (Bool-cases (pk == pk')) [
    | inl same ↦ Counted-body t' pk' (with_count n c) n (ground arith) (count_in-with_count n c)
    | inr off ↦ Counted-same t t' pk' (ground arith) old
  ]

  pub completion_lem :
      (pk id : String) (n : ℕ) (c u e : Entity) (t : T)
      → IsId id
      → rows t pk id ≡ some e
      → rows t pk quota_counter_key ≡ some c
      → u.partition_key ≡ pk
      → u.row_key ≡ id
      → let (r, t') = submit_completion client n c u e t in
        (r ≡ ok tt)
        × Changes rows t t' pk id (some (body u))
        × (bodies rows t' pk quota_counter_key ≡ some (body (with_count (n - 1) c)))
  unfolding submit_completion complete_operations set_property
  completion_lem pk id n c u e t is_id here counter same_pk same_id =
      let (tag, tagged) = alone.tagged pk id t e here in
      let (counter_tag, counter_tagged) = alone.tagged pk quota_counter_key t c counter in
      let (counter_pk, counter_at) = alone.keyed pk quota_counter_key t c counter in
      let ops = complete_operations n c counter_tag u tag in
      let (answered, wrote) =
        alone.submits ops t (ground (arith, not_counter id is_id))
          ((c, ground arith, counter_tagged), ((e, ground arith, tagged), tt)) in
      let t' = (client.submit_transaction ops t).1 in
      rw (counter_tagged, tagged, submit_completion)
        (
          answered,
          record {
            at = ground (arith, wrote pk id, ==_refl pk, ==_refl id, not_counter id is_id);
            off = λ pk' id' is_id' off. ground (arith, wrote pk' id', not_counter id' is_id');
            counted = λ pk' old.
                Counted-after t t' pk pk' c (n - 1) counter_pk counter_at
                  (ground (
                    arith,
                    wrote pk' quota_counter_key,
                    not_counter id is_id,
                    ==_refl quota_counter_key,
                  ))
                  old;
          },
          ground (
            arith,
            wrote pk quota_counter_key,
            not_counter id is_id,
            ==_refl quota_counter_key,
            ==_refl pk,
          ),
        )
