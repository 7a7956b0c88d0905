-- ===== src/Table/Decrement.antt =====
-- escalation-proxy/app/investigation_registry.py: what `_decrement_quota_counter` and the release of an entity do to the
-- table.
use sre_agent_team.Base.{ℕ, ◌-◌, ◌≡◌, refl, ◌∙◌, String, Option, none, some, arith, ==_refl}
use sre_agent_team.Base.Fallible.{ok}
use sre_agent_team.Table.Entity.{Entity, set_property}
use sre_agent_team.Table.Client.{
  Action, ◌>>◌, TableClient, update_read, delete_entity_if_unchanged, again_on_conflict,
}
use sre_agent_team.Table.Counter.{
  quota_counter_key, count_in, with_count, decrement_attempt, decrement_quota_counter,
}
use sre_agent_team.Table.Laws.{bodies, IsAlone}
use sre_agent_team.Table.Represents.{IsId, Counted, Changes}
use sre_agent_team.Table.Effects.{not_counter, counter_lem, Counted-after, delete_lem}
use sre_agent_team.Table.Rounds.{tries-ok, again-ok}

then_lem :
    {T B : Type 0} (m : Action T (Unit {0})) (k : Action T B) (t : T)
    → (m t).0 ≡ ok tt
    → (m >> k) t ≡ k (m t).1
then_lem m k t h = ground arith

module _ {T : Type 0} (client : TableClient T) (rows : T → String → String → Option Entity)
    (alone : IsAlone client rows) where
  -- The table changed in no row of a record, and kept the counters.
  abbrev pub Keeps : T → T → Type 0
  Keeps t t' =
      ((pk id : String) → IsId id → bodies rows t' pk id ≡ bodies rows t pk id)
      × ((pk : String) → Counted rows t pk → Counted rows t' pk)

  counter_update :
      (pk : String) (n : ℕ) (c : Entity) (t : T)
      → rows t pk quota_counter_key ≡ some c
      → let (r, t') = update_read client (with_count n c) c t in (r ≡ ok tt) × Keeps t t'
  unfolding update_read set_property
  counter_update pk n c t here =
      let (tag, tagged) = alone.tagged pk quota_counter_key t c here in
      let (same_pk, same_key) = alone.keyed pk quota_counter_key t c here in
      let (answered, wrote) = alone.updates (with_count n c) tag t (c, ground arith, tagged) in
      let t' = (client.update_entity (with_count n c) tag t).1 in
      rw (tagged, update_read)
        (
          answered,
          (
            (λ pk' id is_id. ground (arith, wrote pk' id, not_counter id is_id)),
            (λ pk' old.
                Counted-after client rows alone t t' pk pk' c n same_pk same_key
                  (ground (arith, wrote pk' quota_counter_key, ==_refl quota_counter_key)) old),
          ),
        )

  decrement_round :
      (pk : String) (t : T) (c : Entity) (n : ℕ)
      → rows t pk quota_counter_key ≡ some c
      → count_in c ≡ ok n
      → decrement_attempt client pk t
        ≡ again_on_conflict (update_read client (with_count (n - 1) c) c) t
  unfolding decrement_attempt
  decrement_round pk t c n here counts = ground (arith, counter_lem client rows alone pk t c here)

  pub decrement_lem :
      (pk : String) (t : T)
      → Counted rows t pk
      → let (r, t') = decrement_quota_counter client pk t in (r ≡ ok tt) × Keeps t t'
  unfolding decrement_quota_counter
  decrement_lem pk t (c, n, here, counts) =
      let (answered, keeps) = counter_update pk (n - 1) c t here in
      let m = update_read client (with_count (n - 1) c) c in
      rw
        (tries-ok (λ (k : ℕ). decrement_attempt client pk) 2 0 t (m t).1 tt
          (decrement_round pk t c n here counts ∙ again-ok m t tt answered))
        (refl, keeps)

  -- An entity and its slot are given up.
  pub release_lem :
      (pk id : String) (e : Entity) (t : T)
      → IsId id
      → rows t pk id ≡ some e
      → Counted rows t pk
      → let (r, t') =
          (delete_entity_if_unchanged client e >> decrement_quota_counter client pk) t in
        (r ≡ ok tt) × Changes rows t t' pk id none
  release_lem pk id e t is_id here counted =
      let (deleted, ch) = delete_lem client rows alone pk id e t is_id here in
      let t1 = (delete_entity_if_unchanged client e t).1 in
      let (answered, (keeps, counters)) = decrement_lem pk t1 (ch.counted pk counted) in
      rw
        (then_lem (delete_entity_if_unchanged client e) (decrement_quota_counter client pk) t
          deleted)
        (
          answered,
          record {
            at = keeps pk id is_id ∙ ch.at;
            off = λ pk' id' is_id' off. keeps pk' id' is_id' ∙ ch.off pk' id' is_id' off;
            counted = λ pk' c. counters pk' (ch.counted pk' c);
          },
        )
