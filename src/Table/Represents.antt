-- ===== src/Table/Represents.antt =====
-- escalation-proxy/app/investigation_registry.py: a table that holds the records of an in-memory registry.
use mathlib.Core.Option
use sre_agent_team.Base.{
  ℕ, ◌≡◌, refl, ap, subst, ◌∙◌, false, ◌&&◌, String, Option, none, some, ◌==◌, if◌then◌else◌, arith,
  Bool-cases, inl, inr,
}
use sre_agent_team.Base.Fallible.{ok}
use sre_agent_team.Base.Dict.{
  lookup, update, erase, Distinct, lookup-update, lookup-erase, update-Distinct, erase-Distinct,
}
use sre_agent_team.Base.Text.{starts_with}
use sre_agent_team.Registry.Record.{InvestigationRecord, Registry}
use sre_agent_team.Table.Entity.{Entity, to_entity}
use sre_agent_team.Table.Counter.{quota_counter_key, count_in}
use sre_agent_team.Table.Laws.{body, bodies}
use sre_agent_team.Table.RoundTrip.{stored}
use sre_agent_team.Table.Stored.{body-stored}

-- The id is none of the code's own keys, which begin with two underscores.
abbrev pub IsId : String → Type 0
IsId id = starts_with id "__" ≡ false

abbrev pub owned : String → Option InvestigationRecord → Option InvestigationRecord
owned pk none = none
owned pk (some r) = if r.workload_identity_appid == pk then some r else none

map-body :
    (o : Option Entity) (b : Entity)
    → Option.map body o ≡ some b
    → (e : Entity) × (o ≡ some e) × (body e ≡ b)
map-body none b h = cc
map-body (some e) b h = (e, refl, cc)

map-none : (o : Option Entity) → Option.map body o ≡ none → o ≡ none
map-none none h = refl
map-none (some e) h = cc

module _ {T : Type 0} (rows : T → String → String → Option Entity) where
  -- The caller has a counter that can be read.
  abbrev pub Counted : T → String → Type 0
  Counted t pk =
      (c : Entity) × (n : ℕ) × (rows t pk quota_counter_key ≡ some c) × (count_in c ≡ ok n)

  -- Under each id, a caller's partition has the entity of the caller's record; each record stands under
  -- its id, is of the caller that reserved it, and its caller has a counter.
  pub record Represents (t : T) (s : Registry) : Type 0 where
    pub distinct : Distinct s.records
    pub same :
        (pk id : String)
        → IsId id
        → bodies rows t pk id ≡ Option.map to_entity (owned pk (lookup id s.records))
    pub owners :
        (id : String) (r : InvestigationRecord)
        → lookup id s.records ≡ some r
        → (r.investigation_id ≡ id) × (r.caller_appid ≡ r.workload_identity_appid)
    pub counters :
        (id : String) (r : InvestigationRecord)
        → lookup id s.records ≡ some r
        → Counted t r.workload_identity_appid

  -- The table changed under these keys, and otherwise only in rows that are no records.
  pub record Changes (t t' : T) (pk id : String) (new : Option Entity) : Type 0 where
    pub at : bodies rows t' pk id ≡ new
    pub off :
        (pk' id' : String)
        → IsId id'
        → (pk == pk' && id == id') ≡ false
        → bodies rows t' pk' id' ≡ bodies rows t pk' id'
    pub counted : (pk' : String) → Counted t pk' → Counted t' pk'

  pub found_row :
      (t : T) (s : Registry) (id pk : String) (r : InvestigationRecord)
      → Represents t s
      → IsId id
      → lookup id s.records ≡ some r
      → r.workload_identity_appid ≡ pk
      → (tag : Option String) × (rows t pk id ≡ some (stored tag r))
  found_row t s id pk r rep is_id found mine =
      let (e, here, b) =
        map-body (rows t pk id) (to_entity r) (ground (arith, rep.same pk id is_id)) in
      (e.etag, here ∙ ap (λ (x : Entity). some x) (body-stored e r b))

  pub missing_row :
      (t : T) (s : Registry) (id pk : String)
      → Represents t s
      → IsId id
      → owned pk (lookup id s.records) ≡ none
      → rows t pk id ≡ none
  missing_row t s id pk rep is_id gone =
      map-none (rows t pk id) (ground (arith, rep.same pk id is_id))

  -- A record is changed in both.
  pub Represents-update :
      (t t' : T) (s : Registry) (id pk : String) (r : InvestigationRecord)
      (f : InvestigationRecord → InvestigationRecord)
      → Represents t s
      → IsId id
      → lookup id s.records ≡ some r
      → (f r).investigation_id ≡ r.investigation_id
      → (f r).caller_appid ≡ r.caller_appid
      → (f r).workload_identity_appid ≡ r.workload_identity_appid
      → r.workload_identity_appid ≡ pk
      → Changes t t' pk id (some (to_entity (f r)))
      → Represents t' (record s { records = update id f s.records })
  Represents-update t t' s id pk r f rep is_id found same_id same_caller same_owner mine ch =
      record {
        distinct = update-Distinct id f s.records rep.distinct;
        same = λ pk' k is_k. elim (Bool-cases (pk == pk' && id == k)) [
          | inl here ↦ ground (arith, ch.at, lookup-update id k f s.records)
          | inr off ↦
              ground
                (arith, ch.off pk' k is_k off, rep.same pk' k is_k, lookup-update id k f s.records)
        ];
        owners = λ k x h.
            ground (arith, lookup-update id k f s.records, rep.owners k x, rep.owners id r found);
        counters = λ k x h. elim (Bool-cases (id == k)) [
          | inl here ↦
              subst (λ a. Counted t' a) (ground (arith, lookup-update id k f s.records))
                (ch.counted r.workload_identity_appid (rep.counters id r found))
          | inr off ↦
              ch.counted x.workload_identity_appid
                (rep.counters k x (ground (arith, lookup-update id k f s.records)))
        ];
      }

  -- A record is removed from both.
  pub Represents-erase :
      (t t' : T) (s : Registry) (id pk : String) (r : InvestigationRecord)
      → Represents t s
      → IsId id
      → lookup id s.records ≡ some r
      → r.workload_identity_appid ≡ pk
      → Changes t t' pk id none
      → Represents t' (record s { records = erase id s.records })
  Represents-erase t t' s id pk r rep is_id found mine ch = record {
    distinct = erase-Distinct id s.records rep.distinct;
    same = λ pk' k is_k. elim (Bool-cases (pk == pk' && id == k)) [
      | inl here ↦ ground (arith, ch.at, lookup-erase id k s.records rep.distinct)
      | inr off ↦ ground (
        arith,
        ch.off pk' k is_k off,
        rep.same pk' k is_k,
        lookup-erase id k s.records rep.distinct,
      )
    ];
    owners = λ k x h. ground (arith, lookup-erase id k s.records rep.distinct, rep.owners k x);
    counters = λ k x h.
        ch.counted x.workload_identity_appid
          (rep.counters k x (ground (arith, lookup-erase id k s.records rep.distinct)));
  }

  -- Only rows that are no records changed.
  pub Represents-same :
      (t t' : T) (s : Registry)
      → Represents t s
      → ((pk id : String) → IsId id → bodies rows t' pk id ≡ bodies rows t pk id)
      → ((pk : String) → Counted t pk → Counted t' pk)
      → Represents t' s
  Represents-same t t' s rep off counted = record {
    distinct = rep.distinct;
    same = λ pk k is_k. off pk k is_k ∙ rep.same pk k is_k;
    owners = rep.owners;
    counters = λ k x h. counted x.workload_identity_appid (rep.counters k x h);
  }
