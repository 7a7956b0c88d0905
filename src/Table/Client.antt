-- ===== src/Table/Client.antt =====
-- escalation-proxy/app/investigation_registry.py: the calls of the Azure Tables client, and the code
-- around them. `T` is the table and all else that the calls change.
use sre_agent_team.Base.{ℕ, zero, suc, ◌+◌, Bool, String, Option, none, some, List, if◌then◌else◌}
use sre_agent_team.Base.Fallible.{Result, ok, err}
use sre_agent_team.Table.Entity.{
  Entity, TableError, is_concurrency_conflict, please_retry, entity_etag,
}

-- A call that may raise, on the table.
abbrev pub Action : Type 0 → Type 0 → Type 0
Action T A = T → Result TableError A × T

infixl 5 ◌>>=◌ ◌>>◌
abbrev pub ◌>>=◌ : {T A B : Type 0} → Action T A → (A → Action T B) → Action T B
(m >>= k) t = let (r, t') = m t in elim r [ ok a ↦ k a t' | err e ↦ (err e, t') ]

abbrev pub ◌>>◌ : {T B : Type 0} → Action T (Unit {0}) → Action T B → Action T B
m >> k = m >>= λ _. k

-- A computation that does not touch the table.
abbrev pub lift : {T A : Type 0} → Result TableError A → Action T A
lift r t = (r, t)

abbrev pub give : {T A : Type 0} → A → Action T A
give a t = (ok a, t)

-- `if not condition: raise e`
abbrev pub ensure : {T : Type 0} → Bool → TableError → Action T (Unit {0})
ensure condition e t = (if condition then ok tt else err e, t)

-- The part of a transaction: a conditional replacement under the ETag that was read, or a creation.
pub data Operation : Type 0 where
  replace : Entity → String → Operation
  create : Entity → Operation

-- The filters of the code's queries.
pub data Query : Type 0 where
  in_partition : String → Query
  with_key : String → String → Query
  in_state : String → Query
  reserved_before : ℕ → Query
  expires_before : ℕ → Query

-- The methods of `TableClient`. `update_entity` replaces the entity, and it and `delete_unchanged` do so
-- only where the ETag is the given one (`MatchConditions.IfNotModified`); a query gives its entities in
-- the order in which the service pages them. `list_entities` gives the first page, of one
-- entity at most.
pub record TableClient (T : Type 0) : Type 0 where
  pub get_entity : String → String → Action T Entity
  pub create_entity : Entity → Action T (Unit {0})
  pub update_entity : Entity → String → Action T (Unit {0})
  pub delete_unchanged : String → String → String → Action T (Unit {0})
  pub delete_entity : String → String → Action T (Unit {0})
  pub submit_transaction : List Operation → Action T (Unit {0})
  pub query_entities : Query → Action T (List Entity)
  pub list_entities : Action T (List Entity)

-- `except (ResourceModifiedError, TableTransactionError)`: a conflict asks for another round, which
-- nothing stands for; another exception is raised.
unfoldable pub again_on_conflict : {T A : Type 0} → Action T A → Action T (Option A)
again_on_conflict m t =
    let (r, t') = m t in
    elim r [
      | ok a ↦ (ok (some a), t')
      | err e ↦ (if is_concurrency_conflict e then ok none else err e, t')
    ]

-- `for attempt in range(…)`: rounds from the n-th on, until one gives a result or raises.
unfoldable pub tries : {T A : Type 0} → ℕ → ℕ → (ℕ → Action T (Option A)) → Action T A
tries zero n body t = (err please_retry, t)
tries (suc rounds) n body t =
    let (r, t') = body n t in
    elim r [
      | err e ↦ (err e, t')
      | ok (some a) ↦ (ok a, t')
      | ok none ↦ tries rounds (n + 1) body t'
    ]

module _ {T : Type 0} (client : TableClient T) where
  -- `update_entity(updated, etag=self._entity_etag(read), …)`
  unfoldable pub update_read : Entity → Entity → Action T (Unit {0})
  update_read updated read t = elim (entity_etag read) [
    | err e ↦ (err e, t)
    | ok tag ↦ client.update_entity updated tag t
  ]

  -- `_delete_entity_if_unchanged`
  unfoldable pub delete_entity_if_unchanged : Entity → Action T (Unit {0})
  delete_entity_if_unchanged entity t = elim (entity_etag entity) [
    | err e ↦ (err e, t)
    | ok tag ↦ client.delete_unchanged entity.partition_key entity.row_key tag t
  ]
