-- ===== src/Table/Laws.antt =====
-- The table service as the code relies on it (Azure Tables, documented behaviour), for a client that is the only
-- one and is answered: a read gives the row under its keys, every row has an ETag, and a conditional write whose
-- conditions hold is made, replaces the entity as a whole and leaves the other rows.
use sre_agent_team.Base.{
  ◌≡◌, Bool, true, not, ◌&&◌, String, Option, none, some, List, [], ◌∷◌, ◌==◌, if◌then◌else◌, All,
}
use mathlib.Core.Option
use sre_agent_team.Base.Fallible.{Result, ok, err}
use sre_agent_team.Table.Entity.{Entity, TableError, not_found, entity_etag}
use sre_agent_team.Table.Client.{Operation, replace, create, TableClient}

-- An entity apart from its ETag.
abbrev pub body : Entity → Entity
body e = record e { etag = none }

abbrev pub of_row : Option Entity → Result TableError Entity
of_row none = err not_found
of_row (some e) = ok e

abbrev pub written_entity : Operation → Entity
written_entity (replace e tag) = e
written_entity (create e) = e

-- The entity stands under the keys.
abbrev pub is_at : String → String → Entity → Bool
is_at pk rk e = e.partition_key == pk && e.row_key == rk

-- A transaction writes one partition, and no entity twice.
abbrev pub apart_from : Entity → List Operation → Bool
apart_from e [] = true
apart_from e (op ∷ ops) =
    (written_entity op).partition_key == e.partition_key
    && not ((written_entity op).row_key == e.row_key)
    && apart_from e ops

abbrev pub is_batch : List Operation → Bool
is_batch [] = true
is_batch (op ∷ ops) = apart_from (written_entity op) ops && is_batch ops

-- What stands under the keys after the writes, without ETags.
abbrev pub written : List Operation → String → String → Option Entity → Option Entity
written [] pk rk old = old
written (op ∷ ops) pk rk old =
    if is_at pk rk (written_entity op)
    then some (body (written_entity op))
    else written ops pk rk old

module _ {T : Type 0} (rows : T → String → String → Option Entity) where
  -- The row under the keys, without its ETag.
  abbrev pub bodies : T → String → String → Option Entity
  bodies t pk rk = Option.map body (rows t pk rk)

  -- The condition of a write.
  abbrev pub Holds : T → Operation → Type 0
  Holds t (replace e tag) =
      (old : Entity) × (rows t e.partition_key e.row_key ≡ some old) × (entity_etag old ≡ ok tag)
  Holds t (create e) = rows t e.partition_key e.row_key ≡ none

  -- After the writes, the table is the one before with these entities.
  abbrev pub Wrote : List Operation → T → T → Type 0
  Wrote ops t t' = (pk rk : String) → bodies t' pk rk ≡ written ops pk rk (bodies t pk rk)

pub record IsAlone {T : Type 0} (client : TableClient T)
    (rows : T → String → String → Option Entity) : Type 0 where
  pub reads : (pk rk : String) (t : T) → client.get_entity pk rk t ≡ (of_row (rows t pk rk), t)
  pub keyed :
      (pk rk : String) (t : T) (e : Entity)
      → rows t pk rk ≡ some e
      → (e.partition_key ≡ pk) × (e.row_key ≡ rk)
  pub tagged :
      (pk rk : String) (t : T) (e : Entity)
      → rows t pk rk ≡ some e
      → (tag : String) × (entity_etag e ≡ ok tag)
  pub updates :
      (e : Entity) (tag : String) (t : T)
      → Holds rows t (replace e tag)
      → let (r, t') = client.update_entity e tag t in
        (r ≡ ok tt) × Wrote rows (replace e tag ∷ []) t t'
  pub submits :
      (ops : List Operation) (t : T)
      → is_batch ops ≡ true
      → All (Holds rows t) ops
      → let (r, t') = client.submit_transaction ops t in (r ≡ ok tt) × Wrote rows ops t t'
  pub deletes :
      (e : Entity) (tag : String) (t : T)
      → Holds rows t (replace e tag)
      → let (r, t') = client.delete_unchanged e.partition_key e.row_key tag t in
        (r ≡ ok tt)
        × ((pk rk : String)
            → bodies rows t' pk rk ≡ (if is_at pk rk e then none else bodies rows t pk rk))
