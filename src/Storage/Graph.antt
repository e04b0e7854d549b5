-- ===== src/Storage/Graph.antt =====
-- graphdb/store.go: the writes on the tables `entities` and `relationships`, each inside the
-- caller's transaction. The column constraints are those of graphdb/schema.sql.
use fun_project.Common.{
  ℕ, ◌+◌, ◌%◌, ◌^◌, String, Option, some, Bool, true, false, ◌||◌, ◌&&◌, not, [], ◌∷◌, ◌++◌, ◌==◌,
  nat_eq, is_none, if◌then◌else◌,
}
use fun_project.Common.Exec.{raise, pure, ◌>>=◌, ◌>>◌}
use fun_project.Storage.Schema.Float.{Float64, float_eq}
use fun_project.Storage.Schema.Types.{
  Time, Entity, Relationship, lifecycle_active, lifecycle_deleted,
}
use fun_project.Storage.Schema.Validate.{stale_version, constraint, marshal_failed}
use fun_project.Storage.Table
use fun_project.Storage.Table.{Row}
use fun_project.Storage.Session.{Env, Db, Tx, get_db, put_db, now}

abbrev pub entity_key : Entity → String
entity_key e = e.id

abbrev pub entity_version : Entity → ℕ
entity_version e = e.version

abbrev pub rel_key : Relationship → String
rel_key r = r.id

abbrev pub rel_version : Relationship → ℕ
rel_version r = r.version

-- `v + 1` on a 64-bit `int`
unfoldable pub next_version : ℕ → ℕ
next_version v = (v + 1) % 2 ^ 64

unfoldable pub find_entity : String → Db → Option Entity
find_entity id db = Table.find entity_key id db.entities

unfoldable pub find_relationship : String → Db → Option Relationship
find_relationship id db = Table.find rel_key id db.relationships

-- EntityExists
unfoldable pub entity_exists : String → Db → Bool
entity_exists id db = if is_none (find_entity id db) then false else true

-- What an INSERT fills in: version 1 and stage ACTIVE where the caller gave none.
unfoldable pub with_defaults : Entity → Entity
with_defaults e = record e {
  lifecycle_stage = if e.lifecycle_stage == "" then lifecycle_active else e.lifecycle_stage;
  version = if nat_eq e.version 0 then 1 else e.version;
}

unfoldable pub rel_with_defaults : Relationship → Relationship
rel_with_defaults r = record r { version = if nat_eq r.version 0 then 1 else r.version }

unfoldable pub overwrite_entity : Entity → Time → Row Entity → Row Entity
overwrite_entity e t row = record row { value = record e { id = row.value.id }; updated_at = t }

unfoldable pub overwrite_relationship : Relationship → Time → Row Relationship → Row Relationship
overwrite_relationship r t row = record row {
  value = record r { id = row.value.id };
  updated_at = t;
}

unfoldable pub mark_entity_deleted : Time → Entity → Entity
mark_entity_deleted t e = record e {
  is_active = false;
  lifecycle_stage = lifecycle_deleted;
  valid_to = some t;
  version = next_version e.version;
}

unfoldable pub mark_relationship_deleted : Time → Relationship → Relationship
mark_relationship_deleted t r = record r {
  is_active = false;
  valid_to = some t;
  version = next_version r.version;
}

-- from_id and to_id REFERENCE entities(id)
unfoldable pub dangling : Relationship → Db → Bool
dangling r db = is_none (find_entity r.from_id db) || is_none (find_entity r.to_id db)

-- The driver binds a NaN as NULL, which the column `confidence` refuses.
unfoldable pub is_number : Float64 → Bool
is_number c = float_eq c c

module _ (env : Env) where
  -- InsertEntity; the entity comes back as the pointer's target is left.
  unfoldable pub insert_entity : Entity → Tx Entity
  insert_entity e = if not (env.marshals_properties e.properties) then raise marshal_failed else do
    t ← now env
    db ← get_db
    let e' = with_defaults e
    let row : Row Entity = record { value = e'; created_at = t; updated_at = t }
    if is_none (find_entity e'.id db) && is_number e.confidence
        then (do put_db (record db { entities = db.entities ++ row ∷ [] }); pure e')
        else raise constraint

  unfoldable pub update_entity : Entity → ℕ → Tx Unit
  update_entity e prev =
      if not (env.marshals_properties e.properties) then raise marshal_failed else do
        t ← now env
        db ← get_db
        if nat_eq (Table.affected entity_key entity_version e.id prev db.entities) 0
            then raise stale_version
            else (if not (is_number e.confidence)
                then raise constraint
                else put_db (record db {
                  entities =
                      Table.update_where entity_key entity_version e.id prev (overwrite_entity e t)
                        db.entities;
                }))

  unfoldable pub soft_delete : String → ℕ → Tx Unit
  soft_delete id prev = do
    t ← now env
    db ← get_db
    if nat_eq (Table.affected entity_key entity_version id prev db.entities) 0
        then raise stale_version
        else put_db (record db {
          entities =
              Table.update_where entity_key entity_version id prev
                (λ row. record row { value = mark_entity_deleted t row.value; updated_at = t })
                db.entities;
        })

  unfoldable pub insert_relationship : Relationship → Tx Relationship
  insert_relationship r =
      if not (env.marshals_properties r.properties) then raise marshal_failed else do
        t ← now env
        db ← get_db
        let r' = rel_with_defaults r
        let row : Row Relationship = record { value = r'; created_at = t; updated_at = t }
        if is_none (find_relationship r'.id db)
            then (if dangling r' db || not (is_number r.confidence) then raise constraint else do
              put_db (record db { relationships = db.relationships ++ row ∷ [] })
              pure r')
            else raise constraint

  unfoldable pub update_relationship : Relationship → ℕ → Tx Unit
  update_relationship r prev =
      if not (env.marshals_properties r.properties) then raise marshal_failed else do
        t ← now env
        db ← get_db
        if nat_eq (Table.affected rel_key rel_version r.id prev db.relationships) 0
            then raise stale_version
            else (if dangling r db || not (is_number r.confidence)
                then raise constraint
                else put_db (record db {
                  relationships =
                      Table.update_where rel_key rel_version r.id prev (overwrite_relationship r t)
                        db.relationships;
                }))

  -- SoftDeleteRelationship
  unfoldable pub soft_delete_rel : String → ℕ → Tx Unit
  soft_delete_rel id prev = do
    t ← now env
    db ← get_db
    if nat_eq (Table.affected rel_key rel_version id prev db.relationships) 0
        then raise stale_version
        else put_db (record db {
          relationships =
              Table.update_where rel_key rel_version id prev
                (λ row. record row {
                  value = mark_relationship_deleted t row.value;
                  updated_at = t;
                })
                db.relationships;
        })
