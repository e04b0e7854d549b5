-- ===== src/Storage/Mutation/Step.antt =====
-- The abstract machine that the mutation API runs: the steps that the tables and the log take
-- together, each with the conditions under which the API takes it.
pub mod Nodes
pub mod Edges
pub mod Walk
use fun_project.Common.{
  ℕ, suc, String, Option, none, some, Bool, true, false, [], ◌∷◌, ◌++◌, ◌≡◌, ◌==◌,
}
use fun_project.Storage.Schema.Types.{Time, Entity, Relationship}
use fun_project.Storage.Table.{Row, update_where}
use fun_project.Storage.Session.{
  Db, LogEntry, MutationType, Payload, entity_created, entity_updated, entity_soft_deleted,
  relationship_created, relationship_updated, relationship_deleted,
}
use fun_project.Storage.Session
use fun_project.Storage.Graph.{
  entity_key, entity_version, rel_key, rel_version, find_entity, find_relationship, dangling,
  overwrite_entity, overwrite_relationship, mark_entity_deleted, mark_relationship_deleted,
  next_version,
}

-- The tables with one more entry at the end of the log.
abbrev pub logged :
    String → Time → MutationType → String → String → Option Payload → Payload → Db → Db
logged txn u mut node edge before after d = record d {
  delta_log =
      d.delta_log
      ++ (record {
        entry_id = suc d.last_entry_id;
        transaction_id = txn;
        mutation_type = mut;
        entity_id = node;
        relationship_id = edge;
        before_state = before;
        after_state = some after;
        occurred_at = u;
        recorded_at = u;
      })
        ∷ [];
  last_entry_id = suc d.last_entry_id;
}

abbrev pub row_of : {A : Type 0} → A → Time → Row A
row_of a t = record { value = a; created_at = t; updated_at = t }

abbrev pub delete_row : {A : Type 0} → (Time → A → A) → Time → Row A → Row A
delete_row mark t row = record row { value = mark t row.value; updated_at = t }

-- `t` stamps the row and `u` the log entry; a deletion reads the clock once more for the log, `v`.
pub data Step (txn : String) : Db → Db → Type 0 where
  stay : (d : Db) → Step txn d d
  insert_node :
      (d : Db) (e : Entity) (t u : Time)
      → find_entity e.id d ≡ none
      → Step txn d (
          logged txn u entity_created e.id "" none
            (Session.entity e)
            (record d { entities = d.entities ++ row_of e t ∷ [] }))
  update_node :
      (d : Db) (x e : Entity) (t u : Time)
      → find_entity e.id d ≡ some x
      → e.version ≡ next_version x.version
      → Step txn d (
          logged txn u entity_updated e.id ""
            (some (Session.entity x))
            (Session.entity e)
            (record d {
              entities =
                  update_where entity_key entity_version e.id x.version
                    (overwrite_entity e t)
                    d.entities;
            }))
  delete_node :
      (d : Db) (id : String) (x : Entity) (t u v : Time)
      → find_entity id d ≡ some x
      → x.is_active ≡ true
      → Step txn d (
          logged txn u entity_soft_deleted id ""
            (some (Session.entity x))
            (Session.entity (mark_entity_deleted v x))
            (record d {
              entities =
                  update_where entity_key entity_version id x.version
                    (delete_row mark_entity_deleted t)
                    d.entities;
            }))
  insert_edge :
      (d : Db) (r : Relationship) (t u : Time)
      → find_relationship r.id d ≡ none
      → dangling r d ≡ false
      → (r.from_id == r.to_id) ≡ false
      → Step txn d (
          logged txn u relationship_created "" r.id none
            (Session.relationship r)
            (record d { relationships = d.relationships ++ row_of r t ∷ [] }))
  update_edge :
      (d : Db) (x r : Relationship) (t u : Time)
      → find_relationship r.id d ≡ some x
      → dangling r d ≡ false
      → (r.from_id == r.to_id) ≡ false
      → r.version ≡ next_version x.version
      → Step txn d (
          logged txn u relationship_updated "" r.id
            (some (Session.relationship x))
            (Session.relationship r)
            (record d {
              relationships =
                  update_where rel_key rel_version r.id x.version
                    (overwrite_relationship r t)
                    d.relationships;
            }))
  delete_edge :
      (d : Db) (id : String) (x : Relationship) (t u v : Time)
      → find_relationship id d ≡ some x
      → x.is_active ≡ true
      → Step txn d (
          logged txn u relationship_deleted "" id
            (some (Session.relationship x))
            (Session.relationship (mark_relationship_deleted v x))
            (record d {
              relationships =
                  update_where rel_key rel_version id x.version
                    (delete_row mark_relationship_deleted t)
                    d.relationships;
            }))
