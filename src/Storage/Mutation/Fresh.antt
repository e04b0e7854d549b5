-- ===== src/Storage/Mutation/Fresh.antt =====
-- Which rows a mutation may change, and what its result says of them.
pub mod Handlers
pub mod Cached
pub mod Queued
use fun_project.Common.{
  String, Option, none, some, Bool, true, false, ◌≡◌, ◌≢◌, refl, ◌⊎◌, inl, inr, arith, ◌==◌, not,
  Bool-cases, eq_iff, is_none, if◌then◌else◌,
}
use fun_project.Common.Exec.{ok}
use fun_project.Storage.Schema.Types.{Time, Entity, Relationship}
use fun_project.Storage.Table.Laws.{find-append, find-update}
use fun_project.Storage.Session.{Env, Db, Session, OpResult}
use fun_project.Storage.Graph.{
  entity_key, entity_version, find_entity, find_relationship, insert_entity, update_entity,
  soft_delete, overwrite_entity, mark_entity_deleted, with_defaults, insert_relationship,
  update_relationship, soft_delete_rel, next_version,
}
use fun_project.Storage.DeltaLog
use fun_project.Storage.Mutation.Handlers.{
  Mutation, store_entity, store_relationship, remove_entity, remove_relationship, connect,
  append_entity_log, append_rel_log, upsert_entity, upsert_relationship, soft_delete_entity,
  delete_relationship, dispatch, apply_one, normalize_entity, normalize_relationship,
}
use fun_project.Storage.Mutation.Step.{row_of, delete_row}
use fun_project.Storage.Table.{Row}
use fun_project.Storage.Mutation.Batch.{changed}

-- The row at `id` is as it was, or the result names `id` and says that it changed.
abbrev pub Told : String → Session → Session → Type 0
Told id s s' =
    (find_entity id s'.db ≡ find_entity id s.db)
    ⊎ (s'.result.entity_id ≡ id) × (changed s'.result.operation ≡ true)

overwrite_value :
    (e : Entity) (t : Time) (r : Row Entity)
    → (overwrite_entity e t r).value ≡ record e { id = r.value.id }
unfolding overwrite_entity
overwrite_value e t r = refl

marked_id : (t : Time) (e : Entity) → (mark_entity_deleted t e).id ≡ e.id
unfolding mark_entity_deleted
marked_id t e = refl

module _ (env : Env) where
  entities-store_relationship :
      (r : Relationship) (o : Option Relationship) (s : Session)
      → (store_relationship env r o s).1.db.entities ≡ s.db.entities
  unfolding store_relationship insert_relationship update_relationship append_rel_log
      DeltaLog.append
  entities-store_relationship r none s = ground arith
  entities-store_relationship r (some x) s = ground arith

  entities-remove_relationship :
      (id : String) (o : Option Relationship) (s : Session)
      → (remove_relationship env id o s).1.db.entities ≡ s.db.entities
  unfolding remove_relationship soft_delete_rel append_rel_log DeltaLog.append
  entities-remove_relationship id none s = ground arith
  entities-remove_relationship id (some x) s = ground arith

  pub entities-upsert_relationship :
      (o : Option Relationship) (s : Session)
      → (upsert_relationship env o s).1.db.entities ≡ s.db.entities
  unfolding upsert_relationship connect normalize_relationship
  entities-upsert_relationship none s = refl
  entities-upsert_relationship (some r) s = ground (
    arith,
    entities-store_relationship (normalize_relationship env r)
        (find_relationship (normalize_relationship env r).id s.db)
        (record s {
          result = record s.result { relationship_id = (normalize_relationship env r).id };
        }),
  )

  pub entities-delete_relationship :
      (id : String) (s : Session) → (delete_relationship env id s).1.db.entities ≡ s.db.entities
  unfolding delete_relationship
  entities-delete_relationship id s = ground (
    arith,
    entities-remove_relationship id (find_relationship id s.db)
        (record s { result = record s.result { relationship_id = id } }),
  )

  pub Told-store_entity :
      (id : String) (e : Entity) (o : Option Entity) (s : Session)
      → s.result.entity_id ≡ e.id
      → (store_entity env e o s).0 ≡ ok tt
      → Told id s (store_entity env e o s).1
  unfolding store_entity insert_entity update_entity append_entity_log DeltaLog.append find_entity
      with_defaults changed
  Told-store_entity id e none s named q = ground (
    arith,
    find-append entity_key id s.db.entities (row_of (with_defaults e) (env.clock s.tick)),
    eq_iff e.id id,
  )
  Told-store_entity id e (some x) s named q =
      let y = record e { version = next_version x.version } in
      ground (
        arith,
        find-update entity_key entity_version id e.id x.version
            (overwrite_entity y (env.clock s.tick)) (λ z. record y { id = z.id })
            (overwrite_value y (env.clock s.tick)) (λ z. refl) s.db.entities,
        eq_iff e.id id,
      )

  pub Told-remove_entity :
      (id k : String) (o : Option Entity) (s : Session)
      → s.result.entity_id ≡ k
      → (remove_entity env k o s).0 ≡ ok tt
      → Told id s (remove_entity env k o s).1
  unfolding remove_entity soft_delete append_entity_log DeltaLog.append find_entity changed
  Told-remove_entity id k none s named q = ground arith
  Told-remove_entity id k (some x) s named q = ground (
    arith,
    find-update entity_key entity_version id k x.version
        (delete_row mark_entity_deleted (env.clock s.tick)) (mark_entity_deleted (env.clock s.tick))
        (λ r. refl) (marked_id (env.clock s.tick)) s.db.entities,
    eq_iff k id,
  )
