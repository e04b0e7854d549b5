-- ===== src/Storage/Mutation/Handlers.antt =====
-- mutation/api.go: the handler of each kind of mutation.
use fun_project.Common.{
  ℕ, String, Option, none, some, Bool, true, not, ◌&&◌, [], ◌∷◌, ◌++◌, ◌==◌, nat_eq, if◌then◌else◌,
}
use fun_project.Common.Exec.{ok, raise, lift, ◌>>=◌, ◌>>◌}
use fun_project.Storage.Schema.Types.{
  Entity, Relationship, lifecycle_active, zero_time, entity_id_of, relationship_id_of,
}
use fun_project.Storage.Schema.Validate.{
  missing_entity, missing_relationship, missing_target, unknown_kind, version_conflict,
  unknown_from, unknown_to, not_found, marshal_failed, validate_entity, validate_relationship,
}
use fun_project.Storage.Session.{
  Env, MutationType, Payload, MutationKind, OpResult, OperationType, Session, Tx, get_db,
  set_result, now, entity_created, entity_updated, entity_soft_deleted, relationship_created,
  relationship_updated, relationship_deleted, created, updated, deleted, no_change,
}
use fun_project.Storage.Session
use fun_project.Storage.Graph.{
  find_entity, find_relationship, entity_exists, insert_entity, update_entity, soft_delete,
  insert_relationship, update_relationship, soft_delete_rel, next_version, mark_entity_deleted,
  mark_relationship_deleted,
}
use fun_project.Storage.DeltaLog
use fun_project.Storage.Mutation.Conflict.{entity_equal_for_update, rel_equal_for_update}

-- One item of a batch; `none` is the nil pointer.
pub record Mutation : Type 0 where
  pub kind : MutationKind
  pub entity : Option Entity
  pub relationship : Option Relationship
  pub target_id : String

abbrev pub set_operation : OperationType → Tx Unit
set_operation op = set_result (λ r. record r { operation = op })

abbrev pub set_entity_id : String → Tx Unit
set_entity_id id = set_result (λ r. record r { entity_id = id })

abbrev pub set_relationship_id : String → Tx Unit
set_relationship_id id = set_result (λ r. record r { relationship_id = id })

abbrev pub invalidate : Relationship → Tx Unit
invalidate r s = (ok tt, record s { stale_pairs = s.stale_pairs ++ (r.from_id, r.to_id) ∷ [] })

-- What upsertEntity fills in before it looks at the table.
unfoldable pub normalize_entity : Env → Entity → Entity
normalize_entity env e = record e {
  id = if e.id == "" then entity_id_of env.hex_sha256 e else e.id;
  is_active = true;
  lifecycle_stage = if e.lifecycle_stage == "" then lifecycle_active else e.lifecycle_stage;
}

unfoldable pub normalize_relationship : Env → Relationship → Relationship
normalize_relationship env r = record r {
  id = if r.id == "" then relationship_id_of env.hex_sha256 r else r.id;
  is_active = true;
}

-- A version was supplied and is not the one at hand.
unfoldable pub clashes : ℕ → ℕ → Bool
clashes supplied have = not (nat_eq supplied 0) && not (nat_eq supplied have)

module _ (env : Env) where
  -- json.Marshal of a state, where there is one
  abbrev pub encodes : Option Payload → Bool
  encodes none = true
  encodes (some p) = env.marshals p

  -- appendEntityLog and appendRelLog
  unfoldable pub append_entity_log :
      MutationType → String → Option Payload → Option Payload → Tx Unit
  append_entity_log mut id before after =
      if not (encodes before && encodes after) then raise marshal_failed else do
        n ← DeltaLog.append env (record {
          entry_id = 0;
          transaction_id = env.txn_id;
          mutation_type = mut;
          entity_id = id;
          relationship_id = "";
          before_state = before;
          after_state = after;
          occurred_at = zero_time;
          recorded_at = zero_time;
        })
        set_result (λ r. record r { log_entry_id = n })

  unfoldable pub append_rel_log : MutationType → String → Option Payload → Option Payload → Tx Unit
  append_rel_log mut id before after =
      if not (encodes before && encodes after) then raise marshal_failed else do
        n ← DeltaLog.append env (record {
          entry_id = 0;
          transaction_id = env.txn_id;
          mutation_type = mut;
          entity_id = "";
          relationship_id = id;
          before_state = before;
          after_state = after;
          occurred_at = zero_time;
          recorded_at = zero_time;
        })
        set_result (λ r. record r { log_entry_id = n })

  -- upsertEntity after the row was looked up
  unfoldable pub store_entity : Entity → Option Entity → Tx Unit
  store_entity e none = do
    e' ← insert_entity env e
    set_operation created
    append_entity_log entity_created e'.id none (some (Session.entity e'))
  store_entity e (some existing) =
      if clashes e.version existing.version
      then raise (version_conflict existing.version e.version)
      else (let e' = record e { version = next_version existing.version } in
          if entity_equal_for_update existing e' then set_operation no_change else do
            update_entity env e' existing.version
            set_operation updated
            append_entity_log entity_updated e'.id (some (Session.entity existing))
                (some (Session.entity e')))

  unfoldable pub upsert_entity : Option Entity → Tx Unit
  upsert_entity none = raise missing_entity
  upsert_entity (some e) = do
    lift (validate_entity e)
    let e' = normalize_entity env e
    set_entity_id e'.id
    db ← get_db
    store_entity e' (find_entity e'.id db)

  unfoldable pub store_relationship : Relationship → Option Relationship → Tx Unit
  store_relationship r none = do
    r' ← insert_relationship env r
    set_operation created
    invalidate r'
    append_rel_log relationship_created r'.id none (some (Session.relationship r'))
  store_relationship r (some existing) =
      if clashes r.version existing.version
      then raise (version_conflict existing.version r.version)
      else (let r' = record r { version = next_version existing.version } in
          if rel_equal_for_update existing r' then set_operation no_change else do
            update_relationship env r' existing.version
            set_operation updated
            invalidate r'
            append_rel_log relationship_updated r'.id (some (Session.relationship existing))
                (some (Session.relationship r')))

  -- Endpoints must exist (REL-001).
  unfoldable pub connect : Relationship → Tx Unit
  connect r = do
    db ← get_db
    if not (entity_exists r.from_id db)
        then raise (unknown_from r.from_id)
        else (if not (entity_exists r.to_id db)
            then raise (unknown_to r.to_id)
            else store_relationship r (find_relationship r.id db))

  unfoldable pub upsert_relationship : Option Relationship → Tx Unit
  upsert_relationship none = raise missing_relationship
  upsert_relationship (some r) = do
    lift (validate_relationship r)
    let r' = normalize_relationship env r
    set_relationship_id r'.id
    connect r'

  unfoldable pub remove_entity : String → Option Entity → Tx Unit
  remove_entity id none = raise not_found
  remove_entity id (some existing) = if not existing.is_active then set_operation no_change else do
    soft_delete env id existing.version
    set_operation deleted
    t ← now env
    append_entity_log entity_soft_deleted id (some (Session.entity existing))
        (some (Session.entity (mark_entity_deleted t existing)))

  unfoldable pub soft_delete_entity : String → Tx Unit
  soft_delete_entity id =
      if id == ""
      then raise missing_target
      else do set_entity_id id; db ← get_db; remove_entity id (find_entity id db)

  unfoldable pub remove_relationship : String → Option Relationship → Tx Unit
  remove_relationship id none = raise not_found
  remove_relationship id (some existing) =
      if not existing.is_active then set_operation no_change else do
        soft_delete_rel env id existing.version
        set_operation deleted
        invalidate existing
        t ← now env
        append_rel_log relationship_deleted id (some (Session.relationship existing))
            (some (Session.relationship (mark_relationship_deleted t existing)))

  unfoldable pub delete_relationship : String → Tx Unit
  delete_relationship id =
      if id == ""
      then raise missing_target
      else do set_relationship_id id; db ← get_db; remove_relationship id (find_relationship id db)

  unfoldable pub dispatch : MutationKind → Mutation → Tx Unit
  dispatch MutationKind.upsert_entity m = upsert_entity m.entity
  dispatch MutationKind.upsert_relationship m = upsert_relationship m.relationship
  dispatch MutationKind.soft_delete_entity m = soft_delete_entity m.target_id
  dispatch MutationKind.delete_relationship m = delete_relationship m.target_id
  dispatch (MutationKind.other name) m = raise (unknown_kind name)

  unfoldable pub apply_one : Mutation → Tx Unit
  unfolding dispatch
  apply_one m = dispatch m.kind m
