-- ===== src/Storage/Mutation/Projection.antt =====
-- "Delta log is truth, graph is projection": the log replays to the tables.
use fun_project.Common.{String, none, some, List, [], ◌∷◌, ◌++◌, ◌≡◌, refl, ap, sym, if◌then◌else◌}
use fun_project.Common.Exec.{ok}
use fun_project.Storage.Schema.Types.{Entity, Relationship}
use fun_project.Storage.Table.{find}
use fun_project.Storage.Table.Laws.{key_of_find}
use fun_project.Storage.Session.{Env, Db, LogEntry, empty_db}
use fun_project.Storage.Graph.{
  entity_key, entity_version, rel_key, rel_version, find_entity, find_relationship,
  overwrite_entity, overwrite_relationship, mark_entity_deleted, mark_relationship_deleted,
}
use fun_project.Storage.Snapshot.Replay.{
  GraphState, empty_state, put_value, find_value, replay_all, replay_entry,
}
use fun_project.Storage.Snapshot.Replay.Laws.{replay_all-append, Agree, Agree-append, Agree-update}
use fun_project.Storage.Mutation.Handlers.{Mutation}
use fun_project.Storage.Mutation.Batch.{Store, apply_batch}
use fun_project.Storage.Mutation.Step.{
  Step, stay, insert_node, update_node, delete_node, insert_edge, update_edge, delete_edge,
  delete_row,
}
use fun_project.Storage.Mutation.Step.Walk.{batch-Keeps}

-- What the comparison forgets: the end of validity of what has been deleted, for which the handler
-- and the store read the clock separately.
abbrev pub settle_entity : Entity → Entity
settle_entity e = if e.is_active then e else record e { valid_to = none }

abbrev pub settle_relationship : Relationship → Relationship
settle_relationship r = if r.is_active then r else record r { valid_to = none }

pub record IsProjection (db : Db) : Type 0 where
  pub graph : GraphState
  pub replays : replay_all db.delta_log empty_state ≡ ok graph
  pub nodes : Agree entity_key settle_entity graph.entities db.entities
  pub edges : Agree rel_key settle_relationship graph.relationships db.relationships

-- A log that is one entry longer, whose entry takes the replayed graph to `h`.
grow :
    {g h : GraphState} (log : List LogEntry) (e : LogEntry)
    → replay_all log empty_state ≡ ok g
    → replay_entry e g ≡ ok h
    → replay_all (log ++ e ∷ []) empty_state ≡ ok h
grow log e p q = rw (replay_all-append, p) q

overwrites :
    (d : Db) (x e : Entity)
    → find_entity e.id d ≡ some x
    → settle_entity e ≡ settle_entity (record e { id = x.id })
unfolding find_entity
overwrites d x e found =
    ap (λ i. settle_entity (record e { id = i }))
      (sym (key_of_find entity_key e.id d.entities x found))

overwrites_rel :
    (d : Db) (x r : Relationship)
    → find_relationship r.id d ≡ some x
    → settle_relationship r ≡ settle_relationship (record r { id = x.id })
unfolding find_relationship
overwrites_rel d x r found =
    ap (λ i. settle_relationship (record r { id = i }))
      (sym (key_of_find rel_key r.id d.relationships x found))

Step-IsProjection : (txn : String) (d d' : Db) → Step txn d d' → IsProjection d → IsProjection d'
unfolding replay_entry find_entity find_relationship overwrite_entity overwrite_relationship
    mark_entity_deleted mark_relationship_deleted
Step-IsProjection txn d d' (stay _) p = p
Step-IsProjection txn d d' (insert_node _ e t u free) p = record {
  graph = record p.graph { entities = p.graph.entities ++ e ∷ [] };
  replays = grow d.delta_log _ p.replays refl;
  nodes = Agree-append entity_key settle_entity p.graph.entities d.entities _ p.nodes;
  edges = p.edges;
}
Step-IsProjection txn d d' (update_node _ x e t u found _) p = record {
  graph = record p.graph { entities = put_value entity_key e p.graph.entities };
  replays = grow d.delta_log _ p.replays refl;
  nodes =
      Agree-update entity_key settle_entity entity_version (overwrite_entity e t)
        (λ z. record e { id = z.id }) (λ r. refl) (λ z. refl) p.graph.entities d.entities e.id x e
        refl found (overwrites d x e found) p.nodes;
  edges = p.edges;
}
Step-IsProjection txn d d' (delete_node _ id x t u v found _) p = record {
  graph = record p.graph {
    entities = put_value entity_key (mark_entity_deleted v x) p.graph.entities;
  };
  replays = grow d.delta_log _ p.replays refl;
  nodes =
      Agree-update entity_key settle_entity entity_version (delete_row mark_entity_deleted t)
        (mark_entity_deleted t) (λ r. refl) (λ z. refl) p.graph.entities d.entities id x
        (mark_entity_deleted v x) (key_of_find entity_key id d.entities x found) found refl p.nodes;
  edges = p.edges;
}
Step-IsProjection txn d d' (insert_edge _ r t u free _ _) p = record {
  graph = record p.graph { relationships = p.graph.relationships ++ r ∷ [] };
  replays = grow d.delta_log _ p.replays refl;
  nodes = p.nodes;
  edges = Agree-append rel_key settle_relationship p.graph.relationships d.relationships _ p.edges;
}
Step-IsProjection txn d d' (update_edge _ x r t u found _ _ _) p = record {
  graph = record p.graph { relationships = put_value rel_key r p.graph.relationships };
  replays = grow d.delta_log _ p.replays refl;
  nodes = p.nodes;
  edges =
      Agree-update rel_key settle_relationship rel_version (overwrite_relationship r t)
        (λ z. record r { id = z.id }) (λ r. refl) (λ z. refl) p.graph.relationships d.relationships
        r.id x r refl found (overwrites_rel d x r found) p.edges;
}
Step-IsProjection txn d d' (delete_edge _ id x t u v found _) p = record {
  graph = record p.graph {
    relationships = put_value rel_key (mark_relationship_deleted v x) p.graph.relationships;
  };
  replays = grow d.delta_log _ p.replays refl;
  nodes = p.nodes;
  edges =
      Agree-update rel_key settle_relationship rel_version (delete_row mark_relationship_deleted t)
        (mark_relationship_deleted t) (λ r. refl) (λ z. refl) p.graph.relationships d.relationships
        id x (mark_relationship_deleted v x) (key_of_find rel_key id d.relationships x found) found
        refl p.edges;
}

-- If the replayed delta log has the nodes and edges of the tables before a batch, it has them
-- after it, whatever the mutations are and whether the batch succeeds, fails or is not committed:
-- at every id the replay and the tables agree, except for valid_to of what is not active.
pub apply_batch-IsProjection :
    (env : Env) (ms : List Mutation) (s : Store)
    → IsProjection s.db
    → IsProjection (apply_batch env ms s).1.db
apply_batch-IsProjection env = batch-Keeps env IsProjection (Step-IsProjection env.txn_id)

pub IsProjection-empty : IsProjection empty_db
unfolding replay_all find_value find
IsProjection-empty = record {
  graph = empty_state;
  replays = refl;
  nodes = λ k. refl;
  edges = λ k. refl;
}
