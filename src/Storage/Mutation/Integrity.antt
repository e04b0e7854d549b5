-- ===== src/Storage/Mutation/Integrity.antt =====
-- The well-formedness of the tables and of the log.
use fun_project.Common.{
  ℕ, suc, ◌∙◌, All-append, either_branch, ◌+◌, String, List, [], ◌∷◌, ◌++◌, false, ◌==◌, is_none,
  ◌≡◌, refl, arith, All, length, length-append,
}
use fun_project.Storage.Schema.Types.{Entity, Relationship}
use fun_project.Storage.Table.{Row, find, update_where, hit}
use fun_project.Storage.Table.Unique.{
  Unique, Unique-append, Unique-update, exists-append, exists-update,
}
use fun_project.Storage.Session.{Env, Db, LogEntry, empty_db}
use fun_project.Storage.Graph.{
  entity_key, entity_version, rel_key, rel_version, find_entity, find_relationship, dangling,
  overwrite_entity, overwrite_relationship, mark_entity_deleted, mark_relationship_deleted,
}
use fun_project.Storage.Mutation.Handlers.{Mutation}
use fun_project.Storage.Mutation.Batch.{Store, apply_batch}
use fun_project.Storage.Mutation.Step.{
  Step, stay, insert_node, update_node, delete_node, insert_edge, update_edge, delete_edge,
  delete_row, row_of,
}
use fun_project.Storage.Mutation.Step.Walk.{batch-Keeps}

-- Both ends of an edge are in the table of nodes, and they differ.
pub record IsTied (nodes : List (Row Entity)) (row : Row Relationship) : Type 0 where
  pub from_found : is_none (find entity_key row.value.from_id nodes) ≡ false
  pub to_found : is_none (find entity_key row.value.to_id nodes) ≡ false
  pub apart : (row.value.from_id == row.value.to_id) ≡ false

-- The entries are numbered one after another, the first one above `n`.
abbrev pub IsNumbered : ℕ → List LogEntry → Type 0
IsNumbered n [] = Unit
IsNumbered n (e ∷ log) = (e.entry_id ≡ suc n) × IsNumbered (suc n) log

pub record IsConsistent (db : Db) : Type 0 where
  pub nodes : Unique entity_key db.entities
  pub edges : Unique rel_key db.relationships
  pub ends : All (IsTied db.entities) db.relationships
  pub numbered : IsNumbered 0 db.delta_log
  pub counter : db.last_entry_id ≡ length db.delta_log

pub IsNumbered-append :
    (n : ℕ) (log : List LogEntry) (e : LogEntry)
    → IsNumbered n log
    → e.entry_id ≡ suc (n + length log)
    → IsNumbered n (log ++ e ∷ [])
IsNumbered-append n [] e h k = (omega arith, tt)
IsNumbered-append n (d ∷ log) e h k = (h.0, IsNumbered-append (suc n) log e h.1 (omega arith))

-- Nodes that stay keep the edges tied.
pub All-IsTied :
    (nodes nodes' : List (Row Entity))
    → ((k : String)
        → is_none (find entity_key k nodes) ≡ false
        → is_none (find entity_key k nodes') ≡ false)
    → (rows : List (Row Relationship)) → All (IsTied nodes) rows
    → All (IsTied nodes') rows
All-IsTied nodes nodes' kept [] h = tt
All-IsTied nodes nodes' kept (r ∷ rows) h = (
  record {
    from_found = kept r.value.from_id h.0.from_found;
    to_found = kept r.value.to_id h.0.to_found;
    apart = h.0.apart;
  },
  All-IsTied nodes nodes' kept rows h.1,
)

-- An edge written after the check of its ends is tied.
IsTied-of :
    (d : Db) (r : Relationship) (row : Row Relationship)
    → row.value.from_id ≡ r.from_id
    → row.value.to_id ≡ r.to_id
    → dangling r d ≡ false
    → (r.from_id == r.to_id) ≡ false
    → IsTied d.entities row
unfolding dangling find_entity
IsTied-of d r row p q h k = record {
  from_found = rw p (ground arith);
  to_found = rw q (ground arith);
  apart = rw (p, q) k;
}

-- An UPDATE whose rows stay tied keeps all rows tied.
All-IsTied-update :
    (nodes : List (Row Entity)) (id : String) (v : ℕ) (f : Row Relationship → Row Relationship)
    → ((r : Row Relationship) → IsTied nodes r → IsTied nodes (f r))
    → (rows : List (Row Relationship)) → All (IsTied nodes) rows
    → All (IsTied nodes) (update_where rel_key rel_version id v f rows)
unfolding update_where
All-IsTied-update nodes id v f keep [] h = tt
All-IsTied-update nodes id v f keep (r ∷ rows) h = (
  either_branch (IsTied nodes) (hit rel_key rel_version id v r) (f r) r (keep r h.0) h.0,
  All-IsTied-update nodes id v f keep rows h.1,
)

count_one :
    (n : ℕ) (log : List LogEntry) (e : LogEntry) → n ≡ length log → suc n ≡ length (log ++ e ∷ [])
count_one n log e h = omega (arith, length-append log (e ∷ []))

Step-IsConsistent : (txn : String) (d d' : Db) → Step txn d d' → IsConsistent d → IsConsistent d'
unfolding find_entity find_relationship overwrite_entity overwrite_relationship mark_entity_deleted
    mark_relationship_deleted
Step-IsConsistent txn d d' (stay _) c = c
Step-IsConsistent txn d d' (insert_node _ e t u free) c = record {
  nodes = Unique-append entity_key d.entities (row_of e t) free c.nodes;
  edges = c.edges;
  ends =
      All-IsTied d.entities _ (λ k. exists-append entity_key k d.entities (row_of e t))
        d.relationships c.ends;
  numbered = IsNumbered-append 0 d.delta_log _ c.numbered (omega (arith, c.counter));
  counter = count_one d.last_entry_id d.delta_log _ c.counter;
}
Step-IsConsistent txn d d' (update_node _ x e t u found _) c = record {
  nodes =
      Unique-update entity_key entity_version (overwrite_entity e t) (λ z. record e { id = z.id })
        (λ r. refl) (λ z. refl) e.id x.version d.entities c.nodes;
  edges = c.edges;
  ends =
      All-IsTied d.entities _
        (λ k h.
          exists-update entity_key entity_version (overwrite_entity e t)
            (λ z. record e { id = z.id }) (λ r. refl) (λ z. refl) k e.id x.version d.entities
          ∙ h)
        d.relationships c.ends;
  numbered = IsNumbered-append 0 d.delta_log _ c.numbered (omega (arith, c.counter));
  counter = count_one d.last_entry_id d.delta_log _ c.counter;
}
Step-IsConsistent txn d d' (delete_node _ id x t u v found _) c = record {
  nodes =
      Unique-update entity_key entity_version (delete_row mark_entity_deleted t)
        (mark_entity_deleted t) (λ r. refl) (λ z. refl) id x.version d.entities c.nodes;
  edges = c.edges;
  ends =
      All-IsTied d.entities _
        (λ k h.
          exists-update entity_key entity_version (delete_row mark_entity_deleted t)
            (mark_entity_deleted t) (λ r. refl) (λ z. refl) k id x.version d.entities
          ∙ h)
        d.relationships c.ends;
  numbered = IsNumbered-append 0 d.delta_log _ c.numbered (omega (arith, c.counter));
  counter = count_one d.last_entry_id d.delta_log _ c.counter;
}
Step-IsConsistent txn d d' (insert_edge _ r t u free ties apart) c = record {
  nodes = c.nodes;
  edges = Unique-append rel_key d.relationships (row_of r t) free c.edges;
  ends =
      All-append (IsTied d.entities) d.relationships _ c.ends
        (IsTied-of d r (row_of r t) refl refl ties apart, tt);
  numbered = IsNumbered-append 0 d.delta_log _ c.numbered (omega (arith, c.counter));
  counter = count_one d.last_entry_id d.delta_log _ c.counter;
}
Step-IsConsistent txn d d' (update_edge _ x r t u found ties apart _) c = record {
  nodes = c.nodes;
  edges =
      Unique-update rel_key rel_version (overwrite_relationship r t) (λ z. record r { id = z.id })
        (λ r. refl) (λ z. refl) r.id x.version d.relationships c.edges;
  ends =
      All-IsTied-update d.entities r.id x.version (overwrite_relationship r t)
        (λ row _. IsTied-of d r (overwrite_relationship r t row) refl refl ties apart)
        d.relationships c.ends;
  numbered = IsNumbered-append 0 d.delta_log _ c.numbered (omega (arith, c.counter));
  counter = count_one d.last_entry_id d.delta_log _ c.counter;
}
Step-IsConsistent txn d d' (delete_edge _ id x t u v found _) c = record {
  nodes = c.nodes;
  edges =
      Unique-update rel_key rel_version (delete_row mark_relationship_deleted t)
        (mark_relationship_deleted t) (λ r. refl) (λ z. refl) id x.version d.relationships c.edges;
  ends =
      All-IsTied-update d.entities id x.version (delete_row mark_relationship_deleted t)
        (λ row h. record { from_found = h.from_found; to_found = h.to_found; apart = h.apart })
        d.relationships c.ends;
  numbered = IsNumbered-append 0 d.delta_log _ c.numbered (omega (arith, c.counter));
  counter = count_one d.last_entry_id d.delta_log _ c.counter;
}

-- A batch, whatever it contains and however it ends, keeps the store well formed: ids are unique in
-- both tables, both ends of every edge are in the table of nodes and differ, and the log's entries
-- are numbered 1, 2, 3, … with the counter at the last one.
pub apply_batch-IsConsistent :
    (env : Env) (ms : List Mutation) (s : Store)
    → IsConsistent s.db
    → IsConsistent (apply_batch env ms s).1.db
apply_batch-IsConsistent env = batch-Keeps env IsConsistent (Step-IsConsistent env.txn_id)

pub IsConsistent-empty : IsConsistent empty_db
IsConsistent-empty = record { nodes = tt; edges = tt; ends = tt; numbered = tt; counter = refl }
