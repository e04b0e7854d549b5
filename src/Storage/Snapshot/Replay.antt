-- ===== src/Storage/Snapshot/Replay.antt =====
-- replayEntry of snapshot/store.go: one entry of the log put on a graph.
pub mod Laws
use fun_project.Common.{String, Option, none, some, List, [], ◌∷◌, ◌++◌, ◌==◌, if◌then◌else◌}
use fun_project.Common.Exec.{Result, ok, err}
use fun_project.Storage.Schema.Types.{Entity, Relationship}
use fun_project.Storage.Schema.Validate.{Error, decode_failed}
use fun_project.Storage.Session.{
  LogEntry, MutationType, Payload, entity_created, entity_updated, entity_soft_deleted,
  entity_restored, relationship_created, relationship_updated, relationship_deleted,
}
use fun_project.Storage.Session
use fun_project.Storage.Graph.{entity_key, rel_key}

pub record GraphState : Type 0 where
  pub entities : List Entity
  pub relationships : List Relationship

abbrev pub empty_state : GraphState
empty_state = record { entities = []; relationships = [] }

module _ {A : Type 0} (key : A → String) where
  -- The loop that overwrites the first value with this key, or appends at the end.
  unfoldable pub put_value : A → List A → List A
  put_value x [] = x ∷ []
  put_value x (y ∷ ys) = if key y == key x then x ∷ ys else y ∷ put_value x ys

  unfoldable pub find_value : String → List A → Option A
  find_value k [] = none
  find_value k (x ∷ xs) = if key x == k then some x else find_value k xs

-- json.Unmarshal of a payload; of the other kind of payload it takes the fields that both have.
unfoldable pub decode_entity : Option Payload → Result Error Entity
decode_entity none = err decode_failed
decode_entity (some (Session.entity e)) = ok e
decode_entity (some (Session.relationship r)) = ok (record {
  id = r.id;
  type = r.type;
  sub_type = "";
  canonical_name = "";
  namespace = "";
  confidence = r.confidence;
  is_active = r.is_active;
  lifecycle_stage = "";
  valid_from = r.valid_from;
  valid_to = r.valid_to;
  version = r.version;
  properties = r.properties;
})

unfoldable pub decode_relationship : Option Payload → Result Error Relationship
decode_relationship none = err decode_failed
decode_relationship (some (Session.relationship r)) = ok r
decode_relationship (some (Session.entity e)) = ok (record {
  id = e.id;
  type = e.type;
  from_id = "";
  to_id = "";
  confidence = e.confidence;
  is_active = e.is_active;
  valid_from = e.valid_from;
  valid_to = e.valid_to;
  version = e.version;
  properties = e.properties;
})

abbrev pub and_then : {A B : Type 0} → Result Error A → (A → Result Error B) → Result Error B
and_then (ok a) f = f a
and_then (err e) f = err e

abbrev add_entity : GraphState → Entity → Result Error GraphState
add_entity g e = ok (record g { entities = g.entities ++ e ∷ [] })

abbrev put_entity : GraphState → Entity → Result Error GraphState
put_entity g e = ok (record g { entities = put_value entity_key e g.entities })

abbrev add_relationship : GraphState → Relationship → Result Error GraphState
add_relationship g r = ok (record g { relationships = g.relationships ++ r ∷ [] })

abbrev put_relationship : GraphState → Relationship → Result Error GraphState
put_relationship g r = ok (record g { relationships = put_value rel_key r g.relationships })

unfoldable pub replay_as : MutationType → LogEntry → GraphState → Result Error GraphState
unfolding decode_entity decode_relationship
replay_as entity_created e g = and_then (decode_entity e.after_state) (add_entity g)
replay_as entity_updated e g = and_then (decode_entity e.after_state) (put_entity g)
replay_as entity_soft_deleted e g = and_then (decode_entity e.after_state) (put_entity g)
replay_as entity_restored e g = and_then (decode_entity e.after_state) (put_entity g)
replay_as relationship_created e g =
    and_then (decode_relationship e.after_state) (add_relationship g)
replay_as relationship_updated e g =
    and_then (decode_relationship e.after_state) (put_relationship g)
replay_as relationship_deleted e g =
    and_then (decode_relationship e.after_state) (put_relationship g)

unfoldable pub replay_entry : LogEntry → GraphState → Result Error GraphState
unfolding replay_as
replay_entry e g = replay_as e.mutation_type e g

-- The loop of RestoreGraph over the entries that its query returned.
unfoldable pub replay_all : List LogEntry → GraphState → Result Error GraphState
replay_all [] g = ok g
replay_all (e ∷ log) g = and_then (replay_entry e g) (replay_all log)
