-- ===== src/Serving/Client.antt =====
-- serving/internal/storageclient/types.go: what storage answers with, as serving decodes it.
use fun_project.Common.{ℕ, String, List}
use fun_project.Storage.Schema.Json.{Fields}
use fun_project.Storage.Schema.Types as Z4
use fun_project.Storage.Schema.Types.{Time}

-- The entities and edges have the fields of storage's own.
abbrev pub Z4Entity : Type 0
Z4Entity = Z4.Entity

abbrev pub Z4Relationship : Type 0
Z4Relationship = Z4.Relationship

-- An answer without an error has an origin.
pub record Neighborhood : Type 0 where
  pub origin : Z4Entity
  pub nodes : List Z4Entity
  pub edges : List Z4Relationship
  pub max_depth : ℕ

pub record NamespaceListing : Type 0 where
  pub namespace : String
  pub entities : List Z4Entity
  pub relationships : List Z4Relationship

-- A nil state has no keys.
pub record LogEntry : Type 0 where
  pub entry_id : ℕ
  pub transaction_id : String
  pub mutation_type : String
  pub entity_id : String
  pub relationship_id : String
  pub before_state : Fields
  pub after_state : Fields
  pub occurred_at : Time
  pub recorded_at : Time
