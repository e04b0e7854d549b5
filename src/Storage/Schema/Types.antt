-- ===== src/Storage/Schema/Types.antt =====
-- entity.go and relationship.go: the nodes and the edges of the graph.
use Prim.Native.String.{slice, ◌++◌}
use fun_project.Common.{ℕ, ◌*◌, ◌^◌, String, Bool, Option, List, [], ◌∷◌, mem_text, ltb, nat_eq}
use fun_project.Storage.Schema.Float.{Float64}
use fun_project.Storage.Schema.Json.{Fields}

-- An instant of time.Time, counted in nanoseconds from the least one (its seconds are an int64 that
-- counts from year 1). The location is forgotten, as `.UTC()` does before every write.
abbrev pub Time : Type 0
Time = ℕ

-- time.Time{}
abbrev pub zero_time : Time
zero_time = 2 ^ 63 * 1000000000

unfoldable pub is_zero : Time → Bool
is_zero t = nat_eq t zero_time

unfoldable pub before : Time → Time → Bool
before a b = ltb a b

abbrev pub EntityType : Type 0
EntityType = String

abbrev pub RelationshipType : Type 0
RelationshipType = String

abbrev pub LifecycleStage : Type 0
LifecycleStage = String

abbrev pub lifecycle_active : LifecycleStage
lifecycle_active = "ACTIVE"

abbrev pub lifecycle_deleted : LifecycleStage
lifecycle_deleted = "DELETED"

abbrev pub valid_entity_types : List EntityType
valid_entity_types =
    "SERVICE" ∷ "DEPLOYMENT" ∷ "INFRASTRUCTURE_RESOURCE" ∷ "CONTAINER" ∷ "REPOSITORY" ∷ "MODULE"
    ∷ "FILE" ∷ "FUNCTION" ∷ "CLASS" ∷ "API_ENDPOINT" ∷ "EVENT_TOPIC" ∷ "DATABASE_TABLE"
    ∷ "DATABASE_SCHEMA" ∷ "TEAM" ∷ "DEVELOPER" ∷ "ORGANIZATION" ∷ "COMMIT" ∷ "PULL_REQUEST"
    ∷ "DEPLOYMENT_EVENT" ∷ "INCIDENT" ∷ "EXTERNAL_LIBRARY" ∷ "EXTERNAL_SERVICE" ∷ []

-- func (t EntityType) Valid
unfoldable pub entity_type_valid : EntityType → Bool
unfolding mem_text
entity_type_valid t = mem_text t valid_entity_types

abbrev pub valid_rel_types : List RelationshipType
valid_rel_types =
    "IMPORTS" ∷ "CALLS" ∷ "EXTENDS" ∷ "IMPLEMENTS" ∷ "EXPOSES" ∷ "RUNTIME_CALLS" ∷ "PRODUCES"
    ∷ "CONSUMES" ∷ "READS_FROM" ∷ "WRITES_TO" ∷ "DEPENDS_ON" ∷ "TRANSITIVELY_DEPENDS_ON"
    ∷ "USES_LIBRARY" ∷ "CALLS_EXTERNAL" ∷ "OWNS" ∷ "CONTRIBUTED_TO" ∷ "REVIEWS" ∷ "ON_CALL_FOR"
    ∷ "DEPLOYED_ON" ∷ "DEPLOYED_IN" ∷ "RUNS_IN" ∷ "CHANGE_COUPLED_WITH" ∷ "DEPLOYMENT_COUPLED_WITH"
    ∷ "DATA_COUPLED_WITH" ∷ "FAILURE_CORRELATED_WITH" ∷ "INTRODUCED_IN" ∷ "MODIFIED_IN"
    ∷ "DEPRECATED_BY" ∷ "REPLACED_BY" ∷ []

-- func (t RelationshipType) Valid
unfoldable pub relationship_type_valid : RelationshipType → Bool
unfolding mem_text
relationship_type_valid t = mem_text t valid_rel_types

-- `version` is the 64-bit pattern of Go's `int`: it is only compared for equality and incremented.
pub record Entity : Type 0 where
  pub id : String
  pub type : EntityType
  pub sub_type : String
  pub canonical_name : String
  pub namespace : String
  pub confidence : Float64
  pub is_active : Bool
  pub lifecycle_stage : LifecycleStage
  pub valid_from : Time
  pub valid_to : Option Time
  pub version : ℕ
  pub properties : Fields

pub record Relationship : Type 0 where
  pub id : String
  pub type : RelationshipType
  pub from_id : String
  pub to_id : String
  pub confidence : Float64
  pub is_active : Bool
  pub valid_from : Time
  pub valid_to : Option Time
  pub version : ℕ
  pub properties : Fields

-- DeterministicID; `hex_sha256` is the digest of a text in hexadecimal.
unfoldable pub entity_id_of : (String → String) → Entity → String
entity_id_of hex_sha256 e =
    "ent_" ++ slice (hex_sha256 (e.type ++ "|" ++ e.canonical_name ++ "|" ++ e.namespace)) 0 24

unfoldable pub relationship_id_of : (String → String) → Relationship → String
relationship_id_of hex_sha256 r =
    "rel_" ++ slice (hex_sha256 (r.type ++ "|" ++ r.from_id ++ "|" ++ r.to_id)) 0 24
