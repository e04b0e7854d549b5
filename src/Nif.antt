-- ===== src/Nif.antt =====
-- nif/types.go and nif/validate.go: the one shape of the records that ingestion emits.
pub mod Laws
pub mod Id
use fun_project.Common.{
  ℕ, ◌+◌, String, Bool, ◌||◌, Option, none, some, List, [], ◌∷◌, not, ◌==◌, mem_text, length,
  if◌then◌else◌,
}
use fun_project.Common.Exec.{Result, ok, err}
use fun_project.Storage.Schema.Float.{Float64, float_lt, float_zero, float_one}
use fun_project.Storage.Schema.Json.{Fields}
use fun_project.Storage.Schema.Types.{Time, is_zero}

abbrev pub known_entity_types : List String
known_entity_types =
    "SERVICE" ∷ "MODULE" ∷ "FUNCTION" ∷ "API_ENDPOINT" ∷ "DATABASE_TABLE" ∷ "TEAM"
    ∷ "DATABASE_SCHEMA" ∷ "CLASS" ∷ []

abbrev pub known_rel_types : List String
known_rel_types =
    "DEPENDS_ON" ∷ "CALLS" ∷ "IMPORTS" ∷ "OWNS" ∷ "EXPOSES" ∷ "RUNTIME_CALLS" ∷ "READS_FROM"
    ∷ "WRITES_TO" ∷ "CHANGE_COUPLED_WITH" ∷ "CONTRIBUTED_TO" ∷ "DEPLOYED_ON" ∷ []

pub record SourceInfo : Type 0 where
  pub source_type : String
  pub source_id : String
  pub source_ref : String
  pub observed_at : Time

pub record Entity : Type 0 where
  pub id : String
  pub type : String
  pub sub_type : String
  pub name : String
  pub raw_name : String
  pub namespace : String
  pub source : SourceInfo
  pub properties : Fields
  pub confidence : Float64
  pub is_partial : Bool
  pub ingestion_run : String

pub record Relationship : Type 0 where
  pub id : String
  pub type : String
  pub from_entity_id : String
  pub to_entity_id : String
  pub source : SourceInfo
  pub properties : Fields
  pub confidence : Float64
  pub is_inferred : Bool
  pub ingestion_run : String

pub record Batch : Type 0 where
  pub entities : List Entity
  pub relationships : List Relationship

-- &Batch{}, which also stands for the nil batch
abbrev pub empty_batch : Batch
empty_batch = record { entities = []; relationships = [] }

-- Len
unfoldable pub batch_len : Batch → ℕ
batch_len b = length b.entities + length b.relationships

-- Why a record is refused; the sentence beside the field is not kept.
pub data Rejection : Type 0 where
  nil_record : Rejection
  invalid : String → Rejection

-- One line of a validation, before the lines below it.
unfoldable pub refuse_if : Bool → String → Result Rejection Unit → Result Rejection Unit
refuse_if bad name next = if bad then err (invalid name) else next

unfoldable pub known_entity_type : String → Bool
unfolding mem_text
known_entity_type t = mem_text t known_entity_types

unfoldable pub known_rel_type : String → Bool
unfolding mem_text
known_rel_type t = mem_text t known_rel_types

-- e.Confidence < 0 || e.Confidence > 1
unfoldable pub off_scale : Float64 → Bool
off_scale c = float_lt c float_zero || float_lt float_one c

unfoldable pub check_source : SourceInfo → String → Result Rejection Unit
unfolding refuse_if
check_source s run = refuse_if (s.source_type == "" || s.source_id == "") "source" (
    refuse_if (is_zero s.observed_at) "source.observed_at"
      (refuse_if (run == "") "ingestion_run_id" (ok tt)))

-- ValidateEntity; `none` is the nil pointer.
unfoldable pub validate_entity : Option Entity → Result Rejection Unit
unfolding refuse_if check_source
validate_entity none = err nil_record
validate_entity (some e) = refuse_if (e.id == "") "id" (
    refuse_if (not (known_entity_type e.type)) "type" (
      refuse_if (e.name == "") "name" (
        refuse_if (e.namespace == "") "namespace" (
          refuse_if (off_scale e.confidence) "confidence"
            (check_source e.source e.ingestion_run)))))

-- ValidateRelationship
unfoldable pub validate_relationship : Option Relationship → Result Rejection Unit
unfolding refuse_if check_source
validate_relationship none = err nil_record
validate_relationship (some r) = refuse_if (r.id == "") "id" (
    refuse_if (not (known_rel_type r.type)) "type" (
      refuse_if (r.from_entity_id == "" || r.to_entity_id == "") "endpoints" (
        refuse_if (r.from_entity_id == r.to_entity_id) "endpoints" (
          refuse_if (off_scale r.confidence) "confidence"
            (check_source r.source r.ingestion_run)))))
