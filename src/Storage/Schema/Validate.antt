-- ===== src/Storage/Schema/Validate.antt =====
-- validate.go. A check is a test and the field that the error names when the test holds.
pub mod Laws
use Prim.Native.String.{len}
use fun_project.Common.{
  ℕ, String, Bool, ◌||◌, Option, none, some, is_blank, ltb, ◌==◌, not, if◌then◌else◌,
}
use fun_project.Common.Exec.{Result, ok, err}
use fun_project.Storage.Schema.Float.{Float64, float_lt, float_zero, float_one}
use fun_project.Storage.Schema.Json.{field_count}
use fun_project.Storage.Schema.Types.{
  Time, Entity, Relationship, is_zero, before, entity_type_valid, relationship_type_valid,
}

-- The errors of the storage zone; a validation error keeps its field and not its sentence.
pub data Error : Type 0 where
  validation : String → Error
  missing_entity missing_relationship missing_target : Error
  unknown_kind : String → Error
  -- ErrVersionConflict with the version at hand and the supplied one
  version_conflict : ℕ → ℕ → Error
  -- ErrUnknownEntity for each endpoint
  unknown_from unknown_to : String → Error
  not_found : Error
  -- ErrVersionConflict as the store returns it
  stale_version : Error
  -- a constraint of the tables refuses the row
  constraint : Error
  decode_failed checksum_mismatch marshal_failed begin_failed commit_failed : Error

-- One line of a validation, `if test { return vfail(field, …) }`, before the lines below it.
unfoldable pub check : Bool → String → Result Error Unit → Result Error Unit
check failed name next = if failed then err (validation name) else next

abbrev pub max_canonical_name_len : ℕ
max_canonical_name_len = 256

abbrev pub max_namespace_len : ℕ
max_namespace_len = 256

abbrev pub max_entity_properties : ℕ
max_entity_properties = 500

abbrev pub max_rel_properties : ℕ
max_rel_properties = 200

unfoldable pub outside_unit : Float64 → Bool
outside_unit c = float_lt c float_zero || float_lt float_one c

unfoldable pub ends_early : Option Time → Time → Bool
ends_early none from = Bool.false
ends_early (some to) from = before to from

-- ValidateEntity; the nil entity is the caller's case.
unfoldable pub validate_entity : Entity → Result Error Unit
unfolding check
validate_entity e = check (not (entity_type_valid e.type)) "type" (
    check (is_blank e.canonical_name) "canonical_name" (
      check (ltb max_canonical_name_len (len e.canonical_name)) "canonical_name" (
        check (is_blank e.namespace) "namespace" (
          check (ltb max_namespace_len (len e.namespace)) "namespace" (
            check (outside_unit e.confidence) "confidence" (
              check (is_zero e.valid_from) "valid_from" (
                check (ends_early e.valid_to e.valid_from) "valid_to" (
                  check (ltb max_entity_properties (field_count e.properties)) "properties"
                    (ok tt)))))))))

-- ValidateRelationship, with REL-002: no edge leads from a node to itself.
unfoldable pub validate_relationship : Relationship → Result Error Unit
unfolding check
validate_relationship r = check (not (relationship_type_valid r.type)) "type" (
    check (is_blank r.from_id) "from_id" (
      check (is_blank r.to_id) "to_id" (
        check (r.from_id == r.to_id) "from_id/to_id" (
          check (outside_unit r.confidence) "confidence" (
            check (is_zero r.valid_from) "valid_from" (
              check (ends_early r.valid_to r.valid_from) "valid_to" (
                check (ltb max_rel_properties (field_count r.properties)) "properties"
                  (ok tt))))))))
