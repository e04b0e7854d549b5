-- ===== src/Storage/Mutation/Conflict.antt =====
-- mutation/conflict.go: when an upsert would change nothing.
use fun_project.Common.{Bool, true, false, ◌&&◌, ◌==◌, nat_eq, if◌then◌else◌}
use fun_project.Storage.Schema.Float.{float_eq}
use fun_project.Storage.Schema.Json.{Fields, field_count, deep_equal, object}
use fun_project.Storage.Schema.Types.{Entity, Relationship}

unfoldable pub maps_equal : Fields → Fields → Bool
maps_equal a b =
    if nat_eq (field_count a) 0 && nat_eq (field_count b) 0
    then true
    else deep_equal (object a) (object b)

unfoldable pub same_flag : Bool → Bool → Bool
same_flag true b = b
same_flag false true = false
same_flag false false = true

unfoldable pub entity_equal_for_update : Entity → Entity → Bool
unfolding same_flag
entity_equal_for_update a b =
    a.type == b.type
    && a.sub_type == b.sub_type
    && a.canonical_name == b.canonical_name
    && a.namespace == b.namespace
    && float_eq a.confidence b.confidence
    && same_flag a.is_active b.is_active
    && a.lifecycle_stage == b.lifecycle_stage
    && maps_equal a.properties b.properties

unfoldable pub rel_equal_for_update : Relationship → Relationship → Bool
unfolding same_flag
rel_equal_for_update a b =
    a.type == b.type
    && a.from_id == b.from_id
    && a.to_id == b.to_id
    && float_eq a.confidence b.confidence
    && same_flag a.is_active b.is_active
    && maps_equal a.properties b.properties
