-- ===== src/Storage/Schema/Validate/Laws.antt =====
-- What ValidateEntity and ValidateRelationship accept.
use Prim.Native.String.{len}
use fun_project.Common.{◌≤◌, true, false, Option, none, some, ◌≡◌, ◌↔◌, arith, is_blank, eq_iff}
use fun_project.Common.Exec.{ok}
use fun_project.Storage.Schema.Float.{float_lt, float_zero, float_one}
use fun_project.Storage.Schema.Json.{field_count}
use fun_project.Storage.Schema.Types.{
  Time, Entity, Relationship, zero_time, is_zero, before, entity_type_valid,
  relationship_type_valid,
}
use fun_project.Storage.Schema.Validate.{
  validate_entity, validate_relationship, outside_unit, ends_early, check,
}

abbrev pub NotBefore : Time → Option Time → Type 0
NotBefore from none = Unit
NotBefore from (some to) = from ≤ to

-- The rules of the Schema Enforcer for a node.
pub record IsValidEntity (e : Entity) : Type 0 where
  pub type : entity_type_valid e.type ≡ true
  pub named : is_blank e.canonical_name ≡ false
  pub name_fits : len e.canonical_name ≤ 256
  pub placed : is_blank e.namespace ≡ false
  pub namespace_fits : len e.namespace ≤ 256
  pub likely :
      (float_lt e.confidence float_zero ≡ false) × (float_lt float_one e.confidence ≡ false)
  pub dated : (e.valid_from ≡ zero_time) → ⊥
  pub ends : NotBefore e.valid_from e.valid_to
  pub properties_fit : field_count e.properties ≤ 500

-- ValidateEntity accepts an entity exactly when it keeps the rules.
pub validate_entity_iff : (e : Entity) → (validate_entity e ≡ ok tt) ↔ IsValidEntity e
unfolding validate_entity check outside_unit ends_early is_zero before
validate_entity_iff e = ground arith

pub record IsValidRelationship (r : Relationship) : Type 0 where
  pub type : relationship_type_valid r.type ≡ true
  pub from_given : is_blank r.from_id ≡ false
  pub to_given : is_blank r.to_id ≡ false
  pub apart : (r.from_id ≡ r.to_id) → ⊥
  pub likely :
      (float_lt r.confidence float_zero ≡ false) × (float_lt float_one r.confidence ≡ false)
  pub dated : (r.valid_from ≡ zero_time) → ⊥
  pub ends : NotBefore r.valid_from r.valid_to
  pub properties_fit : field_count r.properties ≤ 200

-- ValidateRelationship accepts an edge exactly when it keeps the rules, REL-002 among them.
pub validate_relationship_iff :
    (r : Relationship) → (validate_relationship r ≡ ok tt) ↔ IsValidRelationship r
unfolding validate_relationship check outside_unit ends_early is_zero before
validate_relationship_iff r = ground (arith, eq_iff r.from_id r.to_id)
