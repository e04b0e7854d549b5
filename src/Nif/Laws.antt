-- ===== src/Nif/Laws.antt =====
-- What the schema gate of ingestion lets pass.
use fun_project.Common.{String, false, true, some, ◌≡◌, ◌↔◌, arith, eq_iff}
use fun_project.Common.Exec.{ok}
use fun_project.Storage.Schema.Float.{Float64, float_lt, float_zero, float_one}
use fun_project.Storage.Schema.Types.{zero_time, is_zero}
use fun_project.Nif.{
  Entity, Relationship, SourceInfo, validate_entity, validate_relationship, known_entity_type,
  known_rel_type, off_scale,
}

abbrev pub IsGiven : String → Type 0
IsGiven s = (s ≡ "") → ⊥

-- Where a record comes from: its source, the instant and the run.
pub record IsTraced (s : SourceInfo) (run : String) : Type 0 where
  pub kind : IsGiven s.source_type
  pub source : IsGiven s.source_id
  pub observed : (s.observed_at ≡ zero_time) → ⊥
  pub run_given : IsGiven run

abbrev pub IsLikely : Float64 → Type 0
IsLikely c = (float_lt c float_zero ≡ false) × (float_lt float_one c ≡ false)

pub record IsValidEntity (e : Entity) : Type 0 where
  pub identified : IsGiven e.id
  pub known : known_entity_type e.type ≡ true
  pub named : IsGiven e.name
  pub placed : IsGiven e.namespace
  pub likely : IsLikely e.confidence
  pub traced : IsTraced e.source e.ingestion_run

pub record IsValidRelationship (r : Relationship) : Type 0 where
  pub identified : IsGiven r.id
  pub known : known_rel_type r.type ≡ true
  pub from_given : IsGiven r.from_entity_id
  pub to_given : IsGiven r.to_entity_id
  pub apart : (r.from_entity_id ≡ r.to_entity_id) → ⊥
  pub likely : IsLikely r.confidence
  pub traced : IsTraced r.source r.ingestion_run

-- The schema gate accepts an entity exactly when it has an id, a known type, a name, a namespace, a
-- confidence that is neither below 0 nor above 1, and a source with its instant and its run.
pub validate_entity_gate : (e : Entity) → (validate_entity (some e) ≡ ok tt) ↔ IsValidEntity e
unfolding validate_entity off_scale is_zero
validate_entity_gate e = ground (
  arith,
  eq_iff e.id "",
  eq_iff e.name "",
  eq_iff e.namespace "",
  eq_iff e.source.source_type "",
  eq_iff e.source.source_id "",
  eq_iff e.ingestion_run "",
)

-- The schema gate accepts a relationship exactly when it has an id, a known type, two distinct ends,
-- a confidence that is neither below 0 nor above 1, and a source with its instant and its run.
pub validate_relationship_gate :
    (r : Relationship) → (validate_relationship (some r) ≡ ok tt) ↔ IsValidRelationship r
unfolding validate_relationship off_scale is_zero
validate_relationship_gate r = ground (
  arith,
  eq_iff r.id "",
  eq_iff r.from_entity_id "",
  eq_iff r.to_entity_id "",
  eq_iff r.from_entity_id r.to_entity_id,
  eq_iff r.source.source_type "",
  eq_iff r.source.source_id "",
  eq_iff r.ingestion_run "",
)
