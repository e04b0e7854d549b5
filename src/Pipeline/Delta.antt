-- ===== src/Pipeline/Delta.antt =====
-- pipeline/internal/pipeline/stage6_delta.go: the batch against what storage lists. The entities and
-- edges on the wire have the fields of storage's own.
pub mod Twins
pub mod Again
use fun_project.Common.{
  ℕ, suc, String, Bool, true, false, not, ◌&&◌, ◌||◌, Option, none, some, List, [], ◌∷◌, ◌++◌, ◌==◌,
  mem_text, nat_eq, if◌then◌else◌,
}
use fun_project.Common.Exec.{Result, ok, err, and_then}
use fun_project.Common.Assoc.{Assoc, at_key, set_key}
use fun_project.Storage.Schema.Float.{float_eq}
use fun_project.Storage.Schema.Json.{
  Json, Fields, end, field, text, boolean, field_count, get_field, deep_equal,
}
use fun_project.Storage.Schema.Types as Z4
use fun_project.Storage.Schema.Types.{Time, is_zero}
use fun_project.Storage.Query.{set_field}
use fun_project.Nif
use fun_project.Nif.{SourceInfo}

abbrev pub Z4Entity : Type 0
Z4Entity = Z4.Entity

abbrev pub Z4Relationship : Type 0
Z4Relationship = Z4.Relationship

pub record NamespaceListing : Type 0 where
  pub entities : List Z4Entity
  pub relationships : List Z4Relationship

pub data ListError : Type 0 where
  not_found : ListError
  failed_call : String → ListError

-- The two kinds of mutation that stage 6 makes; the reason beside them is not kept.
pub data Mutation : Type 0 where
  upsert_entity : Z4Entity → Mutation
  upsert_relationship : Z4Relationship → Mutation

pub record Existing : Type 0 where
  pub entities : Assoc Z4Entity
  pub relationships : Assoc Z4Relationship

unfoldable pub add_namespace : String → List String → List String
unfolding mem_text
add_namespace ns nss = if ns == "" || mem_text ns nss then nss else nss ++ ns ∷ []

unfoldable pub namespaces_of : List Nif.Entity → List String → List String
unfolding add_namespace
namespaces_of [] nss = nss
namespaces_of (e ∷ es) nss = namespaces_of es (add_namespace e.namespace nss)

unfoldable pub index_entities : List Z4Entity → Assoc Z4Entity → Assoc Z4Entity
unfolding set_key
index_entities [] m = m
index_entities (e ∷ es) m = index_entities es (set_key m e.id e)

unfoldable pub index_relationships :
    List Z4Relationship → Assoc Z4Relationship → Assoc Z4Relationship
unfolding set_key
index_relationships [] m = m
index_relationships (r ∷ rs) m = index_relationships rs (set_key m r.id r)

unfoldable pub add_listing : Result ListError NamespaceListing → Existing → Result String Existing
unfolding index_entities index_relationships
add_listing (err not_found) x = ok x
add_listing (err (failed_call why)) x = err why
add_listing (ok l) x = ok (record {
  entities = index_entities l.entities x.entities;
  relationships = index_relationships l.relationships x.relationships;
})

unfoldable pub fetch_existing :
    (String → Result ListError NamespaceListing) → List String → Existing → Result String Existing
unfolding add_listing
fetch_existing list_namespace [] x = ok x
fetch_existing list_namespace (ns ∷ nss) x =
    and_then (add_listing (list_namespace ns) x) (fetch_existing list_namespace nss)

-- A time that varies between runs
unfoldable pub ignored : String → Bool
ignored k = k == "observed_at" || k == "ingestion_run_id"

unfoldable pub set_if : Bool → String → Json → Fields → Fields
unfolding set_field
set_if c k v fs = if c then set_field k v fs else fs

-- `now` is what the clock says when the record of an id is mapped, `time_value` a time among the
-- properties, and `marshal` is json.Marshal as a text.
module _ (now : String → Time) (time_value : Time → Json) (marshal : Json → String) where
  unfoldable pub with_source : SourceInfo → String → Fields → Fields
  unfolding set_field
  with_source s run props = set_field "ingestion_run_id" (text run) (
      set_field "observed_at" (time_value s.observed_at) (
        set_field "source_ref" (text s.source_ref) (
          set_field "source_id" (text s.source_id)
            (set_field "source_type" (text s.source_type) props))))

  unfoldable pub valid_since : String → Time → Time
  unfolding is_zero
  valid_since id t = if is_zero t then now id else t

  unfoldable pub entity_properties : Nif.Entity → Fields
  unfolding with_source set_if
  entity_properties e = set_if e.is_partial "is_partial" (boolean true) (
      set_if (not (e.raw_name == "") && not (e.raw_name == e.name)) "raw_name" (text e.raw_name)
        (with_source e.source e.ingestion_run e.properties))

  unfoldable pub map_nif_entity_to_z4 : Nif.Entity → Z4Entity
  unfolding entity_properties valid_since
  map_nif_entity_to_z4 e = record {
    id = e.id;
    type = if e.type == "SCHEMA" then "DATABASE_SCHEMA" else e.type;
    sub_type = e.sub_type;
    canonical_name = e.name;
    namespace = e.namespace;
    confidence = e.confidence;
    is_active = true;
    lifecycle_stage = "ACTIVE";
    valid_from = valid_since e.id e.source.observed_at;
    valid_to = none;
    version = 0;
    properties = entity_properties e;
  }

  unfoldable pub relationship_properties : Nif.Relationship → Fields
  unfolding with_source set_if
  relationship_properties r =
      set_if r.is_inferred "is_inferred" (boolean true)
        (with_source r.source r.ingestion_run r.properties)

  unfoldable pub map_nif_relationship_to_z4 : Nif.Relationship → Z4Relationship
  unfolding relationship_properties valid_since
  map_nif_relationship_to_z4 r = record {
    id = r.id;
    type =
        if r.type == "AUTHORED_BY"
        then "CONTRIBUTED_TO"
        else (if r.type == "DEPLOYED_TO" then "DEPLOYED_ON" else r.type);
    from_id = r.from_entity_id;
    to_id = r.to_entity_id;
    confidence = r.confidence;
    is_active = true;
    valid_from = valid_since r.id r.source.observed_at;
    valid_to = none;
    version = 0;
    properties = relationship_properties r;
  }

  unfoldable pub same_value : Option Json → Option Json → Bool
  unfolding deep_equal
  same_value (some v) (some w) = deep_equal v w || marshal v == marshal w
  same_value _ _ = false

  -- The loop over the keys of the first map
  unfoldable pub same_at_keys : Fields → Fields → Fields → Bool
  unfolding ignored same_value get_field
  same_at_keys end a b = true
  same_at_keys (field k v rest) a b =
      (ignored k || same_value (get_field k a) (get_field k b)) && same_at_keys rest a b

  unfoldable pub maps_equal : Fields → Fields → Bool
  unfolding field_count same_at_keys
  maps_equal a b = nat_eq (field_count a) (field_count b) && same_at_keys a a b

  unfoldable pub same_truth : Bool → Bool → Bool
  same_truth a b = if a then b else not b

  unfoldable pub has_entity_changed : Z4Entity → Z4Entity → Bool
  unfolding maps_equal same_truth float_eq
  has_entity_changed x p = not (
      x.type == p.type
      && x.sub_type == p.sub_type
      && x.canonical_name == p.canonical_name
      && x.namespace == p.namespace
      && float_eq x.confidence p.confidence
      && same_truth x.is_active p.is_active
      && x.lifecycle_stage == p.lifecycle_stage
      && maps_equal x.properties p.properties)

  unfoldable pub has_relationship_changed : Z4Relationship → Z4Relationship → Bool
  unfolding maps_equal same_truth float_eq
  has_relationship_changed x p = not (
      x.type == p.type
      && x.from_id == p.from_id
      && x.to_id == p.to_id
      && float_eq x.confidence p.confidence
      && same_truth x.is_active p.is_active
      && maps_equal x.properties p.properties)

  unfoldable pub diff_entity : Z4Entity → Option Z4Entity → List Mutation
  unfolding has_entity_changed
  diff_entity z none = upsert_entity (record z { version = 0 }) ∷ []
  diff_entity z (some x) =
      if has_entity_changed x z then upsert_entity (record z { version = x.version }) ∷ [] else []

  unfoldable pub diff_relationship : Z4Relationship → Option Z4Relationship → List Mutation
  unfolding has_relationship_changed
  diff_relationship z none = upsert_relationship (record z { version = 0 }) ∷ []
  diff_relationship z (some x) =
      if has_relationship_changed x z
      then upsert_relationship (record z { version = x.version }) ∷ []
      else []

  unfoldable pub diff_entities : List Nif.Entity → Existing → List Mutation
  unfolding map_nif_entity_to_z4 diff_entity at_key
  diff_entities [] x = []
  diff_entities (e ∷ es) x =
      diff_entity (map_nif_entity_to_z4 e) (at_key x.entities e.id) ++ diff_entities es x

  unfoldable pub diff_relationships : List Nif.Relationship → Existing → List Mutation
  unfolding map_nif_relationship_to_z4 diff_relationship at_key
  diff_relationships [] x = []
  diff_relationships (r ∷ rs) x =
      diff_relationship (map_nif_relationship_to_z4 r) (at_key x.relationships r.id)
      ++ diff_relationships rs x

  -- stage6DeltaCompute
  unfoldable pub delta_compute :
      (String → Result ListError NamespaceListing)
      → List Nif.Entity
      → List Nif.Relationship
      → Result String (List Mutation)
  unfolding namespaces_of fetch_existing diff_entities diff_relationships
  delta_compute list_namespace es rs =
      and_then
        (fetch_existing list_namespace (namespaces_of es [])
          (record { entities = []; relationships = [] }))
        (λ x. ok (diff_entities es x ++ diff_relationships rs x))
