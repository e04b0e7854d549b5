-- ===== src/Pipeline/Witnesses.antt =====
-- Concrete batches of the pipeline, and its theorems at them.
use fun_project.Common.{String, not, ◌&&◌, ◌==◌, Option, none, [], ◌∷◌, ◌≡◌, ◌↔◌, refl, mem_text}
use fun_project.Common.Exec.{Result, ok, err}
use fun_project.Common.Assoc.{at_key, delete_key, set_key}
use fun_project.Storage.Schema.Float.{float_eq, float_lt}
use fun_project.Storage.Schema.Json.{Json, text}
use fun_project.Storage.Schema.Types.{Time}
use fun_project.Ingestion.Plan.Order.{IsDistinct}
use fun_project.Ingestion.Examples.{service, nameless, calls}
use fun_project.Pipeline.Merge.{
  put_all, merge, merge_at, cloned, add_entity, merge_all, deduplicate_entities, record_ids,
  deduplicate_entities-IsDistinct,
}
use fun_project.Pipeline.Gate.{
  stage5_validate_relationship, missing_endpoints, IsFit, stage5_validate_relationship_iff,
  in_batch, endpoint_exists,
}
use fun_project.Pipeline.Delta.{
  Existing, NamespaceListing, ListError, namespaces_of, add_namespace, index_entities,
  index_relationships, add_listing, fetch_existing, map_nif_entity_to_z4, delta_compute, Z4Entity,
}
use fun_project.Pipeline.Delta.Again.{seen_before, IsSent, delta_compute_again}

abbrev clock : String → Time
clock id = 7

abbrev as_text : Time → Json
as_text t = text "then"

abbrev marshal : Json → String
marshal v = "{}"

-- What storage lists after an earlier run, under another run id and at version 4
abbrev listed : Z4Entity
listed =
    record (map_nif_entity_to_z4 clock as_text marshal
      (seen_before clock as_text marshal 3 "run_0" service)) { version = 4 }

abbrev listing : String → Result ListError NamespaceListing
listing ns = ok (record { entities = listed ∷ []; relationships = [] })

abbrev found : Existing
found = record { entities = ("ent_a", listed) ∷ []; relationships = [] }

fetched :
    fetch_existing listing
      (namespaces_of (service ∷ []) [])
      (record { entities = []; relationships = [] })
    ≡ ok found
unfolding fetch_existing namespaces_of add_namespace mem_text add_listing index_entities
    index_relationships set_key delete_key map_nif_entity_to_z4
fetched = refl

service-IsSent : IsSent clock as_text marshal found service
unfolding at_key float_eq map_nif_entity_to_z4
service-IsSent = (3, "run_0", 4, refl, refl)

delta_compute_again_example : delta_compute clock as_text marshal listing (service ∷ []) [] ≡ ok []
delta_compute_again_example =
    delta_compute_again clock as_text marshal listing (service ∷ []) [] found fetched
      (service-IsSent, tt) tt

abbrev no_registry : String → Option String
no_registry id = none

stage5_validate_relationship_iff_example :
    (stage5_validate_relationship no_registry calls (service ∷ []) ≡ ok tt)
    ↔ IsFit no_registry calls (service ∷ [])
stage5_validate_relationship_iff_example =
    stage5_validate_relationship_iff no_registry calls (service ∷ [])

-- ent_b is not in the batch.
stranger_stays :
    stage5_validate_relationship no_registry calls (service ∷ []) ≡ err missing_endpoints
unfolding stage5_validate_relationship endpoint_exists in_batch
stranger_stays = refl

deduplicate_entities-IsDistinct_example :
    IsDistinct (record_ids (deduplicate_entities (service ∷ nameless ∷ [])))
    × ((k : String)
        → mem_text k (record_ids (deduplicate_entities (service ∷ nameless ∷ [])))
          ≡ (not (k == "") && mem_text k (record_ids (service ∷ nameless ∷ []))))
deduplicate_entities-IsDistinct_example = deduplicate_entities-IsDistinct (service ∷ nameless ∷ [])

one_is_left : record_ids (deduplicate_entities (service ∷ nameless ∷ [])) ≡ "ent_a" ∷ []
unfolding deduplicate_entities merge_all add_entity merge_at merge mem_text cloned put_all float_lt
one_is_left = refl
