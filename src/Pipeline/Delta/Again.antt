-- ===== src/Pipeline/Delta/Again.antt =====
-- Stage 6 on a batch that storage already has.
use fun_project.Common.{
  ℕ, String, true, false, not, ◌&&◌, some, List, [], ◌∷◌, ◌≡◌, refl, All, ◌==◌,
}
use fun_project.Common.Exec.{Result, ok}
use fun_project.Common.Assoc.{at_key}
use fun_project.Storage.Schema.Float.{float_eq}
use fun_project.Storage.Schema.Json.{Json, text, boolean}
use fun_project.Storage.Schema.Types.{Time}
use fun_project.Nif
use fun_project.Nif.{SourceInfo}
use fun_project.Pipeline.Delta.{
  NamespaceListing, ListError, Existing, namespaces_of, fetch_existing, set_if, with_source,
  entity_properties, map_nif_entity_to_z4, relationship_properties, map_nif_relationship_to_z4,
  same_truth, has_entity_changed, has_relationship_changed, diff_entity, diff_relationship,
  diff_entities, diff_relationships, delta_compute,
}
use fun_project.Pipeline.Delta.Twins.{Twin, maps_equal-Twin, with_source-Twin, Twin-set_if, self_eq}

module _ (now : String → Time) (time_value : Time → Json) (marshal : Json → String) where
  -- The record as an earlier run saw it: at another time and under another run id
  abbrev pub seen_before : Time → String → Nif.Entity → Nif.Entity
  seen_before t run e = record e {
    source = record e.source { observed_at = t };
    ingestion_run = run;
  }

  abbrev pub rel_seen_before : Time → String → Nif.Relationship → Nif.Relationship
  rel_seen_before t run r = record r {
    source = record r.source { observed_at = t };
    ingestion_run = run;
  }

  -- What storage lists for a record that an earlier run has sent
  abbrev pub IsSent : Existing → Nif.Entity → Type 0
  IsSent x e =
      (t : Time) × (run : String) × (v : ℕ) × (at_key x.entities e.id
        ≡ some (record (map_nif_entity_to_z4 now time_value marshal (seen_before t run e)) {
          version = v;
        }))
      × (float_eq e.confidence e.confidence ≡ true)

  abbrev pub IsRelSent : Existing → Nif.Relationship → Type 0
  IsRelSent x r =
      (t : Time) × (run : String) × (v : ℕ) × (at_key x.relationships r.id
        ≡ some
            (record (map_nif_relationship_to_z4 now time_value marshal (rel_seen_before t run r)) {
              version = v;
            }))
      × (float_eq r.confidence r.confidence ≡ true)

  entity_properties-Twin :
      (e : Nif.Entity) (t : Time) (run : String)
      → Twin
          (entity_properties now time_value marshal (seen_before t run e))
          (entity_properties now time_value marshal e)
  unfolding entity_properties
  entity_properties-Twin e t run =
      let before =
        with_source now time_value marshal (seen_before t run e).source run e.properties in
      let after = with_source now time_value marshal e.source e.ingestion_run e.properties in
      let named = not (e.raw_name == "") && not (e.raw_name == e.name) in
      let source =
        with_source-Twin now time_value marshal (seen_before t run e).source e.source run
          e.ingestion_run e.properties refl refl refl in
      Twin-set_if e.is_partial "is_partial" (boolean true)
        (set_if named "raw_name" (text e.raw_name) before)
        (set_if named "raw_name" (text e.raw_name) after)
        (Twin-set_if named "raw_name" (text e.raw_name) before after source)

  relationship_properties-Twin :
      (r : Nif.Relationship) (t : Time) (run : String)
      → Twin
          (relationship_properties now time_value marshal (rel_seen_before t run r))
          (relationship_properties now time_value marshal r)
  unfolding relationship_properties
  relationship_properties-Twin r t run =
      let before =
        with_source now time_value marshal (rel_seen_before t run r).source run r.properties in
      let after = with_source now time_value marshal r.source r.ingestion_run r.properties in
      Twin-set_if r.is_inferred "is_inferred" (boolean true) before after (
        with_source-Twin now time_value marshal (rel_seen_before t run r).source r.source run
          r.ingestion_run r.properties refl refl refl)

  entity_unchanged :
      (e : Nif.Entity) (t : Time) (run : String) (v : ℕ)
      → float_eq e.confidence e.confidence ≡ true
      → has_entity_changed now time_value marshal
          (record (map_nif_entity_to_z4 now time_value marshal (seen_before t run e)) {
            version = v;
          })
          (map_nif_entity_to_z4 now time_value marshal e)
        ≡ false
  unfolding has_entity_changed map_nif_entity_to_z4 same_truth
  entity_unchanged e t run v f =
      let p = maps_equal-Twin now time_value marshal _ _ (entity_properties-Twin e t run) in
      simp
        (
          self_eq e.sub_type,
          self_eq e.name,
          self_eq e.namespace,
          f,
          p,
          self_eq (map_nif_entity_to_z4 now time_value marshal e).type,
          self_eq "ACTIVE",
        )
        refl

  relationship_unchanged :
      (r : Nif.Relationship) (t : Time) (run : String) (v : ℕ)
      → float_eq r.confidence r.confidence ≡ true
      → has_relationship_changed now time_value marshal
          (record (map_nif_relationship_to_z4 now time_value marshal (rel_seen_before t run r)) {
            version = v;
          })
          (map_nif_relationship_to_z4 now time_value marshal r)
        ≡ false
  unfolding has_relationship_changed map_nif_relationship_to_z4 same_truth
  relationship_unchanged r t run v f =
      let p = maps_equal-Twin now time_value marshal _ _ (relationship_properties-Twin r t run) in
      simp
        (
          self_eq r.from_entity_id,
          self_eq r.to_entity_id,
          f,
          p,
          self_eq (map_nif_relationship_to_z4 now time_value marshal r).type,
        )
        refl

  diff_entities-sent :
      (es : List Nif.Entity) (x : Existing)
      → All (IsSent x) es
      → diff_entities now time_value marshal es x ≡ []
  unfolding diff_entities diff_entity
  diff_entities-sent [] x h = refl
  diff_entities-sent (e ∷ es) x ((t, run, v, at, f), h) =
      simp (at, entity_unchanged e t run v f) (diff_entities-sent es x h)

  diff_relationships-sent :
      (rs : List Nif.Relationship) (x : Existing)
      → All (IsRelSent x) rs
      → diff_relationships now time_value marshal rs x ≡ []
  unfolding diff_relationships diff_relationship
  diff_relationships-sent [] x h = refl
  diff_relationships-sent (r ∷ rs) x ((t, run, v, at, f), h) =
      simp (at, relationship_unchanged r t run v f) (diff_relationships-sent rs x h)

  -- Where storage can be read, and lists under the id of each record of the batch what an earlier run
  -- sent for that record, at any other time, under any other run id and at any version, stage 6 makes
  -- no mutation; the confidences are numbers that equal themselves.
  pub delta_compute_again :
      (list_namespace : String → Result ListError NamespaceListing) (es : List Nif.Entity)
      (rs : List Nif.Relationship) (x : Existing)
      → fetch_existing list_namespace
          (namespaces_of es [])
          (record { entities = []; relationships = [] })
        ≡ ok x
      → All (IsSent x) es
      → All (IsRelSent x) rs
      → delta_compute now time_value marshal list_namespace es rs ≡ ok []
  unfolding delta_compute
  delta_compute_again list_namespace es rs x found sent rels =
      simp (found, diff_entities-sent es x sent, diff_relationships-sent rs x rels) refl
