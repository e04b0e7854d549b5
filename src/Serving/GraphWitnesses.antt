-- ===== src/Serving/GraphWitnesses.antt =====
-- A small graph and questions about it, and the theorems at them.
use fun_project.Common.{
  inl, inr, subst, ℕ, String, true, Option, none, some, List, [], ◌∷◌, ◌≡◌, ◌≢◌, refl, ◌↔◌, map,
  ◌==◌, if◌then◌else◌, lowered, lower_ascii, contains,
}
use fun_project.Common.Exec.{Result, ok, err}
use fun_project.Common.Assoc.{at_key, set_key, delete_key}
use fun_project.Common.Count.{times}
use fun_project.Storage.Query.{pos, Direction, both}
use fun_project.Storage.Schema.Float.{Float64, float_lt, float_eq, float_one, float_zero}
use fun_project.Storage.Schema.Json.{end, field, text}
use fun_project.Serving.Client.{Z4Entity, Z4Relationship, Neighborhood, NamespaceListing}
use fun_project.Serving.Impact.{
  BlastRadius, AffectedNode, out_of_fuel, calculate_blast_radius, from_origin, clamp_depth, search,
  search_on, visit_frame, expand, note_node, frames_of, seen_as_likely, float_ge, decay_of,
  radius_of, most_likely_first, place_likely, frame_count, edge_calls, edges_in,
}
use fun_project.Serving.Impact.Outcome.{
  IsRadius, calculate_blast_radius_ends, calculate_blast_radius-IsRadius,
}
use fun_project.Serving.Topics.{SegmentOptions, segment}
use fun_project.Serving.Topics.Contents.{ids_of, segment_keeps}
use fun_project.Serving.Topics.Bounds.{IsSegmented, segment-IsSegmented}
use fun_project.Serving.Intent.{classify, archetype_of, has_any}
use fun_project.Serving.Planner.{Request}
use fun_project.Serving.Server.{
  Backend, AskReq, not_found, handle_ask, handle_blast_radius, blast_radius_response, resolve_id,
  write_client_err,
}
use fun_project.Serving.Server.Laws.{AsksUnknown, IsRefused, handle_ask_refuses}
use fun_project.Serving.Server.Depth.{IsAlike, impact_depth}
use fun_project.Serving.Retriever as Retriever
use fun_project.Serving.Retriever.{edge_weight, carried, Subgraph, score_and_prune, retrieve}
use fun_project.Serving.Retriever.Paths.{CarriesZero}
use fun_project.Serving.Retriever.Laws.{IsPruned, score_and_prune-IsPruned, retrieve_once}

abbrev node : String → String → Z4Entity
node id dir = record {
  id = id;
  type = "SERVICE";
  sub_type = "";
  canonical_name = id;
  namespace = "acme";
  confidence = float_one;
  is_active = true;
  lifecycle_stage = "ACTIVE";
  valid_from = 1;
  valid_to = none;
  version = 1;
  properties = field "dir" (text dir) end;
}

abbrev edge : String → String → String → Z4Relationship
edge type from to = record {
  id = from;
  type = type;
  from_id = from;
  to_id = to;
  confidence = float_one;
  is_active = true;
  valid_from = 1;
  valid_to = none;
  version = 1;
  properties = end;
}

-- The least of two numbers in place of their product
abbrev lesser : Float64 → Float64 → Float64
lesser a b = if float_lt a b then a else b

abbrev entity_at : String → Result String Z4Entity
entity_at id = ok (node id "api")

-- b calls a at run time; c calls a, and imports b.
abbrev calls_into : String → List Z4Relationship
calls_into id =
    if id == "a"
    then edge "RUNTIME_CALLS" "b" "a" ∷ edge "CALLS" "c" "a" ∷ []
    else (if id == "b" then edge "IMPORTS" "c" "b" ∷ [] else [])

abbrev around : String → Result String Neighborhood
around id = ok (record { origin = node id "api"; nodes = []; edges = calls_into id; max_depth = 1 })

abbrev affected_node : String → ℕ → Float64 → AffectedNode
affected_node id depth p = record {
  node_id = id;
  canonical_name = id;
  type = "SERVICE";
  depth = depth;
  impact_probability = p;
}

-- The node c is reached at 0.4 and then at 0.8, and is counted twice.
abbrev radius_of_a : BlastRadius
radius_of_a = record {
  origin = node "a" "api";
  affected =
      affected_node "b" 1 0x3fe999999999999a
      ∷ affected_node "c" 2 0x3fe999999999999a
      ∷ affected_node "c" 1 0x3fd999999999999a
      ∷ [];
  max_depth = 3;
  total_affected = 3;
}

radius_is_found : calculate_blast_radius lesser entity_at around "a" 3 ≡ ok radius_of_a
unfolding calculate_blast_radius from_origin clamp_depth search search_on visit_frame expand
    note_node frames_of seen_as_likely float_ge decay_of radius_of most_likely_first place_likely
    frame_count edge_calls edges_in at_key set_key delete_key float_lt float_eq
radius_is_found = refl

calculate_blast_radius_ends_example :
    calculate_blast_radius lesser entity_at around "a" 3 ≢ err out_of_fuel
calculate_blast_radius_ends_example = calculate_blast_radius_ends lesser entity_at around "a" 3

calculate_blast_radius-IsRadius_example :
    (origin : Z4Entity) × (entity_at "a" ≡ ok origin)
    × IsRadius lesser entity_at around "a" origin (clamp_depth 3) radius_of_a
calculate_blast_radius-IsRadius_example =
    calculate_blast_radius-IsRadius lesser entity_at around "a" 3 radius_of_a radius_is_found

abbrev sample : NamespaceListing
sample = record {
  namespace = "acme";
  entities =
      node "a" "api/http"
      ∷ node "b" "./api"
      ∷ node "c" "a_b"
      ∷ node "d" "a_b/x"
      ∷ node "e" "a-b"
      ∷ node "f" "a-b"
      ∷ node "g" "lib"
      ∷ [];
  relationships = edge "CALLS" "g" "a" ∷ [];
}

abbrev pairs : SegmentOptions
pairs = record { min_topic_size = 2; max_topics = 2 }

segment_keeps_example :
    times "g" (ids_of (segment (some sample) pairs))
    ≡ times "g" (map (λ (e : Z4Entity). e.id) sample.entities)
segment_keeps_example = segment_keeps sample pairs "g"

segment-IsSegmented_example : IsSegmented sample pairs (segment (some sample) pairs)
segment-IsSegmented_example = segment-IsSegmented sample pairs

abbrev neighbors : Neighborhood
neighbors = record {
  origin = node "a" "api";
  nodes = node "b" "api" ∷ node "c" "api" ∷ [];
  edges = edge "EXPOSES" "b" "a" ∷ edge "CALLS" "c" "a" ∷ [];
  max_depth = 1;
}

carries_zero : CarriesZero lesser neighbors
unfolding edge_weight float_lt
carries_zero e (inl same) =
    subst (λ (r : Z4Relationship). carried lesser float_zero r ≡ float_zero) same refl
carries_zero e (inr (inl same)) =
    subst (λ (r : Z4Relationship). carried lesser float_zero r ≡ float_zero) same refl
carries_zero e (inr (inr none_left)) = absurd none_left

score_and_prune-IsPruned_example : IsPruned lesser neighbors (score_and_prune lesser neighbors 1 1)
score_and_prune-IsPruned_example = score_and_prune-IsPruned lesser neighbors 1 1 carries_zero

abbrev neighbors_at : String → ℕ → Direction → Result String Neighborhood
neighbors_at id depth dir = ok neighbors

retrieve_once_example :
    retrieve lesser neighbors_at "a" (pos 9) both ≡ ok (score_and_prune lesser neighbors 5 5)
unfolding Retriever.clamp_depth
retrieve_once_example = retrieve_once lesser neighbors_at "a" (pos 9) both

abbrev question : Request
question = record {
  question = "What breaks if we drop `a`?";
  namespace = "acme";
  entity_name = "a";
  depth = pos 9;
}

-- Storage with the nodes of the namespace acme, whose audits and answers are texts
abbrev backend : Backend String String
backend = record {
  mul = lesser;
  entity_by_name =
      λ namespace name. if namespace == "acme" then ok (node name "api") else err not_found;
  get_entity = λ id. ok (node id "api");
  neighborhood = λ id depth dir. ok neighbors;
  list_namespace = λ namespace. ok sample;
  read_log = λ limit. ok [];
  audit = λ listing. "healthy";
  answer = λ question sub. ok question;
}

abbrev asking : AskReq
asking = record {
  question = "What breaks if we drop `a`?";
  namespace = "acme";
  entity_name = "a";
  depth = pos 9;
}

impact_depth_example :
    IsAlike String String backend
      (handle_ask String String backend (some asking))
      (handle_ask String String backend (some (record asking { depth = pos 1 })))
unfolding classify archetype_of has_any contains lowered lower_ascii
impact_depth_example = impact_depth String String backend asking (pos 1) refl

abbrev elsewhere : Option AskReq
elsewhere =
    some
      (record { question = "what breaks"; namespace = "other"; entity_name = "a"; depth = pos 0 })

handle_ask_refuses_example :
    (((handle_ask String String backend elsewhere).status ≡ 404)
      ↔ AsksUnknown String String backend elsewhere)
    × (((handle_ask String String backend elsewhere).status ≡ 400) ↔ IsRefused elsewhere)
handle_ask_refuses_example = handle_ask_refuses String String backend elsewhere

-- A blast radius of nothing is answered as a failure of storage.
unnamed_is_bad_gateway :
    (handle_blast_radius String String backend (
      some (record { entity_id = ""; entity_name = ""; namespace = ""; max_depth = pos 1 }))).status
    ≡ 502
unfolding handle_blast_radius blast_radius_response resolve_id write_client_err
unnamed_is_bad_gateway = refl
