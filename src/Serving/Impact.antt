-- ===== src/Serving/Impact.antt =====
-- serving/internal/analytics/impact.go: how far a failure of one entity spreads along incoming edges.
pub mod Spread
pub mod Outcome
use fun_project.Common.{
  ℕ, zero, suc, ◌+◌, ◌-◌, String, Bool, true, false, ◌||◌, not, Option, none, some, List, [], ◌∷◌,
  ◌++◌, ◌==◌, leb, ltb, length, if◌then◌else◌,
}
use fun_project.Common.Exec.{Result, ok, err, and_then}
use fun_project.Common.Assoc.{Assoc, at_key, set_key}
use fun_project.Storage.Schema.Float.{Float64, float_lt, float_eq, float_one}
use fun_project.Serving.Client.{Z4Entity, Z4Relationship, Neighborhood}

-- 0.40 and 0.10
abbrev pub default_decay : Float64
default_decay = 0x3fd999999999999a

abbrev pub impact_prune_thresh : Float64
impact_prune_thresh = 0x3fb999999999999a

-- PropagationDecay, with the default for the other types
unfoldable pub decay_of : String → Float64
decay_of type =
    if type == "IMPORTS"
    then 0x3fee666666666666
    else (if type == "RUNTIME_CALLS"
        then 0x3fe999999999999a
        else (if type == "DATA_COUPLED_WITH"
            then 0x3fe6666666666666
            else (if type == "DEPENDS_ON" then 0x3fe0000000000000 else default_decay)))

-- a >= b and a <= b
unfoldable pub float_ge : Float64 → Float64 → Bool
unfolding float_lt float_eq
float_ge a b = float_lt b a || float_eq a b

pub record AffectedNode : Type 0 where
  pub node_id : String
  pub canonical_name : String
  pub type : String
  pub depth : ℕ
  pub impact_probability : Float64

pub record BlastRadius : Type 0 where
  pub origin : Z4Entity
  pub affected : List AffectedNode
  pub max_depth : ℕ
  pub total_affected : ℕ

pub record Frame : Type 0 where
  pub node_id : String
  pub depth : ℕ
  pub prob : Float64

pub data ImpactError : Type 0 where
  origin_lookup : String → ImpactError
  expansion : String → String → ImpactError
  out_of_fuel : ImpactError

pub record Search : Type 0 where
  pub visited : Assoc Float64
  pub queue : List Frame
  pub affected : List AffectedNode

-- A depth that is not positive is 0.
unfoldable pub clamp_depth : ℕ → ℕ
clamp_depth d = if ltb d 1 then 5 else (if ltb 5 d then 5 else d)

-- prev, ok := visited[id]; ok && prev >= prob
unfoldable pub seen_as_likely : Option Float64 → Float64 → Bool
unfolding float_ge
seen_as_likely none p = false
seen_as_likely (some prev) p = float_ge prev p

-- sort.Slice, which leaves the order of equals open
unfoldable pub place_likely : AffectedNode → List AffectedNode → List AffectedNode
unfolding float_lt
place_likely a [] = a ∷ []
place_likely a (x ∷ xs) =
    let rest = place_likely a xs in
    if float_lt a.impact_probability x.impact_probability then x ∷ rest else a ∷ x ∷ xs

unfoldable pub most_likely_first : List AffectedNode → List AffectedNode
unfolding place_likely
most_likely_first [] = []
most_likely_first (a ∷ xs) = place_likely a (most_likely_first xs)

-- `mul` is the product of floats. The client's answers are functions of the id: storage does not change
-- while one radius is computed.
module _ (mul : Float64 → Float64 → Float64) (get_entity : String → Result String Z4Entity)
    (neighborhood : String → Result String Neighborhood) where
  abbrev pub passed_on : Float64 → Z4Relationship → Float64
  unfolding decay_of
  passed_on p e = mul (mul p (decay_of e.type)) e.confidence

  unfoldable pub frames_of : Frame → List Z4Relationship → List Frame
  unfolding float_ge
  frames_of f [] = []
  frames_of f (e ∷ es) =
      let rest = frames_of f es in
      if not (e.to_id == f.node_id) || float_ge impact_prune_thresh (passed_on f.prob e)
      then rest
      else record { node_id = e.from_id; depth = suc f.depth; prob = passed_on f.prob e } ∷ rest

  module _ (origin_id : String) (max_depth : ℕ) where
    unfoldable pub note_node : Frame → Neighborhood → List AffectedNode → List AffectedNode
    note_node f nb affected =
        if f.node_id == origin_id
        then affected
        else (affected
            ++ record {
              node_id = f.node_id;
              canonical_name = nb.origin.canonical_name;
              type = nb.origin.type;
              depth = f.depth;
              impact_probability = f.prob;
            }
              ∷ [])

    -- From the end of the call of Neighborhood
    unfoldable pub expand : Frame → Result String Neighborhood → Search → Result ImpactError Search
    unfolding note_node frames_of
    expand f (err why) s = err (expansion f.node_id why)
    expand f (ok nb) s = ok (record s {
      affected = note_node f nb s.affected;
      queue = if leb max_depth f.depth then s.queue else s.queue ++ frames_of f nb.edges;
    })

    -- The body of the loop, for the frame that was taken off the queue
    unfoldable pub visit_frame : Frame → Search → Result ImpactError Search
    unfolding seen_as_likely expand set_key
    visit_frame f s =
        if seen_as_likely (at_key s.visited f.node_id) f.prob
        then ok s
        else expand f (neighborhood f.node_id)
            (record s { visited = set_key s.visited f.node_id f.prob })

    unfoldable pub search_on :
        (Search → Result ImpactError Search) → List Frame → Search → Result ImpactError Search
    unfolding visit_frame
    search_on continue [] s = ok s
    search_on continue (f ∷ q) s = and_then (visit_frame f (record s { queue = q })) continue

    -- The loop, on fuel
    unfoldable pub search : ℕ → Search → Result ImpactError Search
    unfolding search_on
    search zero s = err out_of_fuel
    search (suc n) s = search_on (search n) s.queue s

  -- How many frames can come from one, with so many levels to go
  unfoldable pub edge_calls : (String → ℕ) → List Z4Relationship → ℕ
  edge_calls f [] = 0
  edge_calls f (e ∷ es) = f e.from_id + edge_calls f es

  unfoldable pub edges_in : Result String Neighborhood → List Z4Relationship
  edges_in (err why) = []
  edges_in (ok nb) = nb.edges

  unfoldable pub frame_count : ℕ → String → ℕ
  unfolding edge_calls edges_in
  frame_count zero id = 1
  frame_count (suc k) id = suc (edge_calls (frame_count k) (edges_in (neighborhood id)))

  abbrev pub first_search : String → Search
  first_search origin_id = record {
    visited = [];
    queue = record { node_id = origin_id; depth = 0; prob = float_one } ∷ [];
    affected = [];
  }

  unfoldable pub radius_of :
      Z4Entity → ℕ → Result ImpactError Search → Result ImpactError BlastRadius
  unfolding most_likely_first
  radius_of origin depth (err e) = err e
  radius_of origin depth (ok s) = ok (record {
    origin = origin;
    affected = most_likely_first s.affected;
    max_depth = depth;
    total_affected = length s.affected;
  })

  unfoldable pub from_origin : String → ℕ → Result String Z4Entity → Result ImpactError BlastRadius
  unfolding radius_of search frame_count
  from_origin id depth (err why) = err (origin_lookup why)
  from_origin id depth (ok origin) =
      radius_of origin depth (search id depth (suc (frame_count depth id)) (first_search id))

  -- CalculateBlastRadius
  unfoldable pub calculate_blast_radius : String → ℕ → Result ImpactError BlastRadius
  unfolding from_origin clamp_depth
  calculate_blast_radius id depth = from_origin id (clamp_depth depth) (get_entity id)
