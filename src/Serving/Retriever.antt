-- ===== src/Serving/Retriever.antt =====
-- serving/internal/retriever/retriever.go: the part of the graph around an entity, scored and pruned.
pub mod Paths
pub mod Laws
use fun_project.Common.{
  ℕ, zero, suc, ◌-◌, String, Bool, true, false, ◌&&◌, ◌||◌, not, Option, none, some, List, [], ◌∷◌,
  ◌==◌, leb, ltb, length, map, if◌then◌else◌, mem_text,
}
use fun_project.Common.Exec.{Result, ok, err, and_then}
use fun_project.Common.Assoc.{Assoc, at_key, set_key}
use fun_project.Common.Count.{sort_with}
use fun_project.Storage.Query.{ℤ, pos, negsuc, Direction}
use fun_project.Storage.Schema.Float.{Float64, float_lt, float_zero, float_one}
use fun_project.Serving.Client.{Z4Entity, Z4Relationship, Neighborhood}

-- EdgeWeights, with 0.3 for the other types
unfoldable pub edge_weight : String → Float64
edge_weight type =
    if type == "EXPOSES"
    then 0x3ff0000000000000
    else (if type == "RUNTIME_CALLS"
        then 0x3feccccccccccccd
        else (if type == "IMPORTS"
            then 0x3fe6666666666666
            else (if type == "OWNS"
                then 0x3fe3333333333333
                else (if type == "DEPENDS_ON"
                    then 0x3fe0000000000000
                    else (if type == "CHANGE_COUPLED_WITH"
                        then 0x3fd999999999999a
                        else (if type == "CALLS"
                            then 0x3fc999999999999a
                            else 0x3fd3333333333333))))))

-- 0.15
abbrev pub drop_threshold : Float64
drop_threshold = 0x3fc3333333333333

abbrev pub max_nodes : ℕ
max_nodes = 200

pub record ScoredNode : Type 0 where
  pub entity : Z4Entity
  pub score : Float64

pub record RetrieveStats : Type 0 where
  pub nodes_before_prune : ℕ
  pub nodes_after_prune : ℕ
  pub edges_kept : ℕ
  pub requested_depth : ℕ
  pub applied_depth : ℕ

pub record Subgraph : Type 0 where
  pub origin : Z4Entity
  pub nodes : List ScoredNode
  pub edges : List Z4Relationship
  pub stats : RetrieveStats

-- The nodes by id; `changed` is that of the pass.
pub record Scores : Type 0 where
  pub by_id : Assoc ScoredNode
  pub changed : Bool

-- A node that the origin's id names again takes its place, with the score 0.
unfoldable pub index_nodes : List Z4Entity → Assoc ScoredNode → Assoc ScoredNode
unfolding set_key
index_nodes [] m = m
index_nodes (n ∷ ns) m = index_nodes ns (set_key m n.id (record { entity = n; score = float_zero }))

unfoldable pub by_id_of : Neighborhood → Assoc ScoredNode
unfolding index_nodes set_key
by_id_of nb =
    index_nodes nb.nodes
      (set_key [] nb.origin.id (record { entity = nb.origin; score = float_one }))

-- n.Score < dropThreshold is false of NaN.
unfoldable pub survives : String → String → ScoredNode → Bool
unfolding float_lt
survives origin_id id n = not (id == origin_id) && not (float_lt n.score drop_threshold)

unfoldable pub surviving : String → Assoc ScoredNode → List ScoredNode
unfolding survives
surviving origin_id [] = []
surviving origin_id ((id, n) ∷ m) =
    let rest = surviving origin_id m in if survives origin_id id n then n ∷ rest else rest

-- sort.Slice, which leaves the order of equals open
unfoldable pub best_first : ScoredNode → ScoredNode → Bool
unfolding float_lt
best_first a b = not (float_lt a.score b.score)

unfoldable pub first_nodes : ℕ → List ScoredNode → List ScoredNode
first_nodes zero ns = []
first_nodes (suc k) [] = []
first_nodes (suc k) (n ∷ ns) = n ∷ first_nodes k ns

unfoldable pub kept_of : String → Assoc ScoredNode → List ScoredNode
unfolding surviving sort_with best_first first_nodes
kept_of origin_id m = first_nodes max_nodes (sort_with best_first (surviving origin_id m))

-- keptIDs: an id is in `byID` once, so deleting those of the nodes that were cut leaves those of the nodes kept.
abbrev pub kept_ids : String → List ScoredNode → List String
kept_ids origin_id ns = origin_id ∷ map (λ (n : ScoredNode). n.entity.id) ns

unfoldable pub edges_between : List String → List Z4Relationship → List Z4Relationship
unfolding mem_text
edges_between ids [] = []
edges_between ids (e ∷ es) =
    let rest = edges_between ids es in
    if mem_text e.from_id ids && mem_text e.to_id ids then e ∷ rest else rest

-- A depth below 1 is 1, and one above 5 is 5.
unfoldable pub clamp_depth : ℤ → ℕ
clamp_depth (negsuc n) = 1
clamp_depth (pos n) = if ltb n 1 then 1 else (if ltb 5 n then 5 else n)

-- `mul` is the product of floats.
module _ (mul : Float64 → Float64 → Float64) where
  abbrev pub carried : Float64 → Z4Relationship → Float64
  unfolding edge_weight
  carried s e = mul (mul s (edge_weight e.type)) e.confidence

  unfoldable pub raise_score : String → ScoredNode → Float64 → Scores → Scores
  unfolding float_lt set_key
  raise_score id n candidate st =
      if float_lt n.score candidate
      then record {
        by_id = set_key st.by_id id (record { entity = n.entity; score = candidate });
        changed = true;
      }
      else st

  unfoldable pub flow_between :
      String → Z4Relationship → Option ScoredNode → Option ScoredNode → Scores → Scores
  unfolding raise_score
  flow_between id e (some a) (some b) st = raise_score id b (carried a.score e) st
  flow_between id e _ _ st = st

  -- From the node of one id to that of another
  unfoldable pub flow : String → String → Z4Relationship → Scores → Scores
  unfolding flow_between at_key
  flow from to e st = flow_between to e (at_key st.by_id from) (at_key st.by_id to) st

  unfoldable pub relax_edge : String → Z4Relationship → Scores → Scores
  unfolding flow
  relax_edge origin_id e st =
      let there : Scores = flow e.from_id e.to_id e st in
      if e.from_id == origin_id then there else flow e.to_id e.from_id e there

  unfoldable pub relax_edges : String → List Z4Relationship → Scores → Scores
  unfolding relax_edge
  relax_edges origin_id [] st = st
  relax_edges origin_id (e ∷ es) st = relax_edges origin_id es (relax_edge origin_id e st)

  -- At most so many passes; one that changes nothing is the last.
  unfoldable pub propagate : ℕ → String → List Z4Relationship → Assoc ScoredNode → Assoc ScoredNode
  unfolding relax_edges
  propagate zero origin_id es m = m
  propagate (suc k) origin_id es m =
      let st : Scores = relax_edges origin_id es (record { by_id = m; changed = false }) in
      let rest = propagate k origin_id es st.by_id in if st.changed then rest else st.by_id

  -- The depths are filled in by `retrieve`.
  unfoldable pub score_and_prune : Neighborhood → ℕ → ℕ → Subgraph
  unfolding by_id_of propagate kept_of edges_between
  score_and_prune nb requested applied =
      let m : Assoc ScoredNode = propagate 6 nb.origin.id nb.edges (by_id_of nb) in
      let kept : List ScoredNode = kept_of nb.origin.id m in
      let edges : List Z4Relationship = edges_between (kept_ids nb.origin.id kept) nb.edges in
      record {
        origin = nb.origin;
        nodes = kept;
        edges = edges;
        stats = record {
          nodes_before_prune = length m - 1;
          nodes_after_prune = length kept;
          edges_kept = length edges;
          requested_depth = requested;
          applied_depth = applied;
        };
      }

  module _ (neighborhood : String → ℕ → Direction → Result String Neighborhood) where
    -- The loop, from a depth down; depth 0 does not occur.
    unfoldable pub back_off : String → Direction → ℕ → ℕ → Result String Subgraph
    unfolding score_and_prune
    back_off id dir requested zero =
        and_then (neighborhood id 0 dir) λ nb. ok (score_and_prune nb requested 0)
    back_off id dir requested (suc d) =
        let rest = back_off id dir requested d in
        and_then (neighborhood id (suc d) dir) λ nb.
          let sub : Subgraph = score_and_prune nb requested (suc d) in
          if leb (length sub.nodes) max_nodes || leb (suc d) 1 then ok sub else rest

    -- Retrieve
    unfoldable pub retrieve : String → ℤ → Direction → Result String Subgraph
    unfolding back_off clamp_depth
    retrieve id depth dir = back_off id dir (clamp_depth depth) (clamp_depth depth)
