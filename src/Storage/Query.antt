-- ===== src/Storage/Query.antt =====
-- graphdb/query.go: the lookups and the breadth-first traversal, over the committed tables.
pub mod Reach
pub mod Loads
pub mod Walk
pub mod Edges
pub mod Exact
pub mod Keeps
pub mod Current
pub mod Listing
use fun_project.Common.{
  ℕ, zero, suc, String, Option, none, some, Bool, true, false, ◌&&◌, ◌||◌, List, [], ◌∷◌, ◌++◌,
  ◌==◌, ltb, map, mem_text, if◌then◌else◌,
}
use Prim.Native.String
use fun_project.Storage.Schema.Json.{Fields, end, field, Json, object, number, text}
use fun_project.Storage.Schema.Types.{Time, Entity, Relationship}
use fun_project.Storage.Table.{Row}
use fun_project.Storage.Session.{Db}
use fun_project.Storage.Graph.{find_entity, find_relationship}
use fun_project.Storage.Cache
use fun_project.Storage.Cache.{GraphCache, Neighborhood}
use fun_project.Storage.Metrics.{EntityMetrics, MetricsEnv, latest}

-- What a lookup reads: the committed tables, the clock and the order of instants as texts, and the
-- RFC 3339 text of an instant.
pub record View : Type 0 where
  pub db : Db
  pub entity_metrics : List EntityMetrics
  pub env : MetricsEnv
  pub format_time : Time → String

-- What a lookup changes: the cache and the number of the next call of time.Now.
pub record Reader : Type 0 where
  pub cache : GraphCache
  pub tick : ℕ

-- m[key] = v
unfoldable pub set_field : String → Json → Fields → Fields
set_field k v end = field k v end
set_field k v (field j w fs) =
    let rest = set_field k v fs in if j == k then field k v fs else field j w rest

abbrev pub metrics_summary : View → EntityMetrics → Json
metrics_summary view em = object (
    field "request_rate" (number em.request_rate) (
      field "error_rate" (number em.error_rate) (
        field "p50_latency_ms" (number em.p50_latency_ms) (
          field "p95_latency_ms" (number em.p95_latency_ms) (
            field "p99_latency_ms" (number em.p99_latency_ms) (
              field "cpu_utilization" (number em.cpu_utilization) (
                field "memory_utilization" (number em.memory_utilization)
                  (field "timestamp" (text (view.format_time em.timestamp)) end))))))))

unfoldable pub inject_summary : View → Option EntityMetrics → Entity → Entity
unfolding set_field
inject_summary view none e = e
inject_summary view (some em) e = record e {
  properties = set_field "metrics_summary" (metrics_summary view em) e.properties;
}

unfoldable pub inject_metrics_summary : View → Entity → Entity
inject_metrics_summary view e = inject_summary view (latest view.env e.id view.entity_metrics) e

-- The row that was found, with its summary, goes into the cache; `none` is ErrNotFound.
unfoldable pub keep_entity : View → Option Entity → Reader → Option Entity × Reader
keep_entity view none s = (none, s)
keep_entity view (some e) s =
    let e' = inject_metrics_summary view e in
    (
      some e',
      record s {
        cache = Cache.set_entity s.cache (view.env.clock s.tick) e'.id e';
        tick = suc s.tick;
      },
    )

unfoldable pub serve_entity : View → String → Option Entity → Reader → Option Entity × Reader
serve_entity view id (some e) s = (some e, s)
serve_entity view id none s = keep_entity view (find_entity id view.db) s

-- Store.GetEntity
unfoldable pub load_entity : View → String → Reader → Option Entity × Reader
load_entity view id s =
    serve_entity view id (Cache.get_entity s.cache (view.env.clock s.tick) id)
      (record s { tick = suc s.tick })

-- GetRelationship
unfoldable pub load_relationship : View → String → Option Relationship
load_relationship view id = find_relationship id view.db

pub data Direction : Type 0 where
  outbound inbound both : Direction

-- The WHERE clauses of relSelectOutbound, relSelectInbound and relSelectEitherDir
unfoldable pub touches : Direction → String → Relationship → Bool
touches outbound id r = r.from_id == id && r.is_active
touches inbound id r = r.to_id == id && r.is_active
touches both id r = (r.from_id == id || r.to_id == id) && r.is_active

unfoldable pub edges_among : Direction → String → List (Row Relationship) → List Relationship
edges_among dir id [] = []
edges_among dir id (row ∷ rows) =
    let rest = edges_among dir id rows in
    if touches dir id row.value then row.value ∷ rest else rest

unfoldable pub edges_for_node : View → String → Direction → List Relationship
edges_for_node view id dir = edges_among dir id view.db.relationships

-- The loop's variables; `seen_nodes` is in the order of discovery.
pub record Search : Type 0 where
  pub seen_nodes : List (String × Entity)
  pub seen_edges : List String
  pub edges : List Relationship
  pub next : List String

-- The end of the edge away from `nid`
unfoldable pub other_end : String → Relationship → String
other_end nid e = if e.to_id == nid then e.from_id else e.to_id

unfoldable pub seen : String → List (String × Entity) → Bool
seen id [] = false
seen id ((k, n) ∷ nodes) = k == id || seen id nodes

-- A neighbor that is not found is passed over.
unfoldable pub admit : String → Option Entity → Search → Search
admit other none w = w
admit other (some node) w = record w {
  seen_nodes = w.seen_nodes ++ (other, node) ∷ [];
  next = w.next ++ other ∷ [];
}

abbrev pub take_edge : Relationship → Search → Search
take_edge e w = record w { seen_edges = e.id ∷ w.seen_edges; edges = w.edges ++ e ∷ [] }

-- The body of the loop over the edges of `nid`
unfoldable pub visit : View → String → Relationship → Search × Reader → Search × Reader
visit view nid e (w, s) =
    let found = load_entity view (other_end nid e) s in
    if mem_text e.id w.seen_edges
    then (w, s)
    else (if seen (other_end nid e) w.seen_nodes
        then (take_edge e w, s)
        else (admit (other_end nid e) found.0 (take_edge e w), found.1))

unfoldable pub visit_all : View → String → List Relationship → Search × Reader → Search × Reader
visit_all view nid [] c = c
visit_all view nid (e ∷ es) c = visit_all view nid es (visit view nid e c)

-- The loop over the frontier
unfoldable pub expand : View → Direction → List String → Search × Reader → Search × Reader
expand view dir [] c = c
expand view dir (nid ∷ frontier) c =
    expand view dir frontier (visit_all view nid (edges_for_node view nid dir) c)

-- The loop over the depth, `left` rounds before maxDepth; the frontier is what the last round found.
-- Where it is empty the source leaves the loop, and the rounds left here change nothing.
unfoldable pub levels : View → Direction → ℕ → Search × Reader → Search × Reader
levels view dir zero c = c
levels view dir (suc left) (w, s) =
    levels view dir left (expand view dir w.next (record w { next = [] }, s))

-- Go's int
pub data ℤ : Type 0 where
  pos : ℕ → ℤ
  negsuc : ℕ → ℤ

unfoldable pub clamp_depth : ℤ → ℕ
clamp_depth (pos n) = if ltb 5 n then 5 else n
clamp_depth (negsuc n) = 0

abbrev dir_number : Direction → ℕ
dir_number outbound = 0
dir_number inbound = 1
dir_number both = 2

-- string(rune(n)), for the depths and the directions
rune_text : ℕ → String
rune_text zero = "\0"
rune_text (suc zero) = "\u{1}"
rune_text (suc (suc zero)) = "\u{2}"
rune_text (suc (suc (suc zero))) = "\u{3}"
rune_text (suc (suc (suc (suc zero)))) = "\u{4}"
rune_text (suc (suc (suc (suc (suc n))))) = "\u{5}"

unfoldable pub neighborhood_key : String → ℕ → Direction → String
unfolding rune_text
neighborhood_key id depth dir =
    String.◌++◌ id (
      String.◌++◌ "|"
        (String.◌++◌ (rune_text depth) (String.◌++◌ "|" (rune_text (dir_number dir)))))

unfoldable pub except : String → List (String × Entity) → List Entity
except id [] = []
except id ((k, n) ∷ nodes) = let rest = except id nodes in if k == id then rest else n ∷ rest

unfoldable pub begin : Entity → Search
begin origin = record {
  seen_nodes = (origin.id, origin) ∷ [];
  seen_edges = [];
  edges = [];
  next = origin.id ∷ [];
}

unfoldable pub result_of : Entity → ℕ → Search → Neighborhood
unfolding except
result_of origin depth w = record {
  origin = origin;
  nodes = except origin.id w.seen_nodes;
  edges = w.edges;
  max_depth = depth;
}

unfoldable pub traverse :
    View → String → ℕ → Direction → Option Entity × Reader → Option Neighborhood × Reader
traverse view key depth dir (none, s) = (none, s)
traverse view key depth dir (some origin, s) =
    let done = levels view dir depth (begin origin, s) in
    let n = result_of origin depth done.0 in
    (
      some n,
      record done.1 {
        cache = Cache.set_neighborhood done.1.cache (view.env.clock done.1.tick) key n;
        tick = suc done.1.tick;
      },
    )

unfoldable pub serve_neighborhood :
    View → String → ℕ → Direction → Option Neighborhood → Reader → Option Neighborhood × Reader
serve_neighborhood view id depth dir (some n) s = (some n, s)
serve_neighborhood view id depth dir none s =
    traverse view (neighborhood_key id depth dir) depth dir (load_entity view id s)

-- Neighborhood; `none` is ErrNotFound for the origin.
unfoldable pub neighborhood : View → String → ℤ → Direction → Reader → Option Neighborhood × Reader
neighborhood view id max_depth dir s =
    let depth = clamp_depth max_depth in
    serve_neighborhood view id depth dir
      (Cache.get_neighborhood s.cache (view.env.clock s.tick) (neighborhood_key id depth dir))
      (record s { tick = suc s.tick })
