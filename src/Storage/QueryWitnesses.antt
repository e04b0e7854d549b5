-- ===== src/Storage/QueryWitnesses.antt =====
-- Concrete runs of the lookups, and their theorems at inputs that meet their hypotheses.
use fun_project.Common.{
  ◌+◌, String, some, none, true, false, ltb, length, List, [], ◌∷◌, ◌≡◌, refl, leb, map, arith,
  Option,
}
use fun_project.Storage.Schema.Float.{float_one}
use fun_project.Storage.Schema.Types.{Time, Entity, zero_time}
use fun_project.Storage.Graph.{find_entity}
use fun_project.Storage.Cache.{Neighborhood, new_cache}
use fun_project.Storage.Mutation.Handlers.{Mutation}
use fun_project.Storage.Mutation.Batch.{Store, apply_batch}
use fun_project.Storage.Mutation.Integrity.{IsConsistent-empty, apply_batch-IsConsistent}
use fun_project.Storage.Metrics.{EntityMetrics, MetricsEnv, latest}
use fun_project.Storage.Metrics.Laws.{IsOrder}
use fun_project.Storage.Query.{
  View, Reader, pos, outbound, both, neighborhood, load_entity, clamp_depth,
}
use fun_project.Storage.Query.Current.{
  IsCurrent, IsRowOf, after, reader_of, start, batch, lookup, load_entity-IsRowOf,
}
use fun_project.Storage.Query.Listing.Laws.{active_in, edges_in}
use fun_project.Storage.Query.Loads.{IsHonest}
use fun_project.Storage.Query.Exact.{IsExact, neighborhood-IsExact}
use fun_project.Storage.Opened.{opened}
use fun_project.Storage.Examples.{
  sample_env, payments, ledger, calls, upserting, connecting, empty_store,
}

abbrev graph : List Mutation
graph = upserting payments ∷ upserting ledger ∷ connecting calls ∷ []

abbrev metrics_env : MetricsEnv
metrics_env = record {
  clock = λ n. zero_time + 2000000000 + n;
  text_le = leb;
  begin_ok = true;
  commit_ok = true;
}

abbrev measured : Time → EntityMetrics
measured t = record {
  entity_id = "ent_a";
  timestamp = t;
  request_rate = float_one;
  error_rate = 0;
  p50_latency_ms = 0;
  p95_latency_ms = 0;
  p99_latency_ms = 0;
  cpu_utilization = 0;
  memory_utilization = 0;
}

abbrev rows : List EntityMetrics
rows = measured 7 ∷ measured 9 ∷ measured 8 ∷ []

abbrev view : View
view = record {
  db = (apply_batch sample_env graph empty_store).1.db;
  entity_metrics = rows;
  env = metrics_env;
  format_time = λ t. "now";
}

abbrev reader : Reader
reader = record { cache = new_cache; tick = 0 }

newest : latest metrics_env "ent_a" rows ≡ some (measured 9)
unfolding opened
newest = refl

ids : Option Neighborhood → List String
ids none = []
ids (some n) = map (λ e. e.id) n.nodes

one_hop : ids (neighborhood view "ent_a" (pos 9) outbound reader).0 ≡ "ent_b" ∷ []
unfolding opened ids
one_hop = refl

no_hop_back : ids (neighborhood view "ent_b" (pos 1) outbound reader).0 ≡ []
unfolding opened ids
no_hop_back = refl

reader-IsHonest : IsHonest reader.cache
unfolding opened
reader-IsHonest now k e h = absurd (cc)

neighborhood-IsExact_example :
    (n : Neighborhood) × ((neighborhood view "ent_a" (pos 9) both reader).0 ≡ some n)
    × IsExact view both "ent_a" (clamp_depth (pos 9)) n
neighborhood-IsExact_example =
    neighborhood-IsExact view both "ent_a" (pos 9) reader
      (apply_batch-IsConsistent sample_env graph empty_store IsConsistent-empty) reader-IsHonest
      (unfold opened in refl) (unfold opened in refl)

numbers-IsOrder : IsOrder leb
numbers-IsOrder = record { total = λ a b. ground arith; transitive = λ a b c h k. ground arith }

empty-IsCurrent : IsCurrent empty_store.db empty_store.cache
unfolding opened
empty-IsCurrent now id e named h = absurd (cc)

-- A batch, a lookup that fills the cache, and the same batch again.
abbrev filled : Store
filled =
    let t = (apply_batch sample_env graph empty_store).1 in
    after t (load_entity view "ent_a" (reader_of t)).1

abbrev later : Store
later = (apply_batch sample_env graph filled).1

abbrev later_view : View
later_view = record view { db = later.db }

load_entity-IsRowOf_example :
    ((e : Entity)
      → (load_entity later_view "ent_a" (reader_of later)).0 ≡ some e
      → IsRowOf later_view.db "ent_a" e)
    × ((load_entity later_view "ent_a" (reader_of later)).0 ≡ none
        → find_entity "ent_a" later_view.db ≡ none)
load_entity-IsRowOf_example =
    load_entity-IsRowOf empty_store later later_view "ent_a" empty-IsCurrent
      (batch empty_store filled sample_env graph (
        lookup empty_store _ view "ent_a" refl
          (batch empty_store empty_store sample_env graph (start empty_store))))
      refl refl

few_entities : ltb 5000 (length (active_in view.db "acme")) ≡ false
unfolding opened
few_entities = refl

few_edges : ltb 20000 (length (edges_in view.db "acme")) ≡ false
unfolding opened
few_edges = refl
