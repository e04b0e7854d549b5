-- ===== src/Storage/Query/Loads.antt =====
-- GetEntity through the cache: whatever it returns carries the id that was asked for.
use fun_project.Common.{String, Option, none, some, ◌≡◌, refl, arith, eq_iff}
use fun_project.Storage.Schema.Types.{Time, Entity}
use fun_project.Storage.Table.Laws.{key_of_find}
use fun_project.Storage.Graph.{find_entity, entity_key}
use fun_project.Storage.Cache.{GraphCache, get_entity, set_entity}
use fun_project.Storage.Cache.Laws.{get_entity-set_entity}
use fun_project.Storage.Query.{
  View, Reader, load_entity, serve_entity, keep_entity, inject_metrics_summary, inject_summary,
}
use fun_project.Storage.Metrics.{EntityMetrics, latest}

-- Every cached entity stands under its own id.
abbrev pub IsHonest : GraphCache → Type 0
IsHonest c = (now : Time) (k : String) (e : Entity) → get_entity c now k ≡ some e → e.id ≡ k

-- A lookup that found nothing else than an entity with the id, and left the cache honest.
pub record Loaded (id : String) (out : Option Entity × Reader) : Type 0 where
  pub named : (e : Entity) → out.0 ≡ some e → e.id ≡ id
  pub honest : IsHonest out.1.cache

set_entity-IsHonest :
    (c : GraphCache) (t : Time) (id : String) (e : Entity)
    → e.id ≡ id
    → IsHonest c
    → IsHonest (set_entity c t id e)
set_entity-IsHonest c t id e named honest now k x h =
    ground (arith, get_entity-set_entity c t now id k e, honest now k x, eq_iff id k)

pub id-inject_summary :
    (view : View) (m : Option EntityMetrics) (e : Entity) → (inject_summary view m e).id ≡ e.id
unfolding inject_summary
id-inject_summary view none e = refl
id-inject_summary view (some m) e = refl

id-inject_metrics_summary : (view : View) (e : Entity) → (inject_metrics_summary view e).id ≡ e.id
unfolding inject_metrics_summary
id-inject_metrics_summary view e =
    id-inject_summary view (latest view.env e.id view.entity_metrics) e

keep_entity-Loaded :
    (view : View) (id : String) (o : Option Entity) (s : Reader)
    → ((e : Entity) → o ≡ some e → e.id ≡ id)
    → IsHonest s.cache
    → Loaded id (keep_entity view o s)
unfolding keep_entity
keep_entity-Loaded view id none s named honest = record { named = named; honest = honest }
keep_entity-Loaded view id (some e) s named honest =
    let e' = inject_metrics_summary view e in
    record {
      named = λ x h. ground (arith, id-inject_metrics_summary view e, named e refl);
      honest = set_entity-IsHonest s.cache (view.env.clock s.tick) e'.id e' refl honest;
    }

serve_entity-Loaded :
    (view : View) (id : String) (o : Option Entity) (s : Reader)
    → ((e : Entity) → o ≡ some e → e.id ≡ id)
    → IsHonest s.cache
    → Loaded id (serve_entity view id o s)
unfolding serve_entity find_entity
serve_entity-Loaded view id none s named honest =
    keep_entity-Loaded view id (find_entity id view.db) s
      (key_of_find entity_key id view.db.entities) honest
serve_entity-Loaded view id (some e) s named honest = record { named = named; honest = honest }

pub load_entity-Loaded :
    (view : View) (id : String) (s : Reader) → IsHonest s.cache → Loaded id (load_entity view id s)
unfolding load_entity
load_entity-Loaded view id s honest =
    serve_entity-Loaded view id _ _ (honest (view.env.clock s.tick) id) honest
