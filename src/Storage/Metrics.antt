-- ===== src/Storage/Metrics.antt =====
-- metrics/store.go: the series of measurements of each entity and relationship. Measurements are
-- kept by instant; SQLite compares the texts of the instants, whose order is a parameter.
pub mod Laws
use fun_project.Common.{
  ℕ, suc, ◌-◌, ◌*◌, String, Option, none, some, Bool, ◌&&◌, List, [], ◌∷◌, ◌++◌, ◌==◌, nat_eq,
  if◌then◌else◌,
}
use fun_project.Storage.Schema.Float.{Float64}
use fun_project.Storage.Schema.Types.{Time, is_zero}

pub record EntityMetrics : Type 0 where
  pub entity_id : String
  pub timestamp : Time
  pub request_rate : Float64
  pub error_rate : Float64
  pub p50_latency_ms : Float64
  pub p95_latency_ms : Float64
  pub p99_latency_ms : Float64
  pub cpu_utilization : Float64
  pub memory_utilization : Float64

-- `data_volume_bytes` is the 64-bit pattern of an int64, which is only carried.
pub record RelationshipMetrics : Type 0 where
  pub relationship_id : String
  pub timestamp : Time
  pub call_rate : Float64
  pub error_rate : Float64
  pub p99_latency_ms : Float64
  pub data_volume_bytes : ℕ

pub record MetricsBatch : Type 0 where
  pub entities : List EntityMetrics
  pub relationships : List RelationshipMetrics

-- What the store takes from outside: the clock, the order of two instants written as RFC 3339
-- texts, and the outcomes of BEGIN and COMMIT.
pub record MetricsEnv : Type 0 where
  pub clock : ℕ → Time
  pub text_le : Time → Time → Bool
  pub begin_ok : Bool
  pub commit_ok : Bool

-- The tables, and the calls of time.Now made so far.
pub record MetricsDb : Type 0 where
  pub entity_metrics : List EntityMetrics
  pub relationship_metrics : List RelationshipMetrics
  pub tick : ℕ

abbrev pub same_entity_key : EntityMetrics → EntityMetrics → Bool
same_entity_key a b = a.entity_id == b.entity_id && nat_eq a.timestamp b.timestamp

abbrev pub same_rel_key : RelationshipMetrics → RelationshipMetrics → Bool
same_rel_key a b = a.relationship_id == b.relationship_id && nat_eq a.timestamp b.timestamp

module _ {A : Type 0} (same_key : A → A → Bool) where
  -- INSERT OR REPLACE: the row with the same key goes, and the new row comes last.
  unfoldable pub replace : A → List A → List A
  replace a [] = a ∷ []
  replace a (b ∷ rows) = let rest = replace a rows in if same_key a b then rest else b ∷ rest

module _ (env : MetricsEnv) where
  -- An instant that was not given is the current one.
  unfoldable pub stamp : Time → ℕ → Time × ℕ
  stamp t tick = if is_zero t then (env.clock tick, suc tick) else (t, tick)

  unfoldable pub ingest_entity : EntityMetrics → MetricsDb → MetricsDb
  unfolding stamp replace
  ingest_entity em db =
      let at = stamp em.timestamp db.tick in
      record db {
        entity_metrics = replace same_entity_key (record em { timestamp = at.0 }) db.entity_metrics;
        tick = at.1;
      }

  unfoldable pub ingest_relationship : RelationshipMetrics → MetricsDb → MetricsDb
  unfolding stamp replace
  ingest_relationship rm db =
      let at = stamp rm.timestamp db.tick in
      record db {
        relationship_metrics =
            replace same_rel_key (record rm { timestamp = at.0 }) db.relationship_metrics;
        tick = at.1;
      }

  unfoldable pub ingest_entities : List EntityMetrics → MetricsDb → MetricsDb
  ingest_entities [] db = db
  ingest_entities (em ∷ ems) db = ingest_entities ems (ingest_entity em db)

  unfoldable pub ingest_relationships : List RelationshipMetrics → MetricsDb → MetricsDb
  ingest_relationships [] db = db
  ingest_relationships (rm ∷ rms) db = ingest_relationships rms (ingest_relationship rm db)

  -- Ingest; `false` is an error, after which the tables are rolled back.
  unfoldable pub ingest : MetricsBatch → MetricsDb → Bool × MetricsDb
  ingest batch db =
      let db' = ingest_relationships batch.relationships (ingest_entities batch.entities db) in
      if env.begin_ok
      then (if env.commit_ok then (Bool.true, db') else (Bool.false, record db { tick = db'.tick }))
      else (Bool.false, db)

  -- ORDER BY timestamp DESC LIMIT 1, one row at a time
  unfoldable pub newer : EntityMetrics → Option EntityMetrics → EntityMetrics
  newer m none = m
  newer m (some n) = if env.text_le m.timestamp n.timestamp then n else m

  -- GetLatestEntityMetrics
  unfoldable pub latest : String → List EntityMetrics → Option EntityMetrics
  unfolding newer
  latest id [] = none
  latest id (m ∷ rows) =
      let rest = latest id rows in if m.entity_id == id then some (newer m rest) else rest

  -- ORDER BY timestamp ASC
  unfoldable pub place : EntityMetrics → List EntityMetrics → List EntityMetrics
  place m [] = m ∷ []
  place m (n ∷ rows) =
      let rest = place m rows in
      if env.text_le m.timestamp n.timestamp then m ∷ n ∷ rows else n ∷ rest

  abbrev pub within : Time → Time → Time → Bool
  within from to t = env.text_le from t && env.text_le t to

  unfoldable pub series : String → Time → Time → List EntityMetrics → List EntityMetrics
  unfolding place
  series id from to [] = []
  series id from to (m ∷ rows) =
      let rest = series id from to rows in
      if m.entity_id == id && within from to m.timestamp then place m rest else rest

  abbrev pub day : ℕ
  day = 86400000000000

  -- QueryEntityMetrics: the last day up to now, unless an end of the period is given. The clock is
  -- read for the start before it is read for the end.
  unfoldable pub query_entity_metrics :
      String → Time → Time → MetricsDb → List EntityMetrics × MetricsDb
  query_entity_metrics id start finish db =
      let from : Time × ℕ =
        if◌then◌else◌ {A = Time × ℕ} (is_zero start) (env.clock db.tick - day, suc db.tick)
          (start, db.tick) in
      let to = stamp finish from.1 in
      (series id from.0 to.0 db.entity_metrics, record db { tick = to.1 })
