-- ===== src/Storage/Snapshot/Store.antt =====
-- CreateSnapshot and RestoreGraph of snapshot/store.go.
use fun_project.Common.{
  ℕ, suc, String, Option, none, some, Bool, true, false, ◌&&◌, List, [], ◌∷◌, ◌++◌, ◌==◌, ltb, map,
  length, if◌then◌else◌,
}
use fun_project.Common.Exec.{Result, ok, err, Exec}
use fun_project.Storage.Schema.Types.{Time, Entity, is_zero}
use fun_project.Storage.Schema.Validate.{Error, constraint, checksum_mismatch}
use fun_project.Storage.Session.{Db, LogEntry}
use fun_project.Storage.Snapshot.Replay.{GraphState, empty_state, and_then, replay_all}

-- A row of the table `snapshots`; the gzipped JSON of the graph is kept as the graph.
pub record SnapshotRow : Type 0 where
  pub snapshot_id : String
  pub snapshot_at : Time
  pub created_at : Time
  pub last_log_entry_id : ℕ
  pub node_count : ℕ
  pub edge_count : ℕ
  pub active_services : ℕ
  pub graph_data : GraphState
  pub checksum : String

-- What the two operations take from outside: the order of two instants written as RFC 3339 texts
-- (SQLite compares the texts), the clock, the name made from an instant, and the digest of the
-- compressed graph.
pub record SnapshotEnv : Type 0 where
  pub text_le : Time → Time → Bool
  pub clock : ℕ → Time
  pub name_of : Time → String
  pub digest : GraphState → String

pub record SnapshotDb : Type 0 where
  pub db : Db
  pub snapshots : List SnapshotRow
  pub tick : ℕ

abbrev pub SnapshotTx : Type 0 → Type 0
SnapshotTx A = Exec SnapshotDb Error A

abbrev pub now : SnapshotEnv → SnapshotTx Time
now env s = (ok (env.clock s.tick), record s { tick = suc s.tick })

-- SELECT MAX(entry_id) … WHERE occurred_at <= ?, and 0 where it is NULL
unfoldable pub max_entry_id : SnapshotEnv → Time → List LogEntry → ℕ
max_entry_id env at [] = 0
max_entry_id env at (e ∷ log) =
    let m = max_entry_id env at log in
    if env.text_le e.occurred_at at && ltb m e.entry_id then e.entry_id else m

unfoldable pub count_active_services : List Entity → ℕ
count_active_services [] = 0
count_active_services (e ∷ es) =
    let n = count_active_services es in if e.type == "SERVICE" && e.is_active then suc n else n

-- The graph that the two SELECTs scan.
unfoldable pub graph_of : Db → GraphState
graph_of db = record {
  entities = map (λ r. r.value) db.entities;
  relationships = map (λ r. r.value) db.relationships;
}

unfoldable pub has_snapshot : String → List SnapshotRow → Bool
has_snapshot id [] = false
has_snapshot id (s ∷ rest) = if s.snapshot_id == id then true else has_snapshot id rest

unfoldable pub create_snapshot : SnapshotEnv → String → Time → SnapshotTx SnapshotRow
unfolding max_entry_id count_active_services graph_of
create_snapshot env id at s =
    let named : String × ℕ =
      if id == "" then (env.name_of (env.clock s.tick), suc s.tick) else (id, s.tick) in
    let dated : Time × ℕ = if is_zero at then (env.clock named.1, suc named.1) else (at, named.1) in
    let graph = graph_of s.db in
    let row : SnapshotRow = record {
      snapshot_id = named.0;
      snapshot_at = dated.0;
      created_at = env.clock dated.1;
      last_log_entry_id = max_entry_id env dated.0 s.db.delta_log;
      node_count = length graph.entities;
      edge_count = length graph.relationships;
      active_services = count_active_services graph.entities;
      graph_data = graph;
      checksum = env.digest graph;
    } in
    let s' = record s { tick = suc dated.1 } in
    if has_snapshot named.0 s.snapshots
    then (err constraint, s')
    else (ok row, record s' { snapshots = s.snapshots ++ row ∷ [] })

-- The later of two matches of that query.
later : SnapshotEnv → Time → SnapshotRow → Option SnapshotRow → Option SnapshotRow
later env as_of s none = if env.text_le s.snapshot_at as_of then some s else none
later env as_of s (some t) =
    if env.text_le s.snapshot_at as_of && env.text_le t.snapshot_at s.snapshot_at
    then some s
    else some t

-- SELECT … WHERE snapshot_at <= ? ORDER BY snapshot_at DESC LIMIT 1
unfoldable pub nearest : SnapshotEnv → Time → List SnapshotRow → Option SnapshotRow
unfolding later
nearest env as_of [] = none
nearest env as_of (s ∷ rest) = later env as_of s (nearest env as_of rest)

-- SELECT … WHERE entry_id > ? AND occurred_at <= ? ORDER BY entry_id
unfoldable pub entries_between : SnapshotEnv → ℕ → Time → List LogEntry → List LogEntry
entries_between env after as_of [] = []
entries_between env after as_of (e ∷ log) =
    let rest = entries_between env after as_of log in
    if ltb after e.entry_id && env.text_le e.occurred_at as_of then e ∷ rest else rest

-- The graph and the entry from which the replay goes on.
unfoldable pub load_snapshot : SnapshotEnv → Option SnapshotRow → Result Error (GraphState × ℕ)
load_snapshot env none = ok (empty_state, 0)
load_snapshot env (some s) =
    if env.digest s.graph_data == s.checksum
    then ok (s.graph_data, s.last_log_entry_id)
    else err checksum_mismatch

unfoldable pub restore_at : SnapshotEnv → Time → SnapshotDb → Result Error GraphState
unfolding nearest entries_between load_snapshot
restore_at env as_of s =
    and_then (load_snapshot env (nearest env as_of s.snapshots))
      λ base. replay_all (entries_between env base.1 as_of s.db.delta_log) base.0

-- RestoreGraph
unfoldable pub restore_graph : SnapshotEnv → Time → SnapshotTx GraphState
unfolding restore_at
restore_graph env as_of s =
    if is_zero as_of
    then (restore_at env (env.clock s.tick) s, record s { tick = suc s.tick })
    else (restore_at env as_of s, s)
