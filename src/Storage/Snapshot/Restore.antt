-- ===== src/Storage/Snapshot/Restore.antt =====
-- What RestoreGraph rebuilds.
use fun_project.Common.{
  ℕ, suc, ◌<◌, String, true, false, List, [], ◌∷◌, ◌==◌, ◌≡◌, refl, sym, subst, arith, All,
}
use text.Mathlib.TextPositions.{eq_refl}
use fun_project.Common.Exec.{ok}
use fun_project.Storage.Schema.Types.{Time, is_zero}
use fun_project.Storage.Session.{Env, Db, LogEntry, empty_db}
use fun_project.Storage.Graph.{entity_key, rel_key}
use fun_project.Storage.Snapshot.Replay.{GraphState, replay_all}
use fun_project.Storage.Snapshot.Replay.Laws.{Agree}
use fun_project.Storage.Snapshot.Store.{
  SnapshotEnv, SnapshotDb, max_entry_id, nearest, entries_between, load_snapshot, restore_at,
  restore_graph, create_snapshot, graph_of, has_snapshot,
}
use fun_project.Storage.Mutation.Handlers.{Mutation}
use fun_project.Storage.Mutation.Batch.{Store, apply_batch}
use fun_project.Storage.Mutation.Integrity.{
  IsNumbered, IsConsistent, IsConsistent-empty, apply_batch-IsConsistent,
}
use fun_project.Storage.Mutation.Projection.{
  IsProjection, IsProjection-empty, apply_batch-IsProjection, settle_entity, settle_relationship,
}

module _ (env : SnapshotEnv) (as_of : Time) where
  -- The formatted times of the entries are not after that of `as_of`.
  abbrev pub AllBefore : List LogEntry → Type 0
  AllBefore log = All (λ e. env.text_le e.occurred_at as_of ≡ true) log

  entries_all :
      (n after : ℕ) (log : List LogEntry)
      → after < suc n
      → IsNumbered n log
      → AllBefore log
      → entries_between env after as_of log ≡ log
  unfolding entries_between
  entries_all n after [] h num b = refl
  entries_all n after (e ∷ log) h num b =
      ground (arith, entries_all (suc n) after log (omega arith) num.1 b.1)

  -- No entry is numbered above the greatest of those that count as not after the instant.
  entries_none :
      (later : Time) (after : ℕ) (log : List LogEntry)
      → max_entry_id env as_of log < suc after
      → AllBefore log
      → entries_between env after later log ≡ []
  unfolding max_entry_id entries_between
  entries_none later after [] h b = refl
  entries_none later after (e ∷ log) h b = ground (arith, b.0, entries_none later after log _ b.1)

-- Batches, each in its own environment, one after another
unfoldable pub apply_batches : List (Env × List Mutation) → Store → Store
unfolding apply_batch
apply_batches [] s = s
apply_batches ((env, ms) ∷ bs) s = apply_batches bs (apply_batch env ms s).1

-- What every batch keeps, all of them keep.
kept_by_batches :
    (P : Db → Type 0)
    → ((env : Env) (ms : List Mutation) (s : Store) → P s.db → P (apply_batch env ms s).1.db)
    → (bs : List (Env × List Mutation)) (s : Store) → P s.db
    → P (apply_batches bs s).db
unfolding apply_batches
kept_by_batches P keeps [] s p = p
kept_by_batches P keeps ((env, ms) ∷ bs) s p =
    kept_by_batches P keeps bs (apply_batch env ms s).1 (keeps env ms s p)

-- The database after them, with no snapshot
abbrev pub history_of : List (Env × List Mutation) → Store → SnapshotDb
history_of bs s = record { db = (apply_batches bs s).db; snapshots = []; tick = 0 }

-- After any sequence of batches over empty tables, whatever they contain and however they end, and
-- with no snapshot: RestoreGraph for an instant that is not the zero time and that no entry of the log
-- counts as after succeeds with a graph that has at every id the node and the edge of the tables, up to
-- valid_to of what is not active.
pub restore-Agree :
    (env : SnapshotEnv) (as_of : Time) (bs : List (Env × List Mutation)) (s : Store)
    → s.db ≡ empty_db
    → is_zero as_of ≡ false
    → AllBefore env as_of (apply_batches bs s).db.delta_log
    → (g : GraphState) × ((restore_graph env as_of (history_of bs s)).0 ≡ ok g)
      × Agree entity_key settle_entity g.entities (apply_batches bs s).db.entities
      × Agree rel_key settle_relationship g.relationships (apply_batches bs s).db.relationships
unfolding restore_graph restore_at nearest load_snapshot
restore-Agree env as_of bs s bare dated before =
    let p =
      kept_by_batches IsProjection apply_batch-IsProjection bs s
        (subst IsProjection (sym bare) IsProjection-empty) in
    let c =
      kept_by_batches IsConsistent apply_batch-IsConsistent bs s
        (subst IsConsistent (sym bare) IsConsistent-empty) in
    let log = (apply_batches bs s).db.delta_log in
    (
      p.graph,
      simp (dated, entries_all env as_of 0 0 log (omega arith) c.numbered before, p.replays),
      p.nodes,
      p.edges,
    )

-- After a first snapshot, created under a name and for an instant `at` that is not the zero time and
-- that no entry of the log counts as after, RestoreGraph gives for every instant but the zero time that
-- `at` counts as not after the graph of the tables at the time of the call: the snapshot stands for the
-- whole log, and nothing is replayed twice.
pub restore-create_snapshot :
    (env : SnapshotEnv) (id : String) (at as_of : Time) (s : SnapshotDb)
    → (id == "") ≡ false
    → is_zero at ≡ false
    → is_zero as_of ≡ false
    → env.text_le at as_of ≡ true
    → s.snapshots ≡ []
    → AllBefore env at s.db.delta_log
    → (restore_graph env as_of (create_snapshot env id at s).1).0 ≡ ok (graph_of s.db)
unfolding restore_graph restore_at create_snapshot nearest load_snapshot has_snapshot replay_all
restore-create_snapshot env id at as_of s named dated asked covered bare before =
    let log = s.db.delta_log in
    simp (named, dated, asked, bare, covered, eq_refl)
      (rw (entries_none env at as_of (max_entry_id env at log) log (omega arith) before) refl)
