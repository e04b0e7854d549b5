-- ===== src/Storage/Witnesses.antt =====
-- Concrete runs of the storage zone, and its theorems at inputs that meet their hypotheses.
use fun_project.Common.{ℕ, suc, none, some, false, List, [], ◌∷◌, ◌≡◌, refl, leb, ◌+◌, ◌↔◌}
use fun_project.Common.Exec.{ok}
use fun_project.Storage.Schema.Types.{Time, zero_time, is_zero}
use fun_project.Storage.Schema.Validate.{validate_entity}
use fun_project.Storage.Schema.Validate.Laws.{IsValidEntity, validate_entity_iff}
use fun_project.Storage.Query.{pos}
use fun_project.Storage.Session.{Env, Session, no_change}
use fun_project.Storage.Graph.{find_entity, entity_key, rel_key}
use fun_project.Storage.Cache
use fun_project.Storage.Mutation.Handlers.{Mutation}
use fun_project.Storage.Mutation.Batch.{Store, session_of, start, apply_batch}
use fun_project.Storage.Mutation.Projection.{
  IsProjection, IsProjection-empty, apply_batch-IsProjection, settle_entity, settle_relationship,
}
use fun_project.Storage.Mutation.Integrity.{
  IsConsistent, IsConsistent-empty, apply_batch-IsConsistent,
}
use fun_project.Storage.Mutation.Handlers.{apply_one, upsert_entity}
use fun_project.Storage.Mutation.Step.{Step}
use fun_project.Storage.Mutation.Step.Walk.{apply_one-Step}
use fun_project.Storage.Mutation.Fresh.Cached.{apply_batch-Serves}
use fun_project.Storage.Mutation.Upsert.{IsComparable}
use fun_project.Storage.Mutation.Upsert.Idempotent.{upsert_entity_again}
use fun_project.Storage.Snapshot.Replay.{GraphState}
use fun_project.Storage.Snapshot.Replay.Laws.{Agree}
use fun_project.Storage.Snapshot.Store.{
  SnapshotEnv, SnapshotDb, restore_graph, create_snapshot, graph_of,
}
use fun_project.Storage.Snapshot.Restore.{
  AllBefore, apply_batches, history_of, restore-Agree, restore-create_snapshot,
}
use fun_project.Storage.DeltaLog.{ReadOpts, read}
use fun_project.Storage.DeltaLog.Laws.{IsCap, IsOldest, read-IsOldest}
use fun_project.Storage.Opened.{opened}
use fun_project.Storage.Examples.{
  sample_env, payments, ledger, calls, upserting, connecting, removing, empty_store,
}

abbrev batch : List Mutation
batch = upserting payments ∷ upserting ledger ∷ connecting calls ∷ removing "ent_a" ∷ []

apply_batch-IsProjection_example : IsProjection (apply_batch sample_env batch empty_store).1.db
apply_batch-IsProjection_example =
    apply_batch-IsProjection sample_env batch empty_store IsProjection-empty

apply_batch-IsConsistent_example : IsConsistent (apply_batch sample_env batch empty_store).1.db
apply_batch-IsConsistent_example =
    apply_batch-IsConsistent sample_env batch empty_store IsConsistent-empty

abbrev first : Session
first = session_of 0 (upserting payments) (start empty_store)

payments_stored : (apply_one sample_env (upserting payments) first).0 ≡ ok tt
unfolding opened
payments_stored = refl

apply_one-Step_example :
    Step "txn_1" first.db (apply_one sample_env (upserting payments) first).1.db
apply_one-Step_example = apply_one-Step sample_env (upserting payments) first payments_stored

-- A store whose cache holds the ledger and the payments, under the ids of the batch.
abbrev until : Time
until = zero_time + 3000000000000

abbrev cached : Store
cached = record empty_store {
  cache = record empty_store.cache {
    entity_cache =
        ("ent_a", record { val = payments; expires_at = until })
        ∷ ("ent_b", record { val = ledger; expires_at = until })
        ∷ [];
  };
}

abbrev one : List Mutation
one = upserting payments ∷ []

still_served :
    Cache.get_entity (apply_batch sample_env one cached).1.cache until "ent_b" ≡ some ledger
unfolding opened
still_served = refl

not_served : Cache.get_entity (apply_batch sample_env one cached).1.cache until "ent_a" ≡ none
unfolding opened
not_served = refl

apply_batch-Serves_example :
    (Cache.get_entity cached.cache until "ent_b" ≡ some ledger)
    × (find_entity "ent_b" (apply_batch sample_env one cached).1.db ≡ find_entity "ent_b" cached.db)
apply_batch-Serves_example =
    apply_batch-Serves sample_env until "ent_b" one cached ledger refl still_served

payments_valid : validate_entity payments ≡ ok tt
unfolding opened
payments_valid = refl

payments-IsComparable : IsComparable payments
unfolding opened
payments-IsComparable = (refl, refl)

abbrev second : Session
second = record first { db = (upsert_entity sample_env (some payments) first).1.db; tick = 7 }

payments_upserted : (upsert_entity sample_env (some payments) first).0 ≡ ok tt
unfolding opened
payments_upserted = refl

upsert_entity_again_example :
    ((upsert_entity sample_env (some payments) second).0 ≡ ok tt)
    × ((upsert_entity sample_env (some payments) second).1.db ≡ second.db)
    × ((upsert_entity sample_env (some payments) second).1.result.operation ≡ no_change)
upsert_entity_again_example =
    upsert_entity_again sample_env payments first second payments_valid payments-IsComparable refl
      payments_upserted refl

-- Times of one width, whose texts are ordered as they are.
abbrev snapshot_env : SnapshotEnv
snapshot_env = record {
  text_le = leb;
  clock = λ n. until + n;
  name_of = λ t. "snap";
  digest = λ g. "sum";
}

abbrev history : SnapshotDb
history = record { db = (apply_batch sample_env batch empty_store).1.db; snapshots = []; tick = 0 }

history_before : AllBefore snapshot_env until history.db.delta_log
unfolding opened
history_before = (refl, (refl, (refl, (refl, tt))))

-- A second batch removes the other node.
abbrev batches : List (Env × List Mutation)
batches = (sample_env, batch) ∷ (sample_env, removing "ent_b" ∷ []) ∷ []

batches_before : AllBefore snapshot_env until (apply_batches batches empty_store).db.delta_log
unfolding opened apply_batches
batches_before = (refl, (refl, (refl, (refl, (refl, tt)))))

until_dated : is_zero until ≡ false
unfolding opened
until_dated = refl

restore-Agree_example :
    (g : GraphState) × ((restore_graph snapshot_env until (history_of batches empty_store)).0
      ≡ ok g)
    × Agree entity_key settle_entity g.entities (apply_batches batches empty_store).db.entities
    × Agree rel_key settle_relationship g.relationships
        (apply_batches batches empty_store).db.relationships
restore-Agree_example =
    restore-Agree snapshot_env until batches empty_store refl until_dated batches_before

until_after_dated : is_zero (suc until) ≡ false
unfolding opened
until_after_dated = refl

restore-create_snapshot_example :
    (restore_graph snapshot_env
      (suc until)
      (create_snapshot snapshot_env "snap_1" until history).1).0
    ≡ ok (graph_of history.db)
unfolding opened
restore-create_snapshot_example =
    restore-create_snapshot snapshot_env "snap_1" until (suc until) history refl until_dated
      until_after_dated refl refl history_before

validate_entity_iff_example : (validate_entity payments ≡ ok tt) ↔ IsValidEntity payments
validate_entity_iff_example = validate_entity_iff payments

abbrev by_node : ReadOpts
by_node = record {
  from_entry_id = pos 2;
  entity_id = "ent_a";
  relationship_id = "";
  transaction_id = "";
  limit = pos 0;
}

read-IsOldest_example :
    (n : ℕ) × IsCap (pos 0) n × IsOldest by_node n history.db.delta_log (read by_node history.db)
read-IsOldest_example = read-IsOldest by_node history.db apply_batch-IsConsistent_example
