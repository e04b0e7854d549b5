-- ===== src/Storage/Mutation/Batch.antt =====
-- ApplyBatch of mutation/api.go: one transaction for the batch, and the hooks after the commit.
pub mod Rule
use fun_project.Common.{
  ℕ, suc, String, Option, none, some, Bool, true, false, ◌||◌, List, [], ◌∷◌, ◌++◌, ◌==◌, ltb, not,
  length, if◌then◌else◌,
}
use fun_project.Common.Exec.{Result, ok, err}
use fun_project.Storage.Schema.Validate.{Error, begin_failed, commit_failed}
use fun_project.Storage.Session.{
  Env, Db, OperationType, OpResult, Session, unset, no_change, failed,
}
use fun_project.Storage.Cache
use fun_project.Storage.Cache.{GraphCache}
use fun_project.Storage.Mutation.Handlers.{Mutation, apply_one}

pub data Status : Type 0 where
  success failure : Status

pub record BatchResult : Type 0 where
  pub transaction_id : String
  pub status : Status
  pub results : List OpResult

-- The two values that ApplyBatch returns.
pub record Reply : Type 0 where
  pub batch : Option BatchResult
  pub error : Option Error

-- The process's store: the committed database, the cache, the time.Now calls made so far, and the
-- queue of the search indexer (`none` when there is no indexer).
pub record Store : Type 0 where
  pub db : Db
  pub cache : GraphCache
  pub tick : ℕ
  pub queue : Option (List String)

-- The loop's variables; `error` is set where the loop returned early.
pub record Run : Type 0 where
  pub db : Db
  pub tick : ℕ
  pub results : List OpResult
  pub stale_pairs : List (String × String)
  pub error : Option Error

abbrev pub fresh_result : ℕ → Mutation → OpResult
fresh_result i m = record {
  index = i;
  kind = m.kind;
  operation = unset;
  entity_id = "";
  relationship_id = "";
  log_entry_id = 0;
  error = none;
}

abbrev pub session_of : ℕ → Mutation → Run → Session
session_of i m run = record {
  db = run.db;
  tick = run.tick;
  result = fresh_result i m;
  stale_pairs = run.stale_pairs;
}

-- One round: the handler's state, with its result appended.
unfoldable pub after_step : Run → Result Error Unit → Session → Run
after_step run (ok _) s = record {
  db = s.db;
  tick = s.tick;
  results = run.results ++ s.result ∷ [];
  stale_pairs = s.stale_pairs;
  error = none;
}
after_step run (err e) s = record {
  db = s.db;
  tick = s.tick;
  results = run.results ++ (record s.result { operation = failed; error = some e }) ∷ [];
  stale_pairs = s.stale_pairs;
  error = some e;
}

unfoldable pub step : Env → ℕ → Mutation → Run → Run
unfolding after_step
step env i m run = let out = apply_one env m (session_of i m run) in after_step run out.0 out.1

-- The loop goes on unless the round failed.
unfoldable pub resume : Option Error → Run → Run → Run
resume none run rest = rest
resume (some e) run rest = run

-- The loop over the batch; `i` is the index of the next mutation.
unfoldable pub apply_each : Env → ℕ → List Mutation → Run → Run
unfolding resume
apply_each env i [] run = run
apply_each env i (m ∷ ms) run =
    let run' = step env i m run in
    let rest = apply_each env (suc i) ms run' in resume run'.error run' rest

unfoldable pub start : Store → Run
start s = record { db = s.db; tick = s.tick; results = []; stale_pairs = []; error = none }

-- The buffered channel of the indexer: a full queue drops the id.
unfoldable pub enqueue : String → Option (List String) → Option (List String)
enqueue id none = none
enqueue id (some q) = some (if ltb (length q) 1000 then q ++ id ∷ [] else q)

unfoldable pub invalidate_pairs : List (String × String) → GraphCache → GraphCache
invalidate_pairs [] c = c
invalidate_pairs ((a, b) ∷ pairs) c = invalidate_pairs pairs (Cache.invalidate_relationship c a b)

unfoldable pub changed : OperationType → Bool
changed failed = false
changed no_change = false
changed _ = true

-- What one result does to the cache and to the queue.
unfoldable pub publish : OpResult → Store → Store
unfolding changed enqueue
publish r s = if not (changed r.operation) || r.entity_id == "" then s else record s {
  cache = Cache.invalidate_entity s.cache r.entity_id;
  queue = enqueue r.entity_id s.queue;
}

unfoldable pub publish_all : List OpResult → Store → Store
publish_all [] s = s
publish_all (r ∷ rs) s = publish_all rs (publish r s)

-- COMMIT and the hooks after it. Where a mutation fails, the deferred Rollback restores the tables. Where COMMIT
-- fails, the deferred Rollback does nothing any more, and the tables are taken to be as they were: the driver is
-- relied on to end a transaction that it cannot commit with a ROLLBACK of its own.
unfoldable pub finish : Env → Store → Run → Option Error → Reply × Store
finish env s run (some e) = (
  record {
    batch = some (record { transaction_id = env.txn_id; status = failure; results = run.results });
    error = some e;
  },
  record s { tick = run.tick },
)
finish env s run none =
    let batch =
      some (record { transaction_id = env.txn_id; status = success; results = run.results }) in
    if env.commit_ok
    then (
      record { batch = batch; error = none },
      publish_all run.results (record s {
        db = run.db;
        cache = invalidate_pairs run.stale_pairs s.cache;
        tick = run.tick;
      }),
    )
    else (record { batch = batch; error = some commit_failed }, record s { tick = run.tick })

unfoldable pub apply_batch : Env → List Mutation → Store → Reply × Store
unfolding finish
apply_batch env ms s =
    let run = apply_each env 0 ms (start s) in
    if env.begin_ok
    then finish env s run run.error
    else (record { batch = none; error = some begin_failed }, s)
