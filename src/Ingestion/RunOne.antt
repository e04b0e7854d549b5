-- ===== src/Ingestion/RunOne.antt =====
-- runOne of orchestrator/runner.go: one ingestor is fetched, its records are validated and published,
-- its checkpoint is saved and its line added to the ledger. A batch holds no nil pointers, and is
-- nobody else's, so that the clean records may be written over it.
pub mod Laws
pub mod Checkpoints
pub mod Complete
pub mod Noted
use Prim.Native.String.{◌++◌ as ◌<>◌}
use fun_project.Common.{
  ℕ, suc, ◌+◌, ◌-◌, ◌/◌, String, Bool, true, false, ◌||◌, Option, none, some, List, [], ◌∷◌, ◌++◌,
  ◌==◌, ltb, if◌then◌else◌,
}
use fun_project.Common.Exec.{Result, ok, err}
use fun_project.Storage.Schema.Types.{Time, zero_time}
use fun_project.Nif.{
  Entity, Relationship, Batch, Rejection, batch_len, validate_entity, validate_relationship,
}
use fun_project.Ingestion.Contract.{Ingestor, Fetched, PublishResult, Sink, emitted}
use fun_project.Ingestion.Registry.{id_of}
use fun_project.Ingestion.Dispatch.{Status, success, partial, failed, IngestorRun}
use fun_project.Ingestion.Stores.{
  CheckpointRecord, Entry, FailureStage, normalization, delivery, Original, of_entity,
  of_relationship, of_batch, Reason, refused, undelivered, DeadLetter, World, tick, load, save,
  append_entry, push,
}

-- "success" is what is left of the switch.
unfoldable pub final_status : ℕ → ℕ → Status
final_status bad sent = if ltb 0 bad then (if ltb 0 sent then partial else failed) else success

unfoldable pub first_error : List String → String
first_error [] = ""
first_error (e ∷ es) = e

abbrev pub run_of : Entry → IngestorRun
run_of e = record {
  ingestor_id = e.ingestor_id;
  source_id = e.source_id;
  status = e.status;
  emitted = e.emitted;
  failed_records = e.failed_records;
  skipped = e.skipped;
  duration = e.duration_ms;
  error = first_error e.errors;
}

-- The entry that runOne begins with
abbrev pub new_entry : String → String → Ingestor → Time → Entry
new_entry run_id trigger ing at = record {
  run_id = run_id;
  ingestor_id = id_of ing;
  source_id = ing.metadata.source_type <> ":" <> id_of ing;
  trigger_type = trigger;
  started_at = at;
  completed_at = zero_time;
  duration_ms = 0;
  fetched = 0;
  transformed = 0;
  emitted = 0;
  failed_records = 0;
  skipped = 0;
  checkpoint_before = "";
  checkpoint_after = "";
  errors = [];
  status = failed;
}

abbrev pub with_error : String → Entry → Entry
with_error why e = record e { errors = e.errors ++ why ∷ [] }

-- entry.CompletedAt and entry.DurationMS; the clock that measures a duration does not run backwards.
abbrev pub stamped : Time → Entry → Entry
stamped t e = record e { completed_at = t; duration_ms = (t - e.started_at) / 1000000 }

abbrev pub unsaved_entry : String → CheckpointRecord → Entry → Entry
unsaved_entry why ck e = record (with_error ("save checkpoint: " <> why) e) {
  status = partial;
  checkpoint_after = ck.position;
}

unfoldable pub saved_entry : Fetched → Entry → Entry
unfolding final_status
saved_entry f e = record e {
  checkpoint_after = f.next_checkpoint;
  status = final_status e.failed_records e.emitted;
}

abbrev pub published_entry : PublishResult → Entry → Entry
published_entry res e = record e {
  emitted = emitted res;
  failed_records = e.failed_records + res.failed;
}

abbrev pub unpublished_entry : String → Entry → Entry
unpublished_entry why e = with_error ("publish: " <> why) e

abbrev pub sorted_entry : Fetched → Batch → ℕ → Entry → Entry
sorted_entry f clean bad e = record e {
  fetched = batch_len f.batch;
  failed_records = bad;
  transformed = batch_len clean;
}

abbrev pub loaded_entry : CheckpointRecord → Entry → Entry
loaded_entry ck e = record e { checkpoint_before = ck.position }

unfoldable pub raw_record : Option String → String
raw_record none = "\"<unmarshalable>\""
raw_record (some raw) = raw

unfoldable pub passes : Result Rejection Unit → Bool
passes (ok u) = true
passes (err why) = false

-- `encode` is json.Marshal.
module _ {S : Type 0} (now : ℕ → Time) (fault : ℕ → Option String)
    (encode : Original → Option String) (sink : Sink S) where
  unfoldable pub finish_entry : Entry → World S → IngestorRun × World S
  unfolding append_entry
  finish_entry e w =
      let done = stamped (now w.calls) e in (run_of done, append_entry now fault done (tick w))

  unfoldable pub push_to : Option (List DeadLetter) → DeadLetter → World S → World S
  unfolding push
  push_to none d w = w
  push_to (some ds) d w = push now fault d ds w

  -- pushDLQ
  unfoldable pub push_dlq : String → FailureStage → Original → Reason → World S → World S
  unfolding push_to raw_record
  push_dlq run_id stage o why w =
      push_to w.dlq
        (record {
          original_record = raw_record (encode o);
          reason = why;
          stage = stage;
          failed_at = zero_time;
          retry_count = 0;
          ingestion_run = run_id;
        })
        w

  module _ {A : Type 0} (check : A → Result Rejection Unit) (original : A → Original)
      (run_id : String) where
    unfoldable pub note_refusal : A → Result Rejection Unit → World S → World S
    unfolding push_dlq
    note_refusal a (ok u) w = w
    note_refusal a (err why) w = push_dlq run_id normalization (original a) (refused why) w

    -- A loop over records: those that pass, and how many do not.
    unfoldable pub sort_out : List A → World S → (List A × ℕ) × World S
    unfolding note_refusal passes
    sort_out [] w = (([], 0), w)
    sort_out (a ∷ more) w =
        let rest = sort_out more (note_refusal a (check a) w) in
        ((if passes (check a) then (a ∷ rest.0.0, rest.0.1) else (rest.0.0, suc rest.0.1)), rest.1)

  -- From the end of Save
  unfoldable pub after_save :
      Result String Unit → CheckpointRecord → Fetched → Entry → World S → IngestorRun × World S
  unfolding finish_entry
  after_save (err why) ck f e w = finish_entry (unsaved_entry why ck e) w
  after_save (ok u) ck f e w = finish_entry (saved_entry f e) w

  unfoldable pub advance_unless :
      Bool → String → CheckpointRecord → Fetched → Entry → World S → IngestorRun × World S
  unfolding save after_save
  advance_unless true id ck f e w = after_save (ok tt) ck f e w
  advance_unless false id ck f e w =
      let (saved, w1) = save now fault id f.next_checkpoint w in after_save saved ck f e w1

  unfoldable pub advance :
      String → CheckpointRecord → Fetched → Entry → World S → IngestorRun × World S
  unfolding advance_unless
  advance id ck f e w =
      advance_unless (f.next_checkpoint == "" || f.next_checkpoint == ck.position) id ck f e w

  -- From the end of Publish
  unfoldable pub after_publish :
      Result String PublishResult
      → String
      → String
      → CheckpointRecord
      → Fetched
      → Batch
      → Entry
      → World S
      → IngestorRun × World S
  unfolding advance push_dlq
  after_publish (err why) run_id id ck f clean e w =
      finish_entry (unpublished_entry why e)
        (push_dlq run_id delivery (of_batch clean) (undelivered why) w)
  after_publish (ok res) run_id id ck f clean e w = advance id ck f (published_entry res e) w

  unfoldable pub sort_out_batch : String → Batch → World S → (Batch × ℕ) × World S
  unfolding sort_out
  sort_out_batch run_id b w =
      let ((es, n), w1) = sort_out (λ e. validate_entity (some e)) of_entity run_id b.entities w in
      let ((rs, m), w2) =
        sort_out (λ r. validate_relationship (some r)) of_relationship run_id b.relationships w1 in
      ((record { entities = es; relationships = rs }, n + m), w2)

  -- From the end of Fetch
  unfoldable pub after_fetch :
      Result String Fetched
      → String
      → String
      → CheckpointRecord
      → Entry
      → World S
      → IngestorRun × World S
  unfolding sort_out_batch after_publish batch_len
  after_fetch (err why) run_id id ck e w = finish_entry (with_error ("fetch: " <> why) e) w
  after_fetch (ok f) run_id id ck e w =
      let ((clean, bad), w1) = sort_out_batch run_id f.batch w in
      let (res, s) = sink.publish clean w1.delivered in
      after_publish res run_id id ck f clean (sorted_entry f clean bad e)
        (record w1 { delivered = s })

  -- From the end of Load
  unfoldable pub after_load :
      Result String CheckpointRecord → String → Ingestor → Entry → World S → IngestorRun × World S
  unfolding after_fetch
  after_load (err why) run_id ing e w = finish_entry (with_error ("load checkpoint: " <> why) e) w
  after_load (ok ck) run_id ing e w =
      after_fetch (ing.fetch run_id ck.position) run_id (id_of ing) ck (loaded_entry ck e) w

  -- runOne
  unfoldable pub run_one : String → String → Ingestor → World S → IngestorRun × World S
  unfolding load after_load
  run_one run_id trigger ing w =
      let (ck, w1) = load now fault (id_of ing) (tick w) in
      after_load ck run_id ing (new_entry run_id trigger ing (now w.calls)) w1
