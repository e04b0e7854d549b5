-- ===== src/Ingestion/RunOne/Noted.antt =====
-- The line that runOne leaves in the ledger.
use Prim.Native.String.{◌++◌ as ◌<>◌}
use fun_project.Common.{
  ℕ, suc, String, Option, some, none, List, [], ◌∷◌, ◌++◌, ◌≡◌, ◌⊎◌, inl, inr, refl, ◌∙◌, subst,
  Bool-cases, Option-cases, ◌==◌, ◌||◌,
}
use fun_project.Common.Exec.{Result, ok, err}
use fun_project.Storage.Schema.Types.{Time}
use fun_project.Nif.{Batch}
use fun_project.Ingestion.Contract.{Ingestor, Fetched, PublishResult, Sink}
use fun_project.Ingestion.Registry.{id_of}
use fun_project.Ingestion.Dispatch.{IngestorRun}
use fun_project.Ingestion.Stores.{
  CheckpointRecord, Entry, Original, World, tick, save, save_next, write_checkpoint, append_entry,
  add_line, rename_checkpoint, delivery, of_batch, undelivered,
}
use fun_project.Ingestion.RunOne.{
  finish_entry, after_save, advance, after_publish, after_fetch, after_load, run_one, run_of,
  stamped, new_entry, loaded_entry, published_entry, saved_entry, unsaved_entry, unpublished_entry,
  with_error,
}
use fun_project.Ingestion.RunOne.Laws.{push_dlq-SameBut, sort_out_batch-SameBut}

abbrev pub Lines : Type 0
Lines = List (Option Entry)

-- The last call of a run, the write of the line, fails, and the ledger stays as it was.
pub record IsUnwritten {S : Type 0} (fault : ℕ → Option String) (old : Lines) (w : World S)
    : Type 0 where
  pub call : ℕ
  pub why : String
  pub last : w.calls ≡ suc call
  pub failed : fault call ≡ some why
  pub ledger : w.ledger ≡ old

-- The answer of a run and the ledger after it: one line is new, unless its own write fails, and it says
-- what the answer says, for the run, the ingestor and the trigger.
pub record IsNoted {S : Type 0} (fault : ℕ → Option String) (run_id id trigger : String)
    (old : Lines) (out : IngestorRun × World S) : Type 0 where
  pub entry : Entry
  pub own_run : entry.run_id ≡ run_id
  pub own_id : entry.ingestor_id ≡ id
  pub own_trigger : entry.trigger_type ≡ trigger
  pub answer : out.0 ≡ run_of entry
  pub lines : IsUnwritten fault old out.1 ⊎ (out.1.ledger ≡ old ++ some entry ∷ [])

-- An entry for the run, the ingestor and the trigger
pub record IsOf (run_id id trigger : String) (e : Entry) : Type 0 where
  pub run : e.run_id ≡ run_id
  pub ingestor : e.ingestor_id ≡ id
  pub triggered : e.trigger_type ≡ trigger

module _ {S : Type 0} (now : ℕ → Time) (fault : ℕ → Option String) where
  append_entry-writes :
      (e : Entry) (w : World S)
      → IsUnwritten fault w.ledger (append_entry now fault e w)
        ⊎ ((append_entry now fault e w).ledger ≡ w.ledger ++ some e ∷ [])
  unfolding append_entry add_line
  append_entry-writes e w = elim (Option-cases (fault w.calls)) [
    | inl h ↦ inr (simp h refl)
    | inr h ↦
        let failed : fault w.calls ≡ some h.0 = h.1 in
        inl (
          simp failed
            (record { call = w.calls; why = h.0; last = refl; failed = failed; ledger = refl }))
  ]

  rename_checkpoint-ledger :
      (f : Option String) (id : String) (r : CheckpointRecord) (w : World S)
      → (rename_checkpoint now fault f id r w).1.ledger ≡ w.ledger
  unfolding rename_checkpoint
  rename_checkpoint-ledger none id r w = refl
  rename_checkpoint-ledger (some why) id r w = refl

  write_checkpoint-ledger :
      (f : Option String) (id : String) (r : CheckpointRecord) (w : World S)
      → (write_checkpoint now fault f id r w).1.ledger ≡ w.ledger
  unfolding write_checkpoint
  write_checkpoint-ledger none id r w = rename_checkpoint-ledger (fault (suc w.calls)) id r (tick w)
  write_checkpoint-ledger (some why) id r w = refl

  save_next-ledger :
      (r : Result String CheckpointRecord) (id position : String) (w : World S)
      → (save_next now fault r id position w).1.ledger ≡ w.ledger
  unfolding save_next
  save_next-ledger (ok prev) id position w =
      write_checkpoint-ledger (fault (suc w.calls)) id _ (tick w)
  save_next-ledger (err why) id position w = refl

  save-ledger :
      (id position : String) (w : World S) → (save now fault id position w).1.ledger ≡ w.ledger
  unfolding save
  save-ledger id position w = save_next-ledger _ id position (tick w)

module _ {S : Type 0} (now : ℕ → Time) (fault : ℕ → Option String)
    (encode : Original → Option String) (sink : Sink S) (run_id id trigger : String)
    (old : Lines) where
  finish_entry-IsNoted :
      (e : Entry) (w : World S)
      → IsOf run_id id trigger e
      → w.ledger ≡ old
      → IsNoted fault run_id id trigger old (finish_entry now fault encode sink e w)
  unfolding finish_entry
  finish_entry-IsNoted e w own same = record {
    entry = stamped (now w.calls) e;
    own_run = own.run;
    own_id = own.ingestor;
    own_trigger = own.triggered;
    answer = refl;
    lines =
        subst
          (λ (l : Lines).
            IsUnwritten fault l (finish_entry now fault encode sink e w).1
            ⊎ ((finish_entry now fault encode sink e w).1.ledger
                ≡ l ++ some (stamped (now w.calls) e) ∷ []))
          same (append_entry-writes now fault (stamped (now w.calls) e) (tick w));
  }

  same_owner :
      (e e' : Entry)
      → e'.run_id ≡ e.run_id
      → e'.ingestor_id ≡ e.ingestor_id
      → e'.trigger_type ≡ e.trigger_type
      → IsOf run_id id trigger e
      → IsOf run_id id trigger e'
  same_owner e e' a b c own = record {
    run = a ∙ own.run;
    ingestor = b ∙ own.ingestor;
    triggered = c ∙ own.triggered;
  }

  after_save-IsNoted :
      (r : Result String Unit) (ck : CheckpointRecord) (f : Fetched) (e : Entry) (w : World S)
      → IsOf run_id id trigger e
      → w.ledger ≡ old
      → IsNoted fault run_id id trigger old (after_save now fault encode sink r ck f e w)
  unfolding after_save saved_entry
  after_save-IsNoted (ok u) ck f e w own same =
      finish_entry-IsNoted (saved_entry f e) w (same_owner e _ refl refl refl own) same
  after_save-IsNoted (err why) ck f e w own same =
      finish_entry-IsNoted (unsaved_entry why ck e) w (same_owner e _ refl refl refl own) same

  advance-IsNoted :
      (ck : CheckpointRecord) (f : Fetched) (e : Entry) (w : World S)
      → IsOf run_id id trigger e
      → w.ledger ≡ old
      → IsNoted fault run_id id trigger old (advance now fault encode sink id ck f e w)
  unfolding advance
  advance-IsNoted ck f e w own same =
      elim (Bool-cases (f.next_checkpoint == "" || f.next_checkpoint == ck.position)) [
        | inl stays ↦ simp stays (after_save-IsNoted (ok tt) ck f e w own same)
        | inr goes ↦ simp goes (
            after_save-IsNoted (save now fault id f.next_checkpoint w).0 ck f e
              (save now fault id f.next_checkpoint w).1 own
              (save-ledger now fault id f.next_checkpoint w ∙ same))
      ]

  after_publish-IsNoted :
      (r : Result String PublishResult) (ck : CheckpointRecord) (f : Fetched) (clean : Batch)
      (e : Entry) (w : World S)
      → IsOf run_id id trigger e
      → w.ledger ≡ old
      → IsNoted fault run_id id trigger old
          (after_publish now fault encode sink r run_id id ck f clean e w)
  unfolding after_publish
  after_publish-IsNoted (err why) ck f clean e w own same =
      finish_entry-IsNoted (unpublished_entry why e) _ (same_owner e _ refl refl refl own) (
        (push_dlq-SameBut now fault encode sink run_id delivery (of_batch clean) (undelivered why)
          w).ledger
        ∙ same)
  after_publish-IsNoted (ok res) ck f clean e w own same =
      advance-IsNoted ck f (published_entry res e) w (same_owner e _ refl refl refl own) same

  after_fetch-IsNoted :
      (r : Result String Fetched) (ck : CheckpointRecord) (e : Entry) (w : World S)
      → IsOf run_id id trigger e
      → w.ledger ≡ old
      → IsNoted fault run_id id trigger old (after_fetch now fault encode sink r run_id id ck e w)
  unfolding after_fetch
  after_fetch-IsNoted (err why) ck e w own same =
      finish_entry-IsNoted (with_error ("fetch: " <> why) e) w (same_owner e _ refl refl refl own)
        same
  after_fetch-IsNoted (ok f) ck e w own same =
      after_publish-IsNoted _ ck f _ _ _ (same_owner e _ refl refl refl own)
        ((sort_out_batch-SameBut now fault encode sink run_id f.batch w).ledger ∙ same)

module _ {S : Type 0} (now : ℕ → Time) (fault : ℕ → Option String)
    (encode : Original → Option String) (sink : Sink S) where
  after_load-IsNoted :
      (run_id trigger : String) (ing : Ingestor) (old : Lines) (r : Result String CheckpointRecord)
      (e : Entry) (w : World S)
      → IsOf run_id (id_of ing) trigger e
      → w.ledger ≡ old
      → IsNoted fault run_id
          (id_of ing)
          trigger
          old
          (after_load now fault encode sink r run_id ing e w)
  unfolding after_load
  after_load-IsNoted run_id trigger ing old (err why) e w own same =
      finish_entry-IsNoted now fault encode sink run_id (id_of ing) trigger old
        (with_error ("load checkpoint: " <> why) e) w
        (record { run = own.run; ingestor = own.ingestor; triggered = own.triggered }) same
  after_load-IsNoted run_id trigger ing old (ok ck) e w own same =
      after_fetch-IsNoted now fault encode sink run_id (id_of ing) trigger old _ ck
        (loaded_entry ck e) w
        (record { run = own.run; ingestor = own.ingestor; triggered = own.triggered }) same

  -- A run, however it ends, adds exactly one line to the ledger, at its end, unless the write of that
  -- line, the last call of the run, fails: then the ledger is as it was. The line has the run's id,
  -- the ingestor, the trigger, and the status, counts and error that the run answers with.
  pub run_one_ledger :
      (run_id trigger : String) (ing : Ingestor) (w : World S)
      → IsNoted fault run_id
          (id_of ing)
          trigger
          w.ledger
          (run_one now fault encode sink run_id trigger ing w)
  unfolding run_one
  run_one_ledger run_id trigger ing w =
      after_load-IsNoted run_id trigger ing w.ledger _ (new_entry run_id trigger ing (now w.calls))
        _ (record { run = refl; ingestor = refl; triggered = refl }) refl
