-- ===== src/Ingestion/RunOne/Checkpoints.antt =====
-- When runOne moves a checkpoint.
use Prim.Native.String.{◌++◌ as ◌<>◌}
use fun_project.Common.{
  ℕ, String, false, Option, ◌≡◌, ◌≢◌, ◌⊎◌, inl, inr, refl, ◌∙◌, subst, arith, eq_iff, Bool-cases,
  ◌==◌, ◌||◌,
}
use fun_project.Common.Exec.{Result, ok, err}
use fun_project.Storage.Schema.Types.{Time}
use fun_project.Nif.{Batch}
use fun_project.Ingestion.Contract.{Ingestor, Fetched, PublishResult, Sink}
use fun_project.Ingestion.Registry.{id_of}
use fun_project.Ingestion.Stores.{
  CheckpointRecord, Entry, Original, World, tick, load, save, delivery, of_batch, undelivered,
}
use fun_project.Ingestion.Stores.Saves.{Files, IsMovedTo, IsMovedTo-then, Saves, save-Saves}
use fun_project.Ingestion.RunOne.{
  after_save, advance, after_publish, after_fetch, after_load, saved_entry, unsaved_entry,
  unpublished_entry, published_entry, loaded_entry, with_error, new_entry, run_one,
}
use fun_project.Ingestion.RunOne.Laws.{
  clean_batch, SameBut, finish_entry-writes, push_dlq-SameBut, sort_out_batch-SameBut,
  sort_out_batch-clean,
}

-- The loaded position, the fetched batch and the answer of the sink that a move rests on
pub record IsAdvance {S : Type 0} (now : ℕ → Time) (fault : ℕ → Option String) (sink : Sink S)
    (run_id : String) (ing : Ingestor) (w : World S) (new : Files) : Type 0 where
  pub before : CheckpointRecord
  pub fetched : Fetched
  pub result : PublishResult
  pub loaded : (load now fault (id_of ing) (tick w)).0 ≡ ok before
  pub fetches : ing.fetch run_id before.position ≡ ok fetched
  pub publishes : (sink.publish (clean_batch fetched.batch) w.delivered).0 ≡ ok result
  pub named : fetched.next_checkpoint ≢ ""
  pub moves : fetched.next_checkpoint ≢ before.position
  pub moved : IsMovedTo (id_of ing) fetched.next_checkpoint w.checkpoints new

module _ {S : Type 0} (now : ℕ → Time) (fault : ℕ → Option String)
    (encode : Original → Option String) (sink : Sink S) where
  pub after_save-keeps :
      (r : Result String Unit) (ck : CheckpointRecord) (f : Fetched) (e : Entry) (w : World S)
      → (after_save now fault encode sink r ck f e w).1.checkpoints ≡ w.checkpoints
  unfolding after_save
  after_save-keeps (ok u) ck f e w =
      (finish_entry-writes now fault encode sink (saved_entry f e) w).0
  after_save-keeps (err why) ck f e w =
      (finish_entry-writes now fault encode sink (unsaved_entry why ck e) w).0

  abbrev Moves : String → CheckpointRecord → Fetched → Files → Files → Type 0
  Moves id ck f old new =
      (new ≡ old)
      ⊎ ((f.next_checkpoint ≢ "")
          × (f.next_checkpoint ≢ ck.position)
          × IsMovedTo id f.next_checkpoint old new)

  after_save-Moves :
      (id : String) (ck : CheckpointRecord) (f : Fetched) (e : Entry) (w : World S)
      (r : Result String Unit × World S)
      → Saves now fault id f.next_checkpoint w r
      → (f.next_checkpoint == "" || f.next_checkpoint == ck.position) ≡ false
      → Moves id ck f w.checkpoints (after_save now fault encode sink r.0 ck f e r.1).1.checkpoints
  after_save-Moves id ck f e w (ok u, w1) s goes = inr (
    (λ n. ground (arith, n, goes, eq_iff f.next_checkpoint "")),
    (λ n. ground (arith, n, goes, eq_iff f.next_checkpoint ck.position)),
    IsMovedTo-then id f.next_checkpoint _ _ _ s (after_save-keeps (ok u) ck f e w1),
  )
  after_save-Moves id ck f e w (err why, w1) s goes = inl (after_save-keeps (err why) ck f e w1 ∙ s)

  advance-Moves :
      (id : String) (ck : CheckpointRecord) (f : Fetched) (e : Entry) (w : World S)
      → Moves id ck f w.checkpoints (advance now fault encode sink id ck f e w).1.checkpoints
  unfolding advance
  advance-Moves id ck f e w =
      elim (Bool-cases (f.next_checkpoint == "" || f.next_checkpoint == ck.position)) [
        | inl stays ↦ simp stays (inl (after_save-keeps (ok tt) ck f e w))
        | inr goes ↦ simp goes (
            after_save-Moves id ck f e w (save now fault id f.next_checkpoint w)
              (save-Saves now fault id f.next_checkpoint w) goes)
      ]

  -- What a run may do to the files
  abbrev Rule : String → Ingestor → World S → Files → Type 0
  Rule run_id ing w new = (new ≡ w.checkpoints) ⊎ IsAdvance now fault sink run_id ing w new

  after_publish-Rule :
      (run_id : String) (ing : Ingestor) (w : World S) (r : Result String PublishResult)
      (ck : CheckpointRecord) (f : Fetched) (clean : Batch) (e : Entry) (w1 : World S)
      → (load now fault (id_of ing) (tick w)).0 ≡ ok ck
      → ing.fetch run_id ck.position ≡ ok f
      → (sink.publish (clean_batch f.batch) w.delivered).0 ≡ r
      → w1.checkpoints ≡ w.checkpoints
      → Rule run_id ing w
          (after_publish now fault encode sink r run_id (id_of ing) ck f clean e w1).1.checkpoints
  unfolding after_publish
  after_publish-Rule run_id ing w (err why) ck f clean e w1 l h p same =
      let letter =
        push_dlq-SameBut now fault encode sink run_id delivery (of_batch clean) (undelivered why)
          w1 in
      inl (
        (finish_entry-writes now fault encode sink (unpublished_entry why e) _).0
        ∙ letter.checkpoints
        ∙ same)
  after_publish-Rule run_id ing w (ok res) ck f clean e w1 l h p same =
      elim (advance-Moves (id_of ing) ck f (published_entry res e) w1) [
        | inl stays ↦ inl (stays ∙ same)
        | inr (named, moves, moved) ↦ inr (record {
          before = ck;
          fetched = f;
          result = res;
          loaded = l;
          fetches = h;
          publishes = p;
          named = named;
          moves = moves;
          moved =
              subst
                (λ (o : Files).
                  IsMovedTo (id_of ing) f.next_checkpoint o
                    (advance now fault encode sink (id_of ing) ck f (published_entry res e)
                      w1).1.checkpoints)
                same moved;
        })
      ]

  pub publish-same :
      (b b' : Batch) (s s' : S) → b ≡ b' → s ≡ s' → (sink.publish b' s').0 ≡ (sink.publish b s).0
  publish-same b b' s s' e d = cc (e, d)

  after_fetch-Rule :
      (run_id : String) (ing : Ingestor) (w : World S) (r : Result String Fetched)
      (ck : CheckpointRecord) (e : Entry) (w1 : World S)
      → (load now fault (id_of ing) (tick w)).0 ≡ ok ck
      → ing.fetch run_id ck.position ≡ r
      → SameBut w w1
      → Rule run_id ing w
          (after_fetch now fault encode sink r run_id (id_of ing) ck e w1).1.checkpoints
  unfolding after_fetch
  after_fetch-Rule run_id ing w (err why) ck e w1 l h same = inl (
      (finish_entry-writes now fault encode sink (with_error ("fetch: " <> why) e) w1).0
      ∙ same.checkpoints)
  after_fetch-Rule run_id ing w (ok f) ck e w1 l h same =
      let clean = sort_out_batch-clean now fault encode sink run_id f.batch w1 in
      let kept = sort_out_batch-SameBut now fault encode sink run_id f.batch w1 in
      after_publish-Rule run_id ing w _ ck f _ _ _ l h
        (publish-same _ _ _ _ clean (kept.delivered ∙ same.delivered))
        (kept.checkpoints ∙ same.checkpoints)

  after_load-Rule :
      (run_id : String) (ing : Ingestor) (w : World S) (r : Result String CheckpointRecord)
      (e : Entry) (w1 : World S)
      → (load now fault (id_of ing) (tick w)).0 ≡ r
      → SameBut w w1
      → Rule run_id ing w (after_load now fault encode sink r run_id ing e w1).1.checkpoints
  unfolding after_load
  after_load-Rule run_id ing w (err why) e w1 l same = inl (
      (finish_entry-writes now fault encode sink (with_error ("load checkpoint: " <> why) e) w1).0
      ∙ same.checkpoints)
  after_load-Rule run_id ing w (ok ck) e w1 l same =
      after_fetch-Rule run_id ing w (ing.fetch run_id ck.position) ck (loaded_entry ck e) w1 l refl
        same

  -- The checkpoint rule: a run leaves the checkpoint files as they were, or it writes one file, that of
  -- its ingestor, with the next checkpoint, and then the batch that was fetched from the position
  -- before, less the records that validation refuses, has been published without an error.
  pub run_one_checkpoints :
      (run_id trigger : String) (ing : Ingestor) (w : World S)
      → ((run_one now fault encode sink run_id trigger ing w).1.checkpoints ≡ w.checkpoints)
        ⊎ IsAdvance now fault sink run_id ing w
            (run_one now fault encode sink run_id trigger ing w).1.checkpoints
  unfolding run_one
  run_one_checkpoints run_id trigger ing w =
      after_load-Rule run_id ing w _ (new_entry run_id trigger ing (now w.calls)) _ refl
        (record { checkpoints = refl; ledger = refl; delivered = refl })
