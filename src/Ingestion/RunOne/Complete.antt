-- ===== src/Ingestion/RunOne/Complete.antt =====
-- What the status "success" of a run promises.
use fun_project.Common.{
  ℕ, ◌+◌, String, Option, ◌≡◌, ◌⊎◌, inl, inr, refl, ◌∙◌, subst, arith, eq_iff, Bool-cases, ◌==◌,
  ◌||◌,
}
use fun_project.Common.Exec.{Result, ok, err}
use fun_project.Storage.Schema.Types.{Time}
use fun_project.Nif.{Batch, batch_len}
use fun_project.Ingestion.Contract.{Ingestor, Fetched, PublishResult, Sink}
use fun_project.Ingestion.Registry.{id_of}
use fun_project.Ingestion.Dispatch.{success, failed}
use fun_project.Ingestion.Stores.{CheckpointRecord, Entry, Original, World, tick, load, save}
use fun_project.Ingestion.RunOne.{
  final_status, finish_entry, after_save, advance, after_publish, after_fetch, after_load, run_one,
  new_entry, loaded_entry, published_entry, saved_entry,
}
use fun_project.Ingestion.RunOne.Laws.{
  clean_batch, SameBut, sort_out_batch-SameBut, sort_out_batch-clean, sort_out_batch-count,
}
use fun_project.Ingestion.Stores.Saves.{Files, IsMovedTo, IsMovedTo-then, Saves, save-Saves}
use fun_project.Ingestion.RunOne.Checkpoints.{after_save-keeps, publish-same}

-- The next checkpoint is empty, or the position at hand, or it is in the ingestor's file.
abbrev pub IsKept : String → CheckpointRecord → Fetched → Files → Files → Type 0
IsKept id ck f old new =
    (f.next_checkpoint ≡ "")
    ⊎ ((f.next_checkpoint ≡ ck.position) ⊎ IsMovedTo id f.next_checkpoint old new)

IsKept-from :
    (id : String) (ck : CheckpointRecord) (f : Fetched) (old old' new : Files)
    → old' ≡ old
    → IsKept id ck f old' new
    → IsKept id ck f old new
IsKept-from id ck f old old' new e k = subst (λ (o : Files). IsKept id ck f o new) e k

-- A run that has done all it was to do
pub record IsComplete {S : Type 0} (now : ℕ → Time) (fault : ℕ → Option String) (sink : Sink S)
    (run_id : String) (ing : Ingestor) (w : World S) (new : Files) : Type 0 where
  pub before : CheckpointRecord
  pub fetched : Fetched
  pub result : PublishResult
  pub loaded : (load now fault (id_of ing) (tick w)).0 ≡ ok before
  pub fetches : ing.fetch run_id before.position ≡ ok fetched
  pub all_pass : batch_len (clean_batch fetched.batch) ≡ batch_len fetched.batch
  pub publishes : (sink.publish (clean_batch fetched.batch) w.delivered).0 ≡ ok result
  pub none_failed : result.failed ≡ 0
  pub remembered : IsKept (id_of ing) before fetched w.checkpoints new

final_status-success : (bad sent : ℕ) → final_status bad sent ≡ success → bad ≡ 0
unfolding final_status
final_status-success bad sent h = ground (arith, h)

module _ {S : Type 0} (now : ℕ → Time) (fault : ℕ → Option String)
    (encode : Original → Option String) (sink : Sink S) where
  after_save-IsKept :
      (id : String) (ck : CheckpointRecord) (f : Fetched) (e : Entry) (w : World S)
      (r : Result String Unit × World S)
      → Saves now fault id f.next_checkpoint w r
      → (after_save now fault encode sink r.0 ck f e r.1).0.status ≡ success
      → IsKept id ck f w.checkpoints (after_save now fault encode sink r.0 ck f e r.1).1.checkpoints
        × (e.failed_records ≡ 0)
  unfolding after_save finish_entry final_status saved_entry
  after_save-IsKept id ck f e w (ok u, w1) s h = (
    inr (
        inr (
          IsMovedTo-then id f.next_checkpoint _ _ _ s
            (after_save-keeps now fault encode sink (ok u) ck f e w1))),
    final_status-success e.failed_records e.emitted h,
  )
  after_save-IsKept id ck f e w (err why, w1) s h = absurd (cc)

  advance-IsKept :
      (id : String) (ck : CheckpointRecord) (f : Fetched) (e : Entry) (w : World S)
      → (advance now fault encode sink id ck f e w).0.status ≡ success
      → IsKept id ck f w.checkpoints (advance now fault encode sink id ck f e w).1.checkpoints
        × (e.failed_records ≡ 0)
  unfolding advance final_status saved_entry
  advance-IsKept id ck f e w =
      elim (Bool-cases (f.next_checkpoint == "" || f.next_checkpoint == ck.position)) [
        | inl stays ↦ simp stays (λ h. (
          elim (Bool-cases (f.next_checkpoint == "")) [
            | inl empty ↦ inl ((eq_iff f.next_checkpoint "").0 empty)
            | inr named ↦
                inr (inl ((eq_iff f.next_checkpoint ck.position).0 (ground (arith, stays, named))))
          ],
          final_status-success e.failed_records e.emitted h,
        ))
        | inr goes ↦ simp goes (
            after_save-IsKept id ck f e w (save now fault id f.next_checkpoint w)
              (save-Saves now fault id f.next_checkpoint w))
      ]

  after_publish-IsKept :
      (run_id id : String) (r : Result String PublishResult) (ck : CheckpointRecord) (f : Fetched)
      (clean : Batch) (e : Entry) (w : World S)
      → e.status ≡ failed
      → (after_publish now fault encode sink r run_id id ck f clean e w).0.status ≡ success
      → (res : PublishResult) × (r ≡ ok res)
        × IsKept id ck f w.checkpoints
            (after_publish now fault encode sink r run_id id ck f clean e w).1.checkpoints
        × (e.failed_records + res.failed ≡ 0)
  unfolding after_publish finish_entry
  after_publish-IsKept run_id id (err why) ck f clean e w bad h = absurd (cc)
  after_publish-IsKept run_id id (ok res) ck f clean e w bad h =
      let (k, z) = advance-IsKept id ck f (published_entry res e) w h in (res, refl, k, z)

  after_fetch-IsComplete :
      (run_id : String) (ing : Ingestor) (w : World S) (r : Result String Fetched)
      (ck : CheckpointRecord) (e : Entry) (w1 : World S)
      → (load now fault (id_of ing) (tick w)).0 ≡ ok ck
      → ing.fetch run_id ck.position ≡ r
      → SameBut w w1
      → e.status ≡ failed
      → (after_fetch now fault encode sink r run_id (id_of ing) ck e w1).0.status ≡ success
      → IsComplete now fault sink run_id ing w
          (after_fetch now fault encode sink r run_id (id_of ing) ck e w1).1.checkpoints
  unfolding after_fetch finish_entry
  after_fetch-IsComplete run_id ing w (err why) ck e w1 l h same bad s = absurd (cc)
  after_fetch-IsComplete run_id ing w (ok f) ck e w1 l h same bad s =
      let clean = sort_out_batch-clean now fault encode sink run_id f.batch w1 in
      let count = sort_out_batch-count now fault encode sink run_id f.batch w1 in
      let kept = sort_out_batch-SameBut now fault encode sink run_id f.batch w1 in
      let p = publish-same now fault encode sink _ _ _ _ clean (kept.delivered ∙ same.delivered) in
      let (res, o, k, z) = after_publish-IsKept run_id (id_of ing) _ ck f _ _ _ bad s in
      record {
        before = ck;
        fetched = f;
        result = res;
        loaded = l;
        fetches = h;
        all_pass = omega (arith, z, count);
        publishes = p ∙ o;
        none_failed = omega (arith, z);
        remembered = IsKept-from (id_of ing) ck f _ _ _ (kept.checkpoints ∙ same.checkpoints) k;
      }

  after_load-IsComplete :
      (run_id : String) (ing : Ingestor) (w : World S) (r : Result String CheckpointRecord)
      (e : Entry) (w1 : World S)
      → (load now fault (id_of ing) (tick w)).0 ≡ r
      → SameBut w w1
      → e.status ≡ failed
      → (after_load now fault encode sink r run_id ing e w1).0.status ≡ success
      → IsComplete now fault sink run_id ing w
          (after_load now fault encode sink r run_id ing e w1).1.checkpoints
  unfolding after_load finish_entry
  after_load-IsComplete run_id ing w (err why) e w1 l same bad s = absurd (cc)
  after_load-IsComplete run_id ing w (ok ck) e w1 l same bad s =
      after_fetch-IsComplete run_id ing w (ing.fetch run_id ck.position) ck (loaded_entry ck e) w1 l
        refl same bad s

  -- A run whose status is success has loaded its checkpoint, has fetched a batch of which validation
  -- refuses no record, and has published that batch with no failed record; and its next checkpoint is
  -- empty, is the position it started from, or is now in its checkpoint file.
  pub run_one_success :
      (run_id trigger : String) (ing : Ingestor) (w : World S)
      → (run_one now fault encode sink run_id trigger ing w).0.status ≡ success
      → IsComplete now fault sink run_id ing w
          (run_one now fault encode sink run_id trigger ing w).1.checkpoints
  unfolding run_one
  run_one_success run_id trigger ing w s =
      after_load-IsComplete run_id ing w _ (new_entry run_id trigger ing (now w.calls)) _ refl
        (record { checkpoints = refl; ledger = refl; delivered = refl }) refl s
