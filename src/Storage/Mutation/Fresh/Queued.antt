-- ===== src/Storage/Mutation/Fresh/Queued.antt =====
-- After a batch every entity that it changed waits in the queue of the search indexer.
use fun_project.Common.{
  ℕ, suc, ◌+◌, ◌≤◌, String, true, false, Option, none, some, List, [], ◌∷◌, ◌++◌, ◌==◌, ◌||◌, not,
  ltb, ◌≡◌, refl, sym, ap, ◌∙◌, ◌⊎◌, inl, inr, arith, length, length-append, Bool-cases,
  if◌then◌else◌, mem_text, eq_iff,
}
use mathlib.Core.List.{append-nil, append_assoc}
use fun_project.Common.Exec.{Result, ok, err}
use fun_project.Storage.Schema.Validate.{Error}
use fun_project.Storage.Session.{Env, OpResult, Session, failed}
use fun_project.Storage.Graph.{find_entity}
use fun_project.Storage.Mutation.Handlers.{Mutation}
use fun_project.Storage.Mutation.Batch.{
  Store, Run, changed, enqueue, after_step, step, resume, apply_each, start, publish, publish_all,
  finish, apply_batch,
}
use fun_project.Storage.Mutation.Batch.Rule.{apply_each-Inv, db-publish_all}
use fun_project.Storage.Mutation.Fresh.Handlers.{Announced, Covers, step-Covers}

after_step-results :
    (run : Run) (r : Result Error Unit) (s : Session)
    → length (after_step run r s).results ≡ suc (length run.results)
unfolding after_step
after_step-results run (ok u) s = omega (arith, length-append run.results (s.result ∷ []))
after_step-results run (err e) s = omega (
  arith,
  length-append run.results ((record s.result { operation = failed; error = some e }) ∷ []),
)

step-results :
    (env : Env) (i : ℕ) (m : Mutation) (run : Run)
    → length (step env i m run).results ≡ suc (length run.results)
unfolding step
step-results env i m run = after_step-results run _ _

resume-results :
    (n : ℕ) (o : Option Error) (run rest : Run)
    → length run.results ≤ n
    → length rest.results ≤ n
    → length (resume o run rest).results ≤ n
unfolding resume
resume-results n none run rest h k = k
resume-results n (some e) run rest h k = h

-- A batch has no more results than mutations.
results-apply_each :
    (env : Env) (i : ℕ) (ms : List Mutation) (run : Run)
    → length (apply_each env i ms run).results ≤ length run.results + length ms
unfolding apply_each
results-apply_each env i [] run = omega arith
results-apply_each env i (m ∷ ms) run =
    let run' = step env i m run in
    let one = step-results env i m run in
    resume-results (length run.results + length (m ∷ ms)) run'.error run'
      (apply_each env (suc i) ms run') (omega (arith, one))
      (omega (arith, one, results-apply_each env (suc i) ms run'))

-- The ids of the results that say that they changed something
unfoldable told_ids : List OpResult → List String
told_ids [] = []
told_ids (r ∷ rs) =
    if not (changed r.operation) || r.entity_id == ""
    then told_ids rs
    else r.entity_id ∷ told_ids rs

queue-publish_all :
    (rs : List OpResult) (s : Store) (q : List String)
    → s.queue ≡ some q
    → length q + length rs ≤ 1000
    → (publish_all rs s).queue ≡ some (q ++ told_ids rs)
unfolding publish_all told_ids
queue-publish_all [] s q e room = e ∙ ap (λ (ids : List String). some ids) (sym (append-nil q))
queue-publish_all (r ∷ rs) s q e room =
    elim (Bool-cases (not (changed r.operation) || r.entity_id == "")) [
      | inl quiet ↦
          let same : publish r s ≡ s = unfold publish in simp quiet refl in
          simp quiet (
            ap (λ (t : Store). (publish_all rs t).queue) same
            ∙ queue-publish_all rs s q e (omega (arith, room)))
      | inr tells ↦
          let free : ltb (length q) 1000 ≡ true = ground (arith, room) in
          let joined : (publish r s).queue ≡ some (q ++ r.entity_id ∷ []) =
            unfold publish enqueue in simp (tells, e, free) refl in
          let longer = length-append q (r.entity_id ∷ []) in
          simp tells (
            queue-publish_all rs (publish r s) (q ++ r.entity_id ∷ []) joined
              (omega (arith, room, longer))
            ∙ ap (λ (ids : List String). some ids)
                (append_assoc q (r.entity_id ∷ []) (told_ids rs)))
    ]

module _ (env : Env) where
  told_ids-Announced :
      (k : String) (rs : List OpResult)
      → (k == "") ≡ false
      → Announced env k rs
      → mem_text k (told_ids rs) ≡ true
  unfolding told_ids mem_text
  told_ids-Announced k [] named a = absurd a
  told_ids-Announced k (r ∷ rs) named (inl (at, tells)) =
      ground (arith, tells, named, eq_iff r.entity_id k, at)
  told_ids-Announced k (r ∷ rs) named (inr later) =
      ground (arith, told_ids-Announced k rs named later)

  -- The queue has grown by some ids, and an entity whose id is not among them is as it was.
  pub record IsQueued (s t : Store) (q : List String) : Type 0 where
    pub ids : List String
    pub grown : t.queue ≡ some (q ++ ids)
    pub told :
        (k : String)
        → (k == "") ≡ false
        → (find_entity k t.db ≡ find_entity k s.db) ⊎ (mem_text k ids ≡ true)

  unchanged-IsQueued :
      (s t : Store) (q : List String)
      → s.queue ≡ some q
      → t.queue ≡ s.queue
      → t.db ≡ s.db
      → IsQueued s t q
  unchanged-IsQueued s t q e same kept = record {
    ids = [];
    grown = same ∙ e ∙ ap (λ (ids : List String). some ids) (sym (append-nil q));
    told = λ k named. inl (ap (find_entity k) kept);
  }

  finish-IsQueued :
      (run : Run) (s : Store) (o : Option Error) (q : List String)
      → s.queue ≡ some q
      → length q + length run.results ≤ 1000
      → (o ≡ none → (k : String) → Covers env k s.db run)
      → IsQueued s (finish env s run o).1 q
  unfolding finish
  finish-IsQueued run s (some x) q e room covers = unchanged-IsQueued s _ q e refl refl
  finish-IsQueued run s none q e room covers = elim (Bool-cases env.commit_ok) [
    | inl done ↦ simp done (record {
      ids = told_ids run.results;
      grown = queue-publish_all run.results _ q e room;
      told = λ k named. elim (covers refl k) [
        | inl same ↦ inl (ap (find_entity k) (db-publish_all run.results _) ∙ same)
        | inr tells ↦ inr (told_ids-Announced k run.results named tells)
      ];
    })
    | inr refused ↦ simp refused (unchanged-IsQueued s _ q e refl refl)
  ]

  -- Where the queue has room for a result of every mutation, an entity that the batch changes is in the
  -- queue afterwards, if its id is not empty.
  pub apply_batch-IsQueued :
      (ms : List Mutation) (s : Store) (q : List String)
      → s.queue ≡ some q
      → length q + length ms ≤ 1000
      → IsQueued s (apply_batch env ms s).1 q
  unfolding apply_batch start
  apply_batch-IsQueued ms s q e room = elim (Bool-cases env.begin_ok) [
    | inl begun ↦
        let run = apply_each env 0 ms (start s) in
        let few = results-apply_each env 0 ms (start s) in
        simp begun (
          finish-IsQueued run s run.error q e (omega (arith, room, few)) (λ fine k.
            apply_each-Inv env (Covers env k s.db) (step-Covers env k s.db) 0 ms (start s)
              (inl refl) fine))
    | inr refused ↦ simp refused (unchanged-IsQueued s s q e refl refl)
  ]
