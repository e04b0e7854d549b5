-- ===== src/Storage/Mutation/Batch/Rule.antt =====
-- An invariant of the loop's variables, and of the committed tables.
use fun_project.Common.{
  ℕ, suc, Option, none, some, List, [], ◌∷◌, ◌≡◌, refl, ◌∙◌, arith, Bool-cases, inl, inr,
}
use fun_project.Common.Exec.{Result, ok, err}
use fun_project.Storage.Schema.Validate.{Error}
use fun_project.Storage.Session.{Env, Db, OpResult, Session, Tx}
use fun_project.Storage.Mutation.Handlers.{Mutation, apply_one}
use fun_project.Storage.Mutation.Batch.{
  Store, Run, session_of, after_step, step, resume, apply_each, start, publish, publish_all, finish,
  apply_batch,
}

-- A handler that succeeds keeps `P` of the tables.
abbrev pub Keeps : (Db → Type 0) → Tx Unit → Type 0
Keeps P m = (s : Session) → P s.db → (m s).0 ≡ ok tt → P (m s).1.db

resume-Inv :
    (Inv : Run → Type 0) (o : Option Error) (run rest : Run)
    → run.error ≡ o
    → (o ≡ none → rest.error ≡ none → Inv rest)
    → (resume o run rest).error ≡ none
    → Inv (resume o run rest)
unfolding resume
resume-Inv Inv none run rest q k e = k refl e
resume-Inv Inv (some x) run rest q k e = absurd (cc)

module _ (env : Env) (Inv : Run → Type 0) where
  pub apply_each-Inv :
      ((i : ℕ) (m : Mutation) (run : Run)
        → Inv run
        → (step env i m run).error ≡ none
        → Inv (step env i m run))
      → (i : ℕ) (ms : List Mutation) (run : Run) → Inv run
      → (apply_each env i ms run).error ≡ none
      → Inv (apply_each env i ms run)
  unfolding apply_each
  apply_each-Inv keep i [] run h e = h
  apply_each-Inv keep i (m ∷ ms) run h e =
      let run' = step env i m run in
      resume-Inv Inv run'.error run' (apply_each env (suc i) ms run') refl
        (λ q. apply_each-Inv keep (suc i) ms run' (keep i m run h q)) e

db-publish : (r : OpResult) (s : Store) → (publish r s).db ≡ s.db
unfolding publish
db-publish r s = ground arith

pub db-publish_all : (rs : List OpResult) (s : Store) → (publish_all rs s).db ≡ s.db
unfolding publish_all
db-publish_all [] s = refl
db-publish_all (r ∷ rs) s = db-publish_all rs (publish r s) ∙ db-publish r s

module _ (env : Env) (P : Db → Type 0) where
  after_step-Keeps :
      (run : Run) (r : Result Error Unit) (s : Session)
      → (r ≡ ok tt → P s.db)
      → (after_step run r s).error ≡ none
      → P (after_step run r s).db
  unfolding after_step
  after_step-Keeps run (ok tt) s k e = k refl
  after_step-Keeps run (err x) s k e = absurd (cc)

  finish-Keeps :
      (s : Store) (run : Run) (o : Option Error)
      → P s.db
      → (o ≡ none → P run.db)
      → P (finish env s run o).1.db
  unfolding finish
  finish-Keeps s run none h k = elim (Bool-cases env.commit_ok) [
    | inl committed ↦ simp committed (rw db-publish_all (k refl))
    | inr refused ↦ simp refused h
  ]
  finish-Keeps s run (some e) h k = h

  step-Keeps :
      ((m : Mutation) → Keeps P (apply_one env m))
      → (i : ℕ) (m : Mutation) (run : Run) → P run.db
      → (step env i m run).error ≡ none
      → P (step env i m run).db
  unfolding step
  step-Keeps keep i m run h e =
      let s = session_of i m run in
      after_step-Keeps run (apply_one env m s).0 (apply_one env m s).1 (keep m s h) e

  -- What every handler keeps, the batch keeps, whether it commits or not.
  pub apply_batch-Keeps :
      ((m : Mutation) → Keeps P (apply_one env m))
      → (ms : List Mutation) (s : Store) → P s.db
      → P (apply_batch env ms s).1.db
  unfolding apply_batch start
  apply_batch-Keeps keep ms s h = elim (Bool-cases env.begin_ok) [
    | inl begun ↦
        let run = apply_each env 0 ms (start s) in
        simp begun (
          finish-Keeps s run run.error h
            (apply_each-Inv env (λ r. P r.db) (step-Keeps keep) 0 ms (start s) h))
    | inr refused ↦ simp refused h
  ]
