-- ===== src/Storage/Mutation/Fresh/Handlers.antt =====
-- Every mutation that succeeds tells in its result which entity it changed.
use fun_project.Common.{
  ℕ, String, Option, none, some, List, [], ◌∷◌, ◌++◌, ◌≡◌, refl, ap, ◌∙◌, ◌⊎◌, inl, inr, ◌==◌,
  Bool-cases, true,
}
use fun_project.Common.Exec.{ok, err, Result, Result-cases}
use fun_project.Storage.Schema.Types.{Entity}
use fun_project.Storage.Schema.Validate.{Error, validate_entity}
use fun_project.Storage.Table.{find}
use fun_project.Storage.Session.{Env, Db, MutationKind, Session, OpResult}
use fun_project.Storage.Graph.{entity_key, find_entity}
use fun_project.Storage.Mutation.Handlers.{
  Mutation, upsert_entity, soft_delete_entity, dispatch, apply_one, normalize_entity,
}
use fun_project.Storage.Mutation.Batch.{Run, changed, after_step, step, session_of}
use fun_project.Storage.Mutation.Fresh.{
  Told, Told-store_entity, Told-remove_entity, entities-upsert_relationship,
  entities-delete_relationship,
}

module _ (env : Env) (id : String) where
  Told-upsert_entity :
      (o : Option Entity) (s : Session)
      → (upsert_entity env o s).0 ≡ ok tt
      → Told id s (upsert_entity env o s).1
  unfolding upsert_entity
  Told-upsert_entity none s q = absurd (cc)
  Told-upsert_entity (some e) s q = elim (Result-cases (validate_entity e)) [
    | inl valid ↦
        simp valid (Told-store_entity env id (normalize_entity env e) _ _ refl (simp valid at q))
    | inr (x, bad) ↦ let q' = simp bad at q in absurd (cc)
  ]

  Told-soft_delete_entity :
      (k : String) (s : Session)
      → (soft_delete_entity env k s).0 ≡ ok tt
      → Told id s (soft_delete_entity env k s).1
  unfolding soft_delete_entity
  Told-soft_delete_entity k s q = elim (Bool-cases (k == "")) [
    | inl empty ↦ let q' = simp empty at q in absurd (cc)
    | inr named ↦ simp named (Told-remove_entity env id k _ _ refl (simp named at q))
  ]

  Told-dispatch :
      (k : MutationKind) (m : Mutation) (s : Session)
      → (dispatch env k m s).0 ≡ ok tt
      → Told id s (dispatch env k m s).1
  unfolding dispatch find_entity
  Told-dispatch MutationKind.upsert_entity m s q = Told-upsert_entity m.entity s q
  Told-dispatch MutationKind.upsert_relationship m s q =
      inl (ap (find entity_key id) (entities-upsert_relationship env m.relationship s))
  Told-dispatch MutationKind.soft_delete_entity m s q = Told-soft_delete_entity m.target_id s q
  Told-dispatch MutationKind.delete_relationship m s q =
      inl (ap (find entity_key id) (entities-delete_relationship env m.target_id s))
  Told-dispatch (MutationKind.other name) m s q = absurd (cc)

  -- Some result names `id` and says that it changed.
  abbrev pub Announced : List OpResult → Type 0
  Announced [] = ⊥
  Announced (r ∷ rs) = (r.entity_id ≡ id) × (changed r.operation ≡ true) ⊎ Announced rs

  Announced-left : (rs : List OpResult) (r : OpResult) → Announced rs → Announced (rs ++ r ∷ [])
  Announced-left [] r a = elim a [ ]
  Announced-left (x ∷ rs) r (inl here) = inl here
  Announced-left (x ∷ rs) r (inr later) = inr (Announced-left rs r later)

  Announced-last :
      (rs : List OpResult) (r : OpResult)
      → (r.entity_id ≡ id) × (changed r.operation ≡ true)
      → Announced (rs ++ r ∷ [])
  Announced-last [] r h = inl h
  Announced-last (x ∷ rs) r h = inr (Announced-last rs r h)

  -- The row at `id` is that of `d`, or a result announces its change.
  abbrev pub Covers : Db → Run → Type 0
  Covers d run = (find_entity id run.db ≡ find_entity id d) ⊎ Announced run.results

  join :
      (d : Db) (run : Run) (s : Session) (n : Session)
      → Covers d run
      → s.db ≡ run.db
      → Told id s n
      → (find_entity id n.db ≡ find_entity id d) ⊎ Announced (run.results ++ n.result ∷ [])
  join d run s n (inl same) e (inl kept) = inl (kept ∙ ap (find_entity id) e ∙ same)
  join d run s n (inr before) e told = inr (Announced-left run.results n.result before)
  join d run s n (inl same) e (inr now) = inr (Announced-last run.results n.result now)

  after :
      (d : Db) (run : Run) (r : Result Error Unit) (n : Session)
      → (r ≡ ok tt
          → (find_entity id n.db ≡ find_entity id d) ⊎ Announced (run.results ++ n.result ∷ []))
      → (after_step run r n).error ≡ none
      → Covers d (after_step run r n)
  unfolding after_step
  after d run (ok tt) n k e = k refl
  after d run (err x) n k e = absurd (cc)

  pub step-Covers :
      (d : Db) (i : ℕ) (m : Mutation) (run : Run)
      → Covers d run
      → (step env i m run).error ≡ none
      → Covers d (step env i m run)
  unfolding step apply_one
  step-Covers d i m run c e =
      let s = session_of i m run in
      let out = dispatch env m.kind m s in
      after d run out.0 out.1 (λ q. join d run s out.1 c refl (Told-dispatch m.kind m s q)) e
