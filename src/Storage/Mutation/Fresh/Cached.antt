-- ===== src/Storage/Mutation/Fresh/Cached.antt =====
-- After a batch the cache serves no entity that the batch changed.
use fun_project.Common.{
  String, Option, none, some, List, [], ◌∷◌, ◌≡◌, refl, sym, ap, ◌∙◌, inl, inr, ◌==◌, Bool-cases,
  true, false, arith, eq_iff,
}
use fun_project.Storage.Schema.Types.{Time, Entity}
use fun_project.Storage.Schema.Validate.{Error}
use fun_project.Storage.Session.{Env, OpResult}
use fun_project.Storage.Graph.{find_entity}
use fun_project.Storage.Cache.{GraphCache, get_entity, invalidate_relationship}
use fun_project.Storage.Cache.Laws.{get_entity-invalidate_entity}
use fun_project.Storage.Mutation.Handlers.{Mutation}
use fun_project.Storage.Mutation.Batch.{
  Store, Run, changed, apply_each, start, publish, publish_all, invalidate_pairs, finish,
  apply_batch,
}
use fun_project.Storage.Mutation.Batch.Rule.{apply_each-Inv, db-publish_all}
use fun_project.Storage.Mutation.Fresh.Handlers.{Announced, Covers, step-Covers}

get_entity-invalidate_pairs :
    (pairs : List (String × String)) (c : GraphCache) (now : Time) (id : String)
    → get_entity (invalidate_pairs pairs c) now id ≡ get_entity c now id
unfolding invalidate_pairs
get_entity-invalidate_pairs [] c now id = refl
get_entity-invalidate_pairs ((a, b) ∷ pairs) c now id =
    get_entity-invalidate_pairs pairs (invalidate_relationship c a b) now id
    ∙ (unfold get_entity invalidate_relationship in refl)

module _ (env : Env) (now : Time) (id : String) where
  get_entity-publish :
      (r : OpResult) (s : Store) (e : Entity)
      → get_entity (publish r s).cache now id ≡ some e
      → get_entity s.cache now id ≡ some e
  unfolding publish
  get_entity-publish r s e h =
      ground (arith, get_entity-invalidate_entity s.cache now id r.entity_id)

  -- The hooks bring nothing into the cache.
  served_before :
      (rs : List OpResult) (s : Store) (e : Entity)
      → get_entity (publish_all rs s).cache now id ≡ some e
      → get_entity s.cache now id ≡ some e
  unfolding publish_all
  served_before [] s e h = h
  served_before (r ∷ rs) s e h = get_entity-publish r s e (served_before rs (publish r s) e h)

  dropped :
      (r : OpResult) (s : Store) (e : Entity)
      → (id == "") ≡ false
      → r.entity_id ≡ id
      → changed r.operation ≡ true
      → get_entity (publish r s).cache now id ≡ some e
      → ⊥
  unfolding publish
  dropped r s e named at h k =
      ground (arith, get_entity-invalidate_entity s.cache now id r.entity_id, eq_iff id r.entity_id)

  unserved :
      (rs : List OpResult) (s : Store) (e : Entity)
      → (id == "") ≡ false
      → Announced env id rs
      → get_entity (publish_all rs s).cache now id ≡ some e
      → ⊥
  unfolding publish_all
  unserved [] s e named a h = a
  unserved (r ∷ rs) s e named (inl here) h =
      dropped r s e named here.0 here.1 (served_before rs (publish r s) e h)
  unserved (r ∷ rs) s e named (inr later) h = unserved rs (publish r s) e named later h

  -- What the cache serves after the commit it served before, and the row is unchanged.
  abbrev pub Serves : Store → Store → Entity → Type 0
  Serves s s' e =
      (get_entity s.cache now id ≡ some e) × (find_entity id s'.db ≡ find_entity id s.db)

  committed :
      (run : Run) (s t : Store) (e : Entity)
      → (id == "") ≡ false
      → Covers env id s.db run
      → t.db ≡ run.db
      → t.cache ≡ invalidate_pairs run.stale_pairs s.cache
      → get_entity (publish_all run.results t).cache now id ≡ some e
      → Serves s (publish_all run.results t) e
  committed run s t e named (inl same) d c h = (
    sym (get_entity-invalidate_pairs run.stale_pairs s.cache now id)
        ∙ sym (ap (λ x. get_entity x now id) c)
        ∙ served_before run.results t e h,
    ap (find_entity id) (db-publish_all run.results t ∙ d) ∙ same,
  )
  committed run s t e named (inr told) d c h = absurd (unserved run.results t e named told h)

  finished :
      (run : Run) (s : Store) (o : Option Error) (e : Entity)
      → (id == "") ≡ false
      → (o ≡ none → Covers env id s.db run)
      → get_entity (finish env s run o).1.cache now id ≡ some e
      → Serves s (finish env s run o).1 e
  unfolding finish
  finished run s (some x) e named c h = (h, refl)
  finished run s none e named c h = elim (Bool-cases env.commit_ok) [
    | inl done ↦ simp done (committed run s _ e named (c refl) refl refl (simp done at h))
    | inr refused ↦ simp refused (simp refused at h, refl)
  ]

  -- After a batch, whatever it contains and however it ends, an entity that the cache serves under
  -- a non-empty id is the one that it served before, and the batch left the row at that id as it
  -- was: a changed entity is never served from the cache.
  pub apply_batch-Serves :
      (ms : List Mutation) (s : Store) (e : Entity)
      → (id == "") ≡ false
      → get_entity (apply_batch env ms s).1.cache now id ≡ some e
      → Serves s (apply_batch env ms s).1 e
  unfolding apply_batch start
  apply_batch-Serves ms s e named h = elim (Bool-cases env.begin_ok) [
    | inl begun ↦
        let run = apply_each env 0 ms (start s) in
        simp begun (
          finished run s run.error e named
            (apply_each-Inv env (Covers env id s.db) (step-Covers env id s.db) 0 ms (start s)
              (inl refl))
            (simp begun at h))
    | inr refused ↦ simp refused (simp refused at h, refl)
  ]
