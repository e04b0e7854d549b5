-- ===== src/Storage/Query/Current.antt =====
-- The cache against the tables, over any sequence of batches and lookups, one after another.
use fun_project.Common.{
  String, Option, none, some, List, ◌≡◌, refl, sym, ◌∙◌, ◌==◌, arith, eq_iff, false, Bool-cases,
  inl, inr, subst,
}
use fun_project.Storage.Schema.Types.{Time, Entity}
use fun_project.Storage.Table.Laws.{key_of_find}
use fun_project.Storage.Session.{Env, Db}
use fun_project.Storage.Graph.{find_entity, entity_key}
use fun_project.Storage.Cache.{GraphCache, get_entity, set_entity, set_neighborhood}
use fun_project.Storage.Cache.Laws.{get_entity-set_entity}
use fun_project.Storage.Metrics.{EntityMetrics, latest}
use fun_project.Storage.Mutation.Handlers.{Mutation}
use fun_project.Storage.Mutation.Batch.{Store, apply_batch}
use fun_project.Storage.Mutation.Fresh.Cached.{apply_batch-Serves}
use fun_project.Storage.Query.{
  View, Reader, Direction, ℤ, load_entity, serve_entity, keep_entity, inject_summary,
  inject_metrics_summary, neighborhood,
}
use fun_project.Storage.Query.Loads.{id-inject_summary}
use fun_project.Storage.Query.Keeps.{neighborhood-Keeps}

-- The entity is the row at the id, with a summary of some measurement, or with none.
pub record IsRowOf (db : Db) (id : String) (e : Entity) : Type 0 where
  pub row : Entity
  pub found : find_entity id db ≡ some row
  pub view : View
  pub measured : Option EntityMetrics
  pub shown : inject_summary view measured row ≡ e

-- What the cache serves under an id is the row at that id; no entity has the empty id.
abbrev pub IsCurrent : Db → GraphCache → Type 0
IsCurrent db c =
    (now : Time) (id : String) (e : Entity)
    → (id == "") ≡ false
    → get_entity c now id ≡ some e
    → IsRowOf db id e

apply_batch-IsCurrent :
    (env : Env) (ms : List Mutation) (s : Store)
    → IsCurrent s.db s.cache
    → IsCurrent (apply_batch env ms s).1.db (apply_batch env ms s).1.cache
apply_batch-IsCurrent env ms s current now id e named served =
    let before = apply_batch-Serves env now id ms s e named served in
    let row = current now id e named before.0 in
    record {
      row = row.row;
      found = before.1 ∙ row.found;
      view = row.view;
      measured = row.measured;
      shown = row.shown;
    }

-- A lookup that answers with the row, or with nothing where there is none, and keeps the cache.
pub record IsAnswer (db : Db) (id : String) (out : Option Entity × Reader) : Type 0 where
  pub right : (e : Entity) → (id == "") ≡ false → out.0 ≡ some e → IsRowOf db id e
  pub missing : out.0 ≡ none → find_entity id db ≡ none
  pub current : IsCurrent db out.1.cache

module _ (view : View) where
  set_entity-IsCurrent :
      (c : GraphCache) (t : Time) (id : String) (e : Entity)
      → IsRowOf view.db id e
      → IsCurrent view.db c
      → IsCurrent view.db (set_entity c t id e)
  set_entity-IsCurrent c t id e row current now k x named served = elim (Bool-cases (id == k)) [
    | inl same ↦
        let stored : e ≡ x = ground (arith, get_entity-set_entity c t now id k e, served, same) in
        subst (λ j. IsRowOf view.db j x) ((eq_iff id k).0 same)
          (subst (IsRowOf view.db id) stored row)
    | inr other ↦
        current now k x named (ground (arith, get_entity-set_entity c t now id k e, served, other))
  ]

  keep_entity-IsAnswer :
      (id : String) (o : Option Entity) (s : Reader)
      → find_entity id view.db ≡ o
      → IsCurrent view.db s.cache
      → IsAnswer view.db id (keep_entity view o s)
  unfolding keep_entity inject_metrics_summary find_entity
  keep_entity-IsAnswer id none s found current = record {
    right = λ e named h. absurd (cc);
    missing = λ h. found;
    current = current;
  }
  keep_entity-IsAnswer id (some x) s found current =
      let m = latest view.env x.id view.entity_metrics in
      let e' = inject_summary view m x in
      let row : IsRowOf view.db id e' = record {
        row = x;
        found = found;
        view = view;
        measured = m;
        shown = refl;
      } in
      let own : id ≡ e'.id =
        sym (id-inject_summary view m x ∙ key_of_find entity_key id view.db.entities x found) in
      record {
        right = λ e named h. subst (IsRowOf view.db id) (ground (arith, h)) row;
        missing = λ h. absurd (cc);
        current =
            set_entity-IsCurrent s.cache (view.env.clock s.tick) e'.id e'
              (subst (λ j. IsRowOf view.db j e') own row) current;
      }

  serve_entity-IsAnswer :
      (id : String) (o : Option Entity) (s : Reader)
      → ((e : Entity) → (id == "") ≡ false → o ≡ some e → IsRowOf view.db id e)
      → IsCurrent view.db s.cache
      → IsAnswer view.db id (serve_entity view id o s)
  unfolding serve_entity
  serve_entity-IsAnswer id none s row current = keep_entity-IsAnswer id _ s refl current
  serve_entity-IsAnswer id (some e) s row current = record {
    right = row;
    missing = λ h. absurd (cc);
    current = current;
  }

  load_entity-IsAnswer :
      (id : String) (s : Reader)
      → IsCurrent view.db s.cache
      → IsAnswer view.db id (load_entity view id s)
  unfolding load_entity
  load_entity-IsAnswer id s current =
      serve_entity-IsAnswer id _ _ (λ e named h. current (view.env.clock s.tick) id e named h)
        current

  neighborhood-IsCurrent :
      (id : String) (max_depth : ℤ) (dir : Direction) (s : Reader)
      → IsCurrent view.db s.cache
      → IsCurrent view.db (neighborhood view id max_depth dir s).1.cache
  unfolding get_entity set_neighborhood
  neighborhood-IsCurrent =
      neighborhood-Keeps view (IsCurrent view.db) (λ id s h. (load_entity-IsAnswer id s h).current)
        (λ c t k n h. h)

-- What a request leaves of the process's store
abbrev pub after : Store → Reader → Store
after s r = record s { cache = r.cache; tick = r.tick }

abbrev pub reader_of : Store → Reader
reader_of s = record { cache = s.cache; tick = s.tick }

-- Requests one after another: batches, lookups by id and traversals, each on the tables that the
-- batches before it left. The measurements and the clocks may differ from one to the next.
pub data Served : Store → Store → Type 0 where
  start : (s : Store) → Served s s
  batch :
      (s t : Store) (env : Env) (ms : List Mutation)
      → Served s t
      → Served s (apply_batch env ms t).1
  lookup :
      (s t : Store) (view : View) (id : String)
      → view.db ≡ t.db
      → Served s t
      → Served s (after t (load_entity view id (reader_of t)).1)
  traversal :
      (s t : Store) (view : View) (id : String) (max_depth : ℤ) (dir : Direction)
      → view.db ≡ t.db
      → Served s t
      → Served s (after t (neighborhood view id max_depth dir (reader_of t)).1)

IsCurrent-at : (d d' : Db) (c : GraphCache) → d ≡ d' → IsCurrent d c → IsCurrent d' c
IsCurrent-at d d' c same = subst (λ x. IsCurrent x c) same

Served-IsCurrent : (s t : Store) → Served s t → IsCurrent s.db s.cache → IsCurrent t.db t.cache
Served-IsCurrent _ _ (start s) h = h
Served-IsCurrent _ _ (batch s t env ms run) h =
    apply_batch-IsCurrent env ms t (Served-IsCurrent s t run h)
Served-IsCurrent _ _ (lookup s t view id same run) h =
    let before = IsCurrent-at t.db view.db t.cache (sym same) (Served-IsCurrent s t run h) in
    IsCurrent-at view.db t.db (load_entity view id (reader_of t)).1.cache same
      (load_entity-IsAnswer view id (reader_of t) before).current
Served-IsCurrent _ _ (traversal s t view id max_depth dir same run) h =
    let before = IsCurrent-at t.db view.db t.cache (sym same) (Served-IsCurrent s t run h) in
    IsCurrent-at view.db t.db (neighborhood view id max_depth dir (reader_of t)).1.cache same
      (neighborhood-IsCurrent view id max_depth dir (reader_of t) before)

-- After any sequence of batches, lookups and traversals, one after another, from a store whose
-- cache serves only what its rows say, GetEntity of a non-empty id that answers with an entity
-- answers with the row of that id, up to a summary of measurements among the properties, and where
-- it finds nothing there is no row.
pub load_entity-IsRowOf :
    (s t : Store) (view : View) (id : String)
    → IsCurrent s.db s.cache
    → Served s t
    → view.db ≡ t.db
    → (id == "") ≡ false
    → ((e : Entity) → (load_entity view id (reader_of t)).0 ≡ some e → IsRowOf view.db id e)
      × ((load_entity view id (reader_of t)).0 ≡ none → find_entity id view.db ≡ none)
load_entity-IsRowOf s t view id current run same named =
    let answer =
      load_entity-IsAnswer view id (reader_of t)
        (subst (λ d. IsCurrent d t.cache) (sym same) (Served-IsCurrent s t run current)) in
    ((λ e h. answer.right e named h), answer.missing)
