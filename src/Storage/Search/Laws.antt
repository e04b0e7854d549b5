-- ===== src/Storage/Search/Laws.antt =====
-- What the index says once its queue is empty, and what a search then finds.
use fun_project.Common.{
  ◌+◌, ◌≤◌, String, Bool, true, false, Option, none, some, List, [], ◌∷◌, ◌==◌, ◌≡◌, refl, sym, ap,
  ◌∙◌, subst, ◌↔◌, ◌⊎◌, inl, inr, arith, eq_iff, length, map, Bool-cases, if◌then◌else◌,
  each_branch, ◌||◌, mem_text, mem_text-append,
}
use fun_project.Common.Assoc.{at_key, at_key-delete_key, at_key-set_key}
use fun_project.Common.Sort.{Listed, Listed-sort_by, length-sort_by}
use fun_project.Storage.Schema.Json.{Json}
use fun_project.Storage.Schema.Types.{Entity}
use fun_project.Storage.Table.{Row, find}
use fun_project.Storage.Table.Laws.{key_of_find}
use fun_project.Storage.Table.Unique.{Unique}
use fun_project.Storage.Session.{Env, Db, empty_db}
use fun_project.Storage.Graph.{entity_key, find_entity}
use fun_project.Storage.Mutation.Handlers.{Mutation}
use fun_project.Storage.Mutation.Batch.{Store, apply_batch}
use fun_project.Storage.Mutation.Integrity.{
  IsConsistent, IsConsistent-empty, apply_batch-IsConsistent,
}
use fun_project.Storage.Mutation.Fresh.Queued.{apply_batch-IsQueued}
use fun_project.Storage.Query.Listing.{order_by_name}
use fun_project.Storage.Query.Listing.Laws.{Listed-where_rows, limit_to-whole}
use fun_project.Storage.Search.{
  SearchOptions, SearchRow, Index, search_row, index_found, index_entity, matches, joined_matches,
  found_by, search,
}

absurd_none : {A : Type 0} {a : A} → some a ≡ none → ⊥
absurd_none h = absurd (cc)

some_eq : {A : Type 0} {a b : A} → some a ≡ some b → a ≡ b
some_eq h = cc

find-Listed :
    {A : Type 0} (key : A → String) (a : A) (rows : List (Row A))
    → Unique key rows
    → Listed a (map (λ row. row.value) rows)
    → find key (key a) rows ≡ some a
unfolding find
find-Listed key a [] u h = absurd h
find-Listed key a (r ∷ rows) u (inl same) =
    subst (λ x. find key (key x) (r ∷ rows) ≡ some x) same
      (each_branch (λ o. o ≡ some r.value) (key r.value == key r.value) (some r.value)
        (find key (key r.value) rows) (λ h. refl)
        (λ h. absurd (ground (arith, h, eq_iff (key r.value) (key r.value)))))
find-Listed key a (r ∷ rows) u (inr later) =
    let rest = find-Listed key a rows u.1 later in
    each_branch (λ o. o ≡ some a) (key r.value == key a) (some r.value) (find key (key a) rows)
      (λ h.
        let again = ap (λ (k : String). find key k rows) ((eq_iff (key r.value) (key a)).0 h) in
        absurd (absurd_none (sym rest ∙ sym again ∙ u.0)))
      (λ h. rest)

-- The id waits in the queue; without an indexer nothing does.
abbrev pub IsWaiting : String → Option (List String) → Type 0
IsWaiting k none = ⊥
IsWaiting k (some q) = mem_text k q ≡ true

module _ (printed : Json → String) (like : String → String → Bool) where
  abbrev pub indexed : Option Entity → Option SearchRow
  indexed none = none
  indexed (some e) = some (search_row printed like e)

  at_key-index_found :
      (id : String) (o : Option Entity) (index : Index) (k : String)
      → ((e : Entity) → o ≡ some e → e.id ≡ id)
      → at_key (index_found printed like id o index) k
        ≡ (if id == k then indexed o else at_key index k)
  unfolding index_found
  at_key-index_found id none index k h = at_key-delete_key index id k
  at_key-index_found id (some e) index k h =
      at_key-set_key index e.id k (search_row printed like e)
      ∙ ap (λ (i : String). if i == k then some (search_row printed like e) else at_key index k)
          (h e refl)

  at_key-index_entity :
      (db : Db) (id : String) (index : Index) (k : String)
      → at_key (index_entity printed like db id index) k
        ≡ (if id == k then indexed (find_entity id db) else at_key index k)
  unfolding index_entity find_entity
  at_key-index_entity db id index k =
      at_key-index_found id (find entity_key id db.entities) index k
        (λ e h. key_of_find entity_key id db.entities e h)

  pub record Indexing : Type 0 where
    pub store : Store
    pub index : Index

  -- Batches and the worker, in any order; the queue has room for a result of every mutation of a batch.
  pub data Steps : Indexing → Indexing → Type 0 where
    stop : (s : Indexing) → Steps s s
    work :
        (s t : Indexing) (id : String) (q : List String)
        → s.store.queue ≡ some (id ∷ q)
        → Steps
            (record {
              store = record s.store { queue = some q };
              index = index_entity printed like s.store.db id s.index;
            })
            t
        → Steps s t
    batch :
        (s t : Indexing) (env : Env) (ms : List Mutation) (q : List String)
        → s.store.queue ≡ some q
        → length q + length ms ≤ 1000
        → Steps (record { store = (apply_batch env ms s.store).1; index = s.index }) t
        → Steps s t

  -- Where the index is not what the table says of a non-empty id, the id waits in the queue.
  abbrev pub IsCurrent : Indexing → Type 0
  IsCurrent s =
      (k : String)
      → (k == "") ≡ false
      → (at_key s.index k ≡ indexed (find_entity k s.store.db)) ⊎ IsWaiting k s.store.queue

  IsCurrent-work :
      (s : Indexing) (id : String) (q : List String)
      → s.store.queue ≡ some (id ∷ q)
      → IsCurrent s
      → IsCurrent (record {
        store = record s.store { queue = some q };
        index = index_entity printed like s.store.db id s.index;
      })
  unfolding mem_text
  IsCurrent-work s id q e h k named =
      let db = s.store.db in
      let read = at_key-index_entity db id s.index k in
      elim (Bool-cases (id == k)) [
        | inl here ↦
            let taken : (if id == k then indexed (find_entity id db) else at_key s.index k)
                ≡ indexed (find_entity id db) =
              simp here refl in
            inl (
              read ∙ taken ∙ ap (λ (i : String). indexed (find_entity i db)) ((eq_iff id k).0 here))
        | inr other ↦
            let kept : (if id == k then indexed (find_entity id db) else at_key s.index k)
                ≡ at_key s.index k =
              simp other refl in
            elim (h k named) [
              | inl agrees ↦ inl (read ∙ kept ∙ agrees)
              | inr waits ↦
                  let waiting : (id == k || mem_text k q) ≡ true = subst (IsWaiting k) e waits in
                  inr (ground (arith, waiting, other))
            ]
      ]

  IsCurrent-batch :
      (s : Indexing) (env : Env) (ms : List Mutation) (q : List String)
      → s.store.queue ≡ some q
      → length q + length ms ≤ 1000
      → IsCurrent s
      → IsCurrent (record { store = (apply_batch env ms s.store).1; index = s.index })
  IsCurrent-batch s env ms q e room h k named =
      let queued = apply_batch-IsQueued env ms s.store q e room in
      let waits_among : (mem_text k q || mem_text k queued.ids) ≡ true
          → IsWaiting k (apply_batch env ms s.store).1.queue =
        λ w. subst (IsWaiting k) (sym queued.grown) (mem_text-append k q queued.ids ∙ w) in
      elim (queued.told k named) [
        | inr given ↦ inr (waits_among (ground (arith, given)))
        | inl same ↦ elim (h k named) [
          | inl agrees ↦ inl (agrees ∙ ap (λ (o : Option Entity). indexed o) (sym same))
          | inr waits ↦
              let waiting : mem_text k q ≡ true = subst (IsWaiting k) e waits in
              inr (waits_among (ground (arith, waiting)))
        ]
      ]

  IsCurrent-Steps : (s t : Indexing) → Steps s t → IsCurrent s → IsCurrent t
  IsCurrent-Steps s t (stop _) h = h
  IsCurrent-Steps s t (work _ _ id q e steps) h =
      IsCurrent-Steps _ t steps (IsCurrent-work s id q e h)
  IsCurrent-Steps s t (batch _ _ env ms q e room steps) h =
      IsCurrent-Steps _ t steps (IsCurrent-batch s env ms q e room h)

  IsConsistent-Steps :
      (s t : Indexing) → Steps s t → IsConsistent s.store.db → IsConsistent t.store.db
  IsConsistent-Steps s t (stop _) h = h
  IsConsistent-Steps s t (work _ _ id q e steps) h = IsConsistent-Steps _ t steps h
  IsConsistent-Steps s t (batch _ _ env ms q e room steps) h =
      IsConsistent-Steps _ t steps (apply_batch-IsConsistent env ms s.store h)

  -- Empty tables, an empty index and nothing to do
  pub record IsFresh (s : Indexing) : Type 0 where
    pub tables : s.store.db ≡ empty_db
    pub rows : s.index ≡ []

  IsCurrent-fresh : (s : Indexing) → IsFresh s → IsCurrent s
  unfolding at_key find_entity find
  IsCurrent-fresh s f k named = inl (
      ap (λ (i : Index). at_key i k) f.rows
      ∙ ap (λ (d : Db). indexed (find_entity k d)) (sym f.tables))

  agrees_at :
      (s : Indexing) (k : String)
      → s.store.queue ≡ some []
      → (at_key s.index k ≡ indexed (find_entity k s.store.db)) ⊎ IsWaiting k s.store.queue
      → at_key s.index k ≡ indexed (find_entity k s.store.db)
  unfolding mem_text
  agrees_at s k empty (inl agrees) = agrees
  agrees_at s k empty (inr waits) =
      let none_waits : false ≡ true = subst (IsWaiting k) empty waits in absurd (cc)

  joined_current :
      (o : SearchOptions) (s : Indexing) (e : Entity)
      → Unique entity_key s.store.db.entities
      → at_key s.index e.id ≡ indexed (find_entity e.id s.store.db)
      → Listed e (map (λ row. row.value) s.store.db.entities)
      → joined_matches printed like o (at_key s.index e.id)
        ≡ matches printed like o (search_row printed like e)
  unfolding find_entity joined_matches
  joined_current o s e unique current listed = ap (joined_matches printed like o) (
      current
      ∙ ap (λ (o : Option Entity). indexed o)
          (find-Listed entity_key e s.store.db.entities unique listed))

  -- From empty tables and an empty index, after any sequence of batches, whatever they contain and however they
  -- end, and of steps of the worker, in any order, that does not overfill the queue and leaves it empty: a search
  -- that finds at most 200 entities finds one with a non-empty id exactly when it is in the table and its own
  -- fields, and not those of an older version, match the conditions.
  pub search_iff :
      (o : SearchOptions) (s t : Indexing) (e : Entity)
      → IsFresh s
      → Steps s t
      → t.store.queue ≡ some []
      → (e.id == "") ≡ false
      → length (found_by printed like o t.index t.store.db) ≤ 200
      → Listed e (search printed like o t.index t.store.db) ↔ (
          Listed e (map (λ row. row.value) t.store.db.entities)
          × (matches printed like o (search_row printed like e) ≡ true))
  unfolding search order_by_name found_by
  search_iff o s t e fresh steps empty named few =
      let all : List Entity = found_by printed like o t.index t.store.db in
      let current = IsCurrent-Steps s t steps (IsCurrent-fresh s fresh) in
      let start = subst IsConsistent (sym fresh.tables) IsConsistent-empty in
      let unique = (IsConsistent-Steps s t steps start).nodes in
      let whole =
        limit_to-whole 200 (order_by_name all)
          (omega (arith, few, length-sort_by (λ (x : Entity). x.canonical_name) all)) in
      let ordered = Listed-sort_by (λ (x : Entity). x.canonical_name) e all in
      let rows =
        Listed-where_rows (λ (x : Entity). joined_matches printed like o (at_key t.index x.id)) e
          t.store.db.entities in
      let agree = agrees_at t e.id empty (current e.id named) in
      rw whole (
        (λ h.
            let r = rows.0 (ordered.0 h) in
            (r.0, sym (joined_current o t e unique agree r.0) ∙ r.1)),
        (λ h. ordered.1 (rows.1 (h.0, joined_current o t e unique agree h.0 ∙ h.1))),
      )
