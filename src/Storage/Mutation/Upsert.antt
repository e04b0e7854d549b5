-- ===== src/Storage/Mutation/Upsert.antt =====
-- What an upsert of an entity promises, apart from tables, clocks and logs.
pub mod Idempotent
use fun_project.Common.{
  ℕ, String, Option, none, some, Bool, true, false, not, ◌&&◌, ◌||◌, ◌==◌, nat_eq, if◌then◌else◌,
  ◌≡◌, ◌⊎◌, refl, sym, ap, ◌∙◌, Bool-cases, Option-cases, inl, inr, arith, eq_iff, is_none,
}
use text.Mathlib.TextPositions.{eq_refl}
use fun_project.Common.Exec.{Result, ok, err}
use fun_project.Storage.Schema.Float.{float_eq}
use fun_project.Storage.Schema.Types.{Time, Entity}
use fun_project.Storage.Schema.Validate.{Error, version_conflict, validate_entity}
use fun_project.Storage.Table.{Row, find}
use fun_project.Storage.Table.Laws.{find-append, find-update, affected_of_find, key_of_find}
use fun_project.Storage.Session
use fun_project.Storage.Session.{Env, Db, Session, OperationType, created, updated, no_change}
use fun_project.Storage.Graph.{
  entity_key, entity_version, find_entity, insert_entity, update_entity, with_defaults,
  next_version, overwrite_entity, is_number,
}
use fun_project.Storage.DeltaLog
use fun_project.Storage.Mutation.Conflict.{entity_equal_for_update, maps_equal, same_flag}
use fun_project.Storage.Mutation.Handlers.{
  store_entity, upsert_entity, normalize_entity, clashes, append_entity_log,
}
use fun_project.Storage.Mutation.Step.{row_of}

-- The answer to an upsert of `y`, where nothing or `x` stands: what is done, and what stands there then. A version
-- is accepted if it is 0, for none, or the one at hand.
unfoldable pub promised : Entity → Option Entity → Result Error (OperationType × Option Entity)
promised y none = ok (created, some (with_defaults y))
promised y (some x) =
    let y' = record y { version = next_version x.version } in
    if nat_eq y.version 0 || nat_eq y.version x.version
    then (if entity_equal_for_update x y' then ok (no_change, some x) else ok (updated, some y'))
    else err (version_conflict x.version y.version)

-- An outcome from the tables `d` is what was promised: one id changes, or nothing and an error.
abbrev pub Meets :
    String
    → Db
    → Result Error (OperationType × Option Entity)
    → Result Error Unit × Session
    → Type 0
Meets id d (ok (op, row)) out =
    (out.0 ≡ ok tt)
    × (out.1.result.operation ≡ op)
    × ((k : String) → find_entity k out.1.db ≡ (if id == k then row else find_entity k d))
Meets id d (err e) out = (out.0 ≡ err e) × (out.1.db ≡ d)

overwritten :
    (e : Entity) (t : Time) (r : Row Entity)
    → (overwrite_entity e t r).value ≡ record e { id = r.value.id }
unfolding overwrite_entity
overwritten e t r = refl

module _ (env : Env) where
  -- The row of `y` can be written and its state `z` can go into the log: the confidence is a number, and
  -- json.Marshal encodes the properties and the state.
  abbrev pub IsEncoded : Entity → Entity → Type 0
  IsEncoded y z =
      (env.marshals_properties y.properties ≡ true)
      × (is_number y.confidence ≡ true)
      × (env.marshals (Session.entity z) ≡ true)

  -- What an upsert of `y` would write can be written.
  abbrev pub IsWritable : Entity → Option Entity → Type 0
  IsWritable y none = IsEncoded y (with_defaults y)
  IsWritable y (some x) =
      (entity_equal_for_update x (record y { version = next_version x.version }) ≡ true)
      ⊎ IsEncoded y (record y { version = next_version x.version })
        × (env.marshals (Session.entity x) ≡ true)

  store_created :
      (y : Entity) (s : Session)
      → find_entity y.id s.db ≡ none
      → IsEncoded y (with_defaults y)
      → Meets y.id s.db (ok (created, some (with_defaults y))) (store_entity env y none s)
  unfolding store_entity insert_entity append_entity_log DeltaLog.append find_entity with_defaults
  store_created y s free (written, number, logged) =
      let unused : (is_none (find_entity y.id s.db) && is_number y.confidence) ≡ true =
        ground (arith, free, number) in
      simp (written, unused, logged)
        (
          refl,
          refl,
          λ k. ground (
            arith,
            find-append entity_key k s.db.entities (row_of (with_defaults y) (env.clock s.tick)),
            eq_iff y.id k,
          ),
        )

  store_updated :
      (y x : Entity) (s : Session)
      → find_entity y.id s.db ≡ some x
      → clashes y.version x.version ≡ false
      → entity_equal_for_update x (record y { version = next_version x.version }) ≡ false
      → IsEncoded y (record y { version = next_version x.version })
      → env.marshals (Session.entity x) ≡ true
      → Meets y.id s.db
          (ok (updated, some (record y { version = next_version x.version })))
          (store_entity env y (some x) s)
  unfolding store_entity update_entity append_entity_log DeltaLog.append find_entity
  store_updated y x s found good differs (written, number, logged) logs =
      let there = affected_of_find entity_key entity_version y.id s.db.entities x found in
      let y' = record y { version = next_version x.version } in
      simp (good, differs, there, written, number, logs, logged)
        (
          refl,
          refl,
          λ k. ground (
            arith,
            find-update entity_key entity_version k y.id x.version
                (overwrite_entity y' (env.clock s.tick)) (λ z. record y' { id = z.id })
                (overwritten y' (env.clock s.tick)) (λ z. refl) s.db.entities,
            key_of_find entity_key y.id s.db.entities x,
            eq_iff y.id k,
          ),
        )

  store_kept :
      (y x : Entity) (s : Session)
      → find_entity y.id s.db ≡ some x
      → IsWritable y (some x)
      → Meets y.id s.db (promised y (some x)) (store_entity env y (some x) s)
  unfolding promised
  store_kept y x s found writable =
      elim (Bool-cases (nat_eq y.version 0 || nat_eq y.version x.version)) [
        | inr bad ↦
            let clash : clashes y.version x.version ≡ true =
              unfold clashes in ground (arith, bad) in
            simp bad (unfold store_entity in simp clash (refl, refl))
        | inl good ↦
            let y' = record y { version = next_version x.version } in
            let agree : clashes y.version x.version ≡ false =
              unfold clashes in ground (arith, good) in
            elim (Bool-cases (entity_equal_for_update x y')) [
              | inl same ↦
                  simp (good, same)
                    (unfold store_entity in
                      simp (agree, same) (refl, refl, λ k. ground (arith, eq_iff y.id k)))
              | inr differs ↦ elim writable [
                | inl same ↦ absurd (ground (arith, same, differs))
                | inr (encoded, logs) ↦
                    simp (good, differs) (store_updated y x s found agree differs encoded logs)
              ]
            ]
      ]

  store_entity-Meets :
      (y : Entity) (o : Option Entity) (s : Session)
      → find_entity y.id s.db ≡ o
      → IsWritable y o
      → Meets y.id s.db (promised y o) (store_entity env y o s)
  unfolding promised
  store_entity-Meets y none s free writable = store_created y s free writable
  store_entity-Meets y (some x) s found writable = store_kept y x s found writable

  pub upsert_entity-Meets :
      (e : Entity) (s : Session)
      → validate_entity e ≡ ok tt
      → IsWritable (normalize_entity env e) (find_entity (normalize_entity env e).id s.db)
      → Meets
          (normalize_entity env e).id
          s.db
          (promised (normalize_entity env e) (find_entity (normalize_entity env e).id s.db))
          (upsert_entity env (some e) s)
  upsert_entity-Meets e s valid writable =
      let y = normalize_entity env e in
      unfold upsert_entity in
      simp valid (store_entity-Meets y (find_entity y.id s.db) _ refl writable)

-- The comparison that decides whether an upsert changes anything holds of an entity and itself.
abbrev pub IsComparable : Entity → Type 0
IsComparable e =
    (float_eq e.confidence e.confidence ≡ true) × (maps_equal e.properties e.properties ≡ true)

pub same_flag_refl : (b : Bool) → same_flag b b ≡ true
unfolding same_flag
same_flag_refl true = refl
same_flag_refl false = refl

-- It looks at neither version.
pub equal_self :
    (e : Entity) (v : ℕ)
    → IsComparable e
    → entity_equal_for_update e (record e { version = v }) ≡ true
unfolding entity_equal_for_update
equal_self e v c = simp (eq_refl, c.0, c.1, same_flag_refl)
