-- ===== src/Storage/Mutation/Upsert/Idempotent.antt =====
-- A repeated upsert changes nothing.
use fun_project.Common.{
  arith, ℕ, Option, none, some, true, false, nat_eq, ◌||◌, ◌==◌, ◌≡◌, refl, Bool-cases, inl, inr,
}
use text.Mathlib.TextPositions.{eq_refl}
use fun_project.Common.Exec.{Result, ok}
use fun_project.Storage.Schema.Types.{Entity}
use fun_project.Storage.Schema.Validate.{Error, validate_entity}
use fun_project.Storage.Session.{Env, Db, Session, no_change}
use fun_project.Storage.Graph.{
  find_entity, with_defaults, next_version, insert_entity, update_entity,
}
use fun_project.Storage.Mutation.Conflict.{entity_equal_for_update}
use fun_project.Storage.Mutation.Handlers.{
  store_entity, upsert_entity, normalize_entity, clashes, append_entity_log,
}
use fun_project.Storage.DeltaLog
use fun_project.Storage.Mutation.Upsert.{
  promised, Meets, IsWritable, IsComparable, equal_self, same_flag_refl, upsert_entity-Meets,
}

-- A row that an upsert of `y` would leave alone.
abbrev IsSettled : Entity → Option Entity → Type 0
IsSettled y o =
    (x : Entity) × (o ≡ some x)
    × (entity_equal_for_update x (record y { version = next_version x.version }) ≡ true)

module _ (env : Env) (e : Entity) (c : IsComparable e) (unversioned : e.version ≡ 0) where
  abbrev y : Entity
  y = normalize_entity env e

  defaults_equal :
      entity_equal_for_update
        (with_defaults y)
        (record y { version = next_version (with_defaults y).version })
      ≡ true
  unfolding entity_equal_for_update with_defaults normalize_entity
  defaults_equal = elim (Bool-cases (e.lifecycle_stage == "")) [
    | inl blank ↦ simp (blank, eq_refl, c.0, c.1, same_flag_refl)
    | inr given ↦ simp (given, eq_refl, c.0, c.1, same_flag_refl)
  ]

  never_clashes : (v : ℕ) → clashes y.version v ≡ false
  unfolding clashes normalize_entity
  never_clashes v = rw unversioned

  accepted : (v : ℕ) → (nat_eq y.version 0 || nat_eq y.version v) ≡ true
  unfolding normalize_entity
  accepted v = rw unversioned refl

  -- An upsert that succeeds could write what it had to.
  store_entity-IsWritable :
      (o : Option Entity) (t : Session) → (store_entity env y o t).0 ≡ ok tt → IsWritable env y o
  unfolding store_entity insert_entity update_entity append_entity_log DeltaLog.append
  store_entity-IsWritable none t q = (ground (arith, q), ground (arith, q), ground (arith, q))
  store_entity-IsWritable (some x) t q =
      let y' = record y { version = next_version x.version } in
      elim (Bool-cases (entity_equal_for_update x y')) [
        | inl same ↦ inl same
        | inr differs ↦
            let q' = simp (never_clashes, differs) at q in
            inr ((ground (arith, q'), ground (arith, q'), ground (arith, q')), ground (arith, q'))
      ]

  upsert_entity-IsWritable :
      (t : Session)
      → validate_entity e ≡ ok tt
      → (upsert_entity env (some e) t).0 ≡ ok tt
      → IsWritable env y (find_entity y.id t.db)
  unfolding upsert_entity
  upsert_entity-IsWritable t valid q =
      store_entity-IsWritable (find_entity y.id t.db) _ (simp valid at q)

  IsSettled-after :
      (o : Option Entity) (out : Result Error Unit × Session) (d : Db)
      → Meets y.id d (promised y o) out
      → find_entity y.id d ≡ o
      → out.0 ≡ ok tt
      → IsSettled y (find_entity y.id out.1.db)
  unfolding promised normalize_entity
  IsSettled-after none out d m h q = (with_defaults y, simp eq_refl at (m.2 y.id), defaults_equal)
  IsSettled-after (some x) out d m h q =
      let y' = record y { version = next_version x.version } in
      elim (Bool-cases (entity_equal_for_update x y')) [
        | inl same ↦
            let m' = simp (accepted x.version, same) at m in (x, simp eq_refl at (m'.2 y.id), same)
        | inr differs ↦
            let m' = simp (accepted x.version, differs) at m in
            (
              y',
              simp eq_refl at (m'.2 y.id),
              unfold entity_equal_for_update in equal_self y' (next_version y'.version) c,
            )
      ]

  left_alone :
      (t : Session)
      → IsSettled y (find_entity y.id t.db)
      → validate_entity e ≡ ok tt
      → ((upsert_entity env (some e) t).0 ≡ ok tt)
        × ((upsert_entity env (some e) t).1.db ≡ t.db)
        × ((upsert_entity env (some e) t).1.result.operation ≡ no_change)
  unfolding upsert_entity store_entity
  left_alone t (x, found, same) valid = simp (valid, found, never_clashes, same) (refl, refl, refl)

-- An upsert that succeeds and gives no version, of an entity whose confidence and properties equal
-- themselves, when it is repeated on the tables that it left, succeeds with NO_CHANGE and changes
-- neither the tables nor the log.
pub upsert_entity_again :
    (env : Env) (e : Entity) (s t : Session)
    → validate_entity e ≡ ok tt
    → IsComparable e
    → e.version ≡ 0
    → (upsert_entity env (some e) s).0 ≡ ok tt
    → t.db ≡ (upsert_entity env (some e) s).1.db
    → ((upsert_entity env (some e) t).0 ≡ ok tt)
      × ((upsert_entity env (some e) t).1.db ≡ t.db)
      × ((upsert_entity env (some e) t).1.result.operation ≡ no_change)
upsert_entity_again env e s t valid c unversioned done at =
    left_alone env e c unversioned t
      (rw at (
        IsSettled-after env e c unversioned _ (upsert_entity env (some e) s) s.db
          (upsert_entity-Meets env e s valid
            (upsert_entity-IsWritable env e c unversioned s valid done))
          refl done))
      valid
