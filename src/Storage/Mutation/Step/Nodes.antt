-- ===== src/Storage/Mutation/Step/Nodes.antt =====
-- The handlers of entities take a step of the abstract machine.
use fun_project.Common.{
  suc, arith, String, Bool, ◌&&◌, Option, none, some, ◌≡◌, refl, Bool-cases, inl, inr, is_none,
  none_of,
}
use fun_project.Common.Exec.{ok}
use fun_project.Storage.Schema.Types.{Entity, is_zero}
use fun_project.Storage.Table.Laws.{affected_of_find}
use fun_project.Storage.Session.{Env, Payload, Session}
use fun_project.Storage.Session
use fun_project.Storage.Graph.{
  entity_key, entity_version, insert_entity, update_entity, soft_delete, find_entity, with_defaults,
  next_version, is_number, mark_entity_deleted,
}
use fun_project.Storage.DeltaLog
use fun_project.Storage.Mutation.Conflict.{entity_equal_for_update}
use fun_project.Storage.Mutation.Handlers.{store_entity, remove_entity, append_entity_log, clashes}
use fun_project.Storage.Mutation.Step.{Step}

module _ (env : Env) where
  abbrev both_logged : Payload → Payload → Bool
  both_logged p q = env.marshals p && env.marshals q

  create :
      (e : Entity) (s : Session)
      → (store_entity env e none s).0 ≡ ok tt
      → Step env.txn_id s.db (store_entity env e none s).1.db
  unfolding store_entity insert_entity append_entity_log DeltaLog.append is_zero
  create e s q =
      let e' = with_defaults e in
      elim (Bool-cases (env.marshals_properties e.properties)) [
        | inr refused ↦ let q' = simp refused at q in absurd (cc)
        | inl written ↦
            elim (Bool-cases (is_none (find_entity e'.id s.db) && is_number e.confidence)) [
              | inr taken ↦ let q' = simp (written, taken) at q in absurd (cc)
              | inl free ↦ elim (Bool-cases (env.marshals (Session.entity e'))) [
                | inr refused ↦ let q' = simp (written, free, refused) at q in absurd (cc)
                | inl logged ↦
                    simp (written, free, logged)
                      (Step.insert_node s.db e' _ _ (none_of _ (ground (arith, free))))
              ]
            ]
      ]

  change :
      (e x : Entity) (s : Session)
      → find_entity e.id s.db ≡ some x
      → (store_entity env e (some x) s).0 ≡ ok tt
      → Step env.txn_id s.db (store_entity env e (some x) s).1.db
  unfolding store_entity update_entity append_entity_log DeltaLog.append find_entity is_zero
  change e x s found q =
      let y = record e { version = next_version x.version } in
      let there = affected_of_find entity_key entity_version e.id s.db.entities x found in
      elim (Bool-cases (clashes e.version x.version)) [
        | inl bad ↦ let q' = simp bad at q in absurd (cc)
        | inr good ↦ elim (Bool-cases (entity_equal_for_update x y)) [
          | inl same ↦ simp (good, same) (Step.stay s.db)
          | inr differs ↦ elim (Bool-cases (env.marshals_properties e.properties)) [
            | inr refused ↦ let q' = simp (good, differs, refused) at q in absurd (cc)
            | inl written ↦ elim (Bool-cases (is_number e.confidence)) [
              | inr unset ↦ let q' = simp (good, differs, written, there, unset) at q in absurd (cc)
              | inl number ↦ elim (Bool-cases (both_logged (Session.entity x) (Session.entity y))) [
                | inr refused ↦
                    let q' = simp (good, differs, written, there, number, refused) at q in
                    absurd (cc)
                | inl logged ↦
                    simp (good, differs, written, there, number, logged)
                      (Step.update_node s.db x y _ _ found refl)
              ]
            ]
          ]
        ]
      ]

  -- upsertEntity after the look-up
  pub store :
      (e : Entity) (o : Option Entity) (s : Session)
      → find_entity e.id s.db ≡ o
      → (store_entity env e o s).0 ≡ ok tt
      → Step env.txn_id s.db (store_entity env e o s).1.db
  store e none s found q = create e s q
  store e (some x) s found q = change e x s found q

  -- softDeleteEntity after the look-up
  pub remove :
      (id : String) (o : Option Entity) (s : Session)
      → find_entity id s.db ≡ o
      → (remove_entity env id o s).0 ≡ ok tt
      → Step env.txn_id s.db (remove_entity env id o s).1.db
  unfolding remove_entity soft_delete append_entity_log DeltaLog.append find_entity is_zero
  remove id none s found q = absurd (cc)
  remove id (some x) s found q =
      let there = affected_of_find entity_key entity_version id s.db.entities x found in
      elim (Bool-cases x.is_active) [
        | inr gone ↦ simp gone (Step.stay s.db)
        | inl live ↦
            let gone = mark_entity_deleted (env.clock (suc s.tick)) x in
            elim (Bool-cases (both_logged (Session.entity x) (Session.entity gone))) [
              | inr refused ↦ let q' = simp (live, there, refused) at q in absurd (cc)
              | inl logged ↦
                  simp (live, there, logged) (Step.delete_node s.db id x _ _ _ found live)
            ]
      ]
