-- ===== src/Storage/Mutation/Step/Edges.antt =====
-- The handlers of relationships take a step of the abstract machine.
use fun_project.Common.{
  suc, arith, not, String, Bool, ◌&&◌, ◌||◌, Option, none, some, ◌≡◌, refl, Bool-cases, inl, inr,
  is_none, none_of, false, ◌==◌,
}
use fun_project.Common.Exec.{ok}
use fun_project.Storage.Schema.Types.{Relationship, is_zero}
use fun_project.Storage.Table.Laws.{affected_of_find}
use fun_project.Storage.Session.{Env, Payload, Session}
use fun_project.Storage.Session
use fun_project.Storage.Graph.{
  rel_key, rel_version, insert_relationship, update_relationship, soft_delete_rel,
  find_relationship, rel_with_defaults, next_version, dangling, is_number,
  mark_relationship_deleted,
}
use fun_project.Storage.DeltaLog
use fun_project.Storage.Mutation.Conflict.{rel_equal_for_update}
use fun_project.Storage.Mutation.Handlers.{
  store_relationship, remove_relationship, append_rel_log, clashes,
}
use fun_project.Storage.Mutation.Step.{Step}

module _ (env : Env) where
  abbrev both_logged : Payload → Payload → Bool
  both_logged p q = env.marshals p && env.marshals q

  create :
      (r : Relationship) (s : Session)
      → (r.from_id == r.to_id) ≡ false
      → (store_relationship env r none s).0 ≡ ok tt
      → Step env.txn_id s.db (store_relationship env r none s).1.db
  unfolding store_relationship insert_relationship append_rel_log DeltaLog.append is_zero
      rel_with_defaults
  create r s apart q =
      let r' = rel_with_defaults r in
      elim (Bool-cases (env.marshals_properties r.properties)) [
        | inr refused ↦ let q' = simp refused at q in absurd (cc)
        | inl written ↦ elim (Bool-cases (is_none (find_relationship r'.id s.db))) [
          | inr taken ↦ let q' = simp (written, taken) at q in absurd (cc)
          | inl free ↦ elim (Bool-cases (dangling r' s.db || not (is_number r.confidence))) [
            | inl loose ↦ let q' = simp (written, free, loose) at q in absurd (cc)
            | inr tied ↦ elim (Bool-cases (env.marshals (Session.relationship r'))) [
              | inr refused ↦ let q' = simp (written, free, tied, refused) at q in absurd (cc)
              | inl logged ↦
                  simp (written, free, tied, logged)
                    (Step.insert_edge s.db r' _ _ (none_of _ free) (ground (arith, tied)) apart)
            ]
          ]
        ]
      ]

  change :
      (r x : Relationship) (s : Session)
      → (r.from_id == r.to_id) ≡ false
      → find_relationship r.id s.db ≡ some x
      → (store_relationship env r (some x) s).0 ≡ ok tt
      → Step env.txn_id s.db (store_relationship env r (some x) s).1.db
  unfolding store_relationship update_relationship append_rel_log DeltaLog.append find_relationship
      is_zero
  change r x s apart found q =
      let y = record r { version = next_version x.version } in
      let there = affected_of_find rel_key rel_version r.id s.db.relationships x found in
      elim (Bool-cases (clashes r.version x.version)) [
        | inl bad ↦ let q' = simp bad at q in absurd (cc)
        | inr good ↦ elim (Bool-cases (rel_equal_for_update x y)) [
          | inl same ↦ simp (good, same) (Step.stay s.db)
          | inr differs ↦ elim (Bool-cases (env.marshals_properties r.properties)) [
            | inr refused ↦ let q' = simp (good, differs, refused) at q in absurd (cc)
            | inl written ↦ elim (Bool-cases (dangling y s.db || not (is_number r.confidence))) [
              | inl loose ↦ let q' = simp (good, differs, written, there, loose) at q in absurd (cc)
              | inr tied ↦
                  elim (Bool-cases
                    (both_logged (Session.relationship x) (Session.relationship y))) [
                      | inr refused ↦
                          let q' = simp (good, differs, written, there, tied, refused) at q in
                          absurd (cc)
                      | inl logged ↦
                          simp (good, differs, written, there, tied, logged)
                            (Step.update_edge s.db x y _ _ found (ground (arith, tied)) apart refl)
                    ]
            ]
          ]
        ]
      ]

  -- upsertRelationship after the look-up
  pub store :
      (r : Relationship) (o : Option Relationship) (s : Session)
      → (r.from_id == r.to_id) ≡ false
      → find_relationship r.id s.db ≡ o
      → (store_relationship env r o s).0 ≡ ok tt
      → Step env.txn_id s.db (store_relationship env r o s).1.db
  store r none s apart found q = create r s apart q
  store r (some x) s apart found q = change r x s apart found q

  -- deleteRelationship after the look-up
  pub remove :
      (id : String) (o : Option Relationship) (s : Session)
      → find_relationship id s.db ≡ o
      → (remove_relationship env id o s).0 ≡ ok tt
      → Step env.txn_id s.db (remove_relationship env id o s).1.db
  unfolding remove_relationship soft_delete_rel append_rel_log DeltaLog.append find_relationship
      is_zero
  remove id none s found q = absurd (cc)
  remove id (some x) s found q =
      let there = affected_of_find rel_key rel_version id s.db.relationships x found in
      elim (Bool-cases x.is_active) [
        | inr gone ↦ simp gone (Step.stay s.db)
        | inl live ↦
            let gone = mark_relationship_deleted (env.clock (suc s.tick)) x in
            elim (Bool-cases (both_logged (Session.relationship x) (Session.relationship gone))) [
              | inr refused ↦ let q' = simp (live, there, refused) at q in absurd (cc)
              | inl logged ↦
                  simp (live, there, logged) (Step.delete_edge s.db id x _ _ _ found live)
            ]
      ]
