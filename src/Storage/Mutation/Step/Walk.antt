-- ===== src/Storage/Mutation/Step/Walk.antt =====
-- Every mutation that succeeds takes a step, so what the steps keep, every batch keeps.
use fun_project.Common.{
  String, Option, none, some, List, ◌≡◌, refl, Bool-cases, inl, inr, not, ◌==◌, false, arith,
}
use fun_project.Common.Exec.{ok, Result-cases}
use fun_project.Storage.Schema.Types.{Entity, Relationship}
use fun_project.Storage.Schema.Validate.{validate_entity, validate_relationship}
use fun_project.Storage.Session.{Env, Db, MutationKind, Session, Tx}
use fun_project.Storage.Graph.{entity_exists}
use fun_project.Storage.Mutation.Handlers.{
  Mutation, upsert_entity, upsert_relationship, soft_delete_entity, delete_relationship, connect,
  dispatch, apply_one, normalize_entity, normalize_relationship,
}
use fun_project.Storage.Mutation.Batch.{Store, apply_batch}
use fun_project.Storage.Mutation.Batch.Rule.{apply_batch-Keeps}
use fun_project.Storage.Mutation.Step.{Step}
use fun_project.Storage.Mutation.Step.Nodes
use fun_project.Storage.Mutation.Step.Edges

-- Validation refuses an edge from a node to itself.
apart_of_valid :
    (r : Relationship) → validate_relationship r ≡ ok tt → (r.from_id == r.to_id) ≡ false
unfolding validate_relationship
apart_of_valid r h = ground arith

-- A handler that succeeds takes a step.
abbrev Steps : Env → Tx Unit → Type 0
Steps env m = (s : Session) → (m s).0 ≡ ok tt → Step env.txn_id s.db (m s).1.db

module _ (env : Env) where
  upsert_node : (o : Option Entity) → Steps env (upsert_entity env o)
  unfolding upsert_entity
  upsert_node none s q = absurd (cc)
  upsert_node (some e) s q = elim (Result-cases (validate_entity e)) [
    | inl valid ↦ simp valid (Nodes.store env (normalize_entity env e) _ _ refl (simp valid at q))
    | inr (x, bad) ↦ let q' = simp bad at q in absurd (cc)
  ]

  connect_edge : (r : Relationship) → (r.from_id == r.to_id) ≡ false → Steps env (connect env r)
  unfolding connect
  connect_edge r apart s q = elim (Bool-cases (not (entity_exists r.from_id s.db))) [
    | inl loose ↦ let q' = simp loose at q in absurd (cc)
    | inr from ↦ elim (Bool-cases (not (entity_exists r.to_id s.db))) [
      | inl loose ↦ let q' = simp (from, loose) at q in absurd (cc)
      | inr to ↦ simp (from, to) (Edges.store env r _ s apart refl (simp (from, to) at q))
    ]
  ]

  upsert_edge : (o : Option Relationship) → Steps env (upsert_relationship env o)
  unfolding upsert_relationship normalize_relationship
  upsert_edge none s q = absurd (cc)
  upsert_edge (some r) s q = elim (Result-cases (validate_relationship r)) [
    | inl valid ↦
        simp valid
          (connect_edge (normalize_relationship env r) (apart_of_valid r valid) _ (simp valid at q))
    | inr (x, bad) ↦ let q' = simp bad at q in absurd (cc)
  ]

  delete_node : (id : String) → Steps env (soft_delete_entity env id)
  unfolding soft_delete_entity
  delete_node id s q = elim (Bool-cases (id == "")) [
    | inl empty ↦ let q' = simp empty at q in absurd (cc)
    | inr named ↦ simp named (Nodes.remove env id _ _ refl (simp named at q))
  ]

  delete_edge : (id : String) → Steps env (delete_relationship env id)
  unfolding delete_relationship
  delete_edge id s q = elim (Bool-cases (id == "")) [
    | inl empty ↦ let q' = simp empty at q in absurd (cc)
    | inr named ↦ simp named (Edges.remove env id _ _ refl (simp named at q))
  ]

  dispatch-Step : (k : MutationKind) (m : Mutation) → Steps env (dispatch env k m)
  unfolding dispatch
  dispatch-Step MutationKind.upsert_entity m = upsert_node m.entity
  dispatch-Step MutationKind.upsert_relationship m = upsert_edge m.relationship
  dispatch-Step MutationKind.soft_delete_entity m = delete_node m.target_id
  dispatch-Step MutationKind.delete_relationship m = delete_edge m.target_id
  dispatch-Step (MutationKind.other name) m = λ s q. absurd (cc)

  -- A mutation that succeeds changes the tables and the log by one step of the abstract machine:
  -- nothing, or a node or an edge inserted, overwritten or marked deleted under the conditions of
  -- the step, with exactly one log entry.
  pub apply_one-Step :
      (m : Mutation) (s : Session)
      → (apply_one env m s).0 ≡ ok tt
      → Step env.txn_id s.db (apply_one env m s).1.db
  unfolding apply_one
  apply_one-Step m = dispatch-Step m.kind m

  pub batch-Keeps :
      (P : Db → Type 0)
      → ((d d' : Db) → Step env.txn_id d d' → P d → P d')
      → (ms : List Mutation) (s : Store) → P s.db
      → P (apply_batch env ms s).1.db
  batch-Keeps P keep = apply_batch-Keeps env P (λ m s p q. keep _ _ (apply_one-Step m s q) p)
