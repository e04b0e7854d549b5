-- ===== src/Pipeline/Gate.antt =====
-- pipeline/internal/pipeline/stage5_validate.go: which records of the batch go on.
use fun_project.Common.{
  ap, ◌∙◌, String, Bool, true, false, ◌&&◌, ◌||◌, not, Option, none, some, List, [], ◌∷◌, ◌≡◌, ◌≢◌,
  ◌⊎◌, ◌↔◌, inl, inr, arith, eq_iff, is_none, refl, Bool-cases, ◌==◌, if◌then◌else◌,
}
use fun_project.Common.Exec.{Result, ok, err}
use fun_project.Common.Sort.{Listed}
use fun_project.Nif.{Entity, Relationship}

pub data GateError : Type 0 where
  invalid_entity : String → GateError
  self_referential missing_endpoints invalid_ownership : GateError

-- stage5ValidateEntity
unfoldable pub stage5_validate_entity : Entity → Result GateError Unit
stage5_validate_entity e =
    if e.name == ""
    then err (invalid_entity "name")
    else (if e.namespace == ""
        then err (invalid_entity "namespace")
        else (if e.type == "" then err (invalid_entity "type") else ok tt))

-- The loops over the valid entities
unfoldable pub in_batch : String → List Entity → Bool
in_batch id [] = false
in_batch id (e ∷ es) = e.id == id || in_batch id es

unfoldable pub batch_type : String → List Entity → Option String
batch_type id [] = none
batch_type id (e ∷ es) = if e.id == id then some e.type else batch_type id es

in_batch_iff :
    (id : String) (es : List Entity)
    → (in_batch id es ≡ true) ↔ ((e : Entity) × Listed e es × (e.id ≡ id))
unfolding in_batch
in_batch_iff id [] = ((λ h. absurd (cc)), (λ (e, l, s). absurd l))
in_batch_iff id (x ∷ es) =
    let rest = in_batch_iff id es in
    (
      (λ h. elim (Bool-cases (x.id == id)) [
        | inl here ↦ (x, inl refl, (eq_iff x.id id).0 here)
        | inr other ↦ let (e, l, s) = rest.0 (simp other at h) in (e, inr l, s)
      ]),
      (λ (e, l, s). elim l [
        | inl here ↦
            let own = ap (λ (z : Entity). z.id) here ∙ s in ground (arith, own, eq_iff x.id id)
        | inr later ↦ let b = rest.1 (e, later, s) in ground (arith, b)
      ]),
    )

known : (o : Option String) → not (is_none o) ≡ true → o ≢ none
known none h = absurd (cc)
known (some t) h = λ e. absurd (cc)

unknown : (o : Option String) → o ≢ none → not (is_none o) ≡ true
unknown none h = absurd (h refl)
unknown (some t) h = refl

-- `registry` is GetByID of the registry, with the entity's type; `none` is any error.
module _ (registry : String → Option String) where
  unfoldable pub type_or_registry : String → Option String → String
  type_or_registry id (some type) = type
  type_or_registry id none = elim (registry id) [ some type ↦ type | none ↦ "" ]

  -- getEntityTypeByID
  unfoldable pub entity_type_by_id : String → List Entity → String
  unfolding batch_type type_or_registry
  entity_type_by_id id es = type_or_registry id (batch_type id es)

  unfoldable pub endpoint_exists : String → List Entity → Bool
  unfolding in_batch
  endpoint_exists id es = in_batch id es || not (is_none (registry id))

  -- Neither unknown nor the type that is asked for
  unfoldable pub other_type : String → String → Bool
  other_type type wanted = not (type == "") && not (type == wanted)

  -- stage5ValidateRelationship
  unfoldable pub stage5_validate_relationship : Relationship → List Entity → Result GateError Unit
  unfolding endpoint_exists entity_type_by_id other_type
  stage5_validate_relationship r es =
      if r.from_entity_id == r.to_entity_id
      then err self_referential
      else (if not (endpoint_exists r.from_entity_id es) || not (endpoint_exists r.to_entity_id es)
          then err missing_endpoints
          else (if r.type == "OWNS"
              then (if other_type (entity_type_by_id r.from_entity_id es) "TEAM"
                  then err invalid_ownership
                  else (if other_type (entity_type_by_id r.to_entity_id es) "SERVICE"
                      then err invalid_ownership
                      else ok tt))
              else ok tt))

  -- An id of the batch, or one that the registry knows
  abbrev pub IsKnown : String → List Entity → Type 0
  IsKnown id es = ((e : Entity) × Listed e es × (e.id ≡ id)) ⊎ (registry id ≢ none)

  -- A relationship that may go on
  pub record IsFit (r : Relationship) (es : List Entity) : Type 0 where
    pub apart : r.from_entity_id ≢ r.to_entity_id
    pub from_known : IsKnown r.from_entity_id es
    pub to_known : IsKnown r.to_entity_id es
    pub owner :
        r.type ≡ "OWNS"
        → (entity_type_by_id r.from_entity_id es ≡ "")
          ⊎ (entity_type_by_id r.from_entity_id es ≡ "TEAM")
    pub owned :
        r.type ≡ "OWNS"
        → (entity_type_by_id r.to_entity_id es ≡ "")
          ⊎ (entity_type_by_id r.to_entity_id es ≡ "SERVICE")

  endpoint_exists_iff :
      (id : String) (es : List Entity) → (endpoint_exists id es ≡ true) ↔ IsKnown id es
  unfolding endpoint_exists
  endpoint_exists_iff id es =
      let batch = in_batch_iff id es in
      (
        (λ h. elim (Bool-cases (in_batch id es)) [
          | inl here ↦ inl (batch.0 here)
          | inr gone ↦ inr (known (registry id) (simp gone at h))
        ]),
        (λ h. elim h [
          | inl here ↦ let b = batch.1 here in ground (arith, b)
          | inr there ↦ let k = unknown (registry id) there in ground (arith, k)
        ]),
      )

  -- Stage 5 lets a relationship go on exactly when its ends differ, each end is in the batch or in the
  -- registry, and, if it is an OWNS, its owner is a team and what is owned a service, as far as their
  -- types are known.
  pub stage5_validate_relationship_iff :
      (r : Relationship) (es : List Entity)
      → (stage5_validate_relationship r es ≡ ok tt) ↔ IsFit r es
  unfolding stage5_validate_relationship other_type
  stage5_validate_relationship_iff r es = ground (
    arith,
    endpoint_exists_iff r.from_entity_id es,
    endpoint_exists_iff r.to_entity_id es,
    eq_iff r.from_entity_id r.to_entity_id,
    eq_iff r.type "OWNS",
    eq_iff (entity_type_by_id r.from_entity_id es) "",
    eq_iff (entity_type_by_id r.from_entity_id es) "TEAM",
    eq_iff (entity_type_by_id r.to_entity_id es) "",
    eq_iff (entity_type_by_id r.to_entity_id es) "SERVICE",
  )
