-- ===== src/Pipeline/Merge.antt =====
-- deduplicateEntities of pipeline/internal/pipeline/pipeline.go: one record for each id. The map of
-- seen records and the list share their records, so a merge is a change in the list, at the id.
use fun_project.Common.{
  String, ◌&&◌, ◌||◌, not, List, [], ◌∷◌, ◌++◌, map, ◌≡◌, refl, sym, subst, arith, eq_iff,
  Bool-cases, inl, inr, mem_text, mem_text-append, ◌==◌, if◌then◌else◌,
}
use fun_project.Storage.Schema.Float.{float_lt}
use fun_project.Storage.Schema.Json.{Fields, end, field}
use fun_project.Storage.Query.{set_field}
use fun_project.Nif.{Entity}
use fun_project.Ingestion.Plan.Order.{IsDistinct, IsDistinct-append}

-- The loop over the properties
unfoldable pub put_all : Fields → Fields → Fields
unfolding set_field
put_all end to = to
put_all (field k v from) to = put_all from (set_field k v to)

-- What the surer of two records is taken at its word for
abbrev pub take_over : Entity → Entity → Entity
take_over e existing = record existing {
  confidence = e.confidence;
  source = e.source;
  sub_type = e.sub_type;
  name = e.name;
  raw_name = e.raw_name;
}

unfoldable pub merge : Entity → Entity → Entity
unfolding put_all
merge e existing =
    let surer =
      if float_lt existing.confidence e.confidence then take_over e existing else existing in
    record surer { properties = put_all e.properties existing.properties }

unfoldable pub merge_at : Entity → List Entity → List Entity
unfolding merge
merge_at e [] = []
merge_at e (x ∷ xs) =
    let rest = merge_at e xs in if x.id == e.id then merge e x ∷ rest else x ∷ rest

abbrev pub record_ids : List Entity → List String
record_ids es = map (λ e. e.id) es

unfoldable pub cloned : Entity → Entity
unfolding put_all
cloned e = record e { properties = put_all e.properties end }

unfoldable pub add_entity : Entity → List Entity → List Entity
unfolding merge_at cloned mem_text
add_entity e ordered =
    if e.id == ""
    then ordered
    else (if mem_text e.id (record_ids ordered)
        then merge_at e ordered
        else ordered ++ cloned e ∷ [])

unfoldable pub merge_all : List Entity → List Entity → List Entity
unfolding add_entity
merge_all [] ordered = ordered
merge_all (e ∷ es) ordered = merge_all es (add_entity e ordered)

-- deduplicateEntities
unfoldable pub deduplicate_entities : List Entity → List Entity
unfolding merge_all
deduplicate_entities es = merge_all es []

merge-id : (e x : Entity) → (merge e x).id ≡ x.id
unfolding merge
merge-id e x = ground arith

merge_at-ids : (e : Entity) (xs : List Entity) → record_ids (merge_at e xs) ≡ record_ids xs
unfolding merge_at
merge_at-ids e [] = refl
merge_at-ids e (x ∷ xs) = elim (Bool-cases (x.id == e.id)) [
  | inl here ↦ let rest = merge_at-ids e xs in let own = merge-id e x in simp here (cc (rest, own))
  | inr other ↦ let rest = merge_at-ids e xs in simp other (cc (rest))
]

record_ids-append : (xs ys : List Entity) → record_ids (xs ++ ys) ≡ record_ids xs ++ record_ids ys
record_ids-append [] ys = refl
record_ids-append (x ∷ xs) ys = cc (record_ids-append xs ys)

IsDistinct-add_entity :
    (e : Entity) (xs : List Entity)
    → IsDistinct (record_ids xs)
    → IsDistinct (record_ids (add_entity e xs))
unfolding add_entity cloned
IsDistinct-add_entity e xs h = elim (Bool-cases (e.id == "")) [
  | inl empty ↦ simp empty h
  | inr named ↦ elim (Bool-cases (mem_text e.id (record_ids xs))) [
    | inl old ↦
        simp (named, old) (subst (λ (l : List String). IsDistinct l) (sym (merge_at-ids e xs)) h)
    | inr new ↦
        simp (named, new)
          (subst (λ (l : List String). IsDistinct l) (sym (record_ids-append xs (cloned e ∷ [])))
            (IsDistinct-append (record_ids xs) e.id new h))
  ]
]

mem_text-add_entity :
    (k : String) (e : Entity) (xs : List Entity)
    → mem_text k (record_ids (add_entity e xs))
      ≡ (mem_text k (record_ids xs) || not (k == "") && e.id == k)
unfolding add_entity cloned mem_text
mem_text-add_entity k e xs = elim (Bool-cases (e.id == "")) [
  | inl empty ↦ simp empty (ground (arith, empty, eq_iff e.id "", eq_iff k "", eq_iff e.id k))
  | inr named ↦ elim (Bool-cases (mem_text e.id (record_ids xs))) [
    | inl old ↦
        simp (named, old)
          (subst
            (λ (l : List String).
              mem_text k l ≡ (mem_text k (record_ids xs) || not (k == "") && e.id == k))
            (sym (merge_at-ids e xs))
            (ground (arith, named, old, eq_iff e.id "", eq_iff k "", eq_iff e.id k)))
    | inr new ↦
        simp (named, new)
          (subst
            (λ (l : List String).
              mem_text k l ≡ (mem_text k (record_ids xs) || not (k == "") && e.id == k))
            (sym (record_ids-append xs (cloned e ∷ [])))
            (ground (
              arith,
              named,
              mem_text-append k (record_ids xs) (e.id ∷ []),
              eq_iff e.id "",
              eq_iff k "",
              eq_iff e.id k,
            )))
  ]
]

merge_all-ids :
    (es xs : List Entity)
    → IsDistinct (record_ids xs)
    → IsDistinct (record_ids (merge_all es xs))
      × ((k : String)
          → mem_text k (record_ids (merge_all es xs))
            ≡ (mem_text k (record_ids xs) || not (k == "") && mem_text k (record_ids es)))
unfolding merge_all mem_text
merge_all-ids [] xs h = (h, (λ k. ground arith))
merge_all-ids (e ∷ es) xs h =
    let (d, m) = merge_all-ids es (add_entity e xs) (IsDistinct-add_entity e xs h) in
    (d, (λ k. ground (arith, m k, mem_text-add_entity k e xs)))

-- The list that deduplicateEntities returns has no id twice, and its ids are exactly the ids of the
-- batch that are not empty.
pub deduplicate_entities-IsDistinct :
    (es : List Entity)
    → IsDistinct (record_ids (deduplicate_entities es))
      × ((k : String)
          → mem_text k (record_ids (deduplicate_entities es))
            ≡ (not (k == "") && mem_text k (record_ids es)))
unfolding deduplicate_entities mem_text
deduplicate_entities-IsDistinct es =
    let (d, m) = merge_all-ids es [] tt in (d, (λ k. ground (arith, m k)))
