-- ===== src/Storage/Query/Listing/Laws.antt =====
-- What the listings contain.
use fun_project.Common.{
  ℕ, zero, suc, ◌≤◌, String, Bool, true, List, [], ◌∷◌, ◌≡◌, ◌↔◌, inl, inr, refl, sym, ap, ◌∙◌,
  subst, arith, eq_iff, length, map, Bool-cases, ◌==◌, ◌&&◌,
}
use fun_project.Common.Sort.{Listed, Listed-sort_by, length-sort_by}
use fun_project.Storage.Schema.Types.{Entity, Relationship}
use fun_project.Storage.Table.{Row}
use fun_project.Storage.Session.{Db}
use fun_project.Storage.Query.Listing.{
  where_rows, limit_to, listed_in, end_in, edge_in, list_entities_by_namespace,
  list_relationships_by_namespace, order_by_name,
}

module _ {A : Type 0} where
  pub Listed-where_rows :
      (p : A → Bool) (a : A) (rows : List (Row A))
      → Listed a (where_rows p rows) ↔ (Listed a (map (λ row. row.value) rows) × (p a ≡ true))
  unfolding where_rows
  Listed-where_rows p a [] = ((λ h. absurd h), (λ h. absurd h.0))
  Listed-where_rows p a (row ∷ rows) =
      let rest = Listed-where_rows p a rows in
      elim (Bool-cases (p row.value)) [
        | inl chosen ↦ simp chosen (
          (λ h. elim h [
            | inl same ↦ (inl same, subst (λ x. p x ≡ true) same chosen)
            | inr later ↦ let r = rest.0 later in (inr r.0, r.1)
          ]),
          (λ h. elim h.0 [ inl same ↦ inl same | inr later ↦ inr (rest.1 (later, h.1)) ]),
        )
        | inr passed ↦ simp passed (
          (λ h. let r = rest.0 h in (inr r.0, r.1)),
          (λ h. elim h.0 [
            | inl same ↦
                let chosen : p row.value ≡ true = subst (λ x. p x ≡ true) (sym same) h.1 in
                absurd (cc)
            | inr later ↦ rest.1 (later, h.1)
          ]),
        )
      ]

  pub limit_to-whole : (n : ℕ) (xs : List A) → length xs ≤ n → limit_to n xs ≡ xs
  unfolding limit_to
  limit_to-whole zero [] h = refl
  limit_to-whole zero (x ∷ xs) h = absurd (omega (arith, h))
  limit_to-whole (suc n) [] h = refl
  limit_to-whole (suc n) (x ∷ xs) h = ap (λ ys. x ∷ ys) (limit_to-whole n xs (omega (arith, h)))

listed_in_iff :
    (namespace : String) (e : Entity)
    → (listed_in namespace e ≡ true) ↔ ((e.namespace ≡ namespace) × (e.is_active ≡ true))
unfolding listed_in
listed_in_iff namespace e = ground (arith, eq_iff e.namespace namespace)

-- The rows of the namespace that are active, before the limit cuts them.
abbrev pub active_in : Db → String → List Entity
active_in db namespace = where_rows (listed_in namespace) db.entities

-- Where a namespace has at most 5000 active entities, ListEntitiesByNamespace lists an entity exactly
-- when it is the value of a row, in that namespace, and active.
pub list_entities_by_namespace_iff :
    (db : Db) (namespace : String) (e : Entity)
    → length (active_in db namespace) ≤ 5000
    → Listed e (list_entities_by_namespace db namespace) ↔ (
        Listed e (map (λ row. row.value) db.entities)
        × (e.namespace ≡ namespace)
        × (e.is_active ≡ true))
unfolding list_entities_by_namespace order_by_name
list_entities_by_namespace_iff db namespace e small =
    let all = where_rows (listed_in namespace) db.entities in
    let whole =
      limit_to-whole 5000 (order_by_name all)
        (omega (arith, small, length-sort_by (λ (e : Entity). e.canonical_name) all)) in
    let ordered = Listed-sort_by (λ (e : Entity). e.canonical_name) e all in
    let rows = Listed-where_rows (listed_in namespace) e db.entities in
    rw whole (
      (λ h.
          let r = rows.0 (ordered.0 h) in
          let both = (listed_in_iff namespace e).0 r.1 in (r.0, both.0, both.1)),
      (λ h. ordered.1 (rows.1 (h.0, (listed_in_iff namespace e).1 (h.1, h.2)))),
    )

-- A node of the namespace has the id.
abbrev pub IsNodeOf : Db → String → String → Type 0
IsNodeOf db namespace id =
    (e : Entity) × Listed e (map (λ row. row.value) db.entities)
    × (e.id ≡ id)
    × (e.namespace ≡ namespace)

end_in-found :
    (namespace id : String) (rows : List (Row Entity))
    → end_in namespace id rows ≡ true
    → (e : Entity) × Listed e (map (λ row. row.value) rows)
      × (e.id ≡ id)
      × (e.namespace ≡ namespace)
unfolding end_in
end_in-found namespace id [] h = absurd (cc)
end_in-found namespace id (row ∷ rows) h =
    elim (Bool-cases (row.value.id == id && row.value.namespace == namespace)) [
      | inl here ↦ (
        row.value,
        inl refl,
        ground (arith, here, eq_iff row.value.id id),
        ground (arith, here, eq_iff row.value.namespace namespace),
      )
      | inr not_here ↦
          let rest = end_in-found namespace id rows (simp not_here at h) in
          (rest.0, inr rest.1, rest.2, rest.3)
    ]

end_in-of :
    (namespace id : String) (e : Entity) (rows : List (Row Entity))
    → Listed e (map (λ row. row.value) rows)
    → e.id ≡ id
    → e.namespace ≡ namespace
    → end_in namespace id rows ≡ true
unfolding end_in
end_in-of namespace id e [] a p q = absurd a
end_in-of namespace id e (row ∷ rows) (inl same) p q =
    let named : row.value.id ≡ id = ap (λ x. x.id) same ∙ p in
    let spaced : row.value.namespace ≡ namespace = ap (λ x. x.namespace) same ∙ q in
    ground (arith, named, spaced, eq_iff row.value.id id, eq_iff row.value.namespace namespace)
end_in-of namespace id e (row ∷ rows) (inr later) p q =
    ground (arith, end_in-of namespace id e rows later p q)

edge_in_iff :
    (db : Db) (namespace : String) (r : Relationship)
    → (edge_in db namespace r ≡ true)
      ↔ ((r.is_active ≡ true) × IsNodeOf db namespace r.from_id × IsNodeOf db namespace r.to_id)
unfolding edge_in
edge_in_iff db namespace r = (
  (λ h. (
    ground (arith, h),
    end_in-found namespace r.from_id db.entities (ground (arith, h)),
    end_in-found namespace r.to_id db.entities (ground (arith, h)),
  )),
  (λ h.
      let from_in = end_in-of namespace r.from_id h.1.0 db.entities h.1.1 h.1.2 h.1.3 in
      let to_in = end_in-of namespace r.to_id h.2.0 db.entities h.2.1 h.2.2 h.2.3 in
      ground (arith, h.0, from_in, to_in)),
)

-- The rows of the edges inside the namespace, before the limit cuts them.
abbrev pub edges_in : Db → String → List Relationship
edges_in db namespace = where_rows (edge_in db namespace) db.relationships

-- Where a namespace has at most 20000 active edges between its nodes, ListRelationshipsByNamespace lists an edge
-- exactly when it is the value of a row, active, and both its ends are ids of nodes of the namespace.
pub list_relationships_by_namespace_iff :
    (db : Db) (namespace : String) (r : Relationship)
    → length (edges_in db namespace) ≤ 20000
    → Listed r (list_relationships_by_namespace db namespace) ↔ (
        Listed r (map (λ row. row.value) db.relationships)
        × (r.is_active ≡ true)
        × IsNodeOf db namespace r.from_id
        × IsNodeOf db namespace r.to_id)
unfolding list_relationships_by_namespace
list_relationships_by_namespace_iff db namespace r small =
    let rows = Listed-where_rows (edge_in db namespace) r db.relationships in
    let inside = edge_in_iff db namespace r in
    rw (limit_to-whole 20000 (edges_in db namespace) small) (
      (λ h.
          let found = rows.0 h in let ends = inside.0 found.1 in (found.0, ends.0, ends.1, ends.2)),
      (λ h. rows.1 (h.0, inside.1 (h.1, h.2, h.3))),
    )
