-- ===== src/Storage/Query/Listing.antt =====
-- The two listings by namespace of graphdb/query.go. A listing is cut at its limit; the order of the
-- edges is that of the table.
pub mod Laws
use fun_project.Common.{
  ℕ, zero, suc, String, Bool, true, false, ◌&&◌, ◌||◌, List, [], ◌∷◌, ◌==◌, if◌then◌else◌,
}
use fun_project.Common.Sort.{sort_by}
use fun_project.Storage.Schema.Types.{Entity, Relationship}
use fun_project.Storage.Table.{Row}
use fun_project.Storage.Session.{Db}

-- SELECT … WHERE p
unfoldable pub where_rows : {A : Type 0} → (A → Bool) → List (Row A) → List A
where_rows p [] = []
where_rows p (row ∷ rows) =
    let rest = where_rows p rows in if p row.value then row.value ∷ rest else rest

-- LIMIT n
unfoldable pub limit_to : {A : Type 0} → ℕ → List A → List A
limit_to zero xs = []
limit_to (suc n) [] = []
limit_to (suc n) (x ∷ xs) = x ∷ limit_to n xs

-- ORDER BY canonical_name ASC
unfoldable pub order_by_name : List Entity → List Entity
unfolding sort_by
order_by_name es = sort_by (λ e. e.canonical_name) es

unfoldable pub listed_in : String → Entity → Bool
listed_in namespace e = e.namespace == namespace && e.is_active

-- ListEntitiesByNamespace
unfoldable pub list_entities_by_namespace : Db → String → List Entity
unfolding where_rows limit_to order_by_name listed_in
list_entities_by_namespace db namespace =
    limit_to 5000 (order_by_name (where_rows (listed_in namespace) db.entities))

-- EXISTS (SELECT 1 FROM entities e WHERE e.id = ? AND e.namespace = ?)
unfoldable pub end_in : String → String → List (Row Entity) → Bool
end_in namespace id [] = false
end_in namespace id (row ∷ rows) =
    row.value.id == id && row.value.namespace == namespace || end_in namespace id rows

unfoldable pub edge_in : Db → String → Relationship → Bool
unfolding end_in
edge_in db namespace r =
    r.is_active && end_in namespace r.from_id db.entities && end_in namespace r.to_id db.entities

-- ListRelationshipsByNamespace
unfoldable pub list_relationships_by_namespace : Db → String → List Relationship
unfolding where_rows limit_to edge_in
list_relationships_by_namespace db namespace =
    limit_to 20000 (where_rows (edge_in db namespace) db.relationships)
