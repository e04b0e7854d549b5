-- ===== src/Storage/Query/Edges.antt =====
-- The edges that edgesForNode selects.
use fun_project.Common.{
  String, List, [], ◌∷◌, ◌≡◌, ◌⊎◌, ◌↔◌, inl, inr, true, arith, eq_iff, sym, subst, either_branch,
}
use fun_project.Storage.Schema.Types.{Relationship}
use fun_project.Storage.Table.{Row}
use fun_project.Storage.Query.{
  View, Direction, outbound, inbound, both, touches, edges_among, edges_for_node,
}
use fun_project.Storage.Query.Reach.{Among}
use fun_project.Storage.Query.Walk.Closed.{stored_edge, values}

-- The edge starts at the node, ends at it, or does either.
abbrev pub Faces : Direction → String → Relationship → Type 0
Faces outbound id r = r.from_id ≡ id
Faces inbound id r = r.to_id ≡ id
Faces both id r = (r.from_id ≡ id) ⊎ (r.to_id ≡ id)

touches_iff :
    (dir : Direction) (id : String) (r : Relationship)
    → (touches dir id r ≡ true) ↔ ((r.is_active ≡ true) × Faces dir id r)
unfolding touches
touches_iff outbound id r = ground (arith, eq_iff r.from_id id)
touches_iff inbound id r = ground (arith, eq_iff r.to_id id)
touches_iff both id r = ground (arith, eq_iff r.from_id id, eq_iff r.to_id id)

select_edge :
    (dir : Direction) (id : String) (r : Relationship) (rows : List (Row Relationship))
    → Among r (values rows)
    → touches dir id r ≡ true
    → Among r (edges_among dir id rows)
unfolding edges_among
select_edge dir id r [] a t = absurd a
select_edge dir id r (row ∷ rows) (inl same) t =
    let here = subst (λ x. touches dir id x ≡ true) (sym same) t in simp here (inl same)
select_edge dir id r (row ∷ rows) (inr later) t =
    either_branch (Among r) (touches dir id row.value) _ _ (inr (select_edge dir id r rows later t))
      (select_edge dir id r rows later t)

-- An edge is among those that edgesForNode selects for a node exactly when its row is in the table,
-- it is active, and it leaves the node, enters it, or does either, as the direction asks.
pub edges_for_node_iff :
    (view : View) (id : String) (dir : Direction) (r : Relationship)
    → Among r (edges_for_node view id dir)
      ↔ (Among r (values view.db.relationships) × (r.is_active ≡ true) × Faces dir id r)
unfolding edges_for_node
edges_for_node_iff view id dir r = (
  (λ a.
      let found = stored_edge dir id r view.db.relationships a in
      let faced = (touches_iff dir id r).0 found.1 in (found.0, faced.0, faced.1)),
  (λ h. select_edge dir id r view.db.relationships h.0 ((touches_iff dir id r).1 (h.1, h.2))),
)
