-- ===== src/Storage/Query/Walk/Rounds.antt =====
-- The rounds of the traversal, over well-formed tables: after a round every edge at the nodes of the
-- frontier has been taken.
use fun_project.Common.{
  String, Option, none, some, List, [], ◌∷◌, ◌≡◌, inl, inr, refl, true, false, arith, eq_iff,
  mem_text, All, Bool-cases, is_none, ◌==◌, sym, subst,
}
use fun_project.Storage.Schema.Types.{Entity, Relationship}
use fun_project.Storage.Graph.{find_entity}
use fun_project.Storage.Mutation.Integrity.{IsConsistent}
use fun_project.Storage.Query.{
  View, Reader, Direction, Search, seen, admit, take_edge, visit, visit_all, expand, edges_for_node,
  other_end, load_entity,
}
use fun_project.Storage.Query.Reach.{Among, All-Among}
use fun_project.Storage.Query.Walk.Grows.{Grows-admit, Grows-visit, Grows-visit_all, Grows-expand}
use fun_project.Storage.Query.Walk.Closed.{
  IsClosed, IsClosed-take, IsClosed-admit, stored_edge, tied, both_ends, load-found, values,
}

admit-take_edge :
    (j : String) (o : Option Entity) (e : Relationship) (w : Search)
    → admit j o (take_edge e w) ≡ take_edge e (admit j o w)
unfolding admit
admit-take_edge j none e w = refl
admit-take_edge j (some n) e w = refl

module _ (view : View) (dir : Direction) (well : IsConsistent view.db) where
  abbrev pub Closed : Search × Reader → Type 0
  Closed c = IsClosed view dir well c.0

  far_found :
      (nid : String) (e : Relationship)
      → Among e (values view.db.relationships)
      → is_none (find_entity (other_end nid e) view.db) ≡ false
  unfolding find_entity other_end
  far_found nid e a =
      let both = tied view.db.entities e view.db.relationships well.ends a in ground (arith, both)

  Closed-visit :
      (nid : String) (e : Relationship) (c : Search × Reader)
      → Among e (edges_for_node view nid dir)
      → seen nid c.0.seen_nodes ≡ true
      → Closed c
      → Closed (visit view nid e c) × (mem_text e.id (visit view nid e c).0.seen_edges ≡ true)
  unfolding visit edges_for_node mem_text
  Closed-visit nid e (w, s) a at c =
      let here = stored_edge dir nid e view.db.relationships a in
      elim (Bool-cases (mem_text e.id w.seen_edges)) [
        | inl old ↦ simp old (c, refl)
        | inr new ↦ elim (Bool-cases (seen (other_end nid e) w.seen_nodes)) [
          | inl known ↦
              simp (new, known)
                (
                  IsClosed-take view dir well e w here.0
                      (both_ends w.seen_nodes dir nid e here.1 at known) c,
                  ground (arith, eq_iff e.id e.id),
                )
          | inr unknown ↦
              let found = load_entity view (other_end nid e) s in
              let step =
                IsClosed-admit view dir well (other_end nid e) found.0 w
                  (load-found view (other_end nid e) s (far_found nid e here.0)) c in
              let nid_known = (Grows-admit (other_end nid e) found.0 w).nodes_stay nid at in
              let both =
                both_ends (admit (other_end nid e) found.0 w).seen_nodes dir nid e here.1 nid_known
                  step.1 in
              simp (new, unknown, admit-take_edge (other_end nid e) found.0 e w)
                (
                  IsClosed-take view dir well e _ here.0 both step.0,
                  ground (arith, eq_iff e.id e.id),
                )
        ]
      ]

  -- Every edge at the node has been taken.
  abbrev pub Done : String → Search → Type 0
  Done k w =
      (r : Relationship) → Among r (edges_for_node view k dir) → mem_text r.id w.seen_edges ≡ true

  Closed-visit_all :
      (nid : String) (es : List Relationship) (c : Search × Reader)
      → All (λ e. Among e (edges_for_node view nid dir)) es
      → seen nid c.0.seen_nodes ≡ true
      → Closed c
      → Closed (visit_all view nid es c)
        × ((r : Relationship)
            → Among r es
            → mem_text r.id (visit_all view nid es c).0.seen_edges ≡ true)
  unfolding visit_all
  Closed-visit_all nid [] c a at k = (k, λ r h. absurd h)
  Closed-visit_all nid (e ∷ es) c a at k =
      let here = Closed-visit nid e c a.0 at k in
      let known = (Grows-visit view nid e c).nodes_stay nid at in
      let rest = Closed-visit_all nid es (visit view nid e c) a.1 known here.0 in
      (
        rest.0,
        λ r h. elim h [
          | inl same ↦
              (Grows-visit_all view nid es (visit view nid e c)).edges_stay r.id
                (subst (λ z. mem_text z.id (visit view nid e c).0.seen_edges ≡ true) same here.1)
          | inr later ↦ rest.1 r later
        ],
      )

  pub Closed-expand :
      (frontier : List String) (c : Search × Reader)
      → ((k : String) → mem_text k frontier ≡ true → seen k c.0.seen_nodes ≡ true)
      → Closed c
      → Closed (expand view dir frontier c)
        × ((k : String) → mem_text k frontier ≡ true → Done k (expand view dir frontier c).0)
  unfolding expand mem_text
  Closed-expand [] c known k = (k, λ j h. absurd (cc))
  Closed-expand (nid ∷ frontier) c known k =
      let es = edges_for_node view nid dir in
      let mid = visit_all view nid es c in
      let grown = Grows-visit_all view nid es c in
      let here =
        Closed-visit_all nid es c (All-Among es) (known nid (ground (arith, eq_iff nid nid))) k in
      let rest =
        Closed-expand frontier mid (λ j h. grown.nodes_stay j (known j (ground (arith, h))))
          here.0 in
      (
        rest.0,
        λ j h r a. elim (Bool-cases (nid == j)) [
          | inl same ↦ (Grows-expand view dir frontier mid).edges_stay r.id (
              here.1 r
                (subst (λ z. Among r (edges_for_node view z dir)) (sym ((eq_iff nid j).0 same)) a))
          | inr other ↦ rest.1 j (simp other at h) r a
        ],
      )
