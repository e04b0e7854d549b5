-- ===== src/Storage/Query/Walk/Spans.antt =====
-- The traversal over well-formed tables finds exactly what is within the depth.
use fun_project.Common.{
  ℕ, zero, suc, ◌+◌, String, [], ◌≡◌, ◌⊎◌, inl, inr, refl, true, arith, mem_text, subst,
}
use fun_project.Storage.Schema.Types.{Relationship}
use fun_project.Storage.Mutation.Integrity.{IsConsistent}
use fun_project.Storage.Query.{
  View, Reader, Direction, Search, seen, expand, levels, edges_for_node, other_end,
}
use fun_project.Storage.Query.Reach.{Among, Within, home, hop, Crossed, crossed}
use fun_project.Storage.Query.Walk.Grows.{Grows-expand}
use fun_project.Storage.Query.Walk.Closed.{IsClosed, stored_edge}
use fun_project.Storage.Query.Walk.Rounds.{Closed-expand, Done}

module _ (view : View) (dir : Direction) (well : IsConsistent view.db) (origin : String) where
  -- Everything within `n` hops has been found, and what is not on the frontier is done.
  pub record Reached (n : ℕ) (w : Search) : Type 0 where
    pub closed : IsClosed view dir well w
    pub nodes : (x : String) → Within view dir origin n x → seen x w.seen_nodes ≡ true
    pub edges : (r : Relationship) → Crossed view dir origin n r → Among r w.edges
    pub rest :
        (x : String)
        → seen x w.seen_nodes ≡ true
        → (mem_text x w.next ≡ true) ⊎ Done view dir well x w

  -- What a round that takes all edges at the known nodes finds.
  nodes_after :
      (n m : ℕ) (w w' : Search) (x : String)
      → Reached n w
      → IsClosed view dir well w'
      → ((k : String)
          → seen k w.seen_nodes ≡ true
          → (seen k w'.seen_nodes ≡ true) × Done view dir well k w')
      → m ≡ suc n
      → Within view dir origin m x
      → seen x w'.seen_nodes ≡ true
  unfolding edges_for_node other_end
  nodes_after n _ w w' _ h c after p (home m) = (after origin (h.nodes origin (home n))).0
  nodes_after n _ w w' _ h c after p (hop m id r within a) =
      let known = h.nodes id (subst (λ i. Within view dir origin i id) (omega (arith, p)) within) in
      let stored = stored_edge dir id r view.db.relationships a in
      let both = c.ends r stored.0 ((after id known).1 r a) in ground (arith, both)

  edges_after :
      (n m : ℕ) (w w' : Search) (r : Relationship)
      → Reached n w
      → IsClosed view dir well w'
      → ((k : String)
          → seen k w.seen_nodes ≡ true
          → (seen k w'.seen_nodes ≡ true) × Done view dir well k w')
      → m ≡ suc n
      → Crossed view dir origin m r
      → Among r w'.edges
  unfolding edges_for_node
  edges_after n _ w w' _ h c after p (crossed m id r within a) =
      let known = h.nodes id (subst (λ i. Within view dir origin i id) (omega (arith, p)) within) in
      let stored = stored_edge dir id r view.db.relationships a in
      c.kept r stored.0 ((after id known).1 r a)

  Reached-suc :
      (n : ℕ) (w : Search) (s : Reader)
      → Reached n w
      → Reached (suc n) (expand view dir w.next (record w { next = [] }, s)).0
  unfolding mem_text edges_for_node other_end
  Reached-suc n w s h =
      let bare : Search = record w { next = [] } in
      let grown = Grows-expand view dir w.next (bare, s) in
      let out =
        Closed-expand view dir well w.next (bare, s) h.closed.listed
          (record { ends = h.closed.ends; kept = h.closed.kept; listed = λ k m. absurd (cc) }) in
      let after : (x : String)
          → seen x w.seen_nodes ≡ true
          → (seen x (expand view dir w.next (bare, s)).0.seen_nodes ≡ true)
            × Done view dir well x (expand view dir w.next (bare, s)).0 =
        λ x m. (
          grown.nodes_stay x m,
          elim (h.rest x m) [ inl on ↦ out.1 x on | inr d ↦ λ r a. grown.edges_stay r.id (d r a) ],
        ) in
      record {
        closed = out.0;
        nodes = λ x. nodes_after n (suc n) w _ x h out.0 after refl;
        edges = λ r. edges_after n (suc n) w _ r h out.0 after refl;
        rest = λ x m. elim (grown.news x m) [ inl old ↦ inr (after x old).1 | inr new ↦ inl new ];
      }

  pub Reached-levels :
      (left n : ℕ) (w : Search) (s : Reader)
      → Reached n w
      → Reached (left + n) (levels view dir left (w, s)).0
  unfolding levels
  Reached-levels zero n w s h = subst (λ m. Reached m w) (omega arith) h
  Reached-levels (suc left) n w s h =
      let c = expand view dir w.next (record w { next = [] }, s) in
      subst (λ m. Reached m (levels view dir left c).0) (omega arith)
        (Reached-levels left (suc n) c.0 c.1 (Reached-suc n w s h))
