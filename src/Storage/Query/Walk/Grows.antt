-- ===== src/Storage/Query/Walk/Grows.antt =====
-- The traversal forgets nothing, and puts every new node on the next frontier.
use fun_project.Common.{
  String, Option, none, some, List, [], ◌∷◌, ◌++◌, ◌≡◌, ◌⊎◌, inl, inr, refl, true, arith, mem_text,
  mem_text-append, either_branch, ◌||◌,
}
use fun_project.Storage.Schema.Types.{Entity, Relationship}
use fun_project.Storage.Query.{
  View, Reader, Direction, Search, seen, admit, take_edge, visit, visit_all, expand, edges_for_node,
}

pub seen-append :
    (k : String) (xs ys : List (String × Entity)) → seen k (xs ++ ys) ≡ (seen k xs || seen k ys)
unfolding seen
seen-append k [] ys = refl
seen-append k ((j, e) ∷ xs) ys = ground (arith, seen-append k xs ys)

pub record Grows (w w' : Search) : Type 0 where
  pub edges_stay : (k : String) → mem_text k w.seen_edges ≡ true → mem_text k w'.seen_edges ≡ true
  pub nodes_stay : (k : String) → seen k w.seen_nodes ≡ true → seen k w'.seen_nodes ≡ true
  pub next_stays : (k : String) → mem_text k w.next ≡ true → mem_text k w'.next ≡ true
  pub news :
      (k : String)
      → seen k w'.seen_nodes ≡ true
      → (seen k w.seen_nodes ≡ true) ⊎ (mem_text k w'.next ≡ true)

Grows-refl : (w : Search) → Grows w w
Grows-refl w = record {
  edges_stay = λ k h. h;
  nodes_stay = λ k h. h;
  next_stays = λ k h. h;
  news = λ k h. inl h;
}

pub Grows-trans : (u v w : Search) → Grows u v → Grows v w → Grows u w
Grows-trans u v w g h = record {
  edges_stay = λ k x. h.edges_stay k (g.edges_stay k x);
  nodes_stay = λ k x. h.nodes_stay k (g.nodes_stay k x);
  next_stays = λ k x. h.next_stays k (g.next_stays k x);
  news = λ k x. elim (h.news k x) [
    | inr new ↦ inr new
    | inl old ↦ elim (g.news k old) [ inl older ↦ inl older | inr new ↦ inr (h.next_stays k new) ]
  ];
}

Grows-take : (e : Relationship) (w : Search) → Grows w (take_edge e w)
unfolding mem_text
Grows-take e w = record {
  edges_stay = λ k h. ground (arith, h);
  nodes_stay = λ k h. h;
  next_stays = λ k h. h;
  news = λ k h. inl h;
}

pub Grows-admit : (j : String) (o : Option Entity) (w : Search) → Grows w (admit j o w)
unfolding admit mem_text seen
Grows-admit j none w = Grows-refl w
Grows-admit j (some e) w = record {
  edges_stay = λ k h. h;
  nodes_stay = λ k h. ground (arith, h, seen-append k w.seen_nodes ((j, e) ∷ []));
  next_stays = λ k h. ground (arith, h, mem_text-append k w.next (j ∷ []));
  news = λ k h.
      ground
        (arith, h, seen-append k w.seen_nodes ((j, e) ∷ []), mem_text-append k w.next (j ∷ []));
}

module _ (view : View) where
  pub Grows-visit :
      (nid : String) (e : Relationship) (c : Search × Reader) → Grows c.0 (visit view nid e c).0
  unfolding visit
  Grows-visit nid e (w, s) =
      either_branch (λ (c : Search × Reader). Grows w c.0) _ _ _ (Grows-refl w)
        (either_branch (λ (c : Search × Reader). Grows w c.0) _ _ _ (Grows-take e w)
          (Grows-trans _ _ _ (Grows-take e w) (Grows-admit _ _ _)))

  pub Grows-visit_all :
      (nid : String) (es : List Relationship) (c : Search × Reader)
      → Grows c.0 (visit_all view nid es c).0
  unfolding visit_all
  Grows-visit_all nid [] c = Grows-refl c.0
  Grows-visit_all nid (e ∷ es) c =
      Grows-trans _ _ _ (Grows-visit nid e c) (Grows-visit_all nid es (visit view nid e c))

  pub Grows-expand :
      (dir : Direction) (frontier : List String) (c : Search × Reader)
      → Grows c.0 (expand view dir frontier c).0
  unfolding expand
  Grows-expand dir [] c = Grows-refl c.0
  Grows-expand dir (nid ∷ frontier) c =
      Grows-trans _ _ _ (Grows-visit_all nid (edges_for_node view nid dir) c)
        (Grows-expand dir frontier _)
