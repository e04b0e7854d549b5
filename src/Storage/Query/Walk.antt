-- ===== src/Storage/Query/Walk.antt =====
-- The traversal reaches nothing but what it may: the invariant of its loops.
pub mod Grows
pub mod Closed
pub mod Rounds
pub mod Spans
use fun_project.Common.{
  ℕ, zero, suc, ◌+◌, String, Option, none, some, List, [], ◌∷◌, ◌++◌, ◌≡◌, refl, All, All-append,
  Bool-cases, inl, inr, either_branch, true, false, subst, arith,
}
use fun_project.Storage.Schema.Types.{Entity, Relationship}
use fun_project.Storage.Query.{
  View, Reader, Direction, Search, edges_for_node, other_end, load_entity, admit, take_edge, visit,
  visit_all, expand, levels,
}
use fun_project.Storage.Query.Reach.{
  Among, Within, Crossed, crossed, hop, Within-suc, Crossed-suc, All-Among,
}
use fun_project.Storage.Query.Loads.{IsHonest, Loaded, load_entity-Loaded}

All-map :
    {A : Type 0} (P Q : A → Type 0) → ((a : A) → P a → Q a) → (xs : List A) → All P xs → All Q xs
All-map P Q f [] h = tt
All-map P Q f (x ∷ xs) h = (f x h.0, All-map P Q f xs h.1)

module _ (view : View) (dir : Direction) (origin : String) where
  abbrev pub Known : ℕ → String × Entity → Type 0
  Known n p = Within view dir origin n p.0 × (p.1.id ≡ p.0)

  -- All that was found is within `n` hops, and the cache is honest.
  pub record Inside (n : ℕ) (c : Search × Reader) : Type 0 where
    pub nodes : All (Known n) c.0.seen_nodes
    pub edges : All (Crossed view dir origin n) c.0.edges
    pub next : All (Within view dir origin n) c.0.next
    pub honest : IsHonest c.1.cache

  Inside-take :
      (n : ℕ) (e : Relationship) (w : Search) (s : Reader)
      → Crossed view dir origin n e
      → Inside n (w, s)
      → Inside n (take_edge e w, s)
  Inside-take n e w s x h = record {
    nodes = h.nodes;
    edges = All-append (Crossed view dir origin n) w.edges (e ∷ []) h.edges (x, tt);
    next = h.next;
    honest = h.honest;
  }

  Inside-admit :
      (n : ℕ) (k : String) (o : Option Entity) (w : Search) (s t : Reader)
      → Within view dir origin n k
      → Loaded k (o, t)
      → Inside n (w, s)
      → Inside n (admit k o w, t)
  unfolding admit
  Inside-admit n k none w s t x l h = record {
    nodes = h.nodes;
    edges = h.edges;
    next = h.next;
    honest = l.honest;
  }
  Inside-admit n k (some e) w s t x l h = record {
    nodes = All-append (Known n) w.seen_nodes _ h.nodes ((x, l.named e refl), tt);
    edges = h.edges;
    next = All-append (Within view dir origin n) w.next _ h.next (x, tt);
    honest = l.honest;
  }

  Inside-visit :
      (n : ℕ) (nid : String) (e : Relationship) (c : Search × Reader)
      → Within view dir origin n nid
      → Among e (edges_for_node view nid dir)
      → Inside (suc n) c
      → Inside (suc n) (visit view nid e c)
  unfolding visit
  Inside-visit n nid e (w, s) x a h =
      let taken = Inside-take (suc n) e w s (crossed n nid e x a) h in
      either_branch (Inside (suc n)) _ _ _ h (
        either_branch (Inside (suc n)) _ _ _ taken (
          Inside-admit (suc n) (other_end nid e) _ _ s _ (hop n nid e x a)
            (load_entity-Loaded view (other_end nid e) s h.honest) taken))

  Inside-visit_all :
      (n : ℕ) (nid : String) (es : List Relationship) (c : Search × Reader)
      → Within view dir origin n nid
      → All (λ e. Among e (edges_for_node view nid dir)) es
      → Inside (suc n) c
      → Inside (suc n) (visit_all view nid es c)
  unfolding visit_all
  Inside-visit_all n nid [] c x a h = h
  Inside-visit_all n nid (e ∷ es) c x a h =
      Inside-visit_all n nid es (visit view nid e c) x a.1 (Inside-visit n nid e c x a.0 h)

  Inside-expand :
      (n : ℕ) (frontier : List String) (c : Search × Reader)
      → All (Within view dir origin n) frontier
      → Inside (suc n) c
      → Inside (suc n) (expand view dir frontier c)
  unfolding expand
  Inside-expand n [] c x h = h
  Inside-expand n (nid ∷ frontier) c x h = Inside-expand n frontier _ x.1 (
      Inside-visit_all n nid (edges_for_node view nid dir) c x.0
        (All-Among (edges_for_node view nid dir)) h)

  Inside-suc :
      (n : ℕ) (w : Search) (s : Reader)
      → Inside n (w, s)
      → Inside (suc n) (record w { next = [] }, s)
  Inside-suc n w s h = record {
    nodes =
        All-map (Known n) (Known (suc n)) (λ p k. (Within-suc view dir origin n p.0 k.0, k.1))
          w.seen_nodes h.nodes;
    edges =
        All-map (Crossed view dir origin n) (Crossed view dir origin (suc n))
          (Crossed-suc view dir origin n) w.edges h.edges;
    next = tt;
    honest = h.honest;
  }

  pub Inside-levels :
      (left n : ℕ) (c : Search × Reader) → Inside n c → Inside (left + n) (levels view dir left c)
  unfolding levels
  Inside-levels zero n c h = subst (λ m. Inside m c) (omega arith) h
  Inside-levels (suc left) n (w, s) h =
      subst (λ m. Inside m (levels view dir (suc left) (w, s))) (omega arith)
        (Inside-levels left (suc n) _ (Inside-expand n w.next _ h.next (Inside-suc n w s h)))
