-- ===== src/Storage/Query/Exact.antt =====
-- What Neighborhood returns when it is not cached: the nodes within the depth and the edges between.
use fun_project.Common.{
  ℕ, suc, ◌+◌, String, Option, none, some, List, [], ◌∷◌, ◌≡◌, ◌↔◌, inl, inr, refl, true, false,
  arith, eq_iff, mem_text, All, ◌==◌, ◌||◌, subst, is_none, sym, ◌∙◌, Bool-cases,
}
use fun_project.Storage.Schema.Types.{Entity, Relationship}
use fun_project.Storage.Mutation.Integrity.{IsConsistent}
use fun_project.Storage.Graph.{find_entity}
use fun_project.Storage.Cache
use fun_project.Storage.Cache.{Neighborhood, has_node, involves}
use fun_project.Storage.Query.{
  View, Reader, Direction, Search, ℤ, seen, levels, load_entity, begin, result_of, except, traverse,
  serve_neighborhood, neighborhood, clamp_depth, neighborhood_key,
}
use fun_project.Storage.Query.Reach.{Among, Within, home, hop, Crossed, crossed}
use fun_project.Storage.Query.Loads.{IsHonest, Loaded, load_entity-Loaded}
use fun_project.Storage.Query.Walk.{Known, Inside, Inside-levels}
use fun_project.Storage.Query.Walk.Closed.{load-found}
use fun_project.Storage.Query.Walk.Spans.{Reached, Reached-levels}

module _ (view : View) (dir : Direction) where
  -- The origin and the nodes are what is within `depth` hops of `id`, and the edges are those at the
  -- nodes that are within one hop less.
  pub record IsExact (id : String) (depth : ℕ) (n : Neighborhood) : Type 0 where
    pub origin : n.origin.id ≡ id
    pub depth_kept : n.max_depth ≡ depth
    pub nodes : (x : String) → (involves x n ≡ true) ↔ Within view dir id depth x
    pub edges : (r : Relationship) → Among r n.edges ↔ Crossed view dir id depth r

  Within-of_node :
      (o x : String) (depth : ℕ) (nodes : List (String × Entity))
      → All (Known view dir o depth) nodes
      → has_node x (except o nodes) ≡ true
      → Within view dir o depth x
  unfolding has_node except
  Within-of_node o x depth [] a h = absurd (cc)
  Within-of_node o x depth ((k, e) ∷ nodes) a h = elim (Bool-cases (k == o)) [
    | inl skipped ↦ Within-of_node o x depth nodes a.1 (simp skipped at h)
    | inr other ↦ elim (Bool-cases (e.id == x)) [
      | inl same ↦ subst (Within view dir o depth) (sym a.0.1 ∙ (eq_iff e.id x).0 same) a.0.0
      | inr later ↦ Within-of_node o x depth nodes a.1 (simp (other, later) at h)
    ]
  ]

  node_kept :
      (o x : String) (depth : ℕ) (nodes : List (String × Entity))
      → All (Known view dir o depth) nodes
      → seen x nodes ≡ true
      → (o == x || has_node x (except o nodes)) ≡ true
  unfolding has_node except seen
  node_kept o x depth [] a h = absurd (cc)
  node_kept o x depth ((k, e) ∷ nodes) a h = ground (
    arith,
    a.0.1,
    node_kept o x depth nodes a.1,
    eq_iff k o,
    eq_iff k x,
    eq_iff e.id x,
    eq_iff o x,
  )

  Crossed-of_edge :
      (o : String) (depth : ℕ) (r : Relationship) (es : List Relationship)
      → All (Crossed view dir o depth) es
      → Among r es
      → Crossed view dir o depth r
  Crossed-of_edge o depth r [] a h = absurd h
  Crossed-of_edge o depth r (e ∷ es) a (inl same) = subst (Crossed view dir o depth) same a.0
  Crossed-of_edge o depth r (e ∷ es) a (inr later) = Crossed-of_edge o depth r es a.1 later

  not_Crossed : (o : String) (m : ℕ) (r : Relationship) → m ≡ 0 → Crossed view dir o m r → ⊥
  not_Crossed o _ _ p (crossed n id r w a) = omega (arith, p)

  only_home : (o : String) (m : ℕ) (x : String) → m ≡ 0 → Within view dir o m x → o ≡ x
  only_home o _ _ p (home n) = refl
  only_home o _ _ p (hop n id r w a) = absurd (omega (arith, p))

  begin-Inside : (e : Entity) (s : Reader) → IsHonest s.cache → Inside view dir e.id 0 (begin e, s)
  unfolding begin
  begin-Inside e s h = record {
    nodes = ((home 0, refl), tt);
    edges = tt;
    next = (home 0, tt);
    honest = h;
  }

  begin-Reached :
      (well : IsConsistent view.db) (e : Entity) → Reached view dir well e.id 0 (begin e)
  unfolding begin mem_text seen
  begin-Reached well e = record {
    closed = record { ends = λ r a m. absurd (cc); kept = λ r a m. absurd (cc); listed = λ k m. m };
    nodes = λ x w. let p = only_home e.id 0 x refl w in ground (arith, p, eq_iff e.id x);
    edges = λ r c. absurd (not_Crossed e.id 0 r refl c);
    rest = λ x m. inl m;
  }

  IsExact-result :
      (o : Entity) (depth : ℕ) (w : Search) (s : Reader) (well : IsConsistent view.db)
      → Inside view dir o.id depth (w, s)
      → Reached view dir well o.id depth w
      → IsExact o.id depth (result_of o depth w)
  unfolding result_of involves
  IsExact-result o depth w s well i r = record {
    origin = refl;
    depth_kept = refl;
    nodes = λ x. (
      (λ h. elim (Bool-cases (o.id == x)) [
        | inl same ↦ subst (Within view dir o.id depth) ((eq_iff o.id x).0 same) (home depth)
        | inr other ↦ Within-of_node o.id x depth w.seen_nodes i.nodes (simp other at h)
      ]),
      (λ h. node_kept o.id x depth w.seen_nodes i.nodes (r.nodes x h)),
    );
    edges = λ e. (Crossed-of_edge o.id depth e w.edges i.edges, r.edges e);
  }

  traverse-IsExact :
      (key id : String) (depth : ℕ) (out : Option Entity × Reader)
      → IsConsistent view.db
      → Loaded id out
      → is_none out.0 ≡ false
      → (n : Neighborhood) × ((traverse view key depth dir out).0 ≡ some n) × IsExact id depth n
  unfolding traverse
  traverse-IsExact key id depth (none, s) well l f = absurd (cc)
  traverse-IsExact key id depth (some o, s) well l f =
      let done = levels view dir depth (begin o, s) in
      let zeroes : (depth + 0 ≡ depth) = omega arith in
      let inside =
        subst (λ m. Inside view dir o.id m done) zeroes
          (Inside-levels view dir o.id depth 0 (begin o, s) (begin-Inside o s l.honest)) in
      let reached =
        subst (λ m. Reached view dir well o.id m done.0) zeroes
          (Reached-levels view dir well o.id depth 0 (begin o) s (begin-Reached well o)) in
      let n = result_of o depth done.0 in
      let exact =
        subst (λ i. IsExact i depth n) (l.named o refl)
          (IsExact-result o depth done.0 done.1 well inside reached) in
      (n, refl, exact)

  -- Over well-formed tables, with a cache that keeps every entity under its own id and no unexpired
  -- entry for the request, Neighborhood of an id in the table of nodes returns a result: its depth
  -- is the one asked for, brought into 0..5; a node is its origin or one of its nodes exactly when
  -- it is within that many hops of the id over active edges of the direction; and an edge is one of
  -- its edges exactly when it is such an edge at a node within one hop less.
  pub neighborhood-IsExact :
      (id : String) (max_depth : ℤ) (s : Reader)
      → IsConsistent view.db
      → IsHonest s.cache
      → Cache.get_neighborhood s.cache
          (view.env.clock s.tick)
          (neighborhood_key id (clamp_depth max_depth) dir)
        ≡ none
      → is_none (find_entity id view.db) ≡ false
      → (n : Neighborhood) × ((neighborhood view id max_depth dir s).0 ≡ some n)
        × IsExact id (clamp_depth max_depth) n
  unfolding neighborhood serve_neighborhood
  neighborhood-IsExact id max_depth s well honest miss found =
      let later : Reader = record s { tick = suc s.tick } in
      rw miss (
        traverse-IsExact _ id (clamp_depth max_depth) (load_entity view id later) well
          (load_entity-Loaded view id later honest) (load-found view id later found))
