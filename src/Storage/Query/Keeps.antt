-- ===== src/Storage/Query/Keeps.antt =====
-- What the lookups keep of the cache, when GetEntity keeps it and it does not depend on the
-- neighborhoods.
use fun_project.Common.{
  ℕ, zero, suc, String, Option, none, some, List, [], ◌∷◌, either_branch, mem_text,
}
use fun_project.Storage.Schema.Types.{Time, Entity, Relationship}
use fun_project.Storage.Cache.{GraphCache, Neighborhood, set_neighborhood}
use fun_project.Storage.Query.{
  View, Reader, Direction, Search, ℤ, other_end, seen, admit, take_edge, load_entity, visit,
  visit_all, expand, levels, traverse, serve_neighborhood, neighborhood, edges_for_node,
}

module _ (view : View) (P : GraphCache → Type 0)
    (load-Keeps : (id : String) (s : Reader) → P s.cache → P (load_entity view id s).1.cache)
    (set-Keeps : (c : GraphCache) (t : Time) (k : String) (n : Neighborhood)
      → P c
      → P (set_neighborhood c t k n)) where
  record Holds (c : Search × Reader) : Type 0 where
    kept : P c.1.cache

  visit-Keeps :
      (nid : String) (e : Relationship) (c : Search × Reader) → Holds c → Holds (visit view nid e c)
  unfolding visit
  visit-Keeps nid e (w, s) h =
      let other = other_end nid e in
      let found = load_entity view other s in
      either_branch Holds (mem_text e.id w.seen_edges) (w, s) _ h
        (either_branch Holds (seen other w.seen_nodes) (take_edge e w, s)
          (admit other found.0 (take_edge e w), found.1) (record { kept = h.kept })
          (record { kept = load-Keeps other s h.kept }))

  visit_all-Keeps :
      (nid : String) (es : List Relationship) (c : Search × Reader)
      → Holds c
      → Holds (visit_all view nid es c)
  unfolding visit_all
  visit_all-Keeps nid [] c h = h
  visit_all-Keeps nid (e ∷ es) c h =
      visit_all-Keeps nid es (visit view nid e c) (visit-Keeps nid e c h)

  expand-Keeps :
      (dir : Direction) (frontier : List String) (c : Search × Reader)
      → Holds c
      → Holds (expand view dir frontier c)
  unfolding expand
  expand-Keeps dir [] c h = h
  expand-Keeps dir (nid ∷ frontier) c h =
      expand-Keeps dir frontier _ (visit_all-Keeps nid (edges_for_node view nid dir) c h)

  levels-Keeps :
      (dir : Direction) (left : ℕ) (c : Search × Reader) → Holds c → Holds (levels view dir left c)
  unfolding levels
  levels-Keeps dir zero c h = h
  levels-Keeps dir (suc left) (w, s) h =
      levels-Keeps dir left _ (expand-Keeps dir w.next _ (record { kept = h.kept }))

  traverse-Keeps :
      (key : String) (depth : ℕ) (dir : Direction) (out : Option Entity × Reader)
      → P out.1.cache
      → P (traverse view key depth dir out).1.cache
  unfolding traverse
  traverse-Keeps key depth dir (none, s) h = h
  traverse-Keeps key depth dir (some o, s) h =
      set-Keeps _ _ _ _ (levels-Keeps dir depth _ (record { kept = h })).kept

  serve-Keeps :
      (id : String) (depth : ℕ) (dir : Direction) (o : Option Neighborhood) (s : Reader)
      → P s.cache
      → P (serve_neighborhood view id depth dir o s).1.cache
  unfolding serve_neighborhood
  serve-Keeps id depth dir (some n) s h = h
  serve-Keeps id depth dir none s h = traverse-Keeps _ depth dir _ (load-Keeps id s h)

  pub neighborhood-Keeps :
      (id : String) (max_depth : ℤ) (dir : Direction) (s : Reader)
      → P s.cache
      → P (neighborhood view id max_depth dir s).1.cache
  unfolding neighborhood
  neighborhood-Keeps id max_depth dir s h = serve-Keeps id _ dir _ _ h
