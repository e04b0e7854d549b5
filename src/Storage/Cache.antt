-- ===== src/Storage/Cache.antt =====
-- graphdb/cache.go: the three layers of the read cache. A Go map is the list of its keys, each with
-- its entry; every method runs under the cache's lock, so it is one step.
pub mod Laws
use fun_project.Common.{
  ℕ, ◌+◌, ◌*◌, String, Option, none, some, Bool, ◌||◌, List, [], ◌∷◌, ◌==◌, ltb, if◌then◌else◌,
}
use fun_project.Storage.Schema.Json.{Json}
use fun_project.Storage.Schema.Types.{Time, Entity, Relationship}

pub record Neighborhood : Type 0 where
  pub origin : Entity
  pub nodes : List Entity
  pub edges : List Relationship
  pub max_depth : ℕ

pub record CacheEntry (V : Type 0) : Type 0 where
  pub val : V
  pub expires_at : Time

-- One layer
abbrev pub Layer : Type 0 → Type 0
Layer V = List (String × CacheEntry V)

module _ {V : Type 0} where
  -- m[key]
  unfoldable pub entry_at : Layer V → String → Option (CacheEntry V)
  entry_at [] key = none
  entry_at ((j, e) ∷ layer) key = if j == key then some e else entry_at layer key

  -- `delete(m, key)` for each entry that the test marks
  unfoldable pub discard : (String → CacheEntry V → Bool) → Layer V → Layer V
  discard p [] = []
  discard p ((j, e) ∷ layer) = let rest = discard p layer in if p j e then rest else (j, e) ∷ rest

  -- m[key] = e
  unfoldable pub put_entry : Layer V → String → CacheEntry V → Layer V
  unfolding discard
  put_entry layer key e = (key, e) ∷ discard (λ j _. j == key) layer

  -- An entry counts until its expiry has passed.
  unfoldable pub fresh : Time → Option (CacheEntry V) → Option V
  fresh now none = none
  fresh now (some e) = if ltb e.expires_at now then none else some e.val

-- The values of the third layer are never looked into.
pub record GraphCache : Type 0 where
  pub entity_cache : Layer Entity
  pub neighbor_cache : Layer Neighborhood
  pub subgraph_cache : Layer Json

abbrev pub new_cache : GraphCache
new_cache = record { entity_cache = []; neighbor_cache = []; subgraph_cache = [] }

abbrev minute : ℕ
minute = 60000000000

unfoldable pub get_entity : GraphCache → Time → String → Option Entity
unfolding entry_at fresh
get_entity c now id = fresh now (entry_at c.entity_cache id)

unfoldable pub set_entity : GraphCache → Time → String → Entity → GraphCache
unfolding put_entry
set_entity c now id e = record c {
  entity_cache = put_entry c.entity_cache id (record { val = e; expires_at = now + 5 * minute });
}

unfoldable pub get_neighborhood : GraphCache → Time → String → Option Neighborhood
unfolding entry_at fresh
get_neighborhood c now key = fresh now (entry_at c.neighbor_cache key)

unfoldable pub set_neighborhood : GraphCache → Time → String → Neighborhood → GraphCache
unfolding put_entry
set_neighborhood c now key n = record c {
  neighbor_cache =
      put_entry c.neighbor_cache key (record { val = n; expires_at = now + 2 * minute });
}

unfoldable pub get_subgraph : GraphCache → Time → String → Option Json
unfolding entry_at fresh
get_subgraph c now key = fresh now (entry_at c.subgraph_cache key)

unfoldable pub set_subgraph : GraphCache → Time → String → Json → GraphCache
unfolding put_entry
set_subgraph c now key v = record c {
  subgraph_cache =
      put_entry c.subgraph_cache key (record { val = v; expires_at = now + 10 * minute });
}

unfoldable pub has_node : String → List Entity → Bool
has_node id [] = Bool.false
has_node id (n ∷ nodes) = n.id == id || has_node id nodes

-- The node is the origin of the neighborhood, or one of its nodes.
unfoldable pub involves : String → Neighborhood → Bool
unfolding has_node
involves id n = n.origin.id == id || has_node id n.nodes

unfoldable pub invalidate_entity : GraphCache → String → GraphCache
unfolding discard
invalidate_entity c id = record {
  entity_cache = discard (λ k _. k == id) c.entity_cache;
  neighbor_cache = discard (λ _ e. involves id e.val) c.neighbor_cache;
  subgraph_cache = [];
}

unfoldable pub invalidate_relationship : GraphCache → String → String → GraphCache
unfolding discard
invalidate_relationship c from_id to_id = record c {
  neighbor_cache = discard (λ _ e. involves from_id e.val || involves to_id e.val) c.neighbor_cache;
  subgraph_cache = [];
}
