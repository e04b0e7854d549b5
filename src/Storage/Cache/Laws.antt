-- ===== src/Storage/Cache/Laws.antt =====
-- What the methods of the cache do to what it serves.
use fun_project.Common.{
  ◌+◌, String, none, some, [], ◌∷◌, ◌==◌, ltb, if◌then◌else◌, ◌≡◌, arith, eq_iff,
}
use fun_project.Storage.Schema.Types.{Time, Entity}
use fun_project.Storage.Cache.{
  GraphCache, CacheEntry, Layer, entry_at, put_entry, discard, get_entity, set_entity,
  invalidate_entity,
}

module _ {V : Type 0} where
  entry_at-discard :
      (layer : Layer V) (id key : String)
      → entry_at (discard (λ j _. j == id) layer) key
        ≡ (if key == id then none else entry_at layer key)
  unfolding entry_at discard
  entry_at-discard [] id key = ground arith
  entry_at-discard ((j, e) ∷ layer) id key =
      ground (arith, entry_at-discard layer id key, eq_iff j id, eq_iff j key, eq_iff key id)

  entry_at-put_entry :
      (layer : Layer V) (id key : String) (e : CacheEntry V)
      → entry_at (put_entry layer id e) key ≡ (if id == key then some e else entry_at layer key)
  unfolding entry_at put_entry
  entry_at-put_entry layer id key e =
      ground (arith, entry_at-discard layer id key, eq_iff id key, eq_iff key id)

-- After InvalidateEntity nothing is served for that id, and for the other ids what was served.
pub get_entity-invalidate_entity :
    (c : GraphCache) (now : Time) (k id : String)
    → get_entity (invalidate_entity c id) now k ≡ (if k == id then none else get_entity c now k)
unfolding get_entity invalidate_entity
get_entity-invalidate_entity c now k id = ground (arith, entry_at-discard c.entity_cache id k)

-- An entity that was stored at `stored` is served for five minutes, to the nanosecond, unless it is
-- invalidated, and it hides no other one.
pub get_entity-set_entity :
    (c : GraphCache) (stored now : Time) (id k : String) (e : Entity)
    → get_entity (set_entity c stored id e) now k ≡ (
        if id == k
        then (if ltb (stored + 300000000000) now then none else some e)
        else get_entity c now k)
unfolding get_entity set_entity
get_entity-set_entity c stored now id k e = ground (
  arith,
  entry_at-put_entry c.entity_cache id k (record { val = e; expires_at = stored + 300000000000 }),
)
