-- ===== src/Nif/Id.antt =====
-- nif/id.go: the deterministic ids; `hex_sha256` is the digest of a text in hexadecimal, of which the
-- first 16 bytes are kept.
use Prim.Native.String.{slice, ◌++◌}
use fun_project.Common.{String, List, [], ◌∷◌}

-- strings.Join(fields, "\x1f")
unfoldable pub join_fields : List String → String
join_fields [] = ""
join_fields (f ∷ []) = f
join_fields (f ∷ g ∷ fields) = f ++ "\u{1f}" ++ join_fields (g ∷ fields)

module _ (hex_sha256 : String → String) where
  unfoldable pub hash_fields : List String → String
  unfolding join_fields
  hash_fields fields = slice (hex_sha256 (join_fields fields)) 0 32

  -- DeterministicEntityID
  unfoldable pub nif_entity_id : String → String → String → String → String → String
  unfolding hash_fields
  nif_entity_id source_type source_id type canonical_name namespace =
      "ent_" ++ hash_fields (source_type ∷ source_id ∷ type ∷ canonical_name ∷ namespace ∷ [])

  -- DeterministicRelationshipID
  unfoldable pub nif_relationship_id : String → String → String → String → String
  unfolding hash_fields
  nif_relationship_id type from_id to_id source_type =
      "rel_" ++ hash_fields (type ∷ from_id ∷ to_id ∷ source_type ∷ [])
