-- ===== src/Storage/Search.antt =====
-- storage/internal/search/index.go: the worker that keeps one row of the table entity_search for each entity, and the
-- search over these rows.
pub mod Laws
use fun_project.Common.{
  ℕ, String, Bool, true, false, ◌&&◌, ◌||◌, Option, none, some, List, [], ◌∷◌, ◌==◌, if◌then◌else◌,
  join_words,
}
use Prim.Native.String.{◌++◌ as ◌<>◌}
use fun_project.Common.Assoc.{Assoc, at_key, delete_key, set_key}
use fun_project.Storage.Schema.Json.{
  Json, null, boolean, number, text, array, object, Items, nil, cons, Fields, get_field,
}
use fun_project.Storage.Schema.Types.{Entity}
use fun_project.Storage.Session.{Db}
use fun_project.Storage.Graph.{find_entity}
use fun_project.Storage.Query.Listing.{where_rows, limit_to, order_by_name}

-- An empty text is no condition.
pub record SearchOptions : Type 0 where
  pub query : String
  pub namespace : String
  pub entity_type : String
  pub sub_type : String
  pub owner_team : String
  pub criticality : String
  pub maturity : String
  pub velocity : String
  pub is_active : Option Bool

-- A row of entity_search, but for its key
pub record SearchRow : Type 0 where
  pub canonical_name : String
  pub aliases : String
  pub entity_type : String
  pub sub_type : String
  pub namespace : String
  pub owner_team : String
  pub criticality : String
  pub maturity : String
  pub velocity : String
  pub is_active : Bool
  pub architectural_smells : String
  pub tags : String

-- The rows by entity_id, which is the table's primary key
abbrev pub Index : Type 0
Index = Assoc SearchRow

unfoldable pub texts_of : Items → List String
texts_of nil = []
texts_of (cons (text s) items) = s ∷ texts_of items
texts_of (cons _ items) = texts_of items

unfoldable pub extract_string_slice : Fields → String → List String
unfolding texts_of get_field
extract_string_slice m key = elim (get_field key m) [
  | some (array items) ↦ texts_of items
  | some (text s) ↦ s ∷ []
  | _ ↦ []
]

unfoldable pub same_truth_value : Bool → Bool → Bool
same_truth_value true b = b
same_truth_value false true = false
same_truth_value false false = true

-- `printed` is fmt.Sprintf("%v", v), and `like` the LIKE of SQLite, first the pattern.
module _ (printed : Json → String) (like : String → String → Bool) where
  unfoldable pub extract_string : Fields → String → String
  unfolding get_field
  extract_string m key = elim (get_field key m) [
    | none ↦ ""
    | some (text s) ↦ s
    | some v ↦ printed v
  ]

  -- The values of the INSERT
  unfoldable pub search_row : Entity → SearchRow
  unfolding extract_string extract_string_slice join_words
  search_row e =
      let team = extract_string e.properties "owner_team" in
      record {
        canonical_name = e.canonical_name;
        aliases = join_words (extract_string_slice e.properties "aliases");
        entity_type = e.type;
        sub_type = e.sub_type;
        namespace = e.namespace;
        owner_team = if team == "" then extract_string e.properties "owner" else team;
        criticality = extract_string e.properties "criticality";
        maturity = extract_string e.properties "maturity";
        velocity = extract_string e.properties "velocity";
        is_active = e.is_active;
        architectural_smells =
            join_words (extract_string_slice e.properties "architectural_smells");
        tags = join_words (extract_string_slice e.properties "tags");
      }

  unfoldable pub index_found : String → Option Entity → Index → Index
  unfolding search_row set_key delete_key
  index_found id none index = delete_key index id
  index_found id (some e) index = set_key index e.id (search_row e)

  unfoldable pub index_entity : Db → String → Index → Index
  unfolding index_found find_entity
  index_entity db id index = index_found id (find_entity id db) index

  -- What the worker makes of the ids in the queue, in their order, while the table stays as it is
  unfoldable pub drain : Db → List String → Index → Index
  unfolding index_entity
  drain db [] index = index
  drain db (id ∷ ids) index = drain db ids (index_entity db id index)

  -- One condition of the WHERE
  unfoldable pub wants : String → String → Bool
  wants option column = option == "" || column == option

  unfoldable pub wants_activity : Option Bool → Bool → Bool
  unfolding same_truth_value
  wants_activity none b = true
  wants_activity (some a) b = same_truth_value a b

  unfoldable pub wants_text : String → SearchRow → Bool
  wants_text query s =
      query == ""
      || like ("%" <> (query <> "%")) s.canonical_name
      || like ("%" <> (query <> "%")) s.aliases
      || like ("%" <> (query <> "%")) s.tags

  unfoldable pub matches : SearchOptions → SearchRow → Bool
  unfolding wants wants_activity wants_text
  matches o s =
      wants o.namespace s.namespace
      && wants o.entity_type s.entity_type
      && wants o.sub_type s.sub_type
      && wants o.owner_team s.owner_team
      && wants o.criticality s.criticality
      && wants o.maturity s.maturity
      && wants o.velocity s.velocity
      && wants_activity o.is_active s.is_active
      && wants_text o.query s

  unfoldable pub joined_matches : SearchOptions → Option SearchRow → Bool
  unfolding matches
  joined_matches o none = false
  joined_matches o (some s) = matches o s

  -- entities e JOIN entity_search s ON e.id = s.entity_id WHERE …
  unfoldable pub found_by : SearchOptions → Index → Db → List Entity
  unfolding where_rows joined_matches at_key
  found_by o index db =
      where_rows (λ (e : Entity). joined_matches o (at_key index e.id)) db.entities

  unfoldable pub search : SearchOptions → Index → Db → List Entity
  unfolding found_by limit_to order_by_name
  search o index db = limit_to 200 (order_by_name (found_by o index db))
