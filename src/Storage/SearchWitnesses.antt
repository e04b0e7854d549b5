-- ===== src/Storage/SearchWitnesses.antt =====
-- The index after one batch and one step of its worker, and the theorem on searches at it.
use fun_project.Common.{
  ◌≤◌, String, Bool, true, some, [], ◌∷◌, ◌≡◌, refl, ◌↔◌, length, arith, map, ◌==◌,
}
use fun_project.Common.Sort.{Listed}
use fun_project.Storage.Schema.Json.{Json}
use fun_project.Storage.Schema.Types.{Entity}
use fun_project.Storage.Table.{Row}
use fun_project.Storage.Mutation.Handlers.{normalize_entity}
use fun_project.Storage.Mutation.Batch.{Store, apply_batch}
use fun_project.Storage.Opened.{opened}
use fun_project.Storage.Examples.{sample_env, payments, upserting, empty_store}
use fun_project.Storage.Query.Listing.{where_rows}
use fun_project.Storage.Search.{SearchOptions, search_row, matches, index_entity, found_by, search}
use fun_project.Storage.Search.Laws.{Indexing, Steps, stop, work, batch, search_iff}

abbrev printed : Json → String
printed v = "value"

abbrev like : String → String → Bool
like pattern text = pattern == text

abbrev before : Indexing printed like
before = record { store = empty_store; index = [] }

abbrev committed : Store
committed = (apply_batch sample_env (upserting payments ∷ []) empty_store).1

abbrev after : Indexing printed like
after = record {
  store = record committed { queue = some [] };
  index = index_entity printed like committed.db "ent_a" [];
}

waiting : committed.queue ≡ some ("ent_a" ∷ [])
unfolding opened
waiting = refl

run : Steps printed like before after
run =
    batch before after sample_env (upserting payments ∷ []) [] refl (omega arith)
      (work (record { store = committed; index = [] }) after "ent_a" [] waiting (stop after))

abbrev services : SearchOptions
services = record {
  query = "";
  namespace = "";
  entity_type = "SERVICE";
  sub_type = "";
  owner_team = "";
  criticality = "";
  maturity = "";
  velocity = "";
  is_active = some true;
}

abbrev found : Entity
found = normalize_entity sample_env payments

few : length (found_by printed like services after.index committed.db) ≤ 200
unfolding opened found_by where_rows
few = ground arith

search_iff_example : Listed found (search printed like services after.index committed.db) ↔ (
    Listed found (map (λ (row : Row Entity). row.value) committed.db.entities)
    × (matches printed like services (search_row printed like found) ≡ true))
unfolding opened
search_iff_example =
    search_iff printed like services before after found (record { tables = refl; rows = refl }) run
      refl refl few
