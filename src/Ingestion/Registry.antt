-- ===== src/Ingestion/Registry.antt =====
-- orchestrator/registry.go: the ingestors by their ids.
pub mod Laws
use fun_project.Common.{String, Option, none, some, List, map, ◌==◌, if◌then◌else◌}
use fun_project.Common.Exec.{Result, ok, err}
use fun_project.Common.Assoc.{Assoc, at_key, delete_key, set_key}
use fun_project.Common.Sort.{sort_by}
use fun_project.Ingestion.Contract.{Ingestor, Metadata}

abbrev pub Registry : Type 0
Registry = Assoc Ingestor

abbrev pub id_of : Ingestor → String
id_of i = i.metadata.id

pub data RegisterError : Type 0 where
  nil_ingestor id_required : RegisterError
  invalid_config : String → RegisterError
  already_registered : String → RegisterError

unfoldable pub add_new : Ingestor → Option Ingestor → Registry → Result RegisterError Registry
unfolding set_key
add_new i (some other) r = err (already_registered (id_of i))
add_new i none r = ok (set_key r (id_of i) i)

unfoldable pub register_valid : Ingestor → Option String → Registry → Result RegisterError Registry
unfolding add_new
register_valid i (some why) r = err (invalid_config why)
register_valid i none r = add_new i (at_key r (id_of i)) r

-- Register; `none` is the nil ingestor.
unfoldable pub register : Option Ingestor → Registry → Result RegisterError Registry
unfolding register_valid
register none r = err nil_ingestor
register (some i) r = if id_of i == "" then err id_required else register_valid i i.config_error r

-- Get
unfoldable pub get_ingestor : Registry → String → Option Ingestor
unfolding at_key
get_ingestor r id = at_key r id

-- Unregister
unfoldable pub unregister : String → Registry → Registry
unfolding delete_key
unregister id r = delete_key r id

-- List
unfoldable pub list_ingestors : Registry → List Ingestor
unfolding sort_by
list_ingestors r = sort_by id_of (map (λ e. e.1) r)

-- Metadata
unfoldable pub list_metadata : Registry → List Metadata
unfolding list_ingestors
list_metadata r = map (λ i. i.metadata) (list_ingestors r)
