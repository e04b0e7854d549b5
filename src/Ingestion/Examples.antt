-- ===== src/Ingestion/Examples.antt =====
-- The ingestors, the sink and the files of the tests.
use fun_project.Common.{ℕ, String, Option, none, some, false, List, [], ◌∷◌, length}
use fun_project.Common.Exec.{ok}
use fun_project.Storage.Schema.Float.{float_one}
use fun_project.Storage.Schema.Json.{end}
use fun_project.Nif.{SourceInfo, Entity, Relationship}
use fun_project.Ingestion.Contract.{Ingestor, Sink}
use fun_project.Ingestion.Stores.{World, Original}

abbrev pub seen_once : SourceInfo
seen_once = record { source_type = "git"; source_id = "repo"; source_ref = "main"; observed_at = 5 }

abbrev pub service : Entity
service = record {
  id = "ent_a";
  type = "SERVICE";
  sub_type = "";
  name = "payments";
  raw_name = "payments";
  namespace = "default";
  source = seen_once;
  properties = end;
  confidence = float_one;
  is_partial = false;
  ingestion_run = "run_1";
}

abbrev pub nameless : Entity
nameless = record service { name = "" }

abbrev pub calls : Relationship
calls = record {
  id = "rel_a";
  type = "CALLS";
  from_entity_id = "ent_a";
  to_entity_id = "ent_b";
  source = seen_once;
  properties = end;
  confidence = float_one;
  is_inferred = false;
  ingestion_run = "run_1";
}

abbrev pub fetching : String → List String → List Entity → Ingestor
fetching id deps es = record {
  metadata = record {
    id = id;
    name = id;
    source_type = "git";
    connector_type = "fs";
    version = "1";
    dependencies = deps;
  };
  config_error = none;
  fetch = λ run_id position. ok (record {
    batch = record { entities = es; relationships = calls ∷ [] };
    next_checkpoint = "sha_2";
  });
}

abbrev pub git : Ingestor
git = fetching "git" [] (service ∷ [])

abbrev pub ast : Ingestor
ast = fetching "ast" ("git" ∷ []) (service ∷ nameless ∷ [])

-- A sink that counts what it is given
abbrev pub counting : Sink ℕ
counting = record {
  publish = λ b n. (
    ok (record {
      entities_emitted = length b.entities;
      relationships_emitted = length b.relationships;
      failed = 0;
    }),
    n,
  );
}

abbrev pub no_fault : ℕ → Option String
no_fault n = none

abbrev pub clock : ℕ → ℕ
clock n = n

abbrev pub encoded : Original → Option String
encoded o = some "{}"

abbrev pub empty_world : World ℕ
empty_world = record { checkpoints = []; ledger = []; dlq = some []; delivered = 0; calls = 0 }
