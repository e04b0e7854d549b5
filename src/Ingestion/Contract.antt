-- ===== src/Ingestion/Contract.antt =====
-- ingestor/contract.go and delivery/sink.go: what an ingestor and a sink promise to the runner.
use fun_project.Common.{ℕ, ◌+◌, String, Option, List}
use fun_project.Common.Exec.{Result}
use fun_project.Nif.{Batch}

pub record Metadata : Type 0 where
  pub id : String
  pub name : String
  pub source_type : String
  pub connector_type : String
  pub version : String
  pub dependencies : List String

-- What Fetch returns: a batch with the next checkpoint, or an error.
pub record Fetched : Type 0 where
  pub batch : Batch
  pub next_checkpoint : String

-- `config_error` is what ValidateConfig returns; `fetch` takes the run's id and the checkpoint.
pub record Ingestor : Type 0 where
  pub metadata : Metadata
  pub config_error : Option String
  pub fetch : String → String → Result String Fetched

pub record PublishResult : Type 0 where
  pub entities_emitted : ℕ
  pub relationships_emitted : ℕ
  pub failed : ℕ

-- A sink over the state `S` of what it delivers to.
pub record Sink (S : Type 0) : Type 0 where
  pub publish : Batch → S → Result String PublishResult × S

abbrev pub emitted : PublishResult → ℕ
emitted r = r.entities_emitted + r.relationships_emitted
