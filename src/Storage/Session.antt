-- ===== src/Storage/Session.antt =====
-- What one call of ApplyBatch works on: the open transaction's view of the database, the clock, and
-- the result record that the handlers fill.
use fun_project.Common.{ℕ, suc, String, Bool, Option, List, []}
use fun_project.Common.Exec.{Exec, ok}
use fun_project.Storage.Schema.Json.{Fields}
use fun_project.Storage.Schema.Types.{Time, Entity, Relationship}
use fun_project.Storage.Schema.Validate.{Error}
use fun_project.Storage.Table.{Row}

-- `before_state` and `after_state` of the log, kept as the value that was marshalled.
pub data Payload : Type 0 where
  entity : Entity → Payload
  relationship : Relationship → Payload

pub data MutationType : Type 0 where
  entity_created entity_updated entity_soft_deleted entity_restored : MutationType
  relationship_created relationship_updated relationship_deleted : MutationType

-- deltalog.Entry; an empty id stands for NULL.
pub record LogEntry : Type 0 where
  pub entry_id : ℕ
  pub transaction_id : String
  pub mutation_type : MutationType
  pub entity_id : String
  pub relationship_id : String
  pub before_state : Option Payload
  pub after_state : Option Payload
  pub occurred_at : Time
  pub recorded_at : Time

-- The tables that a transaction writes; `last_entry_id` is the AUTOINCREMENT counter of delta_log.
pub record Db : Type 0 where
  pub entities : List (Row Entity)
  pub relationships : List (Row Relationship)
  pub delta_log : List LogEntry
  pub last_entry_id : ℕ

abbrev pub empty_db : Db
empty_db = record { entities = []; relationships = []; delta_log = []; last_entry_id = 0 }

-- What the process takes from outside: the outcomes of BEGIN and COMMIT, the random transaction
-- id, the answer of the n-th call of time.Now, SHA-256 in hexadecimal, and whether json.Marshal
-- encodes a node, an edge or a map of properties (it refuses a NaN and a year above 9999).
pub record Env : Type 0 where
  pub begin_ok : Bool
  pub commit_ok : Bool
  pub txn_id : String
  pub clock : ℕ → Time
  pub hex_sha256 : String → String
  pub marshals : Payload → Bool
  pub marshals_properties : Fields → Bool

pub data MutationKind : Type 0 where
  upsert_entity upsert_relationship soft_delete_entity delete_relationship : MutationKind
  other : String → MutationKind

pub data OperationType : Type 0 where
  -- the zero value, before a handler has set one
  unset : OperationType
  created updated deleted no_change failed : OperationType

-- mutation.Result
pub record OpResult : Type 0 where
  pub index : ℕ
  pub kind : MutationKind
  pub operation : OperationType
  pub entity_id : String
  pub relationship_id : String
  pub log_entry_id : ℕ
  pub error : Option Error

pub record Session : Type 0 where
  pub db : Db
  pub tick : ℕ
  pub result : OpResult
  -- relsToInvalidate
  pub stale_pairs : List (String × String)

abbrev pub Tx : Type 0 → Type 0
Tx A = Exec Session Error A

abbrev pub get_db : Tx Db
get_db s = (ok s.db, s)

abbrev pub put_db : Db → Tx Unit
put_db db s = (ok tt, record s { db = db })

abbrev pub set_result : (OpResult → OpResult) → Tx Unit
set_result f s = (ok tt, record s { result = f s.result })

-- time.Now().UTC()
abbrev pub now : Env → Tx Time
now env s = (ok (env.clock s.tick), record s { tick = suc s.tick })
