-- ===== src/Ingestion/Stores.antt =====
-- checkpoint/store.go, ledger/ledger.go and dlq/dlq.go: what ingestion keeps on disk. Every call of the
-- clock or of the file system takes the next number; `now` and `fault` say what that call gives.
pub mod Laws
pub mod Saves
use Prim.Native.Char.{code}
use Prim.Native.String.{◌++◌ as ◌<>◌}
use fun_project.Common.{
  ℕ, zero, suc, ◌+◌, ◌-◌, String, Bool, true, false, ◌&&◌, ◌||◌, Option, none, some, List, [], ◌∷◌,
  ◌++◌, ◌==◌, leb, ltb, nat_eq, length, if◌then◌else◌,
}
use fun_project.Common.Exec.{Result, ok, err}
use fun_project.Common.Assoc.{Assoc, at_key, set_key}
use fun_project.Storage.Schema.Types.{Time, zero_time, is_zero}
use fun_project.Nif.{Entity, Relationship, Batch, Rejection}
use fun_project.Ingestion.Dispatch.{Status}

-- checkpoint.Record
pub record CheckpointRecord : Type 0 where
  pub source_id : String
  pub position : String
  pub updated_at : Time
  pub generation : ℕ

-- ledger.Entry
pub record Entry : Type 0 where
  pub run_id : String
  pub ingestor_id : String
  pub source_id : String
  pub trigger_type : String
  pub started_at : Time
  pub completed_at : Time
  pub duration_ms : ℕ
  pub fetched : ℕ
  pub transformed : ℕ
  pub emitted : ℕ
  pub failed_records : ℕ
  pub skipped : ℕ
  pub checkpoint_before : String
  pub checkpoint_after : String
  pub errors : List String
  pub status : Status

pub data FailureStage : Type 0 where
  connector parsing normalization delivery : FailureStage

-- What pushDLQ is given to encode
pub data Original : Type 0 where
  of_entity : Entity → Original
  of_relationship : Relationship → Original
  of_batch : Batch → Original

pub data Reason : Type 0 where
  refused : Rejection → Reason
  undelivered : String → Reason

-- dlq.Entry
pub record DeadLetter : Type 0 where
  pub original_record : String
  pub reason : Reason
  pub stage : FailureStage
  pub failed_at : Time
  pub retry_count : ℕ
  pub ingestion_run : String

-- `checkpoints` has the files of the store's directory, decoded, by their names without ".json"; a line
-- of the ledger that is not JSON is `none`; the queue may be nil. `calls` counts the calls so far.
pub record World (S : Type 0) : Type 0 where
  pub checkpoints : Assoc (Result String CheckpointRecord)
  pub ledger : List (Option Entry)
  pub dlq : Option (List DeadLetter)
  pub delivered : S
  pub calls : ℕ

abbrev pub tick : {S : Type 0} → World S → World S
tick w = record w { calls = suc w.calls }

-- An underscore for each byte of a character
unfoldable pub underscores : ℕ → String
underscores c =
    if ltb c 0x80
    then "_"
    else (if ltb c 0x800 then "__" else (if ltb c 0x10000 then "___" else "____"))

unfoldable pub portable : ℕ → Bool
portable c =
    leb 0x61 c && leb c 0x7a
    || leb 0x41 c && leb c 0x5a
    || leb 0x30 c && leb c 0x39
    || nat_eq c 0x2d
    || nat_eq c 0x5f
    || nat_eq c 0x2e

unfoldable pub portable_text : String → String
unfolding underscores portable
portable_text String.[] = ""
portable_text (String.◌∷◌ c s) =
    let rest = portable_text s in
    if portable (code c) then String.◌∷◌ c rest else underscores (code c) <> rest

unfoldable pub sanitize : String → String
unfolding portable_text
sanitize s = if portable_text s == "" then "default" else portable_text s

abbrev pub fresh_record : String → CheckpointRecord
fresh_record source_id = record {
  source_id = source_id;
  position = "";
  updated_at = zero_time;
  generation = 0;
}

unfoldable pub decode_checkpoint :
    String → Option (Result String CheckpointRecord) → Result String CheckpointRecord
decode_checkpoint id none = ok (fresh_record id)
decode_checkpoint id (some (err why)) = err ("decode checkpoint " <> id <> ": " <> why)
decode_checkpoint id (some (ok r)) = ok r

unfoldable pub read_checkpoint :
    String
    → Option String
    → Option (Result String CheckpointRecord)
    → Result String CheckpointRecord
unfolding decode_checkpoint
read_checkpoint id (some why) file = err ("read checkpoint " <> id <> ": " <> why)
read_checkpoint id none file = decode_checkpoint id file

-- Tail, of the lines of the file: the last ones, newest first. A limit that is not positive is 0.
unfoldable pub decoded_lines : List (Option Entry) → List Entry
decoded_lines [] = []
decoded_lines (none ∷ lines) = decoded_lines lines
decoded_lines (some e ∷ lines) = e ∷ decoded_lines lines

unfoldable pub reverse_onto : List Entry → List Entry → List Entry
reverse_onto [] acc = acc
reverse_onto (e ∷ es) acc = reverse_onto es (e ∷ acc)

unfoldable pub drop_first : ℕ → List Entry → List Entry
drop_first zero es = es
drop_first (suc n) [] = []
drop_first (suc n) (e ∷ es) = drop_first n es

unfoldable pub tail_entries : List (Option Entry) → ℕ → List Entry
unfolding decoded_lines reverse_onto drop_first
tail_entries lines limit =
    let all = decoded_lines lines in
    reverse_onto
      (if ltb 0 limit && ltb limit (length all) then drop_first (length all - limit) all else all)
      []

module _ {S : Type 0} (now : ℕ → Time) (fault : ℕ → Option String) where
  -- Load
  unfoldable pub load : String → World S → Result String CheckpointRecord × World S
  unfolding sanitize read_checkpoint
  load id w = (read_checkpoint id (fault w.calls) (at_key w.checkpoints (sanitize id)), tick w)

  -- os.Rename of the temporary file, which nothing else reads
  unfoldable pub rename_checkpoint :
      Option String → String → CheckpointRecord → World S → Result String Unit × World S
  rename_checkpoint (some why) id r w = (err ("rename checkpoint: " <> why), tick w)
  rename_checkpoint none id r w =
      (ok tt, tick (record w { checkpoints = set_key w.checkpoints (sanitize id) (ok r) }))

  -- os.WriteFile of the temporary file
  unfoldable pub write_checkpoint :
      Option String → String → CheckpointRecord → World S → Result String Unit × World S
  unfolding rename_checkpoint
  write_checkpoint (some why) id r w = (err ("write checkpoint tmp: " <> why), tick w)
  write_checkpoint none id r w = rename_checkpoint (fault (suc w.calls)) id r (tick w)

  unfoldable pub save_next :
      Result String CheckpointRecord → String → String → World S → Result String Unit × World S
  unfolding write_checkpoint
  save_next (err why) id position w = (err why, w)
  save_next (ok prev) id position w =
      write_checkpoint (fault (suc w.calls)) id
        (record {
          source_id = id;
          position = position;
          updated_at = now w.calls;
          generation = prev.generation + 1;
        })
        (tick w)

  -- Save
  unfoldable pub save : String → String → World S → Result String Unit × World S
  unfolding load save_next
  save id position w = let (prev, w1) = load id w in save_next prev id position w1

  unfoldable pub add_line : Option String → Entry → World S → World S
  add_line (some why) e w = tick w
  add_line none e w = tick (tick (record w { ledger = w.ledger ++ some e ∷ [] }))

  -- Append of an open ledger. Its errors are only logged; Sync is the second call.
  unfoldable pub append_entry : Entry → World S → World S
  unfolding add_line
  append_entry e w = add_line (fault w.calls) e w

  unfoldable pub add_letter : Option String → DeadLetter → List DeadLetter → World S → World S
  add_letter (some why) d ds w = tick w
  add_letter none d ds w = tick (tick (record w { dlq = some (ds ++ d ∷ []) }))

  -- Push to an open queue; pushDLQ drops its error.
  unfoldable pub push : DeadLetter → List DeadLetter → World S → World S
  unfolding add_letter is_zero
  push d ds w =
      if is_zero d.failed_at
      then add_letter (fault (suc w.calls)) (record d { failed_at = now w.calls }) ds (tick w)
      else add_letter (fault w.calls) d ds w
