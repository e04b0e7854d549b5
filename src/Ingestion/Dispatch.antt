-- ===== src/Ingestion/Dispatch.antt =====
-- The dispatch loop of RunAll in orchestrator/runner.go. Its lock is held for a whole scan of the plan
-- and given up only while the loop waits, so a scan is one step and the end of an ingestor another.
pub mod Steps
pub mod Progress
use fun_project.Common.{
  ℕ, String, Option, none, some, Bool, true, false, not, List, [], ◌∷◌, ◌++◌, ◌≡◌, map, ◌==◌,
  mem_text, if◌then◌else◌,
}
use fun_project.Common.Assoc.{Assoc, at_key, set_key, keys}
use fun_project.Common.Sort.{sort_by}
use fun_project.Ingestion.Contract.{Ingestor}
use fun_project.Ingestion.Registry.{id_of}

-- ledger.Status
pub data Status : Type 0 where
  success partial failed : Status

-- `duration` is in milliseconds, as the ledger has it.
pub record IngestorRun : Type 0 where
  pub ingestor_id : String
  pub source_id : String
  pub status : Status
  pub emitted : ℕ
  pub failed_records : ℕ
  pub skipped : ℕ
  pub duration : ℕ
  pub error : String

-- What the lock protects; `running` are the goroutines that have not come back.
pub record Board : Type 0 where
  pub pending : List String
  pub running : List String
  pub done : Assoc Status
  pub results : Assoc IngestorRun

-- delete(pending, id), and the end of a goroutine
unfoldable pub drop_text : String → List String → List String
drop_text k [] = []
drop_text k (x ∷ xs) = let rest = drop_text k xs in if x == k then rest else x ∷ rest

-- A partial run counts as done.
unfoldable pub good_status : Option Status → Bool
good_status none = false
good_status (some failed) = false
good_status (some success) = true
good_status (some partial) = true

unfoldable pub deps_satisfied : List String → Assoc Status → Bool
unfolding good_status
deps_satisfied [] done = true
deps_satisfied (d ∷ ds) done =
    let rest = deps_satisfied ds done in if good_status (at_key done d) then rest else false

unfoldable pub failed_status : Option Status → Bool
failed_status (some failed) = true
failed_status _ = false

unfoldable pub any_dep_failed : List String → Assoc Status → Bool
unfolding failed_status
any_dep_failed [] done = false
any_dep_failed (d ∷ ds) done =
    let rest = any_dep_failed ds done in if failed_status (at_key done d) then true else rest

abbrev pub skipped_run : Ingestor → IngestorRun
skipped_run ing = record {
  ingestor_id = id_of ing;
  source_id = ing.metadata.source_type;
  status = failed;
  emitted = 0;
  failed_records = 0;
  skipped = 0;
  duration = 0;
  error = "skipped: upstream dependency failed";
}

abbrev pub dispatch : String → Board → Board
dispatch id b = record b { pending = drop_text id b.pending; running = b.running ++ id ∷ [] }

abbrev pub settle : String → IngestorRun → Board → Board
settle id res b = record b {
  done = set_key b.done id res.status;
  results = set_key b.results id res;
}

abbrev pub skip : Ingestor → Board → Board
skip ing b =
    settle (id_of ing) (skipped_run ing) (record b { pending = drop_text (id_of ing) b.pending })

-- The body of the loop over the plan; the flag is `progress`.
unfoldable pub look_at : Ingestor → Board × Bool → Board × Bool
unfolding drop_text deps_satisfied any_dep_failed
look_at ing (b, progress) =
    if not (mem_text (id_of ing) b.pending)
    then (b, progress)
    else (if deps_satisfied ing.metadata.dependencies b.done
        then (dispatch (id_of ing) b, true)
        else (if any_dep_failed ing.metadata.dependencies b.done
            then (skip ing b, true)
            else (b, progress)))

-- One scan of the plan
unfoldable pub scan : List Ingestor → Board × Bool → Board × Bool
scan [] c = c
scan (ing ∷ plan) c = scan plan (look_at ing c)

-- A goroutine comes back with its result.
unfoldable pub come_back : String → IngestorRun → Board → Board
unfolding drop_text
come_back id res b = settle id res (record b { running = drop_text id b.running })

abbrev pub start_board : List Ingestor → Board
start_board plan = record { pending = map id_of plan; running = []; done = []; results = [] }

-- The results of the summary, in the order of their ids
unfoldable pub summary_results : Board → Assoc IngestorRun
unfolding sort_by
summary_results b = sort_by (λ e. e.0) b.results

pub data Step (plan : List Ingestor) : Board → Board → Type 0 where
  scanned : (b : Board) → Step plan b (scan plan (b, false)).0
  returned :
      (b : Board) (id : String) (res : IngestorRun)
      → mem_text id b.running ≡ true
      → Step plan b (come_back id res b)

-- Any number of steps from the start
pub data Reached (plan : List Ingestor) : Board → Type 0 where
  begun : Reached plan (start_board plan)
  then_step : (b b' : Board) → Reached plan b → Step plan b b' → Reached plan b'
