-- ===== src/Ingestion/Witnesses.antt =====
-- Concrete plans and dispatches, and the theorems on them at inputs that meet their hypotheses.
use fun_project.Common.{
  String, some, true, false, List, [], ◌∷◌, ◌≡◌, ◌≢◌, ◌⊎◌, ◌↔◌, ◌<◌, inl, inr, refl, mem_text,
  is_none,
}
use fun_project.Common.Exec.{ok, err}
use fun_project.Common.Assoc.{at_key}
use fun_project.Ingestion.Contract.{Ingestor}
use fun_project.Ingestion.Registry.{Registry, register, already_registered}
use fun_project.Ingestion.Registry.Laws.{HasAlso, IsWelcome, register_iff}
use fun_project.Ingestion.Plan.{index_by_id, topo_order, cycle, unregistered, out_of_fuel}
use fun_project.Ingestion.Plan.Order.{IsPlan, ids}
use fun_project.Ingestion.Plan.Outcome.{topo_order_ends, topo_order-IsPlan}
use fun_project.Ingestion.Plan.Acyclic.{IsAcyclic, topo_order_iff}
use fun_project.Ingestion.Dispatch.{
  IngestorRun, Board, success, good_status, scan, start_board, Step, scanned, returned, Reached,
  begun, then_step,
}
use fun_project.Ingestion.Dispatch.Steps.{status_of}
use fun_project.Ingestion.Dispatch.Progress.{
  deps_before, scan_never_stalls, left_to_do, Step-left_to_do, finished_results,
}
use fun_project.Ingestion.Opened.{opened}
use fun_project.Ingestion.Examples.{git, ast, fetching}

abbrev both : List Ingestor
both = ast ∷ git ∷ []

abbrev planned : List Ingestor
planned = git ∷ ast ∷ []

dependency_first : topo_order both ≡ ok planned
unfolding opened
dependency_first = refl

loop_found :
    topo_order (fetching "a" ("b" ∷ []) [] ∷ fetching "b" ("a" ∷ []) [] ∷ [])
    ≡ err (cycle ("a" ∷ "b" ∷ []) "a")
unfolding opened
loop_found = refl

stranger_found : topo_order (ast ∷ []) ≡ err (unregistered "git" ("ast" ∷ []))
unfolding opened
stranger_found = refl

topo_order_ends_example : topo_order both ≢ err out_of_fuel
topo_order_ends_example = topo_order_ends both

topo_order-IsPlan_example : IsPlan (index_by_id [] both) planned
topo_order-IsPlan_example = topo_order-IsPlan both planned dependency_first

topo_order_iff_example :
    ((order : List Ingestor) × (topo_order both ≡ ok order)) ↔ IsAcyclic (index_by_id [] both)
topo_order_iff_example = topo_order_iff both

register_iff_example :
    ((r' : Registry) × (register (some git) (("ast", ast) ∷ []) ≡ ok r')
      × HasAlso git (("ast", ast) ∷ []) r')
    ↔ IsWelcome git (("ast", ast) ∷ [])
register_iff_example = register_iff git (("ast", ast) ∷ [])

twice_refused : register (some git) (("git", git) ∷ []) ≡ err (already_registered "git")
unfolding opened
twice_refused = refl

abbrev went_well : String → IngestorRun
went_well id = record {
  ingestor_id = id;
  source_id = "git:";
  status = success;
  emitted = 2;
  failed_records = 0;
  skipped = 0;
  duration = 1;
  error = "";
}

-- The first scan starts git, which comes back; the second starts ast.
abbrev first_started : Board
first_started = record { pending = "ast" ∷ []; running = "git" ∷ []; done = []; results = [] }

abbrev first_back : Board
first_back = record {
  pending = "ast" ∷ [];
  running = [];
  done = ("git", success) ∷ [];
  results = ("git", went_well "git") ∷ [];
}

abbrev second_started : Board
second_started = record first_back { pending = []; running = "ast" ∷ [] }

abbrev all_back : Board
all_back = record {
  pending = [];
  running = [];
  done = ("ast", success) ∷ ("git", success) ∷ [];
  results = ("ast", went_well "ast") ∷ ("git", went_well "git") ∷ [];
}

first_scan : Step planned (start_board planned) first_started
unfolding opened
first_scan = scanned (start_board planned)

first_return : Step planned first_started first_back
unfolding opened
first_return = returned first_started "git" (went_well "git") refl

second_scan : Step planned first_back second_started
unfolding opened
second_scan = scanned first_back

second_return : Step planned second_started all_back
unfolding opened
second_return = returned second_started "ast" (went_well "ast") refl

Reached-first_back : Reached planned first_back
Reached-first_back =
    then_step first_started first_back
      (then_step (start_board planned) first_started begun first_scan) first_return

Reached-second : Reached planned second_started
Reached-second = then_step first_back second_started Reached-first_back second_scan

Reached-end : Reached planned all_back
Reached-end = then_step second_started all_back Reached-second second_return

deps_before_example : good_status (at_key second_started.done "git") ≡ true
unfolding opened
deps_before_example =
    deps_before (index_by_id [] both) planned topo_order-IsPlan_example second_started ast "git"
      Reached-second (inr (inl refl)) refl refl

scan_never_stalls_example : (scan planned (first_back, false)).1 ≡ true
unfolding opened
scan_never_stalls_example =
    scan_never_stalls (index_by_id [] both) planned topo_order-IsPlan_example first_back "ast"
      Reached-first_back refl refl

Step-left_to_do_example :
    (first_back ≡ first_started) ⊎ (left_to_do first_back < left_to_do first_started)
Step-left_to_do_example = Step-left_to_do planned first_started first_back first_return

finished_results_example :
    ((mem_text "git" (ids planned) ≡ true) ↔ (is_none (at_key all_back.results "git") ≡ false))
    × (at_key all_back.done "git" ≡ status_of (at_key all_back.results "git"))
finished_results_example =
    finished_results (index_by_id [] both) planned topo_order-IsPlan_example all_back "git"
      Reached-end refl refl
