-- ===== src/Ingestion/Plan.antt =====
-- topoOrder of orchestrator/runner.go: a depth-first search with colors that finds an order of the
-- ingestors, or a cycle.
pub mod Order
pub mod Coloring
pub mod Visit
pub mod Outcome
pub mod Acyclic
use fun_project.Common.{ℕ, zero, suc, String, Option, none, some, List, [], ◌∷◌, ◌++◌, map}
use fun_project.Common.Exec.{Result, ok, err, and_then}
use fun_project.Common.Assoc.{Assoc, at_key, set_key, keys}
use fun_project.Common.Sort.{sort_by}
use fun_project.Common.{length}
use fun_project.Ingestion.Contract.{Ingestor}
use fun_project.Ingestion.Registry.{id_of}

-- 1 and 2 of the source; an id without a color is unseen.
pub data Color : Type 0 where
  in_progress finished : Color

pub data PlanError : Type 0 where
  cycle : List String → String → PlanError
  unregistered : String → List String → PlanError
  out_of_fuel : PlanError

pub record Marks : Type 0 where
  pub color : Assoc Color
  pub order : List Ingestor

-- byID: a later ingestor takes the place of an earlier one with its id.
unfoldable pub index_by_id : Assoc Ingestor → List Ingestor → Assoc Ingestor
unfolding set_key
index_by_id m [] = m
index_by_id m (i ∷ ings) = index_by_id (set_key m (id_of i) i) ings

-- The loop over dependencies or over ids
unfoldable pub visit_each :
    (String → Marks → Result PlanError Marks) → List String → Marks → Result PlanError Marks
visit_each f [] st = ok st
visit_each f (d ∷ ds) st = and_then (f d st) (visit_each f ds)

abbrev pub mark : String → Color → Marks → Marks
mark id c st = record st { color = set_key st.color id c }

unfoldable pub finish_visit : String → Ingestor → Marks → Result PlanError Marks
unfolding set_key
finish_visit id ing st =
    ok (record st { color = set_key st.color id finished; order = st.order ++ ing ∷ [] })

module _ (by_id : Assoc Ingestor) where
  -- The branches of the recursive function: what it does with an id's color and ingestor.
  unfoldable pub by_color :
      (String → Marks → Result PlanError Marks)
      → String
      → List String
      → Option Color
      → Option Ingestor
      → Marks
      → Result PlanError Marks
  unfolding visit_each finish_visit
  by_color f id stack (some in_progress) ing st = err (cycle stack id)
  by_color f id stack (some finished) ing st = ok st
  by_color f id stack none none st = err (unregistered id stack)
  by_color f id stack none (some ing) st =
      and_then (visit_each f ing.metadata.dependencies (mark id in_progress st))
        (finish_visit id ing)

  -- visit; the fuel bounds the depth of the recursion.
  unfoldable pub visit : ℕ → String → List String → Marks → Result PlanError Marks
  unfolding by_color
  visit zero id stack st = err out_of_fuel
  visit (suc fuel) id stack st =
      by_color (λ dep. visit fuel dep (stack ++ id ∷ [])) id stack (at_key st.color id)
        (at_key by_id id) st

abbrev pub no_marks : Marks
no_marks = record { color = []; order = [] }

abbrev pub sorted_ids : Assoc Ingestor → List String
sorted_ids by_id = sort_by (λ id. id) (keys by_id)

unfoldable pub plan_marks : Assoc Ingestor → Result PlanError Marks
unfolding visit visit_each
plan_marks by_id =
    visit_each (λ id. visit by_id (suc (length (keys by_id))) id []) (sorted_ids by_id) no_marks

-- topoOrder
unfoldable pub topo_order : List Ingestor → Result PlanError (List Ingestor)
unfolding index_by_id plan_marks
topo_order ings = and_then (plan_marks (index_by_id [] ings)) (λ st. ok st.order)
