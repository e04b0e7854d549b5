-- ===== src/Serving/Planner.antt =====
-- serving/internal/planner/planner.go: from a classified question to the call that answers it.
pub mod Laws
use Prim.Native.Char.{Char, code}
use fun_project.Common.{
  ℕ, zero, suc, String, Bool, true, false, ◌&&◌, Option, none, some, List, [], ◌∷◌, ◌==◌, ltb,
  nat_eq, if◌then◌else◌, trim_space,
}
use fun_project.Common.Exec.{Result, ok, err}
use fun_project.Storage.Query.{ℤ, pos, negsuc, Direction, both}
use fun_project.Serving.Intent.{
  Archetype, structural, runtime, temporal, impact, governance, Classification, classify,
}

pub data Action : Type 0 where
  fetch_neighborhood : Action
  list_namespace : Action
  read_log : Action
  impact_analysis : Action
  health_audit : Action

-- FromEntryID is never set.
pub record Plan : Type 0 where
  pub action : Action
  pub entity_name : String
  pub namespace : String
  pub depth : ℤ
  pub direction : Option Direction
  pub notes : String

pub record Request : Type 0 where
  pub question : String
  pub namespace : String
  pub entity_name : String
  pub depth : ℤ

pub data PlanError : Type 0 where
  missing_namespace : PlanError
  impact_needs_entity : PlanError
  structural_needs_entity : PlanError

unfoldable pub max_or : ℤ → ℤ → ℤ
max_or (pos a) (pos b) = if ltb b a then pos a else pos b
max_or (pos a) (negsuc b) = pos a
max_or (negsuc a) (pos b) = pos b
max_or (negsuc a) (negsuc b) = if ltb a b then negsuc a else negsuc b

-- The text behind the first character of that code
unfoldable pub text_after : ℕ → String → Option String
text_after d String.[] = none
text_after d (String.◌∷◌ c s) =
    let rest = text_after d s in if nat_eq (code c) d then some s else rest

-- The text in front of it
unfoldable pub text_before : ℕ → String → Option String
text_before d String.[] = none
text_before d (String.◌∷◌ c s) =
    let rest = text_before d s in
    if nat_eq (code c) d
    then some ""
    else elim rest [ some t ↦ some (String.◌∷◌ c t) | none ↦ none ]

-- What stands between the first two of them, if it is not empty
unfoldable pub quoted : ℕ → String → Option String
unfolding text_after text_before
quoted d q = elim (text_after d q) [
  | none ↦ none
  | some rest ↦ elim (text_before d rest) [
    | none ↦ none
    | some t ↦ if t == "" then none else some t
  ]
]

-- By backticks, then by double quotes
unfoldable pub extract_entity_hint : String → String
unfolding quoted trim_space
extract_entity_hint q = elim (quoted 0x60 q) [
  | some t ↦ trim_space t
  | none ↦ elim (quoted 0x22 q) [ some t ↦ trim_space t | none ↦ "" ]
]

unfoldable pub entity_of : Request → String
unfolding extract_entity_hint
entity_of req = if req.entity_name == "" then extract_entity_hint req.question else req.entity_name

unfoldable pub default_depth : ℤ → ℤ
default_depth (pos n) = if nat_eq n 0 then pos 2 else pos n
default_depth (negsuc n) = negsuc n

-- The switch on the archetype
unfoldable pub plan_for : Archetype → Request → Result PlanError Plan
unfolding entity_of default_depth max_or
plan_for impact req =
    if entity_of req == ""
    then err impact_needs_entity
    else ok (record {
      action = impact_analysis;
      entity_name = entity_of req;
      namespace = req.namespace;
      depth = max_or (default_depth req.depth) (pos 5);
      direction = none;
      notes = "";
    })
plan_for governance req =
    if req.namespace == ""
    then err missing_namespace
    else ok (record {
      action = health_audit;
      entity_name = "";
      namespace = req.namespace;
      depth = pos 0;
      direction = none;
      notes = "";
    })
plan_for temporal req = ok (record {
  action = read_log;
  entity_name = "";
  namespace = req.namespace;
  depth = pos 0;
  direction = none;
  notes = "temporal queries currently replay the delta log; snapshots are not yet wired up";
})
plan_for _ req =
    if entity_of req == ""
    then err structural_needs_entity
    else ok (record {
      action = fetch_neighborhood;
      entity_name = entity_of req;
      namespace = req.namespace;
      depth = default_depth req.depth;
      direction = some both;
      notes = "";
    })

unfoldable pub make : Request → Result PlanError Plan × Classification
unfolding plan_for classify
make req = let cls : Classification = classify req.question in (plan_for cls.archetype req, cls)
