-- ===== src/Ingestion/RunWitnesses.antt =====
-- Concrete runs of one ingestor, and the theorems on runs, stores and validation at them.
use fun_project.Common.{Option, some, none, [], ◌∷◌, ◌≡◌, ◌≢◌, ◌⊎◌, ◌↔◌, refl, String}
use fun_project.Common.Exec.{ok}
use fun_project.Common.Assoc.{at_key}
use fun_project.Nif.{validate_entity}
use fun_project.Nif.Laws.{IsValidEntity, validate_entity_gate}
use fun_project.Ingestion.Dispatch.{success, partial}
use fun_project.Ingestion.Stores.{CheckpointRecord, Entry, load, save, sanitize, tail_entries}
use fun_project.Ingestion.Stores.Saves.{load-save}
use fun_project.Ingestion.RunOne.{run_one, new_entry}
use fun_project.Ingestion.RunOne.Checkpoints.{IsAdvance, run_one_checkpoints}
use fun_project.Ingestion.RunOne.Complete.{IsComplete, run_one_success}
use fun_project.Ingestion.RunOne.Noted.{IsNoted, run_one_ledger}
use fun_project.Ingestion.Opened.{opened}
use fun_project.Ingestion.Examples.{
  service, nameless, git, ast, counting, no_fault, clock, encoded, empty_world,
}

git_succeeds :
    (run_one clock no_fault encoded counting "run_1" "manual" git empty_world).0.status ≡ success
unfolding opened
git_succeeds = refl

-- The nameless entity is refused, and the run is partial.
ast_is_partial :
    (run_one clock no_fault encoded counting "run_1" "manual" ast empty_world).0.status ≡ partial
unfolding opened
ast_is_partial = refl

run_one_checkpoints_example :
    ((run_one clock no_fault encoded counting "run_1" "manual" git empty_world).1.checkpoints
      ≡ empty_world.checkpoints)
    ⊎ IsAdvance clock no_fault counting "run_1" git empty_world
        (run_one clock no_fault encoded counting "run_1" "manual" git empty_world).1.checkpoints
run_one_checkpoints_example =
    run_one_checkpoints clock no_fault encoded counting "run_1" "manual" git empty_world

run_one_success_example :
    IsComplete clock no_fault counting "run_1" git empty_world
      (run_one clock no_fault encoded counting "run_1" "manual" git empty_world).1.checkpoints
run_one_success_example =
    run_one_success clock no_fault encoded counting "run_1" "manual" git empty_world git_succeeds

run_one_ledger_example :
    IsNoted no_fault "run_1" "ast" "manual" empty_world.ledger
      (run_one clock no_fault encoded counting "run_1" "manual" ast empty_world)
run_one_ledger_example =
    run_one_ledger clock no_fault encoded counting "run_1" "manual" ast empty_world

load-save_example :
    (r : CheckpointRecord) × ((load clock no_fault "git"
        (save clock no_fault "git" "sha_2" empty_world).1).0
      ≡ ok r)
    × (r.source_id ≡ "git")
    × (r.position ≡ "sha_2")
    × ((name : String)
        → name ≢ sanitize "git"
        → at_key (save clock no_fault "git" "sha_2" empty_world).1.checkpoints name
          ≡ at_key empty_world.checkpoints name)
unfolding opened
load-save_example = load-save clock no_fault "git" "sha_2" empty_world refl refl

-- Two ids with one file
one_file : sanitize "a/b" ≡ sanitize "a_b"
unfolding opened
one_file = refl

abbrev line : String → Option Entry
line id = some (new_entry id "manual" git 0)

newest_first :
    tail_entries (line "run_1" ∷ none ∷ line "run_2" ∷ []) 1 ≡ new_entry "run_2" "manual" git 0 ∷ []
unfolding opened
newest_first = refl

validate_entity_gate_example : (validate_entity (some nameless) ≡ ok tt) ↔ IsValidEntity nameless
validate_entity_gate_example = validate_entity_gate nameless

service_passes : validate_entity (some service) ≡ ok tt
unfolding opened
service_passes = refl
