-- ===== src/Serving/Witnesses.antt =====
-- A concrete report of evolution, and the theorems at it.
use fun_project.Common.{String, List, [], ◌∷◌, ◌≡◌, refl}
use fun_project.Storage.Schema.Json.{Fields, end, field, text, get_field}
use fun_project.Storage.Schema.Types.{is_zero, before}
use fun_project.Serving.Client.{LogEntry}
use fun_project.Serving.Evolution.{
  tally, is_selected, change_of, count_change, is_text, entry_matches_namespace, report_of,
}
use fun_project.Serving.Evolution.Tally.{IsTally, report_of-IsTally}

abbrev entry : String → Fields → LogEntry
entry type after = record {
  entry_id = 1;
  transaction_id = "txn_1";
  mutation_type = type;
  entity_id = "ent_a";
  relationship_id = "rel_a";
  before_state = end;
  after_state = after;
  occurred_at = 5;
  recorded_at = 5;
}

abbrev entries : List LogEntry
entries =
    entry "ENTITY_CREATED" (field "namespace" (text "acme") end)
    ∷ entry "RELATIONSHIP_CREATED" (field "type" (text "RUNTIME_CALLS") end)
    ∷ []

report_of-IsTally_example : IsTally "acme" 1 9 entries (report_of "acme" 1 9 entries).diff_summary
report_of-IsTally_example = report_of-IsTally "acme" 1 9 entries

-- With a namespace no new edge is counted: the state of an edge has none.
edge_is_lost : (report_of "acme" 1 9 entries).diff_summary.edges_added ≡ 0
unfolding report_of tally is_selected is_zero before entry_matches_namespace is_text get_field
    change_of count_change
edge_is_lost = refl

edge_is_found : (report_of "" 1 9 entries).diff_summary.edges_added ≡ 1
unfolding report_of tally is_selected is_zero before change_of count_change
edge_is_found = refl
