-- ===== src/Serving/Evolution.antt =====
-- serving/internal/analytics/evolution.go: what changed in a window of time, counted from the log.
pub mod Tally
use fun_project.Common.{
  ℕ, suc, String, Bool, true, false, not, ◌&&◌, ◌||◌, Option, none, some, List, [], ◌∷◌, ◌++◌, ◌==◌,
  length, if◌then◌else◌,
}
use fun_project.Common.Exec.{Result, ok, err}
use fun_project.Common.Sort.{sort_by}
use fun_project.Storage.Schema.Json.{Json, Fields, text, get_field}
use fun_project.Storage.Schema.Types.{Time, is_zero, before}
use fun_project.Serving.Client.{LogEntry}

pub record DiffSummary : Type 0 where
  pub nodes_added : ℕ
  pub nodes_removed : ℕ
  pub nodes_updated : ℕ
  pub edges_added : ℕ
  pub edges_removed : ℕ
  pub edges_modified : ℕ

pub record DriftAlert : Type 0 where
  pub severity : String
  pub message : String
  pub entity_id : String

-- `from` and `to` of the source
pub record EvolutionReport : Type 0 where
  pub since : Time
  pub until : Time
  pub diff_summary : DiffSummary
  pub drift_alerts : List DriftAlert
  pub raw_entries : ℕ

-- v.(string), with "" where it is none
unfoldable pub text_or_empty : Option Json → String
text_or_empty (some (text s)) = s
text_or_empty _ = ""

-- ns, ok := v.(string); ok && ns == namespace
unfoldable pub is_text : String → Option Json → Bool
is_text s (some (text t)) = t == s
is_text s _ = false

unfoldable pub entry_matches_namespace : LogEntry → String → Bool
unfolding is_text get_field
entry_matches_namespace e namespace =
    is_text namespace (get_field "namespace" e.after_state)
    || is_text namespace (get_field "namespace" e.before_state)

unfoldable pub relationship_drift_alert : LogEntry → Option DriftAlert
unfolding text_or_empty get_field
relationship_drift_alert e =
    if text_or_empty (get_field "type" e.after_state) == "RUNTIME_CALLS"
    then some (record {
      severity = "HIGH";
      message = "new RUNTIME_CALLS edge introduced — verify it isn't bypassing the gateway";
      entity_id = e.relationship_id;
    })
    else none

-- The tests before the switch
unfoldable pub is_selected : String → Time → Time → LogEntry → Bool
unfolding is_zero before entry_matches_namespace
is_selected namespace since until e =
    not (not (is_zero since) && before e.occurred_at since)
    && not (not (is_zero until) && before until e.occurred_at)
    && (namespace == "" || entry_matches_namespace e namespace)

-- The cases of the switch
pub data Change : Type 0 where
  node_added node_updated node_removed edge_added edge_modified edge_removed other : Change

unfoldable pub change_of : String → Change
change_of t =
    if t == "ENTITY_CREATED"
    then node_added
    else (if t == "ENTITY_UPDATED"
        then node_updated
        else (if t == "ENTITY_SOFT_DELETED"
            then node_removed
            else (if t == "RELATIONSHIP_CREATED"
                then edge_added
                else (if t == "RELATIONSHIP_UPDATED"
                    then edge_modified
                    else (if t == "RELATIONSHIP_DELETED" then edge_removed else other)))))

unfoldable pub add_alert : Option DriftAlert → List DriftAlert → List DriftAlert
add_alert none alerts = alerts
add_alert (some a) alerts = alerts ++ a ∷ []

unfoldable pub count_change : Change → LogEntry → DiffSummary → DiffSummary
count_change node_added e d = record d { nodes_added = suc d.nodes_added }
count_change node_updated e d = record d { nodes_updated = suc d.nodes_updated }
count_change node_removed e d = record d { nodes_removed = suc d.nodes_removed }
count_change edge_added e d = record d { edges_added = suc d.edges_added }
count_change edge_modified e d = record d { edges_modified = suc d.edges_modified }
count_change edge_removed e d = record d { edges_removed = suc d.edges_removed }
count_change other e d = d

unfoldable pub alerts_after : Change → LogEntry → List DriftAlert → List DriftAlert
unfolding add_alert relationship_drift_alert
alerts_after edge_added e alerts = add_alert (relationship_drift_alert e) alerts
alerts_after _ e alerts = alerts

module _ (namespace : String) (since until : Time) where
  -- The loop over the entries
  unfoldable pub tally :
      List LogEntry → DiffSummary × List DriftAlert → DiffSummary × List DriftAlert
  unfolding is_selected change_of count_change alerts_after
  tally [] acc = acc
  tally (e ∷ es) acc = tally es (
      if is_selected namespace since until e
      then (
        count_change (change_of e.mutation_type) e acc.0,
        alerts_after (change_of e.mutation_type) e acc.1,
      )
      else acc)

  abbrev pub nothing_counted : DiffSummary
  nothing_counted = record {
    nodes_added = 0;
    nodes_removed = 0;
    nodes_updated = 0;
    edges_added = 0;
    edges_removed = 0;
    edges_modified = 0;
  }

  unfoldable pub report_of : List LogEntry → EvolutionReport
  unfolding tally sort_by
  report_of es =
      let (diff, alerts) = tally es (nothing_counted, []) in
      record {
        since = since;
        until = until;
        diff_summary = diff;
        drift_alerts = sort_by (λ a. a.severity) alerts;
        raw_entries = length es;
      }

  unfoldable pub reported : Result String (List LogEntry) → Result String EvolutionReport
  unfolding report_of
  reported (err why) = err why
  reported (ok es) = ok (report_of es)

  -- ComputeEvolution; `read_log` is ReadLog of the storage client, by its limit.
  unfoldable pub compute_evolution :
      (ℕ → Result String (List LogEntry)) → Result String EvolutionReport
  unfolding reported
  compute_evolution read_log = reported (read_log 1000)
