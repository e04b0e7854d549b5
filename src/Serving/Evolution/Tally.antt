-- ===== src/Serving/Evolution/Tally.antt =====
-- What a report of evolution counts.
use fun_project.Common.{
  ℕ, suc, ◌+◌, ◌≤◌, String, false, ◌&&◌, List, [], ◌∷◌, ◌≡◌, refl, sym, subst, Option, none, some,
  arith, eq_iff, length, length-append, Bool-cases, inl, inr, ◌==◌, if◌then◌else◌,
}
use fun_project.Common.Sort.{length-sort_by}
use fun_project.Storage.Schema.Types.{Time}
use fun_project.Serving.Client.{LogEntry}
use fun_project.Serving.Evolution.{
  Change, node_added, node_updated, node_removed, edge_added, edge_modified, edge_removed, other,
  change_of, DiffSummary, DriftAlert, is_selected, count_change, alerts_after, add_alert,
  relationship_drift_alert, tally, report_of, nothing_counted,
}

-- The entries that are selected and have the mutation type
pub how_many : String → Time → Time → String → List LogEntry → ℕ
how_many namespace since until type [] = 0
how_many namespace since until type (e ∷ es) =
    let rest = how_many namespace since until type es in
    if is_selected namespace since until e && e.mutation_type == type then suc rest else rest

-- Each count is that of the selected entries of its mutation type.
pub record IsTally (namespace : String) (since until : Time) (es : List LogEntry) (d : DiffSummary)
    : Type 0 where
  pub created : d.nodes_added ≡ how_many namespace since until "ENTITY_CREATED" es
  pub updated : d.nodes_updated ≡ how_many namespace since until "ENTITY_UPDATED" es
  pub deleted : d.nodes_removed ≡ how_many namespace since until "ENTITY_SOFT_DELETED" es
  pub connected : d.edges_added ≡ how_many namespace since until "RELATIONSHIP_CREATED" es
  pub modified : d.edges_modified ≡ how_many namespace since until "RELATIONSHIP_UPDATED" es
  pub disconnected : d.edges_removed ≡ how_many namespace since until "RELATIONSHIP_DELETED" es

-- What one entry adds to the counts
abbrev Counted : LogEntry → DiffSummary → String → Type 0
Counted e d t =
    ((count_change (change_of t) e d).nodes_added
      ≡ (if t == "ENTITY_CREATED" then suc d.nodes_added else d.nodes_added))
    × ((count_change (change_of t) e d).nodes_updated
        ≡ (if t == "ENTITY_UPDATED" then suc d.nodes_updated else d.nodes_updated))
    × ((count_change (change_of t) e d).nodes_removed
        ≡ (if t == "ENTITY_SOFT_DELETED" then suc d.nodes_removed else d.nodes_removed))
    × ((count_change (change_of t) e d).edges_added
        ≡ (if t == "RELATIONSHIP_CREATED" then suc d.edges_added else d.edges_added))
    × ((count_change (change_of t) e d).edges_modified
        ≡ (if t == "RELATIONSHIP_UPDATED" then suc d.edges_modified else d.edges_modified))
    × ((count_change (change_of t) e d).edges_removed
        ≡ (if t == "RELATIONSHIP_DELETED" then suc d.edges_removed else d.edges_removed))

-- A text is one of the six names or none of them.
named_or_other :
    (P : String → Type 0)
    → P "ENTITY_CREATED"
    → P "ENTITY_UPDATED"
    → P "ENTITY_SOFT_DELETED"
    → P "RELATIONSHIP_CREATED"
    → P "RELATIONSHIP_UPDATED"
    → P "RELATIONSHIP_DELETED"
    → ((t : String)
        → (t == "ENTITY_CREATED") ≡ false
        → (t == "ENTITY_UPDATED") ≡ false
        → (t == "ENTITY_SOFT_DELETED") ≡ false
        → (t == "RELATIONSHIP_CREATED") ≡ false
        → (t == "RELATIONSHIP_UPDATED") ≡ false
        → (t == "RELATIONSHIP_DELETED") ≡ false
        → P t)
    → (t : String) → P t
named_or_other P a b c d e f rest t = elim (Bool-cases (t == "ENTITY_CREATED")) [
  | inl same ↦ subst P (sym ((eq_iff t "ENTITY_CREATED").0 same)) a
  | inr n0 ↦ elim (Bool-cases (t == "ENTITY_UPDATED")) [
    | inl same ↦ subst P (sym ((eq_iff t "ENTITY_UPDATED").0 same)) b
    | inr n1 ↦ elim (Bool-cases (t == "ENTITY_SOFT_DELETED")) [
      | inl same ↦ subst P (sym ((eq_iff t "ENTITY_SOFT_DELETED").0 same)) c
      | inr n2 ↦ elim (Bool-cases (t == "RELATIONSHIP_CREATED")) [
        | inl same ↦ subst P (sym ((eq_iff t "RELATIONSHIP_CREATED").0 same)) d
        | inr n3 ↦ elim (Bool-cases (t == "RELATIONSHIP_UPDATED")) [
          | inl same ↦ subst P (sym ((eq_iff t "RELATIONSHIP_UPDATED").0 same)) e
          | inr n4 ↦ elim (Bool-cases (t == "RELATIONSHIP_DELETED")) [
            | inl same ↦ subst P (sym ((eq_iff t "RELATIONSHIP_DELETED").0 same)) f
            | inr n5 ↦ rest t n0 n1 n2 n3 n4 n5
          ]
        ]
      ]
    ]
  ]
]

count_change-Counted : (e : LogEntry) (d : DiffSummary) (t : String) → Counted e d t
unfolding change_of count_change
count_change-Counted e d =
    named_or_other (Counted e d) (refl, refl, refl, refl, refl, refl)
      (refl, refl, refl, refl, refl, refl) (refl, refl, refl, refl, refl, refl)
      (refl, refl, refl, refl, refl, refl) (refl, refl, refl, refl, refl, refl)
      (refl, refl, refl, refl, refl, refl)
      (λ t a b c d' e' f. simp (a, b, c, d', e', f) (refl, refl, refl, refl, refl, refl))

module _ (namespace : String) (since until : Time) where
  -- The counts after the loop, over those before it
  abbrev Adds : List LogEntry → DiffSummary → DiffSummary → Type 0
  Adds es d d' =
      (d'.nodes_added ≡ d.nodes_added + how_many namespace since until "ENTITY_CREATED" es)
      × (d'.nodes_updated ≡ d.nodes_updated + how_many namespace since until "ENTITY_UPDATED" es)
      × (d'.nodes_removed
          ≡ d.nodes_removed + how_many namespace since until "ENTITY_SOFT_DELETED" es)
      × (d'.edges_added ≡ d.edges_added + how_many namespace since until "RELATIONSHIP_CREATED" es)
      × (d'.edges_modified
          ≡ d.edges_modified + how_many namespace since until "RELATIONSHIP_UPDATED" es)
      × (d'.edges_removed
          ≡ d.edges_removed + how_many namespace since until "RELATIONSHIP_DELETED" es)

  tally-Adds :
      (es : List LogEntry) (acc : DiffSummary × List DriftAlert)
      → Adds es acc.0 (tally namespace since until es acc).0
  unfolding tally how_many
  tally-Adds [] acc = (omega arith, omega arith, omega arith, omega arith, omega arith, omega arith)
  tally-Adds (e ∷ es) acc = elim (Bool-cases (is_selected namespace since until e)) [
    | inl taken ↦
        let (c1, c2, c3, c4, c5, c6) = count_change-Counted e acc.0 e.mutation_type in
        let next : DiffSummary × List DriftAlert = (
          count_change (change_of e.mutation_type) e acc.0,
          alerts_after (change_of e.mutation_type) e acc.1,
        ) in
        let (h1, h2, h3, h4, h5, h6) = tally-Adds es next in
        simp taken (
          ground (arith, c1, h1),
          ground (arith, c2, h2),
          ground (arith, c3, h3),
          ground (arith, c4, h4),
          ground (arith, c5, h5),
          ground (arith, c6, h6),
        )
    | inr passed ↦ simp passed (tally-Adds es acc)
  ]

  -- Each number of the summary is that of the read entries that are selected, by the window of time
  -- and the namespace, and have the mutation type of that number.
  pub report_of-IsTally :
      (es : List LogEntry)
      → IsTally namespace since until es (report_of namespace since until es).diff_summary
  unfolding report_of
  report_of-IsTally es =
      let (h1, h2, h3, h4, h5, h6) = tally-Adds es (nothing_counted namespace since until, []) in
      record {
        created = omega (arith, h1);
        updated = omega (arith, h2);
        deleted = omega (arith, h3);
        connected = omega (arith, h4);
        modified = omega (arith, h5);
        disconnected = omega (arith, h6);
      }

abbrev pub total : DiffSummary → ℕ
total d =
    d.nodes_added + d.nodes_updated + d.nodes_removed + d.edges_added + d.edges_modified
    + d.edges_removed

total-count_change :
    (c : Change) (e : LogEntry) (d : DiffSummary) → total (count_change c e d) ≤ suc (total d)
unfolding count_change
total-count_change node_added e d = omega arith
total-count_change node_updated e d = omega arith
total-count_change node_removed e d = omega arith
total-count_change edge_added e d = omega arith
total-count_change edge_modified e d = omega arith
total-count_change edge_removed e d = omega arith
total-count_change other e d = omega arith

length-add_alert :
    (a : Option DriftAlert) (alerts : List DriftAlert)
    → length (add_alert a alerts) ≤ suc (length alerts)
unfolding add_alert
length-add_alert none alerts = omega arith
length-add_alert (some a) alerts = omega (arith, length-append alerts (a ∷ []))

-- There are no more alerts than new edges.
length-alerts_after :
    (c : Change) (e : LogEntry) (d : DiffSummary) (alerts : List DriftAlert)
    → length alerts ≤ d.edges_added
    → length (alerts_after c e alerts) ≤ (count_change c e d).edges_added
unfolding count_change alerts_after
length-alerts_after node_added e d alerts h = h
length-alerts_after node_updated e d alerts h = h
length-alerts_after node_removed e d alerts h = h
length-alerts_after edge_added e d alerts h =
    omega (arith, h, length-add_alert (relationship_drift_alert e) alerts)
length-alerts_after edge_modified e d alerts h = h
length-alerts_after edge_removed e d alerts h = h
length-alerts_after other e d alerts h = h

module _ (namespace : String) (since until : Time) where
  tally_bounded :
      (es : List LogEntry) (acc : DiffSummary × List DriftAlert)
      → length acc.1 ≤ acc.0.edges_added
      → (total (tally namespace since until es acc).0 ≤ total acc.0 + length es)
        × (length (tally namespace since until es acc).1
            ≤ (tally namespace since until es acc).0.edges_added)
  unfolding tally
  tally_bounded [] acc h = (omega arith, h)
  tally_bounded (e ∷ es) acc h = elim (Bool-cases (is_selected namespace since until e)) [
    | inl taken ↦
        let c = change_of e.mutation_type in
        let next : DiffSummary × List DriftAlert =
          (count_change c e acc.0, alerts_after c e acc.1) in
        let (t, a) = tally_bounded es next (length-alerts_after c e acc.0 acc.1 h) in
        simp taken (omega (arith, t, total-count_change c e acc.0), a)
    | inr passed ↦ simp passed (let (t, a) = tally_bounded es acc h in (omega (arith, t), a))
  ]

  -- The numbers of the summary add up to at most the number of entries that were read, and there are at
  -- most as many alerts as there are new edges.
  pub report_of_bounded :
      (es : List LogEntry)
      → (total (report_of namespace since until es).diff_summary
          ≤ (report_of namespace since until es).raw_entries)
        × (length (report_of namespace since until es).drift_alerts
            ≤ (report_of namespace since until es).diff_summary.edges_added)
  unfolding report_of
  report_of_bounded es =
      let start : DiffSummary × List DriftAlert = (nothing_counted namespace since until, []) in
      let (t, a) = tally_bounded es start (omega arith) in
      (
        omega (arith, t),
        omega (
          arith,
          a,
          length-sort_by (λ (x : DriftAlert). x.severity) (tally namespace since until es start).1,
        ),
      )
