-- ===== src/Serving/Retriever/Paths.antt =====
-- The loops of scoreAndPrune in serving/internal/retriever/retriever.go that propagate scores, and the paths that
-- scores are of.
use fun_project.Common.{
  ap, ◌∙◌, ℕ, zero, suc, String, false, Option, none, some, List, [], ◌∷◌, ◌==◌, ◌≡◌, refl, ◌⊎◌,
  inl, inr, either_branch,
}
use fun_project.Common.Assoc.{Assoc, at_key}
use fun_project.Common.Entries.{Entries, Holds, Entries-at_key, Entries-set_key}
use fun_project.Common.Sort.{Listed}
use fun_project.Storage.Schema.Float.{Float64, float_lt, float_zero, float_one}
use fun_project.Serving.Client.{Z4Entity, Z4Relationship, Neighborhood}
use fun_project.Serving.Retriever.{
  ScoredNode, Scores, index_nodes, by_id_of, carried, raise_score, flow_between, flow, relax_edge,
  relax_edges, propagate,
}

module _ (mul : Float64 → Float64 → Float64) (nb : Neighborhood) where
  -- A path along or against edges from the origin, which has the score 1; each edge multiplies the score by its
  -- weight and its confidence.
  pub data ScorePath : String → Float64 → Type 0 where
    origin : ScorePath nb.origin.id float_one
    along :
        (e : Z4Relationship) (s : Float64)
        → Listed e nb.edges
        → ScorePath e.from_id s
        → ScorePath e.to_id (carried mul s e)
    against :
        (e : Z4Relationship) (s : Float64)
        → Listed e nb.edges
        → ScorePath e.to_id s
        → ScorePath e.from_id (carried mul s e)

  -- No edge carries anything on from a node that has the score 0.
  abbrev pub CarriesZero : Type 0
  CarriesZero = (e : Z4Relationship) → Listed e nb.edges → carried mul float_zero e ≡ float_zero

  -- The score of a node that no path has reached is 0.
  abbrev pub Scored : String → Float64 → Type 0
  Scored id s = (s ≡ float_zero) ⊎ ScorePath id s

  -- A node of the answer under its own id, with the score of a path
  pub record IsScored (id : String) (n : ScoredNode) : Type 0 where
    pub own_id : n.entity.id ≡ id
    pub known : (nb.origin ≡ n.entity) ⊎ Listed n.entity nb.nodes
    pub path : Scored id n.score

  IsScored-index_nodes :
      (ns : List Z4Entity) (m : Assoc ScoredNode)
      → ((n : Z4Entity) → Listed n ns → Listed n nb.nodes)
      → Entries IsScored m
      → Entries IsScored (index_nodes ns m)
  unfolding index_nodes
  IsScored-index_nodes [] m within h = h
  IsScored-index_nodes (n ∷ ns) m within h =
      IsScored-index_nodes ns _ (λ a l. within a (inr l))
        (Entries-set_key IsScored m n.id (record { entity = n; score = float_zero })
          (record { own_id = refl; known = inr (within n (inl refl)); path = inl refl }) h)

  pub IsScored-by_id_of : Entries IsScored (by_id_of nb)
  unfolding by_id_of
  IsScored-by_id_of =
      IsScored-index_nodes nb.nodes _ (λ a l. l)
        (Entries-set_key IsScored [] nb.origin.id (record { entity = nb.origin; score = float_one })
          (record { own_id = refl; known = inl refl; path = inr origin }) tt)

  module _ (e : Z4Relationship) (id : String) where
    IsScored-raise_score :
        (n : ScoredNode) (s : Float64) (st : Scores)
        → IsScored id n
        → Scored id s
        → Entries IsScored st.by_id
        → Entries IsScored (raise_score mul id n s st).by_id
    unfolding raise_score
    IsScored-raise_score n s st scored path h =
        either_branch (λ (r : Scores). Entries IsScored r.by_id) (float_lt n.score s) _ st
          (Entries-set_key IsScored st.by_id id (record { entity = n.entity; score = s })
            (record { own_id = scored.own_id; known = scored.known; path = path }) h)
          h

    IsScored-flow_between :
        (from : String) (a b : Option ScoredNode) (st : Scores)
        → ((s : Float64) → Scored from s → Scored id (carried mul s e))
        → Holds IsScored from a
        → Holds IsScored id b
        → Entries IsScored st.by_id
        → Entries IsScored (flow_between mul id e a b st).by_id
    unfolding flow_between
    IsScored-flow_between from (some a) (some b) st step ha hb h =
        IsScored-raise_score b _ st hb (step a.score ha.path) h
    IsScored-flow_between from none b st step ha hb h = h
    IsScored-flow_between from (some a) none st step ha hb h = h

  IsScored-flow :
      (from to : String) (e : Z4Relationship) (st : Scores)
      → ((s : Float64) → Scored from s → Scored to (carried mul s e))
      → Entries IsScored st.by_id
      → Entries IsScored (flow mul from to e st).by_id
  unfolding flow
  IsScored-flow from to e st step h =
      IsScored-flow_between e to from (at_key st.by_id from) (at_key st.by_id to) st step
        (Entries-at_key IsScored st.by_id from h) (Entries-at_key IsScored st.by_id to h) h

  module _ (still : CarriesZero) where
    Scored-along :
        (e : Z4Relationship) (s : Float64)
        → Listed e nb.edges
        → Scored e.from_id s
        → Scored e.to_id (carried mul s e)
    Scored-along e s listed (inl unreached) =
        inl (ap (λ (x : Float64). carried mul x e) unreached ∙ still e listed)
    Scored-along e s listed (inr path) = inr (along e s listed path)

    Scored-against :
        (e : Z4Relationship) (s : Float64)
        → Listed e nb.edges
        → Scored e.to_id s
        → Scored e.from_id (carried mul s e)
    Scored-against e s listed (inl unreached) =
        inl (ap (λ (x : Float64). carried mul x e) unreached ∙ still e listed)
    Scored-against e s listed (inr path) = inr (against e s listed path)

    IsScored-relax_edges :
        (es : List Z4Relationship) (st : Scores)
        → ((e : Z4Relationship) → Listed e es → Listed e nb.edges)
        → Entries IsScored st.by_id
        → Entries IsScored (relax_edges mul nb.origin.id es st).by_id
    unfolding relax_edges relax_edge
    IsScored-relax_edges [] st within h = h
    IsScored-relax_edges (e ∷ es) st within h =
        let listed : Listed e nb.edges = within e (inl refl) in
        let there = IsScored-flow e.from_id e.to_id e st (λ s p. Scored-along e s listed p) h in
        let back =
          IsScored-flow e.to_id e.from_id e (flow mul e.from_id e.to_id e st)
            (λ s p. Scored-against e s listed p) there in
        IsScored-relax_edges es _ (λ a l. within a (inr l))
          (either_branch (λ (r : Scores). Entries IsScored r.by_id) (e.from_id == nb.origin.id) _ _
            there back)

    pub IsScored-propagate :
        (k : ℕ) (m : Assoc ScoredNode)
        → Entries IsScored m
        → Entries IsScored (propagate mul k nb.origin.id nb.edges m)
    unfolding propagate
    IsScored-propagate zero m h = h
    IsScored-propagate (suc k) m h =
        let st : Scores =
          relax_edges mul nb.origin.id nb.edges (record { by_id = m; changed = false }) in
        let passed =
          IsScored-relax_edges nb.edges (record { by_id = m; changed = false }) (λ a l. l) h in
        either_branch (Entries IsScored) st.changed _ st.by_id
          (IsScored-propagate k st.by_id passed) passed
